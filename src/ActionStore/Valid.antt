-- ===== src/ActionStore/Valid.antt =====
-- A record that `commit` builds passes the validator that reads it back.
use hermes_enterprise_deploy.Base.{
  ℕ, ◌+◌, String, ◌<>◌, ◌≡◌, ◌≢◌, refl, ap, Option, none, some, true, false, arith, eq_iff, ◌==◌,
  string_eq,
}
use Prim.Native.String.{count}
use native.Mathlib.Numerals.{add-one}
use text.Mathlib.TextLemmas.{length-append}
use hermes_enterprise_deploy.Json.{is_optional_text, optional, get, has_all, all_text}
use hermes_enterprise_deploy.Platform.{Platform, IsLawful, iso}
use hermes_enterprise_deploy.ActionStore.{Commit, Stamp, new_record}
use hermes_enterprise_deploy.ActionStore.Record.{IsRecord, validate_action_record}

-- A request that the API passes on: no text that the validator would refuse.
pub record IsRequest (c : Commit) : Type 0 where
  pub incident : c.incident_id ≢ ""
  pub action : c.action_id ≢ ""
  pub key : c.idempotency_key ≢ ""
  pub correlation : c.correlation_id ≢ ""

pub ne-beq : (s : String) → s ≢ "" → (s == "") ≡ false
ne-beq s h = ground (arith, eq_iff s "")

pub act_ne : (hex : String) → (("ACT-" <> hex) == "") ≡ false
act_ne hex =
    ne-beq ("ACT-" <> hex) (λ e. absurd (omega (arith, ap count e, length-append "ACT-" hex)))

pub optional_text : (o : Option String) → is_optional_text (some (optional o)) ≡ true
optional_text none = refl
optional_text (some s) = refl

module _ (p : Platform) (law : IsLawful p) where
  pub iso_ne : (t : ℕ) → (iso p t == "") ≡ false
  iso_ne t = ne-beq (iso p t) (λ e. cc (law.fromisoformat-isoformat t, law.fromisoformat-empty))

  pub new_record-IsRecord :
      (c : Commit) (s : Stamp) (n : ℕ) → IsRequest c → IsRecord p (new_record p c s (n + 1))
  unfolding new_record validate_action_record get has_all all_text
  new_record-IsRecord c s n h = simp (
    act_ne s.hex,
    ne-beq c.incident_id h.incident,
    ne-beq c.action_id h.action,
    ne-beq c.idempotency_key h.key,
    ne-beq c.correlation_id h.correlation,
    iso_ne s.now,
    law.fromisoformat-isoformat s.now,
    optional_text c.note,
    add-one,
  )
