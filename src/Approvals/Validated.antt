-- ===== src/Approvals/Validated.antt =====
-- What `validate` has checked when it accepts a capability.
use hermes_enterprise_deploy.Base.{
  ℕ, ◌<◌, String, Bool, true, false, Option, none, some, [], ◌∷◌, ◌≡◌, refl, sym, ◌∙◌, ap, Result,
  ok, err, string_eq, arith, eq_iff, some-inj, Bool-cases, inl, inr,
}
use text.Mathlib.TextPositions.{eq_refl}
use hermes_enterprise_deploy.Base.Exec.{continue}
use hermes_enterprise_deploy.Base.Dict.{lookup, NodupKeys}
use hermes_enterprise_deploy.Json.{Fields, get, is_str, text_at}
use hermes_enterprise_deploy.Platform.{Platform}
use hermes_enterprise_deploy.Disk.{Disk}
use hermes_enterprise_deploy.Approvals.{
  Entries, granted, load_file, status_of, save_if, lift, validate, validate_found, check_entry,
  check_found, find_by_capability, has_hash, other_applied,
}
use hermes_enterprise_deploy.Approvals.Entry.{ApprovalError, ApprovalRequest, from_dict, parse}
use hermes_enterprise_deploy.Approvals.Entries.{load_file-IsEntries}
use hermes_enterprise_deploy.Approvals.Lifecycle.{Expiry, expire-Expiry}

pub then-ok :
    {A B : Type 0} (q : Result ApprovalError A) (r : Result ApprovalError B) (d : Disk) {v : B}
    → (continue q (λ _. lift r) d).0 ≡ ok v
    → r ≡ ok v
then-ok (ok a) r d e = e
then-ok (err _) r d e = cc

pub check_entry_granted :
    (id incident_id action_id : String) (es : Entries) (raw : Fields) {a : ApprovalRequest}
    → check_entry id incident_id action_id es raw ≡ ok (granted a)
    → (status_of raw ≡ "approved")
      × (is_str incident_id (get "incident_id" raw) ≡ true)
      × (is_str action_id (get "action_id" raw) ≡ true)
      × (other_applied id incident_id action_id es ≡ false)
      × (from_dict raw ≡ ok a)
unfolding check_entry
check_entry_granted id incident_id action_id es raw e =
    ground (arith, eq_iff (status_of raw) "approved")

module _ (p : Platform) where
  pub find_by_capability-lookup :
      (capability : String) (es : Entries) {id : String} {raw : Fields}
      → NodupKeys es
      → find_by_capability p capability es ≡ some (id, raw)
      → (lookup id es ≡ some raw) × (text_at "capability_hash" raw ≡ p.sha256_hex capability)
  unfolding find_by_capability lookup
  find_by_capability-lookup capability [] n e = cc
  find_by_capability-lookup capability ((j, r) ∷ es) {id} {raw} n e =
      elim (Bool-cases (has_hash (p.sha256_hex capability) r)) [
        | inl hit ↦
            let same_id : j ≡ id = ground arith in
            let same_raw : r ≡ raw = ground arith in
            (
              rw (← same_id, ← same_raw) (simp eq_refl),
              rw (← same_raw)
                  (ground (arith, eq_iff (text_at "capability_hash" r) (p.sha256_hex capability))),
            )
        | inr miss ↦
            let (here, hash) =
              find_by_capability-lookup capability es {id = id} {raw = raw} n.1 (ground arith) in
            (ground (arith, here, n.0, eq_iff j id), hash)
      ]

  -- The entry behind an accepted capability, in the dictionary that was loaded.
  pub record Accepted (capability incident_id action_id : String) (now : ℕ) (es : Entries)
      (a : ApprovalRequest) : Type 0 where
    pub id : String
    pub raw : Fields
    pub expires : ℕ
    pub found : lookup id es ≡ some raw
    pub approved : status_of raw ≡ "approved"
    pub incident : is_str incident_id (get "incident_id" raw) ≡ true
    pub action : is_str action_id (get "action_id" raw) ≡ true
    pub hash : text_at "capability_hash" raw ≡ p.sha256_hex capability
    pub expiry : parse p (text_at "expires_at" raw) ≡ some expires
    pub in_time : now < expires
    pub first : other_applied id incident_id action_id es ≡ false
    pub result : from_dict raw ≡ ok a

  module _ (d : Disk) (es : Entries) (loads : load_file p d.file ≡ ok es)
      (capability incident_id action_id : String) (now : ℕ) where
    pub validate-eq :
        validate p capability incident_id action_id now d
        ≡ validate_found p incident_id action_id now es (find_by_capability p capability es) d
    unfolding validate
    validate-eq = rw loads

    check_found-Accepted :
        (id : String) (raw : Fields) (es' : Entries) (b : Bool) {a : ApprovalRequest}
        → lookup id es ≡ some raw
        → text_at "capability_hash" raw ≡ p.sha256_hex capability
        → Expiry p now id es es' b
        → (o : Option Fields) → lookup id es' ≡ o
        → check_found id incident_id action_id es' o ≡ ok (granted a)
        → Accepted capability incident_id action_id now es a
    check_found-Accepted id raw es' b here hash x none e' e = cc
    check_found-Accepted id raw es' b here hash x (some raw') e' e =
        let (approved, i, a, first, result) =
          check_entry_granted id incident_id action_id es' raw' e in
        let (t, parsed, early, kept) = x.found raw' e' (rw approved) in
        let old : raw ≡ raw' = some-inj (sym here ∙ sym (ap (lookup id) kept) ∙ e') in
        record {
          id = id;
          raw = raw';
          expires = t;
          found = here ∙ ap (λ r. some r) old;
          approved = approved;
          incident = i;
          action = a;
          hash = ap (text_at "capability_hash") (sym old) ∙ hash;
          expiry = parsed;
          in_time = early;
          first = ap (other_applied id incident_id action_id) (sym kept) ∙ first;
          result = result;
        }

    found-Accepted :
        (o : Option (String × Fields)) {a : ApprovalRequest}
        → find_by_capability p capability es ≡ o
        → (validate_found p incident_id action_id now es o d).0 ≡ ok (granted a)
        → Accepted capability incident_id action_id now es a
    found-Accepted none here e = cc
    found-Accepted (some (id, raw)) here e =
        let h = load_file-IsEntries p d.file loads in
        let (es', b, stepped, x) = expire-Expiry p now id es h in
        let (at, hash) =
          find_by_capability-lookup capability es {id = id} {raw = raw} h.nodup here in
        check_found-Accepted id raw es' b at hash x (lookup id es') refl (
          then-ok (save_if p b es' d).0 (check_found id incident_id action_id es' (lookup id es'))
            (save_if p b es' d).1 (rw stepped at e))

    -- On a file that loads, a capability is accepted only for an entry that is on file, approved,
    -- not expired at that time, bound to this incident and action, whose stored hash is that of
    -- the capability, and while no other entry has been applied for them.
    pub validate-Accepted :
        (a : ApprovalRequest)
        → (validate p capability incident_id action_id now d).0 ≡ ok (granted a)
        → Accepted capability incident_id action_id now es a
    validate-Accepted a e =
        found-Accepted (find_by_capability p capability es) refl
          (ap (λ r. r.0) (sym validate-eq) ∙ e)
