-- ===== src/Approvals/Granted.antt =====
-- What a successful `approve` has checked and written, and what can no longer happen after it.
use hermes_enterprise_deploy.Base.{
  ℕ, ◌<◌, String, ◌<>◌, Bool, true, false, Option, none, some, ◌≡◌, ◌≢◌, refl, sym, ◌∙◌, ap, subst,
  Result, ok, err, ◌==◌, string_eq, arith, eq_iff, some-inj, Bool-cases, inl, inr,
}
use hermes_enterprise_deploy.Base.Exec.{◌>>◌}
use hermes_enterprise_deploy.Base.Dict.{lookup, insert, lookup-insert_self}
use hermes_enterprise_deploy.Json.{Fields, get, str, get-set, is_str-text_of, text_at}
use hermes_enterprise_deploy.Platform.{Platform, IsLawful}
use hermes_enterprise_deploy.Disk.{Disk}
use hermes_enterprise_deploy.Approvals.{
  Entries, Answer, ApprovalGrant, granted, refused, load_file, status_of, save, approve,
  expire_if_needed, grant_entry, grant_pending, grant_of, iso, approved_entry, validate, lift,
}
use hermes_enterprise_deploy.Approvals.Entry.{
  ApprovalError, write_failed, ApprovalRequest, from_dict, parse,
}
use hermes_enterprise_deploy.Approvals.Updates.{approved_entry-Facts}
use hermes_enterprise_deploy.Approvals.Entries.{
  IsEntries, insert-IsEntries, load_file-IsEntries, written-loads,
}
use hermes_enterprise_deploy.Approvals.Lifecycle.{Expiry, expire-Expiry}
use hermes_enterprise_deploy.Approvals.Runs.{Run, Run-Progress, differ}
use hermes_enterprise_deploy.Approvals.Validated.{validate-Accepted}

pub from_dict-approval_id :
    (raw : Fields) {a : ApprovalRequest}
    → from_dict raw ≡ ok a
    → a.approval_id ≡ text_at "approval_id" raw
unfolding from_dict
from_dict-approval_id raw e = ground arith

module _ (p : Platform) (law : IsLawful p) where
  pub record Granted (id identity token : String) (now : ℕ) (es : Entries) (g : ApprovalGrant)
      (d' : Disk) : Type 0 where
    pub raw : Fields
    pub expires : ℕ
    pub found : lookup id es ≡ some raw
    pub named : p.strip identity ≢ ""
    pub pending : status_of raw ≡ "pending"
    pub expiry : parse p (text_at "expires_at" raw) ≡ some expires
    pub in_time : now < expires
    -- what the operator gets
    pub grant_id : g.approval_id ≡ id
    pub grant_capability : g.approval_capability ≡ "cap_" <> token
    pub grant_incident : g.incident_id ≡ text_at "incident_id" raw
    pub grant_action : g.action_id ≡ text_at "action_id" raw
    pub grant_expiry : g.expires_at ≡ text_at "expires_at" raw
    pub grant_approver : g.approved_by ≡ p.strip identity
    pub grant_time : g.approved_at ≡ iso p now
    -- what the file then holds
    pub after : Entries
    pub loads : load_file p d'.file ≡ ok after
    pub raw' : Fields
    pub written : lookup id after ≡ some raw'
    pub approved : status_of raw' ≡ "approved"
    pub hashed : get "capability_hash" raw' ≡ some (str (p.sha256_hex ("cap_" <> token)))
    pub approver : get "approved_by" raw' ≡ some (str (p.strip identity))
    pub time : get "approved_at" raw' ≡ some (str (iso p now))
    pub incident : get "incident_id" raw' ≡ get "incident_id" raw
    pub action : get "action_id" raw' ≡ get "action_id" raw
    pub key : get "idempotency_key" raw' ≡ get "idempotency_key" raw
    pub expires_at : get "expires_at" raw' ≡ get "expires_at" raw

  -- A grant over the entry that `approved_entry` writes.
  grant_facts :
      (id identity token : String) (now t : ℕ) (es after : Entries) (d' : Disk) (raw : Fields)
      → lookup id es ≡ some raw
      → p.strip identity ≢ ""
      → status_of raw ≡ "pending"
      → parse p (text_at "expires_at" raw) ≡ some t
      → now < t
      → load_file p d'.file ≡ ok after
      → lookup id after ≡ some (approved_entry p now (p.strip identity) ("cap_" <> token) raw)
      → Granted id identity token now es
          (grant_of p id
            ("cap_" <> token)
            now
            (p.strip identity)
            (approved_entry p now (p.strip identity) ("cap_" <> token) raw))
          d'
  unfolding status_of
  grant_facts id identity token now t es after d' raw found named pending expiry early loads
        written =
      record {
        raw = raw;
        expires = t;
        found = found;
        named = named;
        pending = pending;
        expiry = expiry;
        in_time = early;
        grant_id = refl;
        grant_capability = refl;
        grant_incident = simp get-set;
        grant_action = simp get-set;
        grant_expiry = simp get-set;
        grant_approver = refl;
        grant_time = refl;
        after = after;
        loads = loads;
        raw' = approved_entry p now (p.strip identity) ("cap_" <> token) raw;
        written = written;
        approved = simp get-set;
        hashed = simp get-set;
        approver = simp get-set;
        time = simp get-set;
        incident = simp get-set;
        action = simp get-set;
        key = simp get-set;
        expires_at = simp get-set;
      }

  pub save_ok :
      (es : Entries) (d : Disk) {B : Type 0} (r : Result ApprovalError B) {v : B}
      → IsEntries p es
      → ((save p es >> lift r) d).0 ≡ ok v
      → (load_file p ((save p es >> lift r) d).1.file ≡ ok (p.sort_keys es)) × (r ≡ ok v)
  unfolding save
  save_ok es d {B} r {v} h e = elim (Bool-cases d.writable) [
    | inl free ↦ rw free (written-loads p law es h, (rw free at e))
    | inr blocked ↦
        let no : ◌≡◌ {A = Result ApprovalError B} (err write_failed) (ok v) = rw blocked at e in cc
  ]

  module _ (d : Disk) (es : Entries) (loads : load_file p d.file ≡ ok es)
      (id identity token : String) (now : ℕ) where
    grant_entry-Granted :
        (b : Bool) (es' : Entries) {g : ApprovalGrant}
        → p.strip identity ≢ ""
        → Expiry p now id es es' b
        → (o : Option Fields) → lookup id es' ≡ o
        → (grant_entry p id ("cap_" <> token) now (p.strip identity) b es' o d).0 ≡ ok (granted g)
        → Granted id identity token now es g
            (grant_entry p id ("cap_" <> token) now (p.strip identity) b es' o d).1
    grant_entry-Granted b es' named x none here e = cc
    grant_entry-Granted true es' named x (some raw) here e =
        let late : Result ApprovalError (Answer ApprovalGrant) = ok (refused "approval_expired") in
        let (_, clash) = save_ok es' d late x.entries e in cc
    grant_entry-Granted false es' {g} named x (some raw) here e =
        elim (Bool-cases (status_of raw == "pending")) [
          | inr other ↦
              let clash : ◌≡◌ {A = Result ApprovalError (Answer ApprovalGrant)}
                  (ok (refused ("approval_" <> status_of raw))) (ok (granted g)) =
                rw other at e in
              cc
          | inl waiting ↦
              let pending = (eq_iff (status_of raw) "pending").0 waiting in
              let (t, parsed, early, kept) = x.found raw here (rw pending) in
              let raw' = approved_entry p now (p.strip identity) ("cap_" <> token) raw in
              let h =
                insert-IsEntries p id raw' es'
                  (approved_entry-Facts p id raw (x.entries.valid id raw here) now
                    (p.strip identity) ("cap_" <> token))
                  x.entries in
              let (loads', given) =
                save_ok (insert id raw' es') d
                  (ok (granted (grant_of p id ("cap_" <> token) now (p.strip identity) raw'))) h
                  (rw waiting at e) in
              let same : grant_of p id ("cap_" <> token) now (p.strip identity) raw' ≡ g =
                cc given in
              rw waiting (
                subst
                  (λ n.
                    Granted id identity token now es n
                      (grant_pending p id ("cap_" <> token) now (p.strip identity) es' raw d).1)
                  same
                  (grant_facts id identity token now t es (p.sort_keys (insert id raw' es')) _ raw
                    (ap (lookup id) (sym kept) ∙ here) named pending parsed early loads'
                    (law.lookup-sort_keys (insert id raw' es') id h.nodup
                      ∙ lookup-insert_self id raw' es')))
        ]

    approve-eq :
        (b : Bool) (es' : Entries)
        → (p.strip identity == "") ≡ false
        → expire_if_needed p now id es ≡ ok (es', b)
        → approve p id identity token now d
          ≡ grant_entry p id ("cap_" <> token) now (p.strip identity) b es' (lookup id es') d
    unfolding approve
    approve-eq b es' given e = rw (given, loads, e)

    approve-blank :
        (p.strip identity == "") ≡ true
        → approve p id identity token now d ≡ (ok (refused "approver_identity_required"), d)
    unfolding approve
    approve-blank blank = rw blank

    -- On a lawful platform and a file that loads, a grant is given only for a pending entry that
    -- has not expired, to a named operator. The grant has the new capability and the incident,
    -- action and expiry of the entry. The file then loads, and has for that ID an approved entry
    -- with the hash of the capability, the operator and the time, and with the incident, action,
    -- key and expiry unchanged.
    pub approve-Granted :
        (g : ApprovalGrant) (d' : Disk)
        → approve p id identity token now d ≡ (ok (granted g), d')
        → Granted id identity token now es g d'
    approve-Granted g d' e = elim (Bool-cases (p.strip identity == "")) [
      | inl blank ↦ cc (approve-blank blank)
      | inr given ↦
          let (es', b, stepped, x) =
            expire-Expiry p now id es (load_file-IsEntries p d.file loads) in
          let eq = approve-eq b es' given stepped in
          let named : p.strip identity ≢ "" = ground (arith, eq_iff (p.strip identity) "") in
          let found =
            grant_entry-Granted b es' named x (lookup id es') refl (ap (λ r. r.0) (sym eq ∙ e)) in
          subst (Granted id identity token now es g) (ap (λ r. r.1) (sym eq ∙ e)) found
    ]

  -- On a lawful platform and from a file that loads, an ID that has been approved is never granted
  -- again: whatever calls are made in between, and whoever asks, a second approve of it returns no
  -- grant. Here a call is any of the store's methods, or a change of whether writes succeed; a
  -- request names a non-empty incident and action and draws an ID that the file does not hold, and
  -- a mark carries a text as its record ID.
  pub approve_once :
      (d d' d'' : Disk) (es : Entries) (id identity token identity' token' : String) (now now' : ℕ)
      (g g' : ApprovalGrant)
      → load_file p d.file ≡ ok es
      → approve p id identity token now d ≡ (ok (granted g), d')
      → Run p d' d''
      → (approve p id identity' token' now' d'').0 ≢ ok (granted g')
  approve_once d d' d'' es id identity token identity' token' now now' g g' loads first run again =
      let x = approve-Granted d es loads id identity token now g d' first in
      let (es2, loads2, later) = Run-Progress p law d' d'' x.after x.loads run in
      let (raw2, at2, progress) = later id _ x.written in
      let (r, d3) = approve p id identity' token' now' d'' in
      let y =
        approve-Granted d'' es2 loads2 id identity' token' now' g' d3 (ap (λ q. (q, d3)) again) in
      let same : raw2 ≡ y.raw = some-inj (sym at2 ∙ y.found) in
      progress.no_return (λ e. differ "approved" "pending" refl (sym x.approved ∙ e))
        (ap status_of same ∙ y.pending)

  -- On a lawful platform and from a file that loads, a request that has been applied is never
  -- accepted again: whatever calls are made in between and whatever capability is presented,
  -- validate grants no request of its ID. Here a call is any of the store's methods, or a change
  -- of whether writes succeed; a request names a non-empty incident and action and draws an ID
  -- that the file does not hold, and a mark carries a text as its record ID.
  pub applied_never_accepted :
      (d d' : Disk) (es : Entries) (id : String) (raw : Fields)
      (capability incident_id action_id : String) (now : ℕ) (a : ApprovalRequest)
      → load_file p d.file ≡ ok es
      → lookup id es ≡ some raw
      → status_of raw ≡ "applied"
      → Run p d d'
      → (validate p capability incident_id action_id now d').0 ≡ ok (granted a)
      → a.approval_id ≢ id
  applied_never_accepted d d' es id raw capability incident_id action_id now a loads at applied run
        accepted same =
      let (es2, loads2, later) = Run-Progress p law d d' es loads run in
      let (raw2, at2, progress) = later id raw at in
      let y = validate-Accepted p d' es2 loads2 capability incident_id action_id now a accepted in
      let own : a.approval_id ≡ y.id =
        from_dict-approval_id y.raw y.result
        ∙ is_str-text_of y.id _
            ((load_file-IsEntries p d'.file loads2).valid y.id y.raw y.found).own_id in
      let eq : raw2 ≡ y.raw =
        some-inj (sym at2 ∙ ap (λ j. lookup j es2) (sym same ∙ own) ∙ y.found) in
      differ "applied" "approved" refl
        (sym (progress.applied applied) ∙ ap status_of eq ∙ y.approved)
