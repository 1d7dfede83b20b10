-- ===== src/Approvals/Accepting.antt =====
-- What `validate` leaves in the file when it accepts a capability.
use hermes_enterprise_deploy.Base.{
  ℕ, String, Bool, true, false, Option, none, some, ◌≡◌, refl, sym, ◌∙◌, ap, Result, ok, string_eq,
}
use hermes_enterprise_deploy.Base.Exec.{◌>>◌}
use hermes_enterprise_deploy.Base.Dict.{lookup}
use hermes_enterprise_deploy.Json.{Fields, is_str-text_of}
use hermes_enterprise_deploy.Platform.{Platform, IsLawful}
use hermes_enterprise_deploy.Disk.{Disk}
use hermes_enterprise_deploy.Approvals.{
  Entries, granted, load_file, lift, save_if, validate, validate_found, check_found,
  find_by_capability,
}
use hermes_enterprise_deploy.Approvals.Entry.{ApprovalError, ApprovalRequest}
use hermes_enterprise_deploy.Approvals.Entries.{IsEntries, load_file-IsEntries}
use hermes_enterprise_deploy.Approvals.Lifecycle.{expire-Expiry}
use hermes_enterprise_deploy.Approvals.Validated.{check_entry_granted, validate-eq}
use hermes_enterprise_deploy.Approvals.Granted.{from_dict-approval_id, save_ok}
use hermes_enterprise_deploy.Approvals.Closing.{Approved}

module _ (p : Platform) (law : IsLawful p) (incident_id action_id : String) (now : ℕ) (d : Disk)
    (es : Entries) (loads : load_file p d.file ≡ ok es) where
  save_if_ok :
      (b : Bool) (es' : Entries) {B : Type 0} (r : Result ApprovalError B) {v : B}
      → IsEntries p es'
      → (b ≡ false → es' ≡ es)
      → ((save_if p b es' >> lift r) d).0 ≡ ok v
      → (es1 : Entries) × (load_file p ((save_if p b es' >> lift r) d).1.file ≡ ok es1)
        × ((k : String) → lookup k es1 ≡ lookup k es')
        × (r ≡ ok v)
  save_if_ok true es' r h same e =
      let (loads', done) = save_ok p law es' d r h e in
      (p.sort_keys es', loads', λ k. law.lookup-sort_keys es' k h.nodup, done)
  save_if_ok false es' r h same e = (es, loads, λ k. ap (lookup k) (sym (same refl)), e)

  check_found-Approved :
      (id : String) (es' es1 : Entries) (d1 : Disk) {a : ApprovalRequest}
      → IsEntries p es'
      → load_file p d1.file ≡ ok es1
      → ((k : String) → lookup k es1 ≡ lookup k es')
      → (o : Option Fields) → lookup id es' ≡ o
      → check_found id incident_id action_id es' o ≡ ok (granted a)
      → Approved p law incident_id action_id a.approval_id d1
  check_found-Approved id es' es1 d1 h loads1 same none here e = cc
  check_found-Approved id es' es1 d1 {a} h loads1 same (some raw) here e =
      let (approved, i, act, first, result) =
        check_entry_granted id incident_id action_id es' raw e in
      let own : a.approval_id ≡ id =
        from_dict-approval_id raw result ∙ is_str-text_of id _ (h.valid id raw here).own_id in
      record {
        entries = es1;
        raw = raw;
        loads = loads1;
        found = ap (λ k. lookup k es1) own ∙ same id ∙ here;
        approved = approved;
        incident = i;
        action = act;
      }

  found-Approved :
      (o : Option (String × Fields)) {a : ApprovalRequest}
      → (validate_found p incident_id action_id now es o d).0 ≡ ok (granted a)
      → Approved p law incident_id action_id a.approval_id
          (validate_found p incident_id action_id now es o d).1
  found-Approved none e = cc
  found-Approved (some (id, raw)) e =
      let (es', b, stepped, x) = expire-Expiry p now id es (load_file-IsEntries p d.file loads) in
      let verdict = check_found id incident_id action_id es' (lookup id es') in
      let (es1, loads1, same, done) =
        save_if_ok b es' verdict x.entries x.unchanged (rw stepped at e) in
      rw stepped (check_found-Approved id es' es1 _ x.entries loads1 same (lookup id es') refl done)

  pub validate-Approved :
      (capability : String) {a : ApprovalRequest}
      → (validate p capability incident_id action_id now d).0 ≡ ok (granted a)
      → Approved p law incident_id action_id a.approval_id
          (validate p capability incident_id action_id now d).1
  validate-Approved capability e =
      let eq = validate-eq p d es loads capability incident_id action_id now in
      rw eq (found-Approved (find_by_capability p capability es) (rw eq at e))
