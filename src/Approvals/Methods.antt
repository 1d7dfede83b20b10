-- ===== src/Approvals/Methods.antt =====
-- Every method of the store, on a file that loads: it leaves a file that loads, in which every entry
-- that was there has made one step of its lifecycle at most. Failed writes are included.
use hermes_enterprise_deploy.Base.{
  ℕ, String, ◌<>◌, Bool, true, false, Option, none, some, ◌≡◌, ◌≢◌, refl, sym, ◌∙◌, ap, subst,
  eq_iff, Result, ok, err, ◌==◌, string_eq, Bool-cases, inl, inr,
}
use hermes_enterprise_deploy.Base.Exec.{continue, ◌>>◌}
use hermes_enterprise_deploy.Base.Dict.{lookup, insert}
use hermes_enterprise_deploy.Json.{str, Fields}
use hermes_enterprise_deploy.Platform.{Platform, IsLawful}
use hermes_enterprise_deploy.Disk.{Disk}
use hermes_enterprise_deploy.Approvals.{
  Entries, Action, refused, status_of, approved_entry, load_file, save, save_if, request,
  get_request, approve, grant_entry, validate, validate_found, find_by_capability, record_attempt,
  attempt_entry, mark_applied, apply_entry, all_requests, new_request, lift, keys,
}
use hermes_enterprise_deploy.Approvals.Entry.{ApprovalError, to_dict}
use hermes_enterprise_deploy.Approvals.Updates.{
  new_request-Facts, with_event-Facts, approved_entry-Facts, applied_entry-Facts,
}
use hermes_enterprise_deploy.Approvals.Entries.{IsEntries, insert-IsEntries, load_file-IsEntries}
use hermes_enterprise_deploy.Approvals.Lifecycle.{
  notes, grants, applies, EvolveAll, EvolveAll-refl, insert-EvolveAll, insert_new-EvolveAll,
  ExpireAll-EvolveAll, Expiry, expire-Expiry, expire_all-Expires, Kept, save-Kept, save_if-Kept,
}

-- What follows the last write of a method leaves the disk alone.
continue-state :
    {A B : Type 0} (r : Result ApprovalError A) (f : A → Result ApprovalError B) (d : Disk)
    → (continue r (λ a. lift (f a)) d).1 ≡ d
continue-state (ok a) f d = refl
continue-state (err e) f d = refl

-- A file after a write and a last pure step.
then-Kept :
    (p : Platform) (es : Entries) (m : Action (Unit {0})) {B : Type 0} (r : Result ApprovalError B)
    (d : Disk)
    → Kept p es (m d).1
    → Kept p es ((m >> lift r) d).1
then-Kept p es m r d h = subst (Kept p es) (sym (continue-state (m d).0 (λ _. r) (m d).1)) h

module _ (p : Platform) (law : IsLawful p) (d : Disk) (es : Entries)
    (loads : load_file p d.file ≡ ok es) where
  valid : IsEntries p es
  valid = load_file-IsEntries p d.file loads

  pub request-Kept :
      (ttl : ℕ) (incident_id action_id : String) (correlation_id : Option String) (token : String)
      (now : ℕ)
      → incident_id ≢ ""
      → action_id ≢ ""
      → lookup ("apr_" <> token) es ≡ none
      → Kept p es (request p ttl incident_id action_id correlation_id token now d).1
  unfolding request
  request-Kept ttl incident_id action_id correlation_id token now hi ha fresh =
      let a = new_request p ttl incident_id action_id correlation_id token now in
      let facts =
        new_request-Facts p law ttl incident_id action_id correlation_id token now hi ha in
      rw loads (
        then-Kept p es (save p (insert a.approval_id (to_dict a) es)) (ok a) d (
          save-Kept p law d es loads (insert a.approval_id (to_dict a) es)
            (insert-IsEntries p a.approval_id (to_dict a) es facts valid)
            (insert_new-EvolveAll p a.approval_id (to_dict a) es (unfold new_request in fresh))))

  pub get_request-Kept : (id : String) (now : ℕ) → Kept p es (get_request p id now d).1
  unfolding get_request
  get_request-Kept id now =
      let (es', b, e, x) = expire-Expiry p now id es valid in
      rw (loads, e)
        (then-Kept p es (save_if p b es') _ d (
          save_if-Kept p law d es loads b es' x.entries
            (ExpireAll-EvolveAll p now es es' x.expire)))

  grant_entry-Kept :
      (id capability : String) (now : ℕ) (approver : String) (changed : Bool) (es' : Entries)
      → Expiry p now id es es' changed
      → (o : Option Fields) → lookup id es' ≡ o
      → Kept p es (grant_entry p id capability now approver changed es' o d).1
  grant_entry-Kept id capability now approver changed es' x none e =
      (es, loads, EvolveAll-refl p es)
  grant_entry-Kept id capability now approver true es' x (some raw) e =
      then-Kept p es (save p es') (ok (refused "approval_expired")) d
        (save-Kept p law d es loads es' x.entries (ExpireAll-EvolveAll p now es es' x.expire))
  grant_entry-Kept id capability now approver false es' x (some raw) e =
      elim (Bool-cases (status_of raw == "pending")) [
        | inr other ↦ rw other (es, loads, EvolveAll-refl p es)
        | inl pending ↦
            let raw' = approved_entry p now approver capability raw in
            let here : lookup id es ≡ some raw = ap (lookup id) (sym (x.unchanged refl)) ∙ e in
            rw pending (
              then-Kept p es (save p (insert id raw' es')) _ d (
                save-Kept p law d es loads (insert id raw' es')
                  (insert-IsEntries p id raw' es'
                    (approved_entry-Facts p id raw (x.entries.valid id raw e) now approver
                      capability)
                    x.entries)
                  (subst (λ y. EvolveAll p es (insert id raw' y)) (sym (x.unchanged refl))
                    (insert-EvolveAll p id raw raw' es here (
                      grants now approver capability ((eq_iff (status_of raw) "pending").0 pending)
                        refl)))))
      ]

  pub approve-Kept :
      (id identity token : String) (now : ℕ) → Kept p es (approve p id identity token now d).1
  unfolding approve
  approve-Kept id identity token now = elim (Bool-cases (p.strip identity == "")) [
    | inl blank ↦ rw blank (es, loads, EvolveAll-refl p es)
    | inr given ↦
        let (es', b, e, x) = expire-Expiry p now id es valid in
        rw (given, loads, e)
          (grant_entry-Kept id ("cap_" <> token) now (p.strip identity) b es' x (lookup id es')
            refl)
  ]

  validate_found-Kept :
      (incident_id action_id : String) (now : ℕ) (o : Option (String × Fields))
      → Kept p es (validate_found p incident_id action_id now es o d).1
  validate_found-Kept incident_id action_id now none = (es, loads, EvolveAll-refl p es)
  validate_found-Kept incident_id action_id now (some (id, raw)) =
      let (es', b, e, x) = expire-Expiry p now id es valid in
      rw e (
        then-Kept p es (save_if p b es') _ d (
          save_if-Kept p law d es loads b es' x.entries
            (ExpireAll-EvolveAll p now es es' x.expire)))

  pub validate-Kept :
      (capability incident_id action_id : String) (now : ℕ)
      → Kept p es (validate p capability incident_id action_id now d).1
  unfolding validate
  validate-Kept capability incident_id action_id now =
      rw loads (validate_found-Kept incident_id action_id now (find_by_capability p capability es))

  attempt_entry-Kept :
      (id : String) (now : ℕ) (outcome : String) (detail : Fields) (o : Option Fields)
      → lookup id es ≡ o
      → Kept p es (attempt_entry p id now outcome detail es o d).1
  attempt_entry-Kept id now outcome detail none e = (es, loads, EvolveAll-refl p es)
  attempt_entry-Kept id now outcome detail (some raw) e =
      save-Kept p law d es loads _
        (insert-IsEntries p id _ es (with_event-Facts p id raw ((valid).valid id raw e) _) valid)
        (insert-EvolveAll p id raw _ es e (notes _ refl))

  pub record_attempt-Kept :
      (id : String) (now : ℕ) (outcome : String) (detail : Fields)
      → Kept p es (record_attempt p id now outcome detail d).1
  unfolding record_attempt
  record_attempt-Kept id now outcome detail =
      rw loads (attempt_entry-Kept id now outcome detail (lookup id es) refl)

  apply_entry-Kept :
      (id : String) (now : ℕ) (record_id : String) (o : Option Fields)
      → lookup id es ≡ o
      → Kept p es (apply_entry p id now (str record_id) es o d).1
  apply_entry-Kept id now record_id none e = (es, loads, EvolveAll-refl p es)
  apply_entry-Kept id now record_id (some raw) e = elim (Bool-cases (status_of raw == "approved")) [
    | inr other ↦ rw other (es, loads, EvolveAll-refl p es)
    | inl approved ↦ rw approved (
        save-Kept p law d es loads _
          (insert-IsEntries p id _ es
            (applied_entry-Facts p id raw ((valid).valid id raw e) now record_id) valid)
          (insert-EvolveAll p id raw _ es e
            (applies now record_id ((eq_iff (status_of raw) "approved").0 approved) refl)))
  ]

  pub mark_applied-Kept :
      (id : String) (now : ℕ) (record_id : String)
      → Kept p es (mark_applied p id now (str record_id) d).1
  unfolding mark_applied
  mark_applied-Kept id now record_id =
      rw loads (apply_entry-Kept id now record_id (lookup id es) refl)

  pub all_requests-Kept : (now : ℕ) → Kept p es (all_requests p now d).1
  unfolding all_requests
  all_requests-Kept now =
      let (es', b, e, h, x) = expire_all-Expires p now (keys es) es false valid in
      rw (loads, e)
        (then-Kept p es (save_if p b es') _ d
          (save_if-Kept p law d es loads b es' h (ExpireAll-EvolveAll p now es es' x)))
