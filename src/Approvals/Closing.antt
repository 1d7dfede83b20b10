-- ===== src/Approvals/Closing.antt =====
-- An accepted request on its way to `applied`: what `validate`, `record_attempt` and `mark_applied` leave
-- in the file when none of them raises.
use hermes_enterprise_deploy.Base.{
  ℕ, String, true, some, ◌≡◌, ◌∙◌, Result, ok, err, string_eq, Bool-cases, inl, inr,
}
use hermes_enterprise_deploy.Base.Dict.{lookup, insert, lookup-insert_self}
use hermes_enterprise_deploy.Json.{str, Json, Fields, get, get-set, is_str}
use hermes_enterprise_deploy.Platform.{Platform, IsLawful}
use hermes_enterprise_deploy.Disk.{Disk}
use hermes_enterprise_deploy.Approvals.{
  Entries, load_file, status_of, save, record_attempt, attempt_entry, mark_applied, with_event,
  event, applied_entry,
}
use hermes_enterprise_deploy.Approvals.Entry.{ApprovalError, write_failed}
use hermes_enterprise_deploy.Approvals.Updates.{with_event-Facts, applied_entry-Facts}
use hermes_enterprise_deploy.Approvals.Entries.{
  IsEntries, insert-IsEntries, load_file-IsEntries, written-loads,
}
use hermes_enterprise_deploy.Approvals.Spent.{IsSpent}

module _ (p : Platform) (law : IsLawful p) (incident_id action_id : String) where
  -- The file loads, and holds the request as approved for the incident and the action.
  pub record Approved (id : String) (d : Disk) : Type 0 where
    pub entries : Entries
    pub raw : Fields
    pub loads : load_file p d.file ≡ ok entries
    pub found : lookup id entries ≡ some raw
    pub approved : status_of raw ≡ "approved"
    pub incident : is_str incident_id (get "incident_id" raw) ≡ true
    pub action : is_str action_id (get "action_id" raw) ≡ true

  -- The same, as applied.
  pub record Spent (d : Disk) : Type 0 where
    pub entries : Entries
    pub loads : load_file p d.file ≡ ok entries
    pub spent : IsSpent incident_id action_id entries

  save_tt :
      (es : Entries) (d : Disk)
      → IsEntries p es
      → (save p es d).0 ≡ ok tt
      → load_file p (save p es d).1.file ≡ ok (p.sort_keys es)
  unfolding save
  save_tt es d h e = elim (Bool-cases d.writable) [
    | inl free ↦ rw free (written-loads p law es h)
    | inr blocked ↦
        let no : ◌≡◌ {A = Result ApprovalError (Unit {0})} (err write_failed) (ok tt) =
          rw blocked at e in
        cc
  ]

  lookup_saved :
      (id : String) (raw : Fields) (es : Entries)
      → IsEntries p (insert id raw es)
      → lookup id (p.sort_keys (insert id raw es)) ≡ some raw
  lookup_saved id raw es h = law.lookup-sort_keys _ id h.nodup ∙ lookup-insert_self id raw es

  status-with_event : (e : Json) (raw : Fields) → status_of (with_event e raw) ≡ status_of raw
  unfolding status_of
  status-with_event e raw = simp get-set

  module _ (id : String) (d : Disk) (now : ℕ) (a : Approved id d) where
    valid : IsEntries p a.entries
    valid = load_file-IsEntries p d.file a.loads

    attempt_entry-Approved :
        (outcome : String) (detail : Fields)
        → (attempt_entry p id now outcome detail a.entries (some a.raw) d).0 ≡ ok tt
        → Approved id (attempt_entry p id now outcome detail a.entries (some a.raw) d).1
    attempt_entry-Approved outcome detail e =
        let raw' = with_event (event p now outcome detail) a.raw in
        let h =
          insert-IsEntries p id raw' a.entries
            (with_event-Facts p id a.raw (valid.valid id a.raw a.found) _) valid in
        record {
          entries = p.sort_keys (insert id raw' a.entries);
          raw = raw';
          loads = save_tt (insert id raw' a.entries) d h e;
          found = lookup_saved id raw' a.entries h;
          approved = status-with_event _ a.raw ∙ a.approved;
          incident = simp get-set a.incident;
          action = simp get-set a.action;
        }

    pub record_attempt-Approved :
        (outcome : String) (detail : Fields)
        → (record_attempt p id now outcome detail d).0 ≡ ok tt
        → Approved id (record_attempt p id now outcome detail d).1
    unfolding record_attempt
    record_attempt-Approved outcome detail e =
        rw (a.loads, a.found) (attempt_entry-Approved outcome detail (rw (a.loads, a.found) at e))

    apply_entry-Spent :
        (record_id : String)
        → (save p (insert id (applied_entry p now (str record_id) a.raw) a.entries) d).0 ≡ ok tt
        → Spent (save p (insert id (applied_entry p now (str record_id) a.raw) a.entries) d).1
    unfolding status_of
    apply_entry-Spent record_id e =
        let raw' = applied_entry p now (str record_id) a.raw in
        let h =
          insert-IsEntries p id raw' a.entries
            (applied_entry-Facts p id a.raw (valid.valid id a.raw a.found) now record_id) valid in
        record {
          entries = p.sort_keys (insert id raw' a.entries);
          loads = save_tt (insert id raw' a.entries) d h e;
          spent = record {
            id = id;
            raw = raw';
            found = lookup_saved id raw' a.entries h;
            applied = simp get-set;
            incident = simp get-set a.incident;
            action = simp get-set a.action;
          };
        }

    pub mark_applied-Spent :
        (record_id : String)
        → (mark_applied p id now (str record_id) d).0 ≡ ok tt
        → Spent (mark_applied p id now (str record_id) d).1
    unfolding mark_applied
    mark_applied-Spent record_id e =
        rw (a.loads, a.found, a.approved)
          (apply_entry-Spent record_id (rw (a.loads, a.found, a.approved) at e))
