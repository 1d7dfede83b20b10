-- ===== src/Approvals.antt =====
-- workflow-runner/workflow_runner/approvals.py: `ApprovalStore`. Every method runs under the thread
-- lock and the file lock, so one call is one step on the disk. The clock and the random tokens are
-- arguments.
pub mod Entry
pub mod Facts
pub mod Updates
pub mod Entries
pub mod Lifecycle
pub mod Methods
pub mod Runs
pub mod Validated
pub mod Granted
pub mod Spent
pub mod Closing
pub mod Accepting
use hermes_enterprise_deploy.Base.{
  ℕ, ◌+◌, ◌*◌, String, ◌<>◌, Bool, true, false, Option, none, some, List, [], ◌∷◌, Result, ok, err,
  not, ◌&&◌, ◌||◌, ltb, ◌==◌, string_eq, if◌then◌else◌,
}
use hermes_enterprise_deploy.Base.Outcome
use hermes_enterprise_deploy.Base.Exec.{Exec, ◌>>=◌, ◌>>◌, pure, raise}
use hermes_enterprise_deploy.Base.Dict.{Dict, lookup, insert}
use hermes_enterprise_deploy.Json.{
  Json, null, str, arr, obj, Items, nil, cons, Fields, field, end, get, set, push, is_str, text_at,
  text_of, optional,
}
use hermes_enterprise_deploy.Platform.{Platform, iso}
use hermes_enterprise_deploy.Disk.{File, absent, unreadable, document, Disk}
use Entry.{
  ApprovalError, corrupt_file, invalid_shape, invalid_timestamp, write_failed, ApprovalRequest,
  to_dict, from_dict, parse, validate_approval_entry, history_of,
}

abbrev pub Entries : Type 0
Entries = Dict String Fields

abbrev pub Action : Type 0 → Type 0
Action = Exec ApprovalError Disk

-- A method returns a value, or `None` and its stable reason for the refusal.
pub data Answer (A : Type 0) : Type 0 where
  granted : A → Answer A
  refused : String → Answer A

pub record ApprovalGrant : Type 0 where
  pub approval_id : String
  pub approval_capability : String
  pub incident_id : String
  pub action_id : String
  pub approved_by : String
  pub approved_at : String
  pub expires_at : String

unfoldable pub status_of : Fields → String
status_of raw = text_at "status" raw

-- `data` as the JSON object that `json.dumps` writes.
unfoldable pub of_entries : Entries → Fields
of_entries [] = end
of_entries ((k, raw) ∷ rest) = field k (obj raw) (of_entries rest)

-- `timedelta(seconds=self.ttl_seconds)`, in microseconds
abbrev pub lifetime : ℕ → ℕ
lifetime ttl_seconds = ttl_seconds * 1000000

abbrev pub is_live : Fields → Bool
is_live raw = status_of raw == "pending" || status_of raw == "approved"

abbrev pub keys : Entries → List String
keys [] = []
keys ((k, raw) ∷ rest) = k ∷ keys rest

-- Another entry has been applied for the same incident and action.
unfoldable pub other_applied : String → String → String → Entries → Bool
other_applied approval_id incident_id action_id [] = false
other_applied approval_id incident_id action_id ((other_id, other) ∷ rest) =
    if not (other_id == approval_id)
      && status_of other == "applied"
      && is_str incident_id (get "incident_id" other)
      && is_str action_id (get "action_id" other)
    then true
    else other_applied approval_id incident_id action_id rest

-- The checks of `validate` on the entry that bears the capability, once expiry is done.
unfoldable pub check_entry :
    String → String → String → Entries → Fields → Result ApprovalError (Answer ApprovalRequest)
check_entry approval_id incident_id action_id entries raw =
    if status_of raw == "expired"
    then ok (refused "approval_expired")
    else if status_of raw == "applied"
    then ok (refused "approval_already_applied")
    else if not (status_of raw == "approved")
    then ok (refused "approval_not_granted")
    else if not (is_str incident_id (get "incident_id" raw))
    then ok (refused "approval_capability_bound_to_different_incident")
    else if not (is_str action_id (get "action_id" raw))
    then ok (refused "approval_capability_bound_to_different_action")
    else if other_applied approval_id incident_id action_id entries
    then ok (refused "action_already_applied")
    else Outcome.◌>>=◌ (from_dict raw) λ a. ok (granted a)

-- `data[approval_id]` of an entry that has just been found
abbrev check_found :
    String
    → String
    → String
    → Entries
    → Option Fields
    → Result ApprovalError (Answer ApprovalRequest)
check_found approval_id incident_id action_id entries none =
    ok (refused "unknown_approval_capability")
check_found approval_id incident_id action_id entries (some raw) =
    check_entry approval_id incident_id action_id entries raw

abbrev has_hash : String → Fields → Bool
has_hash presented raw =
    not (text_at "capability_hash" raw == "") && text_at "capability_hash" raw == presented

abbrev pub with_event : Json → Fields → Fields
with_event e raw = set "history" (arr (push (history_of (get "history" raw)) e)) raw

abbrev pub lift : {A : Type 0} → Result ApprovalError A → Action A
lift r d = (r, d)

module _ (p : Platform) where
  -- The loop of `_load`.
  unfoldable pub load_entries : Fields → Entries → Result ApprovalError Entries
  load_entries end validated = ok validated
  load_entries (field approval_id entry rest) validated =
      Outcome.◌>>=◌ (validate_approval_entry p approval_id entry)
        λ raw. load_entries rest (insert approval_id raw validated)

  unfoldable pub load_file : File → Result ApprovalError Entries
  load_file absent = ok []
  load_file unreadable = err corrupt_file
  load_file (document (obj raw)) = load_entries raw []
  load_file (document _) = err invalid_shape

  unfoldable pub load : Action Entries
  load d = (load_file d.file, d)

  -- Written beside and then replaced, with sorted keys.
  unfoldable pub save : Entries → Action (Unit {0})
  save entries d =
      if d.writable
      then (ok tt, record d { file = document (obj (of_entries (p.sort_keys entries))) })
      else (err write_failed, d)

  abbrev pub event : ℕ → String → Fields → Json
  event at outcome detail = obj (field "at" (str (iso p at)) (field "outcome" (str outcome) detail))

  -- The entry that `_expire_if_needed` puts in place.
  abbrev pub expired_entry : ℕ → Fields → Fields
  expired_entry now raw =
      set "history" (arr (push (history_of (get "history" raw)) (event now "expired" end)))
        (set "status" (str "expired") raw)

  -- Whether the expiry time of an entry has come; an unreadable time raises.
  abbrev expire_at :
      ℕ → String → Entries → Fields → Option ℕ → Result ApprovalError (Entries × Bool)
  expire_at now approval_id entries raw none = err invalid_timestamp
  expire_at now approval_id entries raw (some expires) =
      if ltb now expires
      then ok (entries, false)
      else ok (insert approval_id (expired_entry now raw) entries, true)

  abbrev expire_entry : ℕ → String → Entries → Option Fields → Result ApprovalError (Entries × Bool)
  expire_entry now approval_id entries none = ok (entries, false)
  expire_entry now approval_id entries (some raw) =
      if is_live raw
      then expire_at now approval_id entries raw (parse p (text_at "expires_at" raw))
      else ok (entries, false)

  unfoldable pub expire_if_needed : ℕ → String → Entries → Result ApprovalError (Entries × Bool)
  expire_if_needed now approval_id entries =
      expire_entry now approval_id entries (lookup approval_id entries)

  abbrev pub save_if : Bool → Entries → Action (Unit {0})
  save_if true entries = save entries
  save_if false entries = pure tt

  unfoldable pub action_idempotency_key : String → String → String
  action_idempotency_key incident_id action_id =
      "idem-action-"
      <> p.sha256_hex
          (p.dumps (field "action_id" (str action_id) (field "incident_id" (str incident_id) end)))

  unfoldable pub new_request : ℕ → String → String → Option String → String → ℕ → ApprovalRequest
  new_request ttl_seconds incident_id action_id correlation_id token now = record {
    approval_id = "apr_" <> token;
    incident_id = incident_id;
    action_id = action_id;
    idempotency_key = action_idempotency_key incident_id action_id;
    requested_at = iso p now;
    expires_at = iso p (now + lifetime ttl_seconds);
    status = "pending";
    correlation_id = correlation_id;
    approved_at = none;
    approved_by = none;
    capability_hash = none;
    applied_at = none;
    applied_record_id = none;
    history = cons (event now "requested" end) nil;
  }

  unfoldable pub request : ℕ → String → String → Option String → String → ℕ → Action ApprovalRequest
  unfolding load save
  request ttl_seconds incident_id action_id correlation_id token now = do
    let approval = new_request ttl_seconds incident_id action_id correlation_id token now
    entries ← load
    save (insert approval.approval_id (to_dict approval) entries)
    pure approval

  -- `self._request_from_entry(raw) if raw else None`; an entry is never an empty dict.
  abbrev as_request : Option Fields → Result ApprovalError (Option ApprovalRequest)
  as_request none = ok none
  as_request (some raw) = Outcome.◌>>=◌ (from_dict raw) λ a. ok (some a)

  unfoldable pub get_request : String → ℕ → Action (Option ApprovalRequest)
  unfolding load save expire_if_needed
  get_request approval_id now = do
    loaded ← load
    (entries, changed) ← lift (expire_if_needed now approval_id loaded)
    save_if changed entries
    lift (as_request (lookup approval_id entries))

  -- The entry that `approve` puts in place.
  abbrev pub approved_entry : ℕ → String → String → Fields → Fields
  approved_entry now approver capability raw =
      set "history"
        (arr (
          push (history_of (get "history" raw))
            (event now "approved" (field "actor" (str approver) end))))
        (set "capability_hash" (str (p.sha256_hex capability)) (
          set "approved_by" (str approver)
            (set "approved_at" (str (iso p now)) (set "status" (str "approved") raw))))

  abbrev pub grant_of : String → String → ℕ → String → Fields → ApprovalGrant
  grant_of approval_id capability now approver raw = record {
    approval_id = approval_id;
    approval_capability = capability;
    incident_id = text_at "incident_id" raw;
    action_id = text_at "action_id" raw;
    approved_by = approver;
    approved_at = iso p now;
    expires_at = text_at "expires_at" raw;
  }

  abbrev pub grant_pending :
      String → String → ℕ → String → Entries → Fields → Action (Answer ApprovalGrant)
  grant_pending approval_id capability now approver entries raw = do
    let updated = approved_entry now approver capability raw
    save (insert approval_id updated entries)
    pure (granted (grant_of approval_id capability now approver updated))

  abbrev grant_entry :
      String → String → ℕ → String → Bool → Entries → Option Fields → Action (Answer ApprovalGrant)
  grant_entry approval_id capability now approver changed entries none d =
      (ok (refused "unknown_approval_id"), d)
  grant_entry approval_id capability now approver true entries (some raw) d =
      (save entries >> pure (refused "approval_expired")) d
  grant_entry approval_id capability now approver false entries (some raw) d =
      if not (status_of raw == "pending")
      then (ok (refused ("approval_" <> status_of raw)), d)
      else grant_pending approval_id capability now approver entries raw d

  unfoldable pub approve : String → String → String → ℕ → Action (Answer ApprovalGrant)
  unfolding load save expire_if_needed
  approve approval_id approver_identity token now d =
      let approver = p.strip approver_identity in
      if approver == ""
      then (ok (refused "approver_identity_required"), d)
      else (do
        loaded ← load
        (entries, changed) ← lift (expire_if_needed now approval_id loaded)
        grant_entry approval_id ("cap_" <> token) now approver changed entries
            (lookup approval_id entries))
          d

  -- The first entry whose stored hash is that of the capability.
  unfoldable pub find_by_capability : String → Entries → Option (String × Fields)
  find_by_capability capability [] = none
  find_by_capability capability ((approval_id, raw) ∷ rest) =
      if has_hash (p.sha256_hex capability) raw
      then some (approval_id, raw)
      else find_by_capability capability rest

  abbrev validate_found :
      String → String → ℕ → Entries → Option (String × Fields) → Action (Answer ApprovalRequest)
  validate_found incident_id action_id now loaded none =
      pure (refused "unknown_approval_capability")
  validate_found incident_id action_id now loaded (some (approval_id, raw)) = do
    (entries, changed) ← lift (expire_if_needed now approval_id loaded)
    save_if changed entries
    lift (check_found approval_id incident_id action_id entries (lookup approval_id entries))

  unfoldable pub validate : String → String → String → ℕ → Action (Answer ApprovalRequest)
  unfolding load save expire_if_needed check_entry
  validate capability incident_id action_id now = do
    loaded ← load
    validate_found incident_id action_id now loaded (find_by_capability capability loaded)

  abbrev attempt_entry : String → ℕ → String → Fields → Entries → Option Fields → Action (Unit {0})
  attempt_entry approval_id now outcome detail entries none = pure tt
  attempt_entry approval_id now outcome detail entries (some raw) =
      save (insert approval_id (with_event (event now outcome detail) raw) entries)

  unfoldable pub record_attempt : String → ℕ → String → Fields → Action (Unit {0})
  unfolding load save
  record_attempt approval_id now outcome detail = do
    entries ← load
    attempt_entry approval_id now outcome detail entries (lookup approval_id entries)

  -- The entry that `mark_applied` puts in place.
  abbrev pub applied_entry : ℕ → Json → Fields → Fields
  applied_entry now record_id raw =
      set "history"
        (arr (
          push (history_of (get "history" raw))
            (event now "applied" (field "record_id" record_id end))))
        (set "applied_record_id" record_id
          (set "applied_at" (str (iso p now)) (set "status" (str "applied") raw)))

  abbrev apply_entry : String → ℕ → Json → Entries → Option Fields → Action (Unit {0})
  apply_entry approval_id now record_id entries none d = (ok tt, d)
  apply_entry approval_id now record_id entries (some raw) d =
      if not (status_of raw == "approved")
      then (ok tt, d)
      else save (insert approval_id (applied_entry now record_id raw) entries) d

  unfoldable pub mark_applied : String → ℕ → Json → Action (Unit {0})
  unfolding load save
  mark_applied approval_id now record_id = do
    entries ← load
    apply_entry approval_id now record_id entries (lookup approval_id entries)

  -- The loop of `all_requests` over the keys.
  unfoldable pub expire_all :
      ℕ → List String → Entries → Bool → Result ApprovalError (Entries × Bool)
  expire_all now [] entries changed = ok (entries, changed)
  expire_all now (approval_id ∷ ids) entries changed =
      Outcome.◌>>=◌ (expire_if_needed now approval_id entries)
        λ (entries', expired). expire_all now ids entries' (expired || changed)

  unfoldable pub requests_of : Entries → Result ApprovalError (List ApprovalRequest)
  requests_of [] = ok []
  requests_of ((approval_id, raw) ∷ rest) =
      Outcome.◌>>=◌ (from_dict raw) λ a. Outcome.◌>>=◌ (requests_of rest) λ as'. ok (a ∷ as')

  unfoldable pub all_requests : ℕ → Action (List ApprovalRequest)
  unfolding load save
  all_requests now = do
    loaded ← load
    (entries, changed) ← lift (expire_all now (keys loaded) loaded false)
    save_if changed entries
    lift (requests_of entries)
