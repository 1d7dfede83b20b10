-- ===== src/Runner/Executor.antt =====
-- workflow-runner/workflow_runner/executor.py: `_apply_incident_action`. The API client is an interface
-- over the state `S` of whatever answers it. Every call of the approval store may raise, and a raise
-- ends the action. The payloads leave out `timing_ms`, `limitations` and the texts for people.
pub mod Quiet
pub mod Gate
pub mod Applied
pub mod Once
pub mod Logged
use hermes_enterprise_deploy.Base.{
  ℕ, ◌≡◌, String, ◌<>◌, Bool, true, false, Option, none, some, List, [], ◌∷◌, ◌++◌, Result, ok, err,
  not, ◌&&◌, if◌then◌else◌, ◌==◌, string_eq, length,
}
use hermes_enterprise_deploy.Base.Exec.{Exec, ◌>>=◌, ◌>>◌, pure, gets}
use hermes_enterprise_deploy.Json.{
  Json, null, str, bool, obj, arr, Items, nil, cons, Fields, field, end, dict, get, is_str, text_at,
  truthy, json_of, is_text, optional,
}
use hermes_enterprise_deploy.Platform.{Platform}
use hermes_enterprise_deploy.Disk.{Disk}
use hermes_enterprise_deploy.Approvals
use hermes_enterprise_deploy.Approvals.{Answer, granted, refused, action_idempotency_key}
use hermes_enterprise_deploy.Approvals.Entry.{
  ApprovalError, ApprovalRequest, attribute_error, type_error,
}
use hermes_enterprise_deploy.Runner.Audit.{Lines, append}
use hermes_enterprise_deploy.Runner.Client.{
  ErrorCode, conflict, is_conflict, code_value, DependencyCall, WorkflowError,
}

-- The two methods of `EnterpriseApiClient` that the executor calls, and its correlation ID.
pub record ApiClient (S : Type 0) : Type 0 where
  pub correlation_id : S → String
  pub get_runbook : String → S → Result WorkflowError (Fields × DependencyCall) × S
  pub apply_action :
      String
      → String
      → String
      → Option String
      → Option String
      → S
      → Result WorkflowError (Fields × DependencyCall) × S

-- The arguments of `apply_incident_action`.
pub record Request : Type 0 where
  pub incident_id : String
  pub action_id : String
  pub approval_capability : Option String
  pub note : Option String
  pub inject : Option String

-- What one run draws from outside: the ID token, and the time of each use of the clock.
pub record Inputs : Type 0 where
  pub run_id : String
  pub ttl_seconds : ℕ
  pub token : String
  pub at_request : ℕ
  pub at_validate : ℕ
  pub at_attempt : ℕ
  pub at_mark : ℕ
  pub at_audit : ℕ → ℕ

pub record Runner (S : Type 0) : Type 0 where
  pub approvals : Disk
  pub audit : Lines
  pub calls : List DependencyCall
  pub server : S

-- `not approval_capability`
abbrev pub presented : Option String → Option String
presented none = none
presented (some capability) = if capability == "" then none else some capability

-- The loop of `_resolve_action`: a step that is no dict has no `get`.
abbrev resolve_steps : String → Items → Result ApprovalError (Option Fields)
resolve_steps action_id nil = ok none
resolve_steps action_id (cons (obj step) rest) =
    if is_str action_id (get "step_id" step) then ok (some step) else resolve_steps action_id rest
resolve_steps action_id (cons _ rest) = err attribute_error

unfoldable pub resolve_action : Fields → String → Result ApprovalError (Option Fields)
resolve_action runbook action_id = resolve_in (get "steps" runbook)
  where
    -- `runbook.get("steps", [])`: what a `for` says of a value that is no list. A text or a dict gives
    -- texts, and an empty one nothing.
    resolve_in : Option Json → Result ApprovalError (Option Fields)
    resolve_in none = ok none
    resolve_in (some (arr steps)) = resolve_steps action_id steps
    resolve_in (some (str s)) = if s == "" then ok none else err attribute_error
    resolve_in (some (obj end)) = ok none
    resolve_in (some (obj (field _ _ _))) = err attribute_error
    resolve_in (some _) = err type_error

-- `payload.get("record", {})`: a record that is no dict has no `get`.
abbrev pub record_in : Option Json → Option Fields
record_in none = some end
record_in (some (obj record')) = some record'
record_in (some _) = none

-- `record.get("record_id", "")`
abbrev pub json_or_empty : Option Json → Json
json_or_empty none = str ""
json_or_empty (some id) = id

-- `exc.call` is evidence of the attempt that failed.
abbrev failed_call : Option DependencyCall → List DependencyCall
failed_call none = []
failed_call (some call) = call ∷ []

-- `exc.correlation_id or client.correlation_id`
abbrev correlation_or : Option String → String → String
correlation_or none own = own
correlation_or (some id) own = if id == "" then own else id

-- The API says that the pair is already applied, and names its record.
unfoldable pub existing_record : WorkflowError → Option String
existing_record e =
    if is_conflict e.code
      && is_str "incident_action_already_applied" (get "code" e.details)
      && is_text (get "existing_record_id" e.details)
    then some (text_at "existing_record_id" e.details)
    else none

module _ (p : Platform) {S : Type 0} (client : ApiClient S) (i : Inputs) (q : Request) where
  abbrev pub Step : Type 0 → Type 0
  Step = Exec ApprovalError (Runner S)

  abbrev pub on_approvals : {A : Type 0} → Approvals.Action A → Step A
  on_approvals m r = let (result, d) = m r.approvals in (result, record r { approvals = d })

  abbrev pub note_calls : List DependencyCall → Step (Unit {0})
  note_calls calls r = (ok tt, record r { calls = r.calls ++ calls })

  -- The bindings that every audit event of the run carries.
  abbrev pub pair : List (String × Json) → Fields
  pair more = dict (("incident_id", str q.incident_id) ∷ ("action_id", str q.action_id) ∷ more)

  abbrev pub audit : String → String → List (String × Json) → Step (Unit {0})
  audit event correlation_id more r = (
    ok tt,
    record r {
      audit =
          append p i.run_id (i.at_audit (length r.audit)) event "workflow-runner"
            (some correlation_id) (pair more) r.audit;
    },
  )

  abbrev pub own_id : Step String
  own_id r = (ok (client.correlation_id r.server), r)

  abbrev pub payload : String → String → List (String × Json) → Fields
  payload status correlation_id more = dict (
      ("status", str status)
      ∷ ("incident_id", str q.incident_id)
      ∷ ("action_id", str q.action_id)
      ∷ ("correlation_id", str correlation_id)
      ∷ more)

  abbrev pub error_of : WorkflowError → Json
  error_of e = obj (dict (("code", str (code_value e.code)) ∷ []))

  abbrev pub key : String
  key = action_idempotency_key p q.incident_id q.action_id

  unfoldable pub runbook_failed : WorkflowError → Step Fields
  runbook_failed e = do
    note_calls (failed_call e.call)
    own ← own_id
    let id = correlation_or e.correlation_id own
    audit "mutation_failed" id
        (("outcome", str "runbook_lookup_failed") ∷ ("error_code", str (code_value e.code)) ∷ [])
    pure (payload "error" id (("side_effect", null) ∷ ("error", error_of e) ∷ []))

  unfoldable pub unknown_action : Step Fields
  unknown_action = do
    own ← own_id
    audit "approval_rejected" own (("outcome", str "unknown_action_id") ∷ [])
    pure (
        payload "approval_rejected" own (
          ("side_effect", null)
          ∷ ("reason", str "unknown_action_id")
          ∷ ("error", obj (dict (("code", str "not_found") ∷ [])))
          ∷ []))

  -- Gate 1: no capability. The request is recorded and nothing is dispatched.
  unfoldable pub request_approval : Fields → Step Fields
  request_approval step = do
    own ← own_id
    approval ← on_approvals (
        Approvals.request p i.ttl_seconds q.incident_id q.action_id (some own) i.token i.at_request)
    audit "approval_requested" own (
        ("approval_id", str approval.approval_id)
        ∷ ("outcome", str "blocked_pending_operator_approval")
        ∷ [])
    pure (
        payload "pending_approval" own (
          ("action_description", json_of (get "action" step))
          ∷ ("side_effect", null)
          ∷ ("approval_id", str approval.approval_id)
          ∷ ("approval_expires_at", str approval.expires_at)
          ∷ []))

  unfoldable pub rejected : String → Step Fields
  rejected reason = do
    own ← own_id
    audit "approval_rejected" own (("outcome", str reason) ∷ [])
    pure (payload "approval_rejected" own (("side_effect", null) ∷ ("reason", str reason) ∷ []))

  -- The conflict that names the record of the pair ends the approval as applied.
  unfoldable pub reconcile : ApprovalRequest → WorkflowError → String → Step Fields
  reconcile approval e record_id = do
    on_approvals (
        Approvals.record_attempt p approval.approval_id i.at_attempt "reconciled_existing" (
          dict (("record_id", str record_id) ∷ ("correlation_id", optional e.correlation_id) ∷ [])))
    on_approvals (Approvals.mark_applied p approval.approval_id i.at_mark (str record_id))
    own ← own_id
    let id = correlation_or e.correlation_id own
    audit "approval_rejected" id (
        ("idempotency_key", str key)
        ∷ ("outcome", str "action_already_applied")
        ∷ ("record_id", str record_id)
        ∷ [])
    pure (
        payload "approval_rejected" id (
          ("side_effect", null)
          ∷ ("reason", str "action_already_applied")
          ∷ ("existing_record_id", str record_id)
          ∷ []))

  -- `conflict_code or "upstream_conflict"`
  abbrev conflict_reason : Option Json → Json
  conflict_reason code = if truthy code then json_of code else str "upstream_conflict"

  unfoldable pub conflict_failed : ApprovalRequest → WorkflowError → Step Fields
  conflict_failed approval e = do
    let conflict_code = get "code" e.details
    on_approvals (
        Approvals.record_attempt p approval.approval_id i.at_attempt "failed" (
          dict (
            ("error_code", str (code_value e.code))
            ∷ ("conflict_code", json_of conflict_code)
            ∷ ("correlation_id", optional e.correlation_id)
            ∷ [])))
    own ← own_id
    let id = correlation_or e.correlation_id own
    audit "mutation_failed" id (
        ("idempotency_key", str key)
        ∷ ("outcome", str "conflict")
        ∷ ("error_code", str (code_value e.code))
        ∷ ("conflict_code", json_of conflict_code)
        ∷ ("resumable", bool false)
        ∷ [])
    pure (
        payload "error" id (
          ("side_effect", null)
          ∷ ("error", error_of e)
          ∷ ("reason", conflict_reason conflict_code)
          ∷ ("resumable", bool false)
          ∷ []))

  -- Any other failure keeps the approval, so the caller can resume with the same capability.
  unfoldable pub resumable_failed : ApprovalRequest → WorkflowError → Step Fields
  resumable_failed approval e = do
    on_approvals (
        Approvals.record_attempt p approval.approval_id i.at_attempt "failed" (
          dict (
            ("error_code", str (code_value e.code))
            ∷ ("correlation_id", optional e.correlation_id)
            ∷ [])))
    own ← own_id
    let id = correlation_or e.correlation_id own
    audit "mutation_failed" id (
        ("idempotency_key", str key)
        ∷ ("outcome", str "failed")
        ∷ ("error_code", str (code_value e.code))
        ∷ ("resumable", bool true)
        ∷ [])
    pure (
        payload "error" id (
          ("side_effect", null)
          ∷ ("error", error_of e)
          ∷ (
            "resume",
            obj (
                dict (
                  ("resumable", bool true)
                  ∷ ("approval_id", str approval.approval_id)
                  ∷ ("idempotency_key", str key)
                  ∷ [])),
          )
          ∷ []))

  abbrev pub dispatch_other : ApprovalRequest → WorkflowError → Step Fields
  dispatch_other approval e r =
      if is_conflict e.code then conflict_failed approval e r else resumable_failed approval e r

  abbrev pub dispatch_error : ApprovalRequest → WorkflowError → Option String → Step Fields
  dispatch_error approval e (some record_id) = reconcile approval e record_id
  dispatch_error approval e none = dispatch_other approval e

  -- The calls that follow once the answer has its record.
  unfoldable pub completed_with : Fields → ApprovalRequest → Fields → Fields → Step Fields
  completed_with step approval answer record' = do
    let replayed = truthy (get "replayed" answer)
    let outcome = if replayed then "replayed" else "committed"
    own ← own_id
    on_approvals (
        Approvals.record_attempt p approval.approval_id i.at_attempt outcome (
          dict
            (("record_id", json_of (get "record_id" record')) ∷ ("correlation_id", str own) ∷ [])))
    on_approvals (
        Approvals.mark_applied p approval.approval_id i.at_mark
          (json_or_empty (get "record_id" record')))
    audit (if replayed then "mutation_replayed" else "mutation_committed") own (
        ("idempotency_key", str key)
        ∷ ("outcome", str outcome)
        ∷ ("record_id", json_of (get "record_id" record'))
        ∷ ("total_actions_for_incident", json_of (get "total_actions_for_incident" answer))
        ∷ [])
    pure (
        payload (if replayed then "replayed" else "applied") own (
          ("action_description", json_of (get "action" step))
          ∷ ("side_effect", obj record')
          ∷ ("replayed", bool replayed)
          ∷ ("idempotency_key", str key)
          ∷ ("total_actions_for_incident", json_of (get "total_actions_for_incident" answer))
          ∷ []))

  abbrev pub completed_found : Fields → ApprovalRequest → Fields → Option Fields → Step Fields
  completed_found step approval answer none r = (err attribute_error, r)
  completed_found step approval answer (some record') r =
      completed_with step approval answer record' r

  -- The API answered: applied now, or replayed.
  unfoldable pub completed : Fields → ApprovalRequest → Fields → Step Fields
  unfolding completed_with
  completed step approval answer =
      completed_found step approval answer (record_in (get "record" answer))

  abbrev pub after_apply :
      Fields → ApprovalRequest → Result WorkflowError (Fields × DependencyCall) → Step Fields
  after_apply step approval (ok (answer, call)) =
      note_calls (call ∷ []) >> completed step approval answer
  after_apply step approval (err e) =
      note_calls (failed_call e.call) >> dispatch_error approval e (existing_record e)

  unfoldable pub call_apply : Step (Result WorkflowError (Fields × DependencyCall))
  call_apply r =
      let (answer, s) =
        client.apply_action q.incident_id q.action_id key q.note q.inject r.server in
      (ok answer, record r { server = s })

  -- The two events that stand before the dispatch.
  unfoldable pub audit_accepted : ApprovalRequest → Step (Unit {0})
  audit_accepted approval = do
    own ← own_id
    audit "approval_capability_accepted" own (
        ("idempotency_key", str key)
        ∷ ("approval_id", str approval.approval_id)
        ∷ ("approved_by", optional approval.approved_by)
        ∷ ("outcome", str "authorized")
        ∷ [])
    audit "mutation_attempted" own (
        ("idempotency_key", str key)
        ∷ ("outcome", str "dispatching")
        ∷ ("inject", optional q.inject)
        ∷ [])

  -- Gate 2: what `validate` said.
  abbrev pub after_validate : Fields → Answer ApprovalRequest → Step Fields
  after_validate step (refused reason) = rejected reason
  after_validate step (granted approval) = do
    audit_accepted approval
    answer ← call_apply
    after_apply step approval answer

  abbrev pub with_capability : Fields → Option String → Step Fields
  with_capability step none = request_approval step
  with_capability step (some capability) = do
    verdict ← on_approvals (Approvals.validate p capability q.incident_id q.action_id i.at_validate)
    after_validate step verdict

  abbrev pub with_step : Option Fields → Step Fields
  with_step none = unknown_action
  with_step (some step) = with_capability step (presented q.approval_capability)

  abbrev pub with_resolved : Result ApprovalError (Option Fields) → Step Fields
  with_resolved (err e) r = (err e, r)
  with_resolved (ok step) r = with_step step r

  abbrev pub after_runbook : Result WorkflowError (Fields × DependencyCall) → Step Fields
  after_runbook (err e) = runbook_failed e
  after_runbook (ok (runbook, call)) =
      note_calls (call ∷ []) >> with_resolved (resolve_action runbook q.action_id)

  unfoldable pub call_runbook : Step (Result WorkflowError (Fields × DependencyCall))
  call_runbook r =
      let (answer, s) = client.get_runbook q.incident_id r.server in
      (ok answer, record r { server = s })

  -- `_apply_incident_action`
  unfoldable pub apply_incident_action : Step Fields
  apply_incident_action = do answer ← call_runbook; after_runbook answer
