-- ===== src/Tests/Effect.antt =====
-- A run whose write is applied, and the operator's command before it.
use hermes_enterprise_deploy.Base.{ℕ, ◌+◌, false, [], ◌∷◌, ◌≡◌, refl, ok, string_eq}
use hermes_enterprise_deploy.Json.{
  str, obj, bool, Fields, dict, get, has_all, all_text, all_optional_text, all_dicts, set,
}
use hermes_enterprise_deploy.Approvals.{
  granted, approve, validate, load_file, load_entries, of_entries, find_by_capability,
  action_idempotency_key, check_entry, expire_if_needed, load, mark_applied, new_request,
  other_applied, record_attempt, request, save, status_of, get_request,
}
use hermes_enterprise_deploy.Approvals.Entry.{
  validate_approval_entry, to_dict, contains, from_dict, only_known, validate_fields,
}
use hermes_enterprise_deploy.Base.Dict.{insert, lookup}
use hermes_enterprise_deploy.Runner.Audit.{append, audit_record, next_seq}
use hermes_enterprise_deploy.Approvals.Runs.{here}
use hermes_enterprise_deploy.Approvals.Closing.{Spent}
use hermes_enterprise_deploy.Runner.Executor.{
  ApiClient, Runner, apply_incident_action, call_runbook, resolve_action, audit_accepted,
  call_apply, completed, completed_with, conflict_failed, existing_record, reconcile, rejected,
  request_approval, resumable_failed, runbook_failed, unknown_action,
}
use hermes_enterprise_deploy.Runner.Executor.Applied.{
  Reports, NamesRecords, apply_incident_action-Spent,
}
use hermes_enterprise_deploy.Runner.Executor.Once.{dispatched_once}
use hermes_enterprise_deploy.Runner.Operator.{
  Operator, approve_request, logged, Audited, approve_request-Audited,
}
use hermes_enterprise_deploy.Tests.Setup.{demo, demo-IsLawful}
use hermes_enterprise_deploy.Tests.Approval.{entries, start, start-loads, given}
use hermes_enterprise_deploy.Tests.Run.{api, call, inputs, asked, runner}

abbrev answer : Fields
answer =
    dict (("record", obj (dict (("record_id", str "rec_1") ∷ []))) ∷ ("replayed", bool false) ∷ [])

abbrev granting : ApiClient ℕ
granting = record api {
  apply_action = λ incident_id action_id key note inject n. (ok (answer, call), n + 1);
}

reports : Reports (apply_incident_action demo granting inputs asked runner)
unfolding apply_incident_action call_runbook resolve_action audit_accepted call_apply completed
    completed_with conflict_failed existing_record reconcile rejected request_approval
    resumable_failed runbook_failed unknown_action validate find_by_capability
    action_idempotency_key mark_applied new_request other_applied record_attempt request load_file
    load_entries of_entries check_entry expire_if_needed load save status_of validate_approval_entry
    to_dict contains from_dict only_known validate_fields get has_all all_text all_optional_text
    all_dicts set insert lookup append audit_record next_seq
reports = refl

granting-NamesRecords : NamesRecords demo demo-IsLawful granting inputs asked
unfolding get
granting-NamesRecords s = ("rec_1", refl)

apply_incident_action-Spent_example :
    Spent demo demo-IsLawful "INC-2026-0042" "RB-PAY-GATEWAY-01-S2"
      (apply_incident_action demo granting inputs asked runner).1.approvals
apply_incident_action-Spent_example =
    apply_incident_action-Spent demo demo-IsLawful granting inputs asked runner entries
      granting-NamesRecords start-loads reports

abbrev later : Runner ℕ
later = record runner {
  approvals = (apply_incident_action demo granting inputs asked runner).1.approvals;
}

dispatched_once_example : (apply_incident_action demo api inputs asked later).1.server ≡ 1
dispatched_once_example =
    dispatched_once demo demo-IsLawful granting api inputs inputs asked asked runner later entries
      granting-NamesRecords start-loads reports here refl refl

abbrev desk : Operator
desk = record { approvals = start; audit = [] }

approves : (approve_request demo "r1" "apr_1" "ops" "1" 1 2 3 desk).0 ≡ ok (granted given)
unfolding given approve_request logged approve get_request load_file load_entries of_entries
    check_entry expire_if_needed load save status_of validate_approval_entry to_dict contains
    from_dict only_known validate_fields get has_all all_text all_optional_text all_dicts set insert
    lookup append audit_record next_seq
approves = refl

approve_request-Audited_example :
    Audited demo "r1" "apr_1" "ops" "1" 1 2 3 demo-IsLawful entries given []
      (approve_request demo "r1" "apr_1" "ops" "1" 1 2 3 desk).1
approve_request-Audited_example =
    approve_request-Audited demo "r1" "apr_1" "ops" "1" 1 2 3 demo-IsLawful desk entries given
      start-loads approves
