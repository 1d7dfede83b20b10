-- ===== src/Tests/Run.antt =====
-- Runs of the executor, its client and its audit log. The API of these runs is a counter of requests.
use hermes_enterprise_deploy.Base.{
  ℕ, ◌+◌, ◌<◌, String, true, Option, none, some, List, [], ◌∷◌, ◌≡◌, ◌⊎◌, refl, ok, err, ◌==◌,
  string_eq, if◌then◌else◌,
}
use hermes_enterprise_deploy.Json.{str, obj, arr, nil, cons, Fields, end, dict, get}
use hermes_enterprise_deploy.Runner.Audit.{Numbered, append, append-Numbered}
use hermes_enterprise_deploy.Runner.Planner.{
  ProposedAction, added, append_steps, build_proposed_actions,
}
use hermes_enterprise_deploy.Runner.Planner.Plan.{Planned, build_proposed_actions-Planned}
use hermes_enterprise_deploy.Runner.Correlation.{normalize_correlation_id, Normal, normalize-Normal}
use hermes_enterprise_deploy.Runner.Client.{
  timeout, WorkflowError, DependencyCall, HttpResponse, Exchange, responded, get_runbook_request,
  receive, receive-ok,
}
use hermes_enterprise_deploy.Runner.Executor.{
  ApiClient, Request, Inputs, Runner, apply_incident_action,
}
use hermes_enterprise_deploy.Runner.Executor.Gate.{Authorized, apply_incident_action-gate}
use hermes_enterprise_deploy.Runner.Executor.Logged.{IsLogged, apply_incident_action-IsLogged}
use hermes_enterprise_deploy.Tests.Setup.{demo}
use hermes_enterprise_deploy.Tests.Approval.{start}

abbrev pub call : DependencyCall
call = record {
  name = "get_runbook";
  method = "GET";
  path = "/v1/incidents/INC-2026-0042/runbook";
  status_code = some 200;
  correlation_id = "c1";
  error = none;
}

abbrev pub runbook : Fields
runbook =
    dict
      (("steps", arr (cons (obj (dict (("step_id", str "RB-PAY-GATEWAY-01-S2") ∷ []))) nil)) ∷ [])

abbrev no_answer : WorkflowError
no_answer = record { code = timeout; correlation_id = none; call = some call; details = end }

abbrev pub api : ApiClient ℕ
api = record {
  correlation_id = λ n. "c1";
  get_runbook = λ incident_id n. (ok (runbook, call), n + 1);
  apply_action = λ incident_id action_id key note inject n. (err no_answer, n + 1);
}

abbrev pub inputs : Inputs
inputs = record {
  run_id = "r1";
  ttl_seconds = 900;
  token = "4";
  at_request = 1;
  at_validate = 2;
  at_attempt = 3;
  at_mark = 4;
  at_audit = λ n. n;
}

abbrev pub asked : Request
asked = record {
  incident_id = "INC-2026-0042";
  action_id = "RB-PAY-GATEWAY-01-S2";
  approval_capability = some "cap_3";
  note = none;
  inject = none;
}

abbrev pub runner : Runner ℕ
runner = record { approvals = start; audit = []; calls = []; server = 0 }

apply_incident_action-gate_example :
    ((apply_incident_action demo api inputs asked runner).1.server ≡ 1)
    ⊎ Authorized demo api inputs asked start 1
        (apply_incident_action demo api inputs asked runner).1.server
apply_incident_action-gate_example = apply_incident_action-gate demo api inputs asked runner

apply_incident_action-IsLogged_example :
    ((apply_incident_action demo api inputs asked runner).1.server ≡ 1)
    ⊎ IsLogged demo api inputs asked [] (apply_incident_action demo api inputs asked runner).1.audit
apply_incident_action-IsLogged_example = apply_incident_action-IsLogged demo api inputs asked runner

append-Numbered_example :
    Numbered 1 (
      append demo "r1" 5 "mutation_failed" "workflow-runner" none (dict (("seq", str "7") ∷ [])) [])
unfolding Numbered
append-Numbered_example =
    append-Numbered demo "r1" 5 "mutation_failed" "workflow-runner" none
      (dict (("seq", str "7") ∷ [])) [] tt

abbrev response : HttpResponse
response = record {
  status = 200;
  body_text = "{}";
  body = some (obj runbook);
  correlation_header = none;
}

abbrev received : DependencyCall
received = record call { correlation_id = "c0" }

receive-ok_example :
    (answer : HttpResponse) × (◌≡◌ {A = Exchange} (responded response) (responded answer))
    × (answer.status < 400)
    × (answer.body ≡ some (obj runbook))
    × (received.status_code ≡ some answer.status)
unfolding receive get_runbook_request
receive-ok_example =
    receive-ok (λ s. s) (λ s. some s) (get_runbook_request "INC-2026-0042") "c0" "c9"
      (responded response) runbook received refl

abbrev only_c1 : String → Option String
only_c1 s = if s == "c1" then some "c1" else none

normalize-Normal_example :
    (only_c1 (normalize_correlation_id only_c1 "c1" (some "bad"))
      ≡ some (normalize_correlation_id only_c1 "c1" (some "bad")))
    × Normal only_c1 "c1" (some "bad") (normalize_correlation_id only_c1 "c1" (some "bad"))
normalize-Normal_example = normalize-Normal only_c1 "c1" (some "bad") refl

abbrev step : Fields
step = dict (("step_id", str "S1") ∷ ("action", str "restart") ∷ [])

abbrev plan : Fields
plan = dict (("runbook_id", str "RB-1") ∷ ("steps", arr (cons (obj step) nil)) ∷ [])

abbrev incident : Fields
incident = dict (("incident_id", str "INC-2026-0042") ∷ [])

abbrev restart : ProposedAction
restart = record {
  order = 3;
  description = "restart";
  approval_required = true;
  source = "RB-1";
  action_id = some "S1";
}

abbrev proposed : List ProposedAction
proposed = added 1 "workflow-runner" ∷ added 2 "RB-1" ∷ restart ∷ []

planned : build_proposed_actions incident plan ≡ ok proposed
unfolding build_proposed_actions append_steps get
planned = refl

build_proposed_actions-Planned_example : Planned plan proposed
build_proposed_actions-Planned_example =
    build_proposed_actions-Planned incident plan proposed planned
