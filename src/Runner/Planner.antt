-- ===== src/Runner/Planner.antt =====
-- workflow-runner/workflow_runner/planner.py: the actions that a plan proposes, and the intake. The
-- sentences of the two actions that the workflow adds are text for people.
pub mod Plan
use hermes_enterprise_deploy.Base.{
  ℕ, ◌+◌, String, Bool, true, false, Option, none, some, List, [], ◌∷◌, ◌++◌, Result, ok, err, any,
  not, ◌==◌, string_eq, if◌then◌else◌, length,
}
use hermes_enterprise_deploy.Base.Outcome
use hermes_enterprise_deploy.Json.{
  Json, null, str, arr, obj, Items, nil, cons, Fields, end, get, has, truthy,
}
use hermes_enterprise_deploy.Runner.Client.{ErrorCode, DependencyCall, WorkflowError}

pub record ProposedAction : Type 0 where
  pub order : ℕ
  pub description : String
  pub approval_required : Bool
  pub source : String
  pub action_id : Option String

-- What the plan raises on documents of another shape than it reads: KeyError, TypeError, and the
-- ValidationError of the model of an action.
pub data PlanError : Type 0 where
  key_error type_error validation_error : PlanError

-- `runbook.get("runbook_id", "runbook")`, which the model of an action wants to be a text
abbrev pub source_of : Option Json → Result PlanError String
source_of none = ok "runbook"
source_of (some (str s)) = ok s
source_of (some _) = err validation_error

-- `bool(step.get("approval_required", True))`
abbrev pub requires_approval : Option Json → Bool
requires_approval none = true
requires_approval (some j) = truthy (some j)

-- `step["action"]`
abbrev pub description_of : Option Json → Result PlanError String
description_of none = err key_error
description_of (some (str s)) = ok s
description_of (some _) = err validation_error

-- `step.get("step_id")`
abbrev pub id_of : Option Json → Result PlanError (Option String)
id_of none = ok none
id_of (some null) = ok none
id_of (some (str s)) = ok (some s)
id_of (some _) = err validation_error

abbrev pub action_of : String → ℕ → Fields → Result PlanError ProposedAction
action_of source order step = Outcome.◌>>=◌ (description_of (get "action" step)) λ description.
    Outcome.◌>>=◌ (id_of (get "step_id" step)) λ id. ok (record {
      order = order;
      description = description;
      approval_required = requires_approval (get "approval_required" step);
      source = source;
      action_id = id;
    })

-- The loop over the steps. What is no dict cannot be asked for its `action`.
unfoldable pub append_steps :
    String → List ProposedAction → Items → Result PlanError (List ProposedAction)
append_steps source actions nil = ok actions
append_steps source actions (cons (obj step) rest) =
    Outcome.◌>>=◌ (action_of source (length actions + 1) step)
      λ action. append_steps source (actions ++ action ∷ []) rest
append_steps source actions (cons _ rest) = err type_error

-- `for step in runbook.get("steps", [])`: a text or a dict that is not empty gives texts.
abbrev pub append_all :
    String → List ProposedAction → Option Json → Result PlanError (List ProposedAction)
append_all source actions none = ok actions
append_all source actions (some (arr steps)) = append_steps source actions steps
append_all source actions (some (str s)) = if s == "" then ok actions else err type_error
append_all source actions (some (obj end)) = ok actions
append_all source actions (some _) = err type_error

abbrev pub added : ℕ → String → ProposedAction
added order source = record {
  order = order;
  description = "";
  approval_required = false;
  source = source;
  action_id = none;
}

abbrev pub with_source : Fields → String → Result PlanError (List ProposedAction)
with_source runbook source =
    append_all source (added 1 "workflow-runner" ∷ added 2 source ∷ []) (get "steps" runbook)

-- `incident['incident_id']` is read for the text of the first action.
unfoldable pub build_proposed_actions : Fields → Fields → Result PlanError (List ProposedAction)
unfolding append_steps
build_proposed_actions incident runbook =
    if not (has "incident_id" incident)
    then err key_error
    else Outcome.◌>>=◌ (source_of (get "runbook_id" runbook)) (with_source runbook)

pub record WorkflowReceipt : Type 0 where
  pub outcome : String
  pub approval_required : Bool
  pub proposed_actions : List ProposedAction
  pub dependency_calls : List DependencyCall
  pub error : Option ErrorCode

abbrev pub failed_receipt : List DependencyCall → WorkflowError → WorkflowReceipt
failed_receipt calls e = record {
  outcome = "error";
  approval_required = true;
  proposed_actions = [];
  dependency_calls = calls;
  error = some e.code;
}

abbrev plan_receipt : List DependencyCall → List ProposedAction → WorkflowReceipt
plan_receipt calls actions = record {
  outcome = "success";
  approval_required = any (λ a. a.approval_required) actions;
  proposed_actions = actions;
  dependency_calls = calls;
  error = none;
}

-- Only a WorkflowError is caught.
abbrev planned :
    Fields
    → DependencyCall
    → Result WorkflowError (Fields × DependencyCall)
    → Result PlanError WorkflowReceipt
planned incident incident_call (err e) = ok (failed_receipt (incident_call ∷ []) e)
planned incident incident_call (ok (runbook, call)) =
    Outcome.◌>>=◌ (build_proposed_actions incident runbook)
      λ actions. ok (plan_receipt (incident_call ∷ call ∷ []) actions)

module _ {S : Type 0}
    (get_incident get_runbook : String
      → S
      → Result WorkflowError (Fields × DependencyCall) × S) where
  abbrev pub intake :
      String
      → Result WorkflowError (Fields × DependencyCall)
      → S
      → Result PlanError WorkflowReceipt × S
  intake incident_id (err e) s = (ok (failed_receipt [] e), s)
  intake incident_id (ok (incident, call)) s =
      let (r, s') = get_runbook incident_id s in (planned incident call r, s')

  unfoldable pub run_incident_intake : String → S → Result PlanError WorkflowReceipt × S
  unfolding build_proposed_actions
  run_incident_intake incident_id s =
      let (r, s') = get_incident incident_id s in intake incident_id r s'
