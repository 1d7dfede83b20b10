-- ===== src/Mcp/Context.antt =====
-- enterprise-mcp/enterprise_mcp/context.py: the context of an incident, with the evidence of the calls. The
-- message of an error is text for people.
use hermes_enterprise_deploy.Base.{
  String, Option, none, some, List, [], ◌∷◌, Result, ok, err, ◌==◌, string_eq, if◌then◌else◌,
}
use hermes_enterprise_deploy.Json.{Fields}
use hermes_enterprise_deploy.Runner.Client.{ErrorCode, DependencyCall, WorkflowError}

pub record IncidentContext : Type 0 where
  pub outcome : String
  pub correlation_id : String
  pub incident_id : String
  pub incident : Option Fields
  pub runbook : Option Fields
  pub dependency_calls : List DependencyCall
  pub error : Option ErrorCode

-- `exc.correlation_id or client.correlation_id`
abbrev id_or : Option String → String → String
id_or none own = own
id_or (some id) own = if id == "" then own else id

module _ {S : Type 0} (correlation_id : S → String)
    (get_incident get_runbook : String
      → S
      → Result WorkflowError (Fields × DependencyCall) × S) where
  abbrev failed_context : String → List DependencyCall → WorkflowError → S → IncidentContext
  failed_context incident_id calls e s = record {
    outcome = "error";
    correlation_id = id_or e.correlation_id (correlation_id s);
    incident_id = incident_id;
    incident = none;
    runbook = none;
    dependency_calls = calls;
    error = some e.code;
  }

  abbrev with_runbook :
      String
      → Fields
      → DependencyCall
      → Result WorkflowError (Fields × DependencyCall)
      → S
      → IncidentContext
  with_runbook incident_id incident call (err e) s = failed_context incident_id (call ∷ []) e s
  with_runbook incident_id incident call (ok (runbook, call')) s = record {
    outcome = "success";
    correlation_id = correlation_id s;
    incident_id = incident_id;
    incident = some incident;
    runbook = some runbook;
    dependency_calls = call ∷ call' ∷ [];
    error = none;
  }

  abbrev pub with_incident :
      String → Result WorkflowError (Fields × DependencyCall) → S → IncidentContext × S
  with_incident incident_id (err e) s = (failed_context incident_id [] e s, s)
  with_incident incident_id (ok (incident, call)) s =
      let (answer, s') = get_runbook incident_id s in
      (with_runbook incident_id incident call answer s', s')

  unfoldable pub fetch_incident_context : String → S → IncidentContext × S
  fetch_incident_context incident_id s =
      let (answer, s') = get_incident incident_id s in with_incident incident_id answer s'
