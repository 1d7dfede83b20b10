-- ===== src/Mcp/Server.antt =====
-- The tools of enterprise-mcp/enterprise_mcp/server.py. `connect` makes an API client from the settings and the
-- bearer token; the tools share the world of the workflow's runs.
use hermes_enterprise_deploy.Base.{
  ℕ, String, Bool, true, false, Option, none, some, List, [], ◌∷◌, Result, ok, err, ◌==◌, string_eq,
  if◌then◌else◌, any, ◌&&◌,
}
use hermes_enterprise_deploy.Json.{Json, str, bool, Fields, dict, get, set, has}
use hermes_enterprise_deploy.Platform.{Platform}
use hermes_enterprise_deploy.Approvals.Entry.{ApprovalError}
use hermes_enterprise_deploy.Runner.Audit.{append}
use hermes_enterprise_deploy.Runner.Client.{DependencyCall, WorkflowError, Exchange}
use hermes_enterprise_deploy.Runner.Executor.{
  ApiClient, Request, Inputs, Runner, apply_incident_action, presented,
}
use hermes_enterprise_deploy.Runner.Planner.{WorkflowReceipt, PlanError, run_incident_intake}
use hermes_enterprise_deploy.Mcp.Config.{
  ConfigurationError, Environ, McpSettings, Texts, load_settings, can_mutate,
}
use hermes_enterprise_deploy.Mcp.Health.{ApiCheck, InvalidJson, check_enterprise_api}
use hermes_enterprise_deploy.Mcp.Context.{IncidentContext, fetch_incident_context}

-- The client, with the method that only the reading tools call.
pub record Connection (S : Type 0) : Type 0 where
  pub client : ApiClient S
  pub get_incident : String → S → Result WorkflowError (Fields × DependencyCall) × S

-- What a tool raises.
pub data ToolError : Type 0 where
  configuration : ConfigurationError → ToolError
  approval : ApprovalError → ToolError
  unreadable : InvalidJson → ToolError
  plan : PlanError → ToolError

abbrev pub non_empty_or : Option String → String → String
non_empty_or none token = token
non_empty_or (some t) token = if t == "" then token else t

-- `_build_client`: the token that it passes on
unfoldable pub token_for : Bool → McpSettings → String
token_for true settings = non_empty_or settings.api_write_token settings.api_token
token_for false settings = settings.api_token

-- `result.setdefault(key, value)`
abbrev pub set_default : String → Json → Fields → Fields
set_default key value fields = if has key fields then fields else set key value fields

abbrev pub scope_note : String
scope_note =
    "No ENTERPRISE_API_WRITE_TOKEN was supplied, so this tool can only present read-scope credentials and the API refuses the mutation."

-- The two keys that the tool adds to the result of the run.
abbrev pub scoped : Bool → Fields → Fields
scoped true result = set "credential_scope" (str "write_token") result
scoped false result =
    set_default "scope_note" (str scope_note)
      (set "credential_scope" (str "read_token_only") result)

module _ (p : Platform) (texts : Texts) (env : Environ) {S : Type 0}
    (connect : McpSettings → String → Connection S) (run_id : String) (now : ℕ) where
  abbrev pub Tool : Type 0 → Type 0
  Tool A = Runner S → Result ToolError A × Runner S

  -- `_audit_invocation`
  unfoldable pub audit_invocation : String → List (String × Json) → String → Runner S → Runner S
  unfolding append
  audit_invocation tool fields correlation_id r = record r {
    audit =
        append p run_id now "tool_invoked" "enterprise-mcp" (some correlation_id)
          (dict (("tool", str tool) ∷ fields)) r.audit;
  }

  abbrev pub with_settings :
      {A : Type 0} → (McpSettings → Tool A) → Result ConfigurationError McpSettings → Tool A
  with_settings tool (err e) r = (err (configuration e), r)
  with_settings tool (ok settings) r = tool settings r

  -- `load_settings` raises before anything is written.
  abbrev configured : {A : Type 0} → (McpSettings → Tool A) → Tool A
  configured tool = with_settings tool (load_settings p texts env)

  abbrev pub connection : Bool → McpSettings → Connection S
  connection write settings = connect settings (token_for write settings)

  abbrev pub invoked : Connection S → String → List (String × Json) → Runner S → Runner S
  invoked c tool fields r = audit_invocation tool fields (c.client.correlation_id r.server) r

  abbrev answer_of : Result InvalidJson ApiCheck → Result ToolError ApiCheck
  answer_of (err e) = err (unreadable e)
  answer_of (ok check) = ok check

  -- `check_enterprise_api`, with the fresh ID and the two exchanges
  unfoldable pub check_tool : String → Exchange → Exchange → Tool ApiCheck
  unfolding load_settings audit_invocation check_enterprise_api
  check_tool correlation_id first second = configured λ settings r. (
    answer_of (check_enterprise_api settings correlation_id first second),
    audit_invocation "check_enterprise_api" [] correlation_id r,
  )

  unfoldable pub context_with : String → McpSettings → Tool IncidentContext
  unfolding token_for audit_invocation fetch_incident_context
  context_with incident_id settings r =
      let c = connection false settings in
      let r1 = invoked c "get_incident_context" (("incident_id", str incident_id) ∷ []) r in
      let (context, s) =
        fetch_incident_context c.client.correlation_id c.get_incident c.client.get_runbook
          incident_id r1.server in
      (ok context, record r1 { server = s })

  unfoldable pub get_incident_context : String → Tool IncidentContext
  unfolding load_settings context_with
  get_incident_context incident_id = configured (context_with incident_id)

  abbrev flagged : WorkflowReceipt → WorkflowReceipt
  flagged receipt =
      if receipt.outcome == "success" && any (λ a. a.approval_required) receipt.proposed_actions
      then record receipt { approval_required = true }
      else receipt

  abbrev receipt_of : Result PlanError WorkflowReceipt → Result ToolError WorkflowReceipt
  receipt_of (err e) = err (plan e)
  receipt_of (ok receipt) = ok (flagged receipt)

  unfoldable pub propose_with : String → McpSettings → Tool WorkflowReceipt
  unfolding token_for audit_invocation run_incident_intake any
  propose_with incident_id settings r =
      let c = connection false settings in
      let r1 = invoked c "propose_incident_plan" (("incident_id", str incident_id) ∷ []) r in
      let (receipt, s) =
        run_incident_intake c.get_incident c.client.get_runbook incident_id r1.server in
      (receipt_of receipt, record r1 { server = s })

  unfoldable pub propose_incident_plan : String → Tool WorkflowReceipt
  unfolding load_settings propose_with
  propose_incident_plan incident_id = configured (propose_with incident_id)

  abbrev pub with_scope : McpSettings → Result ApprovalError Fields → Result ToolError Fields
  with_scope settings (err e) = err (approval e)
  with_scope settings (ok result) = ok (scoped (can_mutate settings) result)

  abbrev is_presented : Option String → Bool
  is_presented capability = elim (presented capability) [ none ↦ false | some _ ↦ true ]

  module _ (i : Inputs) where
    -- The run of the executor takes `settings.inject_failure` for the fault to inject.
    abbrev pub request_with : McpSettings → Request → Request
    request_with settings q = record q { inject = settings.inject_failure }

    unfoldable pub apply_with : Request → McpSettings → Tool Fields
    unfolding token_for audit_invocation apply_incident_action set get
    apply_with q settings r =
        let c = connection true settings in
        let r1 =
          invoked c "apply_incident_plan"
            (("incident_id", str q.incident_id)
              ∷ ("action_id", str q.action_id)
              ∷ ("approval_capability_presented", bool (is_presented q.approval_capability))
              ∷ [])
            r in
        let (result, r2) = apply_incident_action p c.client i (request_with settings q) r1 in
        (with_scope settings result, r2)

    unfoldable pub apply_incident_plan : Request → Tool Fields
    unfolding load_settings apply_with
    apply_incident_plan q = configured (apply_with q)
