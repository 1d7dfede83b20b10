-- ===== src/Wire/Reading.antt =====
-- The two tools of the MCP server that read and plan, over the handlers of the API.
use hermes_enterprise_deploy.Base.{
  ℕ, String, Option, none, ◌≡◌, refl, ◌∙◌, inl, inr, Result, ok, err, Bool-cases, ◌==◌, string_eq,
}
use hermes_enterprise_deploy.Json.{Fields}
use hermes_enterprise_deploy.Platform.{Platform}
use hermes_enterprise_deploy.Api
use hermes_enterprise_deploy.Api.{Api, Call}
use hermes_enterprise_deploy.Api.Fixtures.{incidents}
use hermes_enterprise_deploy.Api.Auth.{Settings, require_read_token}
use hermes_enterprise_deploy.Runner.Client.{DependencyCall, WorkflowError, get_incident_request}
use hermes_enterprise_deploy.Runner.Executor.{Runner}
use hermes_enterprise_deploy.Runner.Planner
use hermes_enterprise_deploy.Mcp.Config.{
  ConfigurationError, Environ, McpSettings, Texts, load_settings,
}
use hermes_enterprise_deploy.Mcp.Context
use hermes_enterprise_deploy.Mcp.Server
use hermes_enterprise_deploy.Wire
use hermes_enterprise_deploy.Wire.{Line, Draw}
use hermes_enterprise_deploy.Wire.Effect.{quiet, quiet_found, deliver-api, runbook-api}

abbrev Answer : Type 0
Answer = Result WorkflowError (Fields × DependencyCall)

-- A method of the client that leaves the API as it is.
abbrev IsReading : (String → Line → Answer × Line) → Type 0
IsReading get = (id : String) (l : Line) → (get id l).1.api ≡ l.api

context-api :
    (own : Line → String) (get_incident get_runbook : String → Line → Answer × Line)
    → IsReading get_incident
    → IsReading get_runbook
    → (id : String) (l : Line)
    → (Context.fetch_incident_context own get_incident get_runbook id l).1.api ≡ l.api
unfolding Context.fetch_incident_context
context-api own get_incident get_runbook f g id l =
    second (get_incident id l).0 (get_incident id l).1 ∙ f id l
  where
    second :
        (a : Answer) (l' : Line)
        → (Context.with_incident own get_incident get_runbook id a l').1.api ≡ l'.api
    second (err e) l' = refl
    second (ok (incident, call)) l' = g id l'

intake-api :
    (get_incident get_runbook : String → Line → Answer × Line)
    → IsReading get_incident
    → IsReading get_runbook
    → (id : String) (l : Line)
    → (Planner.run_incident_intake get_incident get_runbook id l).1.api ≡ l.api
unfolding Planner.run_incident_intake
intake-api get_incident get_runbook f g id l =
    second (get_incident id l).0 (get_incident id l).1 ∙ f id l
  where
    second :
        (a : Answer) (l' : Line) → (Planner.intake get_incident get_runbook id a l').1.api ≡ l'.api
    second (err e) l' = refl
    second (ok (incident, call)) l' = g id l'

module _ (p : Platform) (settings : Settings) (truncate : String → String)
    (canonical : String → Option String) (draw : ℕ → Draw) where
  incident-api :
      (token : String) → IsReading (Wire.get_incident p settings truncate canonical draw token)
  unfolding Wire.get_incident Api.get_incident
  incident-api token id l =
      elim (deliver-api p settings truncate canonical draw token (get_incident_request id)
        (draw l.exchanges).delivery
        (Api.get_incident p settings id
          (Wire.call_with p settings truncate canonical draw token none))
        l) [
          | inl same ↦ same
          | inr handled ↦
              handled ∙ reads (Wire.call_with p settings truncate canonical draw token none) l.api
        ]
    where
      reads : (c : Call) (api : Api) → (Api.get_incident p settings id c api).1 ≡ api
      reads c api =
          quiet (require_read_token p settings c.credentials) _ api
            (elim (Bool-cases (Api.injection_mode p settings c == "error")) [
              | inl faulty ↦ rw faulty refl
              | inr fine ↦ rw fine (quiet_found _ (incidents id) api)
            ])

  -- The connection of a tool: the client that presents the token.
  abbrev pub connect : McpSettings → String → Server.Connection Line
  connect mcp token = record {
    client = Wire.wire p settings truncate canonical draw token;
    get_incident = Wire.get_incident p settings truncate canonical draw token;
  }

  module _ (texts : Texts) (env : Environ) (run_id : String) (now : ℕ) where
    -- The tool leaves the API and the approvals as they are.
    abbrev IsReadOnly : {A : Type 0} → Server.Tool p texts env connect run_id now A → Type 0
    IsReadOnly tool =
        (r : Runner Line)
        → ((tool r).1.server.api ≡ r.server.api) × ((tool r).1.approvals ≡ r.approvals)

    with_settings-IsReadOnly :
        {A : Type 0} (tool : McpSettings → Server.Tool p texts env connect run_id now A)
        (s : Result ConfigurationError McpSettings)
        → ((m : McpSettings) → IsReadOnly (tool m))
        → IsReadOnly (Server.with_settings p texts env connect run_id now tool s)
    with_settings-IsReadOnly tool (err e) h r = (refl, refl)
    with_settings-IsReadOnly tool (ok m) h r = h m r

    context-IsReadOnly :
        (incident_id : String) (m : McpSettings)
        → IsReadOnly (Server.context_with p texts env connect run_id now incident_id m)
    unfolding Server.context_with Server.audit_invocation Server.token_for
    context-IsReadOnly incident_id m r = (
      context-api (λ l. l.correlation_id)
          (Wire.get_incident p settings truncate canonical draw m.api_token)
          (Wire.get_runbook p settings truncate canonical draw m.api_token)
          (incident-api m.api_token) (runbook-api p settings truncate canonical draw m.api_token)
          incident_id r.server,
      refl,
    )

    propose-IsReadOnly :
        (incident_id : String) (m : McpSettings)
        → IsReadOnly (Server.propose_with p texts env connect run_id now incident_id m)
    unfolding Server.propose_with Server.audit_invocation Server.token_for
    propose-IsReadOnly incident_id m r = (
      intake-api (Wire.get_incident p settings truncate canonical draw m.api_token)
          (Wire.get_runbook p settings truncate canonical draw m.api_token)
          (incident-api m.api_token) (runbook-api p settings truncate canonical draw m.api_token)
          incident_id r.server,
      refl,
    )

    abbrev pub Keeps : Runner Line → Runner Line → Type 0
    Keeps r r' = (r'.server.api ≡ r.server.api) × (r'.approvals ≡ r.approvals)

    -- With the runner's client over the handlers of the API, and whichever requests and answers
    -- are lost, the tools that read the context of an incident and that propose a plan leave the
    -- API and the approval file as they are, whatever tokens are configured.
    pub reading_tools-Keeps :
        (incident_id : String) (r : Runner Line)
        → Keeps r (Server.get_incident_context p texts env connect run_id now incident_id r).1
          × Keeps r (Server.propose_incident_plan p texts env connect run_id now incident_id r).1
    unfolding Server.get_incident_context Server.propose_incident_plan
    reading_tools-Keeps incident_id r = (
      with_settings-IsReadOnly (Server.context_with p texts env connect run_id now incident_id)
          (load_settings p texts env) (context-IsReadOnly incident_id) r,
      with_settings-IsReadOnly (Server.propose_with p texts env connect run_id now incident_id)
          (load_settings p texts env) (propose-IsReadOnly incident_id) r,
    )
