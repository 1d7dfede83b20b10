-- ===== src/Tests/Tools.antt =====
-- The MCP server over a configuration with a write token.
use hermes_enterprise_deploy.Base.{
  ℕ, String, true, none, some, List, [], ◌∷◌, ◌≡◌, refl, ok, ◌==◌, string_eq, if◌then◌else◌, filter,
}
use hermes_enterprise_deploy.Base.Members.{contains}
use hermes_enterprise_deploy.Mcp.Config.{
  Texts, Environ, McpSettings, enabled_tools_from_env, resolve_enabled_tools, items_of, unknown_of,
}
use hermes_enterprise_deploy.Mcp.Surface.{
  register_all, build_server, Chosen, AllKnown, resolve_enabled_tools-Chosen,
}
use hermes_enterprise_deploy.Mcp.Exposed.{Asked, build_server-Asked}
use hermes_enterprise_deploy.Mcp.Server.{Connection, apply_incident_plan}
use hermes_enterprise_deploy.Mcp.Scoped.{Outcome, apply_incident_plan-Outcome}
use hermes_enterprise_deploy.Tests.Setup.{demo}
use hermes_enterprise_deploy.Tests.Run.{api, call, runbook, inputs, asked, runner}

abbrev pub texts : Texts
texts = record {
  split_commas = λ text. text ∷ [];
  rstrip_slash = λ text. text;
  float = λ text. some text;
}

abbrev pub env : Environ
env name =
    if name == "ENTERPRISE_MCP_ENABLED_TOOLS"
    then some "apply_incident_plan"
    else if name == "ENTERPRISE_API_TOKEN"
    then some "read"
    else none

abbrev one_tool : List String
one_tool = "apply_incident_plan" ∷ []

resolves : resolve_enabled_tools demo texts (some "apply_incident_plan") ≡ ok one_tool
unfolding resolve_enabled_tools items_of unknown_of contains filter
resolves = refl

resolve_enabled_tools-Chosen_example :
    Chosen demo texts one_tool (some "apply_incident_plan") × AllKnown one_tool
resolve_enabled_tools-Chosen_example =
    resolve_enabled_tools-Chosen demo texts (some "apply_incident_plan") one_tool resolves

enables : enabled_tools_from_env demo texts env ≡ ok one_tool
unfolding enabled_tools_from_env resolve_enabled_tools items_of unknown_of contains filter
enables = refl

builds : build_server (λ names. names) one_tool ≡ ok one_tool
unfolding build_server register_all contains
builds = refl

build_server-Asked_example :
    ((name : String) → contains one_tool name ≡ contains one_tool name)
    × (contains one_tool "apply_incident_plan" ≡ true
        → Asked demo texts (some "apply_incident_plan"))
build_server-Asked_example =
    build_server-Asked demo texts (λ names. names) (λ names name. refl) env one_tool one_tool
      enables builds

abbrev connect : McpSettings → String → Connection ℕ
connect settings token = record {
  client = api;
  get_incident = λ incident_id n. (ok (runbook, call), n);
}

apply_incident_plan-Outcome_example :
    Outcome demo texts env connect "r1" 0 inputs asked runner
      (apply_incident_plan demo texts env connect "r1" 0 inputs asked runner).0
      (apply_incident_plan demo texts env connect "r1" 0 inputs asked runner).1
apply_incident_plan-Outcome_example =
    apply_incident_plan-Outcome demo texts env connect "r1" 0 inputs asked runner
