-- ===== src/Tests/Whole.antt =====
-- A run of the executor over the API.
use hermes_enterprise_deploy.Base.{ℕ, some, [], ◌≡◌, ◌⊎◌}
use hermes_enterprise_deploy.Runner.Executor.{Runner, apply_incident_action}
use hermes_enterprise_deploy.Wire.{Draw, Line, delivered, wire}
use hermes_enterprise_deploy.Wire.Effect.{IsEffect, apply_incident_action-IsEffect}
use hermes_enterprise_deploy.Wire.Reading
use hermes_enterprise_deploy.Wire.Reading.{Keeps, reading_tools-Keeps}
use hermes_enterprise_deploy.Mcp.Server
use hermes_enterprise_deploy.Tests.Setup.{demo}
use hermes_enterprise_deploy.Tests.Approval.{start}
use hermes_enterprise_deploy.Tests.Handler.{tokens, api}
use hermes_enterprise_deploy.Tests.Run.{inputs, asked}
use hermes_enterprise_deploy.Tests.Tools.{texts, env}

abbrev draw : ℕ → Draw
draw n = record {
  delivery = delivered;
  api_fresh = "c8";
  client_fresh = "c9";
  stamp = record { hex = "1"; now = 5 };
}

abbrev whole : Runner Line
whole = record {
  approvals = start;
  audit = [];
  calls = [];
  server = record { api = api; correlation_id = "c1"; exchanges = 0 };
}

apply_incident_action-IsEffect_example :
    ((apply_incident_action demo
        (wire demo tokens (λ s. s) (λ s. some s) draw "write")
        inputs
        asked
        whole).1.server.api
      ≡ api)
    ⊎ IsEffect demo tokens
        (λ s. s)
        (λ s. some s)
        draw
        "write"
        inputs
        asked
        whole
        (apply_incident_action demo
          (wire demo tokens (λ s. s) (λ s. some s) draw "write")
          inputs
          asked
          whole).1.server
apply_incident_action-IsEffect_example =
    apply_incident_action-IsEffect demo tokens (λ s. s) (λ s. some s) draw "write" inputs asked
      whole

reading_tools-Keeps_example :
    Keeps demo tokens
      (λ s. s)
      (λ s. some s)
      draw
      texts
      env
      "r1"
      0
      whole
      (Server.get_incident_context demo texts env
        (Reading.connect demo tokens (λ s. s) (λ s. some s) draw)
        "r1"
        0
        "INC-2026-0042"
        whole).1
    × Keeps demo tokens
        (λ s. s)
        (λ s. some s)
        draw
        texts
        env
        "r1"
        0
        whole
        (Server.propose_incident_plan demo texts env
          (Reading.connect demo tokens (λ s. s) (λ s. some s) draw)
          "r1"
          0
          "INC-2026-0042"
          whole).1
reading_tools-Keeps_example =
    reading_tools-Keeps demo tokens (λ s. s) (λ s. some s) draw texts env "r1" 0 "INC-2026-0042"
      whole
