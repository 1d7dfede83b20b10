-- ===== src/Tests/Handler.antt =====
-- Runs of the API: a mutation whose caller is told that it failed, and the same mutation sent again.
use hermes_enterprise_deploy.Base.{true, none, some, [], ◌≡◌, ◌⊎◌, refl, ok, string_eq}
use hermes_enterprise_deploy.Api.{
  Api, Call, ApplyActionRequest, injection_mode, guard, apply_incident_action,
}
use hermes_enterprise_deploy.Api.Fixtures.{incidents}
use hermes_enterprise_deploy.Api.Auth.{Settings, require_write_token, presented_token}
use hermes_enterprise_deploy.Api.Guarded.{Passed, apply_incident_action-guarded}
use hermes_enterprise_deploy.Api.Retry.{replay_reply, apply_incident_action-retry}
use hermes_enterprise_deploy.Tests.Setup.{demo, demo-IsLawful}
use hermes_enterprise_deploy.Tests.Store.{
  scale-IsRequest, first, second, empty_world, scaled, applied_world, empty-IsStore, committed,
}

abbrev pub tokens : Settings
tokens = record { api_token = "read"; api_write_token = "write" }

abbrev faulty : Call
faulty = record {
  credentials = some (record { scheme = "bearer"; credentials = "write" });
  inject = some "error_after_commit";
  inject_header = none;
}

abbrev plain : Call
plain = record faulty { inject = none }

abbrev scale_body : ApplyActionRequest
scale_body = record { action_id = "RB-PAY-GATEWAY-01-S2"; note = none }

abbrev pub api : Api
api = record { world = empty_world; outcomes = [] }

writes : require_write_token demo tokens faulty.credentials ≡ ok tt
unfolding require_write_token presented_token
writes = refl

passes : guard demo tokens "INC-2026-0042" (some "k1") (injection_mode demo tokens faulty) ≡ ok tt
unfolding guard injection_mode incidents
passes = refl

passes_again :
    guard demo tokens "INC-2026-0042" (some "k1") (injection_mode demo tokens plain) ≡ ok tt
unfolding guard injection_mode incidents
passes_again = refl

no_mode : injection_mode demo tokens plain ≡ ""
unfolding injection_mode
no_mode = refl

apply_incident_action-guarded_example :
    ((apply_incident_action demo tokens "INC-2026-0042" scale_body faulty
        (some "k1")
        "c1"
        first
        api).1
      ≡ api)
    ⊎ Passed demo tokens "INC-2026-0042" scale_body faulty
        (some "k1")
        "c1"
        first
        api
        (apply_incident_action demo tokens "INC-2026-0042" scale_body faulty
          (some "k1")
          "c1"
          first
          api).1
apply_incident_action-guarded_example =
    apply_incident_action-guarded demo tokens "INC-2026-0042" scale_body faulty (some "k1") "c1"
      first api

apply_incident_action-retry_example :
    ((apply_incident_action demo tokens "INC-2026-0042" scale_body plain
        (some "k1")
        "c2"
        second
        (apply_incident_action demo tokens "INC-2026-0042" scale_body faulty
          (some "k1")
          "c1"
          first
          api).1).0
      ≡ ok (replay_reply demo tokens "INC-2026-0042" scaled applied_world))
    × ((apply_incident_action demo tokens "INC-2026-0042" scale_body plain
          (some "k1")
          "c2"
          second
          (apply_incident_action demo tokens "INC-2026-0042" scale_body faulty
            (some "k1")
            "c1"
            first
            api).1).1.world
        ≡ applied_world)
apply_incident_action-retry_example =
    apply_incident_action-retry demo tokens demo-IsLawful "INC-2026-0042" scale_body faulty plain
      (some "k1") "c1" "c2" first second api applied_world scaled true scale-IsRequest empty-IsStore
      writes passes committed writes passes_again no_mode
