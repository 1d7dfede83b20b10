-- ===== src/Tests/Spans.antt =====
-- Spans and providers of the tracing modules.
use hermes_enterprise_deploy.Base.{true, none, some, List, [], ◌∷◌, ◌==◌, string_eq, if◌then◌else◌}
use hermes_enterprise_deploy.Json.{str, end, dict}
use hermes_enterprise_deploy.Mcp.Config.{Environ}
use hermes_enterprise_deploy.Tracing.Allowed.{Span}
use hermes_enterprise_deploy.Tracing.Clean
use hermes_enterprise_deploy.Tracing.Clean.{
  IsCleanSpan, set_attributes, add_event, run_calls-IsCleanSpan,
}
use hermes_enterprise_deploy.Tracing.Provider.{Urls, initial}
use hermes_enterprise_deploy.Tracing.Loopback
use hermes_enterprise_deploy.Tracing.Loopback.{IsCoherent, configure, shutdown, run_calls-initial}
use hermes_enterprise_deploy.Tests.Setup.{demo}

abbrev span : Span
span = record { is_recording = true; attributes = end; events = [] }

abbrev calls : List (Clean.Call demo)
calls =
    set_attributes (dict (("http.method", str "GET") ∷ ("token", str "cap_1") ∷ []))
    ∷ add_event "mutation.applied" (dict (("reason", str "approval_expired") ∷ []))
    ∷ []

run_calls-IsCleanSpan_example : IsCleanSpan (Clean.run_calls demo calls span)
run_calls-IsCleanSpan_example = run_calls-IsCleanSpan demo calls span (tt, tt)

abbrev urls : Urls
urls = record {
  rstrip_slash = λ text. text;
  scheme = λ url. "http";
  hostname = λ url. some "localhost";
  ip_is_loopback = λ host. none;
}

abbrev env : Environ
env name =
    if name == "OTEL_TRACES_EXPORTER"
    then some "otlp"
    else if name == "OTEL_EXPORTER_OTLP_ENDPOINT"
    then some "http://localhost:4318"
    else none

run_calls-initial_example :
    IsCoherent demo urls
      (Loopback.run_calls demo urls (configure env ∷ shutdown ∷ configure env ∷ []) initial)
run_calls-initial_example =
    run_calls-initial demo urls (configure env ∷ shutdown ∷ configure env ∷ [])
