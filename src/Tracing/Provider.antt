-- ===== src/Tracing/Provider.antt =====
-- The provider of app/tracing.py and workflow_runner/tracing.py: when it is installed, and where its spans go. The
-- state holds the two variables of the module, the global provider of opentelemetry, and which providers have not
-- been shut down. Every call holds the lock of the module.
use hermes_enterprise_deploy.Base.{
  ℕ, ◌+◌, String, ◌<>◌, Bool, true, false, Option, none, some, List, [], ◌∷◌, not, ◌&&◌, ◌||◌, ◌==◌,
  string_eq, if◌then◌else◌, nat_beq, filter,
}
use hermes_enterprise_deploy.Base.Members.{contains}
use hermes_enterprise_deploy.Platform.{Platform}
use hermes_enterprise_deploy.Mcp.Config.{Environ}

-- What the module calls of Python's texts, URLs and addresses.
pub record Urls : Type 0 where
  -- `value.rstrip("/")`
  pub rstrip_slash : String → String
  -- scheme and hostname of `urlparse(url)`
  pub scheme : String → String
  pub hostname : String → Option String
  -- `ipaddress.ip_address(host).is_loopback`, with `none` for its ValueError
  pub ip_is_loopback : String → Option Bool

-- An exporter that a caller supplies, or that of an OTLP endpoint.
pub data Exporter : Type 0 where
  supplied : Exporter
  otlp : String → Exporter

pub record Provider : Type 0 where
  pub number : ℕ
  pub exporter : Exporter

pub record Tracing : Type 0 where
  pub provider : Option Provider
  pub configured : Bool
  pub global : Option Provider
  pub live : List Provider
  pub next : ℕ

abbrev pub initial : Tracing
initial = record { provider = none; configured = false; global = none; live = []; next = 0 }

-- `provider.shutdown()`
abbrev pub shut : Provider → List Provider → List Provider
shut old live = filter (λ q. not (nat_beq q.number old.number)) live

abbrev pub shut_any : Option Provider → List Provider → List Provider
shut_any none live = live
shut_any (some old) live = shut old live

-- `_reset_global_provider`
unfoldable pub reset_global_provider : Tracing → Tracing
unfolding filter
reset_global_provider t = record t { live = shut_any t.global t.live; global = none }

-- From `if _provider is not None` of `configure_tracing` on, `_install_global_provider` included.
unfoldable pub install : Exporter → Tracing → Tracing
unfolding reset_global_provider
install exporter t =
    let fresh : Provider = record { number = t.next; exporter = exporter } in
    let reset = reset_global_provider (record t {
      live = fresh ∷ shut_any t.provider t.live;
      provider = some fresh;
      configured = true;
      next = t.next + 1;
    }) in
    record reset { global = some fresh }

unfoldable pub shutdown_tracing : Tracing → Tracing
unfolding filter
shutdown_tracing t = record t {
  live = shut_any t.provider t.live;
  provider = none;
  configured = false;
}

unfoldable pub reset_tracing_for_tests : Tracing → Tracing
unfolding shutdown_tracing reset_global_provider
reset_tracing_for_tests t = reset_global_provider (shutdown_tracing t)

abbrev pub is_some : {A : Type 0} → Option A → Bool
is_some none = false
is_some (some a) = true

module _ (p : Platform) (urls : Urls) where
  -- `os.environ.get(name, "").strip()`
  abbrev value_of : Option String → String
  value_of none = p.strip ""
  value_of (some value) = p.strip value

  unfoldable pub endpoint_from_env : Environ → Option String
  endpoint_from_env env =
      let traces = value_of (env "OTEL_EXPORTER_OTLP_TRACES_ENDPOINT") in
      let base = value_of (env "OTEL_EXPORTER_OTLP_ENDPOINT") in
      if not (traces == "")
      then some traces
      else if not (base == "")
      then some (urls.rstrip_slash base <> "/v1/traces")
      else none

  abbrev loopback_address : Option Bool → Bool
  loopback_address none = false
  loopback_address (some b) = b

  abbrev loopback_host : Option String → Bool
  loopback_host none = false
  loopback_host (some host) =
      not (host == "")
      && (contains ("localhost" ∷ "127.0.0.1" ∷ "::1" ∷ []) host
          || loopback_address (urls.ip_is_loopback host))

  unfoldable pub is_loopback_url : String → Bool
  unfolding contains
  is_loopback_url url =
      contains ("http" ∷ "https" ∷ []) (urls.scheme url) && loopback_host (urls.hostname url)

  abbrev pub loopback_endpoint : Option String → Bool
  loopback_endpoint none = false
  loopback_endpoint (some endpoint) = not (endpoint == "") && is_loopback_url endpoint

  unfoldable pub tracing_enabled : Environ → Bool
  unfolding endpoint_from_env is_loopback_url
  tracing_enabled env =
      p.lower (value_of (env "OTEL_TRACES_EXPORTER")) == "otlp"
      && loopback_endpoint (endpoint_from_env env)

  abbrev pub disabled : Tracing → Tracing
  disabled t = record t { configured = true; provider = none }

  abbrev pub install_endpoint : Option String → Tracing → Tracing
  install_endpoint none t = disabled t
  install_endpoint (some endpoint) t = install (otlp endpoint) t

  -- The provider that the function returns is that of the state after it.
  unfoldable pub configure_tracing : Option Exporter → Environ → Tracing → Tracing
  unfolding install tracing_enabled
  configure_tracing (some exporter) env t = install exporter t
  configure_tracing none env t =
      if t.configured && (is_some t.provider || not (tracing_enabled env))
      then t
      else if not (tracing_enabled env)
      then disabled t
      else install_endpoint (endpoint_from_env env) t
