-- ===== src/Mcp/Health.antt =====
-- `check_enterprise_api` of enterprise-mcp/enterprise_mcp/server.py, from the settings and the two exchanges; the
-- second is read only after the first has answered. The audit line of the tool is in Server.
use hermes_enterprise_deploy.Base.{
  ℕ, String, Bool, Option, none, some, Result, ok, err, ◌==◌, string_eq, if◌then◌else◌, nat_beq,
  ◌||◌, not, ◌>>=◌,
}
use hermes_enterprise_deploy.Json.{Json}
use hermes_enterprise_deploy.Runner.Client.{HttpResponse, Exchange, responded, timed_out, failed}
use hermes_enterprise_deploy.Mcp.Config.{McpSettings, can_mutate}

-- `{"status_code": …, "body": …}`, where both are known
pub record Probe : Type 0 where
  pub status_code : ℕ
  pub body : Option Json

pub record ApiCheck : Type 0 where
  pub base_url : String
  pub correlation_id : String
  pub health : Option Probe
  pub readiness : Option Probe
  pub mutation_capability : String
  pub outcome : String
  pub error_code : Option String

-- ValueError of `response.json()`
pub data InvalidJson : Type 0 where
  invalid_json : InvalidJson

abbrev json_body : Option Json → Result InvalidJson (Option Json)
json_body none = err invalid_json
json_body (some j) = ok (some j)

abbrev pub probe : HttpResponse → Result InvalidJson Probe
probe r = do
  body ← (if nat_beq r.status 200 then json_body r.body else ok none)
  ok (record { status_code = r.status; body = body })

abbrev adopt : Option String → String → String
adopt none own = own
adopt (some header) own = if header == "" then own else header

abbrev broken : ApiCheck → String → ApiCheck
broken check code = record check { outcome = "error"; error_code = some code }

abbrev pub not_ready : ℕ → ℕ → Bool
not_ready health ready = not (nat_beq health 200) || not (nat_beq ready 200)

unfoldable pub read_readiness : ApiCheck → Probe → Exchange → Result InvalidJson ApiCheck
read_readiness check health timed_out = ok (broken check "timeout")
read_readiness check health (failed message) = ok (broken check "connection_error")
read_readiness check health (responded r) = do
  ready ← probe r
  ok (record check {
    readiness = some ready;
    correlation_id = adopt r.correlation_header check.correlation_id;
    outcome = if not_ready health.status_code ready.status_code then "degraded" else check.outcome;
  })

unfoldable pub read_health : ApiCheck → Exchange → Exchange → Result InvalidJson ApiCheck
unfolding read_readiness
read_health check timed_out second = ok (broken check "timeout")
read_health check (failed message) second = ok (broken check "connection_error")
read_health check (responded r) second = do
  health ← probe r
  read_readiness
      (record check {
        health = some health;
        correlation_id = adopt r.correlation_header check.correlation_id;
      })
      health second

unfoldable pub check_enterprise_api :
    McpSettings → String → Exchange → Exchange → Result InvalidJson ApiCheck
unfolding read_health
check_enterprise_api settings correlation_id first second =
    read_health
      (record {
        base_url = settings.api_url;
        correlation_id = correlation_id;
        health = none;
        readiness = none;
        mutation_capability = if can_mutate settings then "write_token_present" else "read_only";
        outcome = "success";
        error_code = none;
      })
      first second
