-- ===== src/Api/Fixtures.antt =====
-- enterprise-api/app/fixtures.py: the incident and the runbook that the API serves.
use hermes_enterprise_deploy.Base.{
  String, ◌<>◌, Option, none, some, [], ◌∷◌, ◌==◌, string_eq, if◌then◌else◌, true, false, pos,
}
use hermes_enterprise_deploy.Json.{str, bool, int, arr, obj, nil, cons, Fields, dict}

abbrev incident : Fields
incident = dict (
    ("incident_id", str "INC-2026-0042")
    ∷ ("title", str "Elevated API latency in payment gateway")
    ∷ ("severity", str "high")
    ∷ ("status", str "investigating")
    ∷ ("affected_service", str "payment-gateway")
    ∷ (
      "summary",
      str (
          "P95 latency for /v1/charges exceeded 2s for 12 minutes. "
          <> "No customer-visible errors yet; synthetic monitors are degraded."),
    )
    ∷ ("created_at", str "2026-07-27T14:30:00Z")
    ∷ ("updated_at", str "2026-07-27T14:42:00Z")
    ∷ [])

-- `INCIDENTS.get(incident_id)`
unfoldable pub incidents : String → Option Fields
incidents incident_id = if incident_id == "INC-2026-0042" then some incident else none

abbrev check_step : Fields
check_step = dict (
    ("step_id", str "RB-PAY-GATEWAY-01-S1")
    ∷ ("order", int (pos 1))
    ∷ ("action", str "Confirm synthetic monitor status and recent deploys")
    ∷ ("approval_required", bool false)
    ∷ [])

abbrev scale_step : Fields
scale_step = dict (
    ("step_id", str "RB-PAY-GATEWAY-01-S2")
    ∷ ("order", int (pos 2))
    ∷ ("action", str "Scale payment-gateway replicas by +1 if CPU > 75%")
    ∷ ("approval_required", bool true)
    ∷ [])

abbrev page_step : Fields
page_step = dict (
    ("step_id", str "RB-PAY-GATEWAY-01-S3")
    ∷ ("order", int (pos 3))
    ∷ ("action", str "Page payments SRE if latency remains above SLO for 15 minutes")
    ∷ ("approval_required", bool true)
    ∷ [])

abbrev runbook : Fields
runbook = dict (
    ("incident_id", str "INC-2026-0042")
    ∷ ("runbook_id", str "RB-PAY-GATEWAY-01")
    ∷ ("title", str "Payment Gateway Latency Response")
    ∷ ("owner_team", str "platform-oncall")
    ∷ ("steps", arr (cons (obj check_step) (cons (obj scale_step) (cons (obj page_step) nil))))
    ∷ (
      "references",
      arr (cons (str "https://internal.example/runbooks/payment-gateway-latency") nil),
    )
    ∷ [])

-- `RUNBOOKS.get(incident_id)`
unfoldable pub runbooks : String → Option Fields
runbooks incident_id = if incident_id == "INC-2026-0042" then some runbook else none
