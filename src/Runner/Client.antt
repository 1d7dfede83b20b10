-- ===== src/Runner/Client.antt =====
-- workflow-runner/workflow_runner/client.py and errors.py: one HTTP exchange, and how its outcome is
-- classified.
use hermes_enterprise_deploy.Base.{
  ℕ, ◌<◌, ◌≡◌, String, ◌<>◌, Bool, true, false, Option, none, some, [], ◌∷◌, Result, ok, err, leb,
  nat_beq, ◌||◌, if◌then◌else◌, ◌==◌, string_eq, arith, refl, Bool-cases, inl, inr,
}
use hermes_enterprise_deploy.Runner.Correlation.{normalize_correlation_id}
use hermes_enterprise_deploy.Json.{Json, str, obj, Fields, dict, get, set, end, optional}

-- `WorkflowErrorCode`
pub data ErrorCode : Type 0 where
  auth_failure not_found timeout malformed_response upstream_5xx bad_request conflict unknown :
      ErrorCode

abbrev pub code_value : ErrorCode → String
code_value auth_failure = "auth_failure"
code_value not_found = "not_found"
code_value timeout = "timeout"
code_value malformed_response = "malformed_response"
code_value upstream_5xx = "upstream_5xx"
code_value bad_request = "bad_request"
code_value conflict = "conflict"
code_value unknown = "unknown"

abbrev pub is_conflict : ErrorCode → Bool
is_conflict conflict = true
is_conflict _ = false

-- `DependencyCall`, without the elapsed time
pub record DependencyCall : Type 0 where
  pub name : String
  pub method : String
  pub path : String
  pub status_code : Option ℕ
  pub correlation_id : String
  pub error : Option String

-- `WorkflowError`; the message is text for people
pub record WorkflowError : Type 0 where
  pub code : ErrorCode
  pub correlation_id : Option String
  pub call : Option DependencyCall
  pub details : Fields

-- What `httpx` gives back: a response with its status, its text, the JSON of its body if it is JSON, and
-- its correlation header; or one of its two kinds of failure.
pub record HttpResponse : Type 0 where
  pub status : ℕ
  pub body_text : String
  pub body : Option Json
  pub correlation_header : Option String

pub data Exchange : Type 0 where
  responded : HttpResponse → Exchange
  timed_out : Exchange
  failed : String → Exchange

-- `raw_detail` of a 409: `response.json().get("detail")`, or `None`
abbrev detail_of : Option Json → Option Json
detail_of (some (obj body)) = get "detail" body
detail_of _ = none

abbrev pub workflow_error : ErrorCode → String → DependencyCall → Fields → WorkflowError
workflow_error code correlation_id call details = record {
  code = code;
  correlation_id = some correlation_id;
  call = some call;
  details = details;
}

module _ (truncate : String → String) where
  -- `value[:128]` of a non-empty text
  abbrev bounded : String → Option Json → Fields → Fields
  bounded key (some (str value)) details =
      if value == "" then details else set key (str (truncate value)) details
  bounded key _ details = details

  abbrev bounded_details : Option Json → Fields
  bounded_details (some (obj detail)) =
      bounded "existing_record_id" (get "existing_record_id" detail)
        (bounded "code" (get "code" detail) end)
  bounded_details _ = end

  -- `_classify_http_error`
  unfoldable pub classify_http_error : HttpResponse → String → DependencyCall → WorkflowError
  classify_http_error response correlation_id call =
      if nat_beq response.status 401 || nat_beq response.status 403
      then workflow_error auth_failure correlation_id call end
      else if nat_beq response.status 404
      then workflow_error not_found correlation_id call end
      else if nat_beq response.status 400
      then workflow_error bad_request correlation_id call end
      else if nat_beq response.status 409
      then workflow_error conflict correlation_id call (bounded_details (detail_of response.body))
      else if leb 500 response.status
      then workflow_error upstream_5xx correlation_id call end
      else workflow_error unknown correlation_id call end

-- The request that a method of the client sends.
pub record HttpRequest : Type 0 where
  pub name : String
  pub method : String
  pub path : String
  pub json_body : Option Fields
  pub idempotency_key : Option String
  pub inject : Option String

unfoldable pub get_incident_request : String → HttpRequest
get_incident_request incident_id = record {
  name = "get_incident";
  method = "GET";
  path = "/v1/incidents/" <> incident_id;
  json_body = none;
  idempotency_key = none;
  inject = none;
}

unfoldable pub get_runbook_request : String → HttpRequest
get_runbook_request incident_id = record {
  name = "get_runbook";
  method = "GET";
  path = "/v1/incidents/" <> incident_id <> "/runbook";
  json_body = none;
  idempotency_key = none;
  inject = none;
}

-- `params={"inject": inject} if inject else None`
abbrev non_empty : Option String → Option String
non_empty none = none
non_empty (some s) = if s == "" then none else some s

unfoldable pub apply_action_request :
    String → String → String → Option String → Option String → HttpRequest
apply_action_request incident_id action_id idempotency_key note inject = record {
  name = "apply_incident_action";
  method = "POST";
  path = "/v1/incidents/" <> incident_id <> "/actions";
  json_body = some (dict (("action_id", str action_id) ∷ ("note", optional note) ∷ []));
  idempotency_key = some idempotency_key;
  inject = non_empty inject;
}

unfoldable pub list_actions_request : String → HttpRequest
list_actions_request incident_id = record {
  name = "list_incident_actions";
  method = "GET";
  path = "/v1/incidents/" <> incident_id <> "/actions";
  json_body = none;
  idempotency_key = none;
  inject = none;
}

abbrev call_of : HttpRequest → String → Option ℕ → Option String → DependencyCall
call_of r correlation_id status error = record {
  name = r.name;
  method = r.method;
  path = r.path;
  status_code = status;
  correlation_id = correlation_id;
  error = error;
}

-- The correlation ID after a response: the header's, normalized, if there is one.
abbrev adopt : (String → Option String) → String → String → Option String → String
adopt canonical fresh correlation_id none = correlation_id
adopt canonical fresh correlation_id (some header) =
    if header == "" then correlation_id else normalize_correlation_id canonical fresh (some header)

-- The JSON of a response below 400.
abbrev read_body :
    HttpRequest → String → ℕ → Option Json → Result WorkflowError (Fields × DependencyCall)
read_body r correlation_id status none = err (
    workflow_error malformed_response correlation_id
      (call_of r correlation_id (some status) (some "invalid_json")) end)
read_body r correlation_id status (some (obj payload)) =
    ok (payload, call_of r correlation_id (some status) none)
read_body r correlation_id status (some _) = err (
    workflow_error malformed_response correlation_id
      (call_of r correlation_id (some status) (some "unexpected_shape")) end)

read_body-ok :
    (r : HttpRequest) (id : String) (status : ℕ) (o : Option Json) (payload : Fields)
    (call : DependencyCall)
    → read_body r id status o ≡ ok (payload, call)
    → (o ≡ some (obj payload)) × (call.status_code ≡ some status)
read_body-ok r id status none payload call h = cc
read_body-ok r id status (some (obj body)) payload call h = (ground arith, ground arith)
read_body-ok r id status (some _) payload call h = cc

module _ (truncate : String → String) (canonical : String → Option String) where
  -- `_request`, from the exchange on: the result, and the client's correlation ID after it.
  unfoldable pub receive :
      HttpRequest
      → String
      → String
      → Exchange
      → Result WorkflowError (Fields × DependencyCall) × String
  unfolding classify_http_error normalize_correlation_id
  receive r correlation_id fresh timed_out = (
    err (
        workflow_error timeout correlation_id (call_of r correlation_id none (some "timeout")) end),
    correlation_id,
  )
  receive r correlation_id fresh (failed message) = (
    err (workflow_error unknown correlation_id (call_of r correlation_id none (some message)) end),
    correlation_id,
  )
  receive r correlation_id fresh (responded response) =
      let id = adopt canonical fresh correlation_id response.correlation_header in
      if leb 400 response.status
      then (
        err (
            classify_http_error truncate response id
              (call_of r id (some response.status) (some response.body_text))),
        id,
      )
      else (read_body r id response.status response.body, id)

  -- When the client returns a payload, a response below 400 came, its body was that JSON object,
  -- and the evidence of the call has its status.
  pub receive-ok :
      (r : HttpRequest) (correlation_id fresh : String) (e : Exchange) (payload : Fields)
      (call : DependencyCall)
      → (receive r correlation_id fresh e).0 ≡ ok (payload, call)
      → (response : HttpResponse) × (e ≡ responded response)
        × (response.status < 400)
        × (response.body ≡ some (obj payload))
        × (call.status_code ≡ some response.status)
  unfolding receive
  receive-ok r correlation_id fresh timed_out payload call h = cc
  receive-ok r correlation_id fresh (failed m) payload call h = cc
  receive-ok r correlation_id fresh (responded response) payload call h =
      elim (Bool-cases (leb 400 response.status)) [
        | inl bad ↦
            let clash : ◌≡◌ {A = Result WorkflowError (Fields × DependencyCall)} (err _)
                (ok (payload, call)) =
              rw bad at h in
            cc
        | inr good ↦
            let id = adopt canonical fresh correlation_id response.correlation_header in
            let (body, status) =
              read_body-ok r id response.status response.body payload call (rw good at h) in
            (response, refl, ground arith, body, status)
      ]
