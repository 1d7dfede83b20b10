-- ===== src/Wire.antt =====
-- The runner's client over the handlers of the API: workflow-runner/workflow_runner/client.py against
-- enterprise-api/app/main.py, with the correlation ID of enterprise-api/app/middleware.py. The framework routes a
-- request to the handler of its path and answers an `HTTPException` with its detail. A request or its answer may
-- be lost, which the client sees as a timeout.
pub mod Effect
pub mod Reading
use hermes_enterprise_deploy.Base.{
  ℕ, suc, String, ◌<>◌, Option, none, some, [], ◌∷◌, Result, ok, err, ◌==◌, string_eq,
  if◌then◌else◌,
}
use hermes_enterprise_deploy.Json.{Json, obj, Fields, dict}
use hermes_enterprise_deploy.Platform.{Platform}
use hermes_enterprise_deploy.ActionStore.{Stamp}
use hermes_enterprise_deploy.Api
use hermes_enterprise_deploy.Api.{Api, Call, Reply, Handler, ApplyActionRequest}
use hermes_enterprise_deploy.Api.Auth.{Failure, http, uncaught, Settings}
use hermes_enterprise_deploy.Runner.Correlation.{normalize_correlation_id}
use hermes_enterprise_deploy.Runner.Client.{
  DependencyCall, WorkflowError, HttpRequest, HttpResponse, Exchange, responded, timed_out,
  get_incident_request, get_runbook_request, apply_action_request, receive,
}
use hermes_enterprise_deploy.Runner.Executor.{ApiClient}

pub data Delivery : Type 0 where
  delivered lost unanswered : Delivery

-- What one exchange draws from outside.
pub record Draw : Type 0 where
  pub delivery : Delivery
  pub api_fresh : String
  pub client_fresh : String
  pub stamp : Stamp

pub record Line : Type 0 where
  pub api : Api
  pub correlation_id : String
  pub exchanges : ℕ

module _ (p : Platform) (settings : Settings) (truncate : String → String)
    (canonical : String → Option String) (draw : ℕ → Draw) (token : String) where
  -- The bearer token and the fault of a request.
  abbrev pub call_with : Option String → Call
  call_with inject = record {
    credentials = some (record { scheme = "Bearer"; credentials = token });
    inject = inject;
    inject_header = none;
  }

  abbrev response_of : String → Result Failure Reply → HttpResponse
  response_of id (ok reply) = record {
    status = reply.status;
    body_text = p.dumps reply.body;
    body = some (obj reply.body);
    correlation_header = some id;
  }
  response_of id (err (http status detail)) = record {
    status = status;
    body_text = p.dumps (dict (("detail", detail) ∷ []));
    body = some (obj (dict (("detail", detail) ∷ [])));
    correlation_header = some id;
  }
  response_of id (err (uncaught e)) = record {
    status = 500;
    body_text = "Internal Server Error";
    body = none;
    correlation_header = none;
  }

  -- The correlation ID that the middleware gives to a request.
  abbrev pub given_id : Line → String
  given_id l =
      normalize_correlation_id canonical (draw l.exchanges).api_fresh (some l.correlation_id)

  abbrev after :
      Line
      → Api
      → Result WorkflowError (Fields × DependencyCall) × String
      → Result WorkflowError (Fields × DependencyCall) × Line
  after l api (answer, id) =
      (answer, record { api = api; correlation_id = id; exchanges = suc l.exchanges })

  abbrev pub deliver :
      HttpRequest
      → Delivery
      → Handler Reply
      → Line
      → Result WorkflowError (Fields × DependencyCall) × Line
  deliver r lost handler l =
      after l l.api
        (receive truncate canonical r l.correlation_id (draw l.exchanges).client_fresh timed_out)
  deliver r unanswered handler l =
      let (answer, api) = handler l.api in
      after l api
        (receive truncate canonical r l.correlation_id (draw l.exchanges).client_fresh timed_out)
  deliver r delivered handler l =
      let (answer, api) = handler l.api in
      after l api (
        receive truncate canonical r l.correlation_id (draw l.exchanges).client_fresh
          (responded (response_of (given_id l) answer)))

  unfoldable pub get_incident :
      String → Line → Result WorkflowError (Fields × DependencyCall) × Line
  unfolding normalize_correlation_id receive get_incident_request
  get_incident incident_id l =
      deliver (get_incident_request incident_id) (draw l.exchanges).delivery
        (Api.get_incident p settings incident_id (call_with none)) l

  unfoldable pub get_runbook : String → Line → Result WorkflowError (Fields × DependencyCall) × Line
  unfolding normalize_correlation_id receive get_runbook_request
  get_runbook incident_id l =
      deliver (get_runbook_request incident_id) (draw l.exchanges).delivery
        (Api.get_runbook p settings incident_id (call_with none)) l

  unfoldable pub apply_action :
      String
      → String
      → String
      → Option String
      → Option String
      → Line
      → Result WorkflowError (Fields × DependencyCall) × Line
  unfolding normalize_correlation_id receive apply_action_request
  apply_action incident_id action_id key note inject l =
      let r = apply_action_request incident_id action_id key note inject in
      deliver r (draw l.exchanges).delivery
        (Api.apply_incident_action p settings incident_id
          (record { action_id = action_id; note = note }) (call_with r.inject) r.idempotency_key
          (given_id l) (draw l.exchanges).stamp)
        l

  abbrev pub wire : ApiClient Line
  wire = record {
    correlation_id = λ l. l.correlation_id;
    get_runbook = get_runbook;
    apply_action = apply_action;
  }
