-- ===== src/Api.antt =====
-- enterprise-api/app/main.py: the handlers of the incident API. A handler runs after the framework has
-- checked the body; `outcomes` lists what `observe_action_outcome` counted. The `timeout` mode only waits.
pub mod Fixtures
pub mod Auth
pub mod Guarded
pub mod Retry
use hermes_enterprise_deploy.Base.{
  ℕ, String, Bool, true, false, Option, none, some, List, [], ◌∷◌, ◌++◌, Result, ok, err, not, ◌&&◌,
  ◌||◌, ◌==◌, string_eq, if◌then◌else◌, length, pos,
}
use hermes_enterprise_deploy.Base.Exec.{Exec, ◌>>=◌, ◌>>◌, pure, raise}
use hermes_enterprise_deploy.Json.{
  Json, str, bool, int, obj, arr, Fields, dict, get, json_of, of_dicts,
}
use hermes_enterprise_deploy.Platform.{Platform}
use hermes_enterprise_deploy.ActionStore
use hermes_enterprise_deploy.ActionStore.{World, Commit, Stamp}
use hermes_enterprise_deploy.ActionStore.Record.{StoreError, key_binding_conflict, already_applied}
use Fixtures.{incidents, runbooks}
use Auth.{Failure, http, uncaught, Settings, Credentials, require_read_token, require_write_token}

pub record Api : Type 0 where
  pub world : World
  pub outcomes : List String

-- `response.status_code` and the body
pub record Reply : Type 0 where
  pub status : ℕ
  pub body : Fields

abbrev pub Handler : Type 0 → Type 0
Handler = Exec Failure Api

-- What the framework hands to a handler.
pub record Call : Type 0 where
  pub credentials : Option Credentials
  pub inject : Option String
  pub inject_header : Option String

pub record ApplyActionRequest : Type 0 where
  pub action_id : String
  pub note : Option String

abbrev pub observe_action_outcome : String → Handler (Unit {0})
observe_action_outcome outcome api = (ok tt, record api { outcomes = api.outcomes ++ outcome ∷ [] })

abbrev pub check : Result Failure (Unit {0}) → Handler (Unit {0})
check r api = (r, api)

-- A method of the store that raises no conflict.
abbrev pub on_store : {A : Type 0} → ActionStore.Action A → Handler A
on_store m api =
    let (r, w) = m api.world in
    (elim r [ ok a ↦ ok a | err e ↦ err (uncaught e) ], record api { world = w })

-- `inject or header_value or ""`
abbrev pub first_of : Option String → Option String → String
first_of none none = ""
first_of none (some header) = header
first_of (some inject) none = inject
first_of (some inject) (some header) = if inject == "" then header else inject

abbrev pub found : String → Option Fields → Handler Reply
found missing none = raise (http 404 (str missing))
found missing (some fields) = pure (record { status = 200; body = fields })

-- `not idempotency_key or not idempotency_key.strip()`, and the key without its blanks
abbrev pub key_text : Platform → Option String → String
key_text p none = ""
key_text p (some key) = if key == "" then "" else p.strip key

module _ (p : Platform) (settings : Settings) where
  unfoldable pub injection_mode : Call → String
  injection_mode c = p.lower (p.strip (first_of c.inject c.inject_header))

  abbrev pub apply_failure_injection : String → Handler (Unit {0})
  apply_failure_injection mode =
      if mode == "error" then raise (http 500 (str "Injected upstream failure")) else pure tt

  unfoldable pub get_incident : String → Call → Handler Reply
  get_incident incident_id c = do
    check (require_read_token p settings c.credentials)
    apply_failure_injection (injection_mode c)
    found "Incident not found" (incidents incident_id)

  unfoldable pub get_runbook : String → Call → Handler Reply
  get_runbook incident_id c = do
    check (require_read_token p settings c.credentials)
    apply_failure_injection (injection_mode c)
    found "Runbook not found" (runbooks incident_id)

  unfoldable pub conflicted : String → Fields → Handler Reply
  conflicted code existing = do
    observe_action_outcome "conflict"
    raise (
        http 409 (
          obj (
            dict (
              ("code", str code)
              ∷ ("existing_record_id", json_of (get "record_id" existing))
              ∷ []))))

  -- What follows a commit that returned.
  unfoldable pub commit_reply : String → String → Fields × Bool → Handler Reply
  commit_reply mode incident_id (item, created) =
      if mode == "error_after_commit"
      then observe_action_outcome "postcommit_error"
        >> raise (http 500 (str "Injected upstream failure after commit"))
      else (do
        observe_action_outcome (if created then "created" else "replayed")
        records ← on_store (ActionStore.list_for_incident p incident_id)
        pure (record {
          status = if created then 201 else 200;
          body = dict (
              ("incident_id", str incident_id)
              ∷ ("replayed", bool (not created))
              ∷ ("record", obj item)
              ∷ ("total_actions_for_incident", int (pos (length records)))
              ∷ []);
        }))

  abbrev pub after_commit : String → String → Result StoreError (Fields × Bool) → Handler Reply
  after_commit mode incident_id (ok done) = commit_reply mode incident_id done
  after_commit mode incident_id (err (key_binding_conflict existing)) =
      conflicted "idempotency_key_binding_conflict" existing
  after_commit mode incident_id (err (already_applied existing)) =
      conflicted "incident_action_already_applied" existing
  after_commit mode incident_id (err e) = raise (uncaught e)

  abbrev pub dispatch : Commit → Stamp → String → Handler Reply
  dispatch c s mode api =
      let (r, w) = ActionStore.commit p c s api.world in
      after_commit mode c.incident_id r (record api { world = w })

  abbrev pub commit_of : String → ApplyActionRequest → String → String → Commit
  commit_of incident_id payload key correlation_id = record {
    incident_id = incident_id;
    action_id = payload.action_id;
    idempotency_key = key;
    correlation_id = correlation_id;
    note = payload.note;
  }

  abbrev is_known : Option Fields → Bool
  is_known none = false
  is_known (some _) = true

  -- The checks before the commit.
  unfoldable pub guard : String → Option String → String → Result Failure (Unit {0})
  guard incident_id idempotency_key mode =
      if not (is_known (incidents incident_id))
      then err (http 404 (str "Incident not found"))
      else if key_text p idempotency_key == ""
      then err (http 400 (str "Idempotency-Key header is required for mutations"))
      else if mode == "error"
      then err (http 500 (str "Injected upstream failure before commit"))
      else ok tt

  unfoldable pub apply_incident_action :
      String → ApplyActionRequest → Call → Option String → String → Stamp → Handler Reply
  unfolding guard
  apply_incident_action incident_id payload c idempotency_key correlation_id s = do
    check (require_write_token p settings c.credentials)
    let mode = injection_mode c
    check (guard incident_id idempotency_key mode)
    dispatch (commit_of incident_id payload (key_text p idempotency_key) correlation_id) s mode

  unfoldable pub list_incident_actions : String → Call → Handler Reply
  list_incident_actions incident_id c = do
    check (require_read_token p settings c.credentials)
    records ← on_store (ActionStore.list_for_incident p incident_id)
    pure (record {
      status = 200;
      body = dict (
          ("incident_id", str incident_id)
          ∷ ("count", int (pos (length records)))
          ∷ ("applied_actions", arr (of_dicts records))
          ∷ []);
    })

  unfoldable pub reset_actions : Call → Handler Reply
  reset_actions c = do
    check (require_write_token p settings c.credentials)
    cleared ← on_store (ActionStore.reset p)
    pure (record {
      status = 200;
      body = dict (("status", str "reset") ∷ ("cleared", int (pos cleared)) ∷ []);
    })
