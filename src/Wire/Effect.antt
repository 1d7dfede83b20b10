-- ===== src/Wire/Effect.antt =====
-- What a run of the executor does to the file of the action store, from end to end.
use hermes_enterprise_deploy.Base.{
  ℕ, String, Option, none, some, ◌≡◌, refl, sym, ap, subst, ◌∙◌, Bool-cases, ◌==◌, string_eq, ◌⊎◌,
  inl, inr, Result, ok, err,
}
use hermes_enterprise_deploy.Platform.{Platform}
use hermes_enterprise_deploy.Api
use hermes_enterprise_deploy.Api.{Api, Call, Handler, Reply, ApplyActionRequest}
use hermes_enterprise_deploy.Api.Fixtures.{runbooks}
use hermes_enterprise_deploy.Json.{Fields}
use hermes_enterprise_deploy.Base.Exec.{continue}
use hermes_enterprise_deploy.Api.Auth.{Settings, Failure, require_read_token}
use hermes_enterprise_deploy.Api.Guarded.{Passed, apply_incident_action-guarded}
use hermes_enterprise_deploy.Runner.Client.{HttpRequest, get_runbook_request, apply_action_request}
use hermes_enterprise_deploy.Runner.Executor.{Request, Inputs, Runner, apply_incident_action}
use hermes_enterprise_deploy.Runner.Executor.Gate.{Authorized, apply_incident_action-gate}
use hermes_enterprise_deploy.Approvals.{action_idempotency_key}
use hermes_enterprise_deploy.Wire
use hermes_enterprise_deploy.Wire.{Line, Draw, Delivery, delivered, lost, unanswered}

pub quiet :
    (x : Result Failure (Unit {0})) (k : Unit {0} → Handler Reply) (api : Api)
    → (k tt api).1 ≡ api
    → (continue x k api).1 ≡ api
quiet (ok tt) k api h = h
quiet (err e) k api h = refl

pub quiet_found :
    (missing : String) (o : Option Fields) (api : Api) → (Api.found missing o api).1 ≡ api
quiet_found missing none api = refl
quiet_found missing (some fields) api = refl

module _ (p : Platform) (settings : Settings) (truncate : String → String)
    (canonical : String → Option String) (draw : ℕ → Draw) (token : String) where
  pub deliver-api :
      (r : HttpRequest) (d : Delivery) (handler : Handler Reply) (l : Line)
      → ((Wire.deliver p settings truncate canonical draw token r d handler l).1.api ≡ l.api)
        ⊎ ((Wire.deliver p settings truncate canonical draw token r d handler l).1.api
            ≡ (handler l.api).1)
  deliver-api r lost handler l = inl refl
  deliver-api r unanswered handler l = inr refl
  deliver-api r delivered handler l = inr refl

  reads_only :
      (incident_id : String) (c : Call) (api : Api)
      → (Api.get_runbook p settings incident_id c api).1 ≡ api
  unfolding Api.get_runbook
  reads_only incident_id c api =
      quiet (require_read_token p settings c.credentials) _ api
        (elim (Bool-cases (Api.injection_mode p settings c == "error")) [
          | inl faulty ↦ rw faulty refl
          | inr fine ↦ rw fine (quiet_found _ (runbooks incident_id) api)
        ])

  pub runbook-api :
      (incident_id : String) (l : Line)
      → (Wire.get_runbook p settings truncate canonical draw token incident_id l).1.api ≡ l.api
  unfolding Wire.get_runbook
  runbook-api incident_id l =
      elim (deliver-api (get_runbook_request incident_id) (draw l.exchanges).delivery
        (Api.get_runbook p settings incident_id
          (Wire.call_with p settings truncate canonical draw token none))
        l) [ inl same ↦ same | inr handled ↦ handled ∙ reads_only incident_id _ l.api ]

  -- The request to apply an action under a key, sent from the line, has passed the guards of the API, and leaves on
  -- its disk what one commit leaves.
  abbrev pub Committed : Request → String → Line → Line → Type 0
  Committed q key l after =
      let r = apply_action_request q.incident_id q.action_id key q.note q.inject in
      Passed p settings q.incident_id (record { action_id = q.action_id; note = q.note })
        (Wire.call_with p settings truncate canonical draw token r.inject) r.idempotency_key
        (Wire.given_id p settings truncate canonical draw token l) (draw l.exchanges).stamp l.api
        after.api

  apply-Committed :
      (q : Request) (key : String) (l : Line)
      → ((Wire.apply_action p settings truncate canonical draw token q.incident_id q.action_id key
            q.note q.inject l).1.api
          ≡ l.api)
        ⊎ Committed q key l
            (Wire.apply_action p settings truncate canonical draw token q.incident_id q.action_id
              key q.note q.inject l).1
  unfolding Wire.apply_action
  apply-Committed q key l =
      let r = apply_action_request q.incident_id q.action_id key q.note q.inject in
      let c = Wire.call_with p settings truncate canonical draw token r.inject in
      let id = Wire.given_id p settings truncate canonical draw token l in
      let payload : ApplyActionRequest = record { action_id = q.action_id; note = q.note } in
      elim (deliver-api r (draw l.exchanges).delivery
        (Api.apply_incident_action p settings q.incident_id payload c r.idempotency_key id
          (draw l.exchanges).stamp)
        l) [
          | inl same ↦ inl same
          | inr handled ↦
              elim (apply_incident_action-guarded p settings q.incident_id payload c
                r.idempotency_key id (draw l.exchanges).stamp l.api) [
                  | inl unchanged ↦ inl (handled ∙ unchanged)
                  | inr passed ↦ inr (
                      subst
                        (Passed p settings q.incident_id payload c r.idempotency_key id
                          (draw l.exchanges).stamp l.api)
                        (sym handled) passed)
                ]
        ]

  module _ (i : Inputs) (q : Request) where
    -- The line after the request of the runbook.
    abbrev pub planned : Runner Line → Line
    planned r = (Wire.get_runbook p settings truncate canonical draw token q.incident_id r.server).1

    -- A run has written to the action store: the capability was accepted, and the API took the write as one commit
    -- for the pair under its key.
    pub record IsEffect (r : Runner Line) (after : Line) : Type 0 where
      pub accepted :
          Authorized p
            (Wire.wire p settings truncate canonical draw token)
            i
            q
            r.approvals
            (planned r)
            after
      pub same_api : (planned r).api ≡ r.server.api
      pub committed :
          Committed q (action_idempotency_key p q.incident_id q.action_id) (planned r) after

    -- With the runner's client over the handlers of the API, and whichever requests and answers
    -- are lost, a run of the executor leaves the API as it is, or a capability was given that
    -- validate accepts on the entries on file, and one request that bears the write token, names a
    -- known incident and asks for no fault before the commit leaves on the disk of the action
    -- store what one commit for the pair under its key leaves.
    pub apply_incident_action-IsEffect :
        (r : Runner Line)
        → ((apply_incident_action p
              (Wire.wire p settings truncate canonical draw token)
              i
              q
              r).1.server.api
            ≡ r.server.api)
          ⊎ IsEffect r
              (apply_incident_action p
                (Wire.wire p settings truncate canonical draw token)
                i
                q
                r).1.server
    apply_incident_action-IsEffect r =
        let w = Wire.wire p settings truncate canonical draw token in
        let key = action_idempotency_key p q.incident_id q.action_id in
        let same = runbook-api q.incident_id r.server in
        elim (apply_incident_action-gate p w i q r) [
          | inl quiet_run ↦ inl (ap (λ l. l.api) quiet_run ∙ same)
          | inr passed ↦ elim (apply-Committed q key (planned r)) [
            | inl unchanged ↦ inl (ap (λ l. l.api) passed.sent ∙ unchanged ∙ same)
            | inr done ↦ inr (record {
              accepted = passed;
              same_api = same;
              committed = subst (Committed q key (planned r)) (sym passed.sent) done;
            })
          ]
        ]
