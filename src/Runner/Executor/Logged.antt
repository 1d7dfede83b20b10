-- ===== src/Runner/Executor/Logged.antt =====
-- What the audit log says of a mutation that reached the API.
use hermes_enterprise_deploy.Base.{
  ◌≡◌, refl, ◌++◌, append_assoc, String, Option, none, some, [], ◌∷◌, Result, ok, err, ◌⊎◌, inl,
  inr,
}
use hermes_enterprise_deploy.Base.Exec.{continue}
use hermes_enterprise_deploy.Json.{Fields, str, get, get-set}
use hermes_enterprise_deploy.Platform.{Platform}
use hermes_enterprise_deploy.Approvals.{Answer, granted, refused, action_idempotency_key}
use hermes_enterprise_deploy.Approvals.Entry.{ApprovalError, ApprovalRequest}
use hermes_enterprise_deploy.Runner.Audit.{Lines, Continues, same-Continues, append, audit_record}
use hermes_enterprise_deploy.Runner.Client.{DependencyCall, WorkflowError}
use hermes_enterprise_deploy.Runner.Executor.{
  ApiClient, Request, Inputs, Runner, apply_incident_action, audit_accepted, call_apply,
  call_runbook, with_step, with_resolved, after_validate, with_capability, after_runbook,
  resolve_action,
}
use hermes_enterprise_deploy.Runner.Executor.Quiet.{
  IsQuiet, runbook_failed-IsQuiet, unknown_action-IsQuiet, request_approval-IsQuiet,
  rejected-IsQuiet, after_apply-IsQuiet,
}

module _ (p : Platform) {S : Type 0} (client : ApiClient S) (i : Inputs) (q : Request) where
  -- A line that names the event, the pair and the key of its mutation.
  pub record IsLine (event : String) (line : Fields) : Type 0 where
    pub named : get "event" line ≡ some (str event)
    pub incident : get "incident_id" line ≡ some (str q.incident_id)
    pub action : get "action_id" line ≡ some (str q.action_id)
    pub key :
        get "idempotency_key" line ≡ some (str (action_idempotency_key p q.incident_id q.action_id))

  -- The log goes on from `before` with a line for the capability and one for the attempt.
  pub record IsLogged (before after : Lines) : Type 0 where
    pub accepted : Fields
    pub attempted : Fields
    pub accepted_line : IsLine "approval_capability_accepted" accepted
    pub attempted_line : IsLine "mutation_attempted" attempted
    pub continues : Continues (before ++ accepted ∷ attempted ∷ []) after

  audit_accepted-IsLogged :
      (approval : ApprovalRequest) (r : Runner S)
      → (accepted : Fields) × (attempted : Fields) × IsLine "approval_capability_accepted" accepted
        × IsLine "mutation_attempted" attempted
        × ((audit_accepted p client i q approval r).1.audit ≡ r.audit ++ accepted ∷ attempted ∷ [])
  unfolding audit_accepted append audit_record get
  audit_accepted-IsLogged approval r = (
    _,
    _,
    record {
      named = simp get-set;
      incident = simp get-set;
      action = simp get-set;
      key = simp get-set;
    },
    record {
      named = simp get-set;
      incident = simp get-set;
      action = simp get-set;
      key = simp get-set;
    },
    append_assoc r.audit _ _,
  )

  Trace : S → Lines → Runner S → Type 0
  Trace server log r = (r.server ≡ server) ⊎ IsLogged log r.audit

  verdict-Trace :
      (step : Fields) (verdict : Result ApprovalError (Answer ApprovalRequest)) (r : Runner S)
      → Trace r.server r.audit (continue verdict (after_validate p client i q step) r).1
  unfolding Trace IsQuiet call_apply audit_accepted
  verdict-Trace step (err error) r = inl refl
  verdict-Trace step (ok (refused reason)) r = inl (rejected-IsQuiet p client i q reason r).server
  verdict-Trace step (ok (granted approval)) r =
      let (accepted, attempted, first, second, same) = audit_accepted-IsLogged approval r in
      inr (record {
        accepted = accepted;
        attempted = attempted;
        accepted_line = first;
        attempted_line = second;
        continues =
            (after_apply-IsQuiet p client i q step approval
                (client.apply_action q.incident_id q.action_id
                  (action_idempotency_key p q.incident_id q.action_id) q.note q.inject r.server).0
                _).audit
              (r.audit ++ accepted ∷ attempted ∷ []) (same-Continues _ _ same);
      })

  with_capability-Trace :
      (step : Fields) (capability : Option String) (r : Runner S)
      → Trace r.server r.audit (with_capability p client i q step capability r).1
  unfolding Trace IsQuiet
  with_capability-Trace step none r = inl (request_approval-IsQuiet p client i q step r).server
  with_capability-Trace step (some capability) r = verdict-Trace step _ _

  with_step-Trace :
      (step : Option Fields) (r : Runner S)
      → Trace r.server r.audit (with_step p client i q step r).1
  unfolding Trace IsQuiet
  with_step-Trace none r = inl (unknown_action-IsQuiet p client i q r).server
  with_step-Trace (some step) r = with_capability-Trace step _ r

  with_resolved-Trace :
      (step : Result ApprovalError (Option Fields)) (r : Runner S)
      → Trace r.server r.audit (with_resolved p client i q step r).1
  unfolding Trace
  with_resolved-Trace (err e) r = inl refl
  with_resolved-Trace (ok step) r = with_step-Trace step r

  after_runbook-Trace :
      (answer : Result WorkflowError (Fields × DependencyCall)) (r : Runner S)
      → Trace r.server r.audit (after_runbook p client i q answer r).1
  unfolding Trace IsQuiet
  after_runbook-Trace (err e) r = inl (runbook_failed-IsQuiet p client i q e r).server
  after_runbook-Trace (ok (runbook, call)) r =
      with_resolved-Trace (resolve_action runbook q.action_id) _

  -- Whatever the API answers, and also when a run ends in a raise, the API is left as the runbook
  -- request left it, or the audit log goes on from what it was with a line for the accepted
  -- capability and then one for the attempted mutation, each with the incident, the action and the
  -- key of the pair, and keeps them.
  pub apply_incident_action-IsLogged :
      (r : Runner S)
      → ((apply_incident_action p client i q r).1.server
          ≡ (client.get_runbook q.incident_id r.server).1)
        ⊎ IsLogged r.audit (apply_incident_action p client i q r).1.audit
  unfolding apply_incident_action call_runbook Trace
  apply_incident_action-IsLogged r =
      after_runbook-Trace (client.get_runbook q.incident_id r.server).0
        (record r { server = (client.get_runbook q.incident_id r.server).1 })
