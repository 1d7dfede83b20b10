-- ===== src/Runner/Executor/Gate.antt =====
-- The gate of the executor: what reaches the API.
use hermes_enterprise_deploy.Base.{
  ◌≡◌, String, Option, none, some, Result, ok, err, refl, ◌⊎◌, inl, inr, arith,
}
use hermes_enterprise_deploy.Base.Exec.{continue}
use hermes_enterprise_deploy.Json.{Fields}
use hermes_enterprise_deploy.Platform.{Platform}
use hermes_enterprise_deploy.Disk.{Disk}
use hermes_enterprise_deploy.Approvals
use hermes_enterprise_deploy.Approvals.{
  Answer, granted, refused, Entries, load_file, action_idempotency_key,
}
use hermes_enterprise_deploy.Approvals.Entry.{ApprovalError, ApprovalRequest}
use hermes_enterprise_deploy.Approvals.Validated.{Accepted, validate-Accepted}
use hermes_enterprise_deploy.Runner.Client.{DependencyCall, WorkflowError}
use hermes_enterprise_deploy.Runner.Executor.{
  ApiClient, Request, Inputs, Runner, apply_incident_action, audit_accepted, call_apply,
  call_runbook, with_step, after_validate, with_capability, after_runbook, presented,
  resolve_action, with_resolved,
}
use hermes_enterprise_deploy.Runner.Executor.Quiet.{
  IsQuiet, runbook_failed-IsQuiet, unknown_action-IsQuiet, request_approval-IsQuiet,
  rejected-IsQuiet, after_apply-IsQuiet,
}

module _ (p : Platform) {S : Type 0} (client : ApiClient S) (i : Inputs) (q : Request) where
  granted-Accepted :
      (capability : String) (d : Disk) (approval : ApprovalRequest)
      (loaded : Result ApprovalError Entries)
      → load_file p d.file ≡ loaded
      → (Approvals.validate p capability q.incident_id q.action_id i.at_validate d).0
        ≡ ok (granted approval)
      → (entries : Entries) × (load_file p d.file ≡ ok entries)
        × Accepted p capability q.incident_id q.action_id i.at_validate entries approval
  unfolding Approvals.validate Approvals.load
  granted-Accepted capability d approval (ok entries) loads e = (
    entries,
    loads,
    validate-Accepted p d entries loads capability q.incident_id q.action_id i.at_validate approval
        e,
  )
  granted-Accepted capability d approval (err error) loads e = ground arith

  -- What has been checked, and what the API gets, when a capability passes the gate: `d` is the file of
  -- approvals, `before` and `after` the states of the API.
  pub record Authorized (d : Disk) (before after : S) : Type 0 where
    pub capability : String
    pub shown : presented q.approval_capability ≡ some capability
    pub entries : Entries
    pub loads : load_file p d.file ≡ ok entries
    pub approval : ApprovalRequest
    pub accepted : Accepted p capability q.incident_id q.action_id i.at_validate entries approval
    pub sent :
        after
        ≡ (client.apply_action q.incident_id q.action_id
            (action_idempotency_key p q.incident_id q.action_id)
            q.note
            q.inject
            before).1

  after_validate-sent :
      (step : Fields) (approval : ApprovalRequest) (r : Runner S)
      → (after_validate p client i q step (granted approval) r).1.server
        ≡ (client.apply_action q.incident_id q.action_id
            (action_idempotency_key p q.incident_id q.action_id)
            q.note
            q.inject
            r.server).1
  unfolding audit_accepted call_apply IsQuiet
  after_validate-sent step approval r =
      (after_apply-IsQuiet p client i q step approval
        (client.apply_action q.incident_id q.action_id
          (action_idempotency_key p q.incident_id q.action_id) q.note q.inject r.server).0
        _).server

  Gate : Disk → S → S → Type 0
  Gate d before after = (after ≡ before) ⊎ Authorized d before after

  verdict-Gate :
      (step : Fields) (capability : String) (r : Runner S)
      (verdict : Result ApprovalError (Answer ApprovalRequest)) (d : Disk)
      → presented q.approval_capability ≡ some capability
      → (Approvals.validate p capability q.incident_id q.action_id i.at_validate r.approvals).0
        ≡ verdict
      → Gate r.approvals r.server
          (continue verdict
            (after_validate p client i q step)
            (record r { approvals = d })).1.server
  unfolding Gate IsQuiet
  verdict-Gate step capability r (err error) d shown e = inl refl
  verdict-Gate step capability r (ok (refused reason)) d shown e =
      inl (rejected-IsQuiet p client i q reason _).server
  verdict-Gate step capability r (ok (granted approval)) d shown e =
      let (entries, loads, accepted) = granted-Accepted capability r.approvals approval _ refl e in
      inr (record {
        capability = capability;
        shown = shown;
        entries = entries;
        loads = loads;
        approval = approval;
        accepted = accepted;
        sent = after_validate-sent step approval (record r { approvals = d });
      })

  with_capability-Gate :
      (step : Fields) (capability : Option String) (r : Runner S)
      → presented q.approval_capability ≡ capability
      → Gate r.approvals r.server (with_capability p client i q step capability r).1.server
  unfolding Gate IsQuiet
  with_capability-Gate step none r shown = inl (request_approval-IsQuiet p client i q step r).server
  with_capability-Gate step (some capability) r shown =
      verdict-Gate step capability r _ _ shown refl

  with_step-Gate :
      (step : Option Fields) (r : Runner S)
      → Gate r.approvals r.server (with_step p client i q step r).1.server
  unfolding Gate IsQuiet
  with_step-Gate none r = inl (unknown_action-IsQuiet p client i q r).server
  with_step-Gate (some step) r = with_capability-Gate step _ r refl

  with_resolved-Gate :
      (step : Result ApprovalError (Option Fields)) (r : Runner S)
      → Gate r.approvals r.server (with_resolved p client i q step r).1.server
  unfolding Gate
  with_resolved-Gate (err e) r = inl refl
  with_resolved-Gate (ok step) r = with_step-Gate step r

  after_runbook-Gate :
      (answer : Result WorkflowError (Fields × DependencyCall)) (r : Runner S)
      → Gate r.approvals r.server (after_runbook p client i q answer r).1.server
  unfolding Gate IsQuiet
  after_runbook-Gate (err e) r = inl (runbook_failed-IsQuiet p client i q e r).server
  after_runbook-Gate (ok (runbook, call)) r =
      with_resolved-Gate (resolve_action runbook q.action_id) _

  -- The API is left as the runbook request left it, or a capability was given that validate
  -- accepts on the entries on file at that time and the API gets one request to apply the action,
  -- under the key of the pair.
  pub apply_incident_action-gate :
      (r : Runner S)
      → ((apply_incident_action p client i q r).1.server
          ≡ (client.get_runbook q.incident_id r.server).1)
        ⊎ Authorized r.approvals
            (client.get_runbook q.incident_id r.server).1
            (apply_incident_action p client i q r).1.server
  unfolding apply_incident_action call_runbook Gate
  apply_incident_action-gate r =
      after_runbook-Gate (client.get_runbook q.incident_id r.server).0
        (record r { server = (client.get_runbook q.incident_id r.server).1 })
