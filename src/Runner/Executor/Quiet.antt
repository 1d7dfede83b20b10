-- ===== src/Runner/Executor/Quiet.antt =====
-- The stages of the executor that leave the API alone and only append to the audit log.
use hermes_enterprise_deploy.Base.{
  ◌≡◌, String, Option, none, some, List, [], ◌∷◌, Result, ok, err, refl, ◌∙◌, arith,
}
use hermes_enterprise_deploy.Base.Exec.{Exec}
use hermes_enterprise_deploy.Json.{Fields}
use hermes_enterprise_deploy.Platform.{Platform}
use hermes_enterprise_deploy.Approvals.Entry.{ApprovalError, ApprovalRequest}
use hermes_enterprise_deploy.Runner.Audit.{Lines, Continues, append-Continues}
use hermes_enterprise_deploy.Runner.Client.{DependencyCall, WorkflowError}
use hermes_enterprise_deploy.Runner.Executor.{
  ApiClient, Request, Inputs, Runner, note_calls, runbook_failed, unknown_action, request_approval,
  rejected, reconcile, conflict_failed, resumable_failed, completed, completed_with,
  completed_found, audit_accepted, after_apply, dispatch_error, existing_record,
}

-- A step that leaves the API alone, and only appends to the audit log.
pub record Quiet {S : Type 0} (r s : Runner S) : Type 0 where
  pub server : s.server ≡ r.server
  pub audit : (base : Lines) → Continues base r.audit → Continues base s.audit

pub Quiet-trans : {S : Type 0} {a b c : Runner S} → Quiet a b → Quiet b c → Quiet a c
Quiet-trans h k = record {
  server = k.server ∙ h.server;
  audit = λ base n. k.audit base (h.audit base n);
}

Quiet-same : {S : Type 0} {a : Runner S} → Quiet a a
Quiet-same = record { server = refl; audit = λ base n. n }

unfoldable pub IsQuiet : {S A : Type 0} → Exec ApprovalError (Runner S) A → Type 0
IsQuiet m = (r : Runner _) → Quiet r (m r).1

module _ (p : Platform) {S : Type 0} (client : ApiClient S) (i : Inputs) (q : Request) where
  pub note_calls-IsQuiet : (calls : List DependencyCall) → IsQuiet (note_calls p client i q calls)
  unfolding IsQuiet
  note_calls-IsQuiet calls r = record { server = refl; audit = λ base n. n }

  pub runbook_failed-IsQuiet : (e : WorkflowError) → IsQuiet (runbook_failed p client i q e)
  unfolding IsQuiet runbook_failed
  runbook_failed-IsQuiet e r = record {
    server = ground arith;
    audit = λ base n. grind (arith, append-Continues);
  }

  pub unknown_action-IsQuiet : IsQuiet (unknown_action p client i q)
  unfolding IsQuiet unknown_action
  unknown_action-IsQuiet r = record {
    server = ground arith;
    audit = λ base n. grind (arith, append-Continues);
  }

  pub request_approval-IsQuiet : (step : Fields) → IsQuiet (request_approval p client i q step)
  unfolding IsQuiet request_approval
  request_approval-IsQuiet step r = record {
    server = ground arith;
    audit = λ base n. grind (arith, append-Continues);
  }

  pub rejected-IsQuiet : (reason : String) → IsQuiet (rejected p client i q reason)
  unfolding IsQuiet rejected
  rejected-IsQuiet reason r = record {
    server = ground arith;
    audit = λ base n. grind (arith, append-Continues);
  }

  pub reconcile-IsQuiet :
      (approval : ApprovalRequest) (e : WorkflowError) (id : String)
      → IsQuiet (reconcile p client i q approval e id)
  unfolding IsQuiet reconcile
  reconcile-IsQuiet approval e id r = record {
    server = ground arith;
    audit = λ base n. grind (arith, append-Continues);
  }

  pub conflict_failed-IsQuiet :
      (approval : ApprovalRequest) (e : WorkflowError)
      → IsQuiet (conflict_failed p client i q approval e)
  unfolding IsQuiet conflict_failed
  conflict_failed-IsQuiet approval e r = record {
    server = ground arith;
    audit = λ base n. grind (arith, append-Continues);
  }

  pub resumable_failed-IsQuiet :
      (approval : ApprovalRequest) (e : WorkflowError)
      → IsQuiet (resumable_failed p client i q approval e)
  unfolding IsQuiet resumable_failed
  resumable_failed-IsQuiet approval e r = record {
    server = ground arith;
    audit = λ base n. grind (arith, append-Continues);
  }

  completed_found-IsQuiet :
      (step : Fields) (approval : ApprovalRequest) (answer : Fields) (record' : Option Fields)
      → IsQuiet (completed_found p client i q step approval answer record')
  unfolding IsQuiet completed_with
  completed_found-IsQuiet step approval answer none r = Quiet-same
  completed_found-IsQuiet step approval answer (some record') r = record {
    server = ground arith;
    audit = λ base n. grind (arith, append-Continues);
  }

  pub completed-IsQuiet :
      (step : Fields) (approval : ApprovalRequest) (answer : Fields)
      → IsQuiet (completed p client i q step approval answer)
  unfolding IsQuiet completed
  completed-IsQuiet step approval answer = completed_found-IsQuiet step approval answer _

  pub audit_accepted-IsQuiet :
      (approval : ApprovalRequest) → IsQuiet (audit_accepted p client i q approval)
  unfolding IsQuiet audit_accepted
  audit_accepted-IsQuiet approval r = record {
    server = ground arith;
    audit = λ base n. grind (arith, append-Continues);
  }

  pub dispatch_error-IsQuiet :
      (approval : ApprovalRequest) (e : WorkflowError) (o : Option String)
      → IsQuiet (dispatch_error p client i q approval e o)
  unfolding IsQuiet
  dispatch_error-IsQuiet approval e (some id) r = reconcile-IsQuiet approval e id r
  dispatch_error-IsQuiet approval e none r =
      let refusal = conflict_failed-IsQuiet approval e r in
      let failure = resumable_failed-IsQuiet approval e r in
      record {
        server = ground (arith, refusal.server, failure.server);
        audit = ground (arith, refusal.audit, failure.audit);
      }

  pub after_apply-IsQuiet :
      (step : Fields) (approval : ApprovalRequest)
      (answer : Result WorkflowError (Fields × DependencyCall))
      → IsQuiet (after_apply p client i q step approval answer)
  unfolding IsQuiet
  after_apply-IsQuiet step approval (ok (answer, call)) r =
      Quiet-trans (note_calls-IsQuiet (call ∷ []) r) (completed-IsQuiet step approval answer _)
  after_apply-IsQuiet step approval (err e) r =
      Quiet-trans (note_calls-IsQuiet _ r) (dispatch_error-IsQuiet approval e (existing_record e) _)
