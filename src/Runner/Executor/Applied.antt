-- ===== src/Runner/Executor/Applied.antt =====
-- What a run that reports an applied or replayed action leaves in the approval file, and what no later run does.
use hermes_enterprise_deploy.Base.{
  ◌≡◌, String, Bool, true, Option, none, some, [], ◌∷◌, Result, ok, err, refl, ap, subst, sym,
  arith, ◌||◌, string_eq, if◌then◌else◌,
}
use hermes_enterprise_deploy.Base.Exec.{Exec, continue}
use hermes_enterprise_deploy.Json.{Json, str, Fields, get, is_str, dict, truthy, json_of}
use hermes_enterprise_deploy.Platform.{Platform, IsLawful}
use hermes_enterprise_deploy.Disk.{Disk}
use hermes_enterprise_deploy.Approvals
use hermes_enterprise_deploy.Approvals.{Answer, granted, refused, Entries, load_file}
use hermes_enterprise_deploy.Approvals.Entry.{ApprovalError, ApprovalRequest}
use hermes_enterprise_deploy.Approvals.Closing.{
  Approved, Spent, record_attempt-Approved, mark_applied-Spent,
}
use hermes_enterprise_deploy.Approvals.Accepting.{validate-Approved}
use hermes_enterprise_deploy.Runner.Client.{DependencyCall, WorkflowError}
use hermes_enterprise_deploy.Runner.Executor.{
  ApiClient, Request, Inputs, Runner, apply_incident_action, runbook_failed, unknown_action,
  request_approval, rejected, reconcile, conflict_failed, resumable_failed, completed,
  audit_accepted, call_apply, call_runbook, with_step, after_apply, dispatch_error, after_validate,
  with_capability, after_runbook, resolve_action, existing_record, completed_with, completed_found,
  with_resolved, record_in, json_or_empty,
}

-- The run reports that the action is applied, by this run or by an earlier one.
abbrev pub is_done : Option Json → Bool
is_done status = is_str "applied" status || is_str "replayed" status

abbrev pub Reports : {S : Type 0} → Result ApprovalError Fields × Runner S → Type 0
Reports (ok payload, r) = is_done (get "status" payload) ≡ true
Reports (err e, r) = ⊥

-- A record that is a dict names itself by a text, or not at all.
abbrev HasTextId : Option Fields → Type 0
HasTextId none = Unit
HasTextId (some record') = (id : String) × (json_or_empty (get "record_id" record') ≡ str id)

-- An answer of the API to a request to apply an action is documented to name its record by a text.
abbrev pub NamesRecord : Result WorkflowError (Fields × DependencyCall) → Type 0
NamesRecord (err e) = Unit
NamesRecord (ok (answer, call)) = HasTextId (record_in (get "record" answer))

step_done :
    {S : Type 0} (x : Result ApprovalError (Unit {0}))
    (f : Unit {0} → Exec ApprovalError (Runner S) Fields) (r : Runner S)
    → Reports (continue x f r)
    → x ≡ ok tt
step_done (ok tt) f r h = refl
step_done (err e) f r h = absurd h

module _ (p : Platform) (law : IsLawful p) {S : Type 0} (client : ApiClient S) (i : Inputs)
    (q : Request) where
  runbook_failed-silent :
      (e : WorkflowError) (r : Runner S) → ¬ Reports (runbook_failed p client i q e r)
  unfolding runbook_failed get
  runbook_failed-silent e r h = ground arith

  unknown_action-silent : (r : Runner S) → ¬ Reports (unknown_action p client i q r)
  unfolding unknown_action get
  unknown_action-silent r h = ground arith

  request_approval-silent :
      (step : Fields) (r : Runner S) → ¬ Reports (request_approval p client i q step r)
  unfolding request_approval get
  request_approval-silent step r h = ground arith

  rejected-silent : (reason : String) (r : Runner S) → ¬ Reports (rejected p client i q reason r)
  unfolding rejected get
  rejected-silent reason r h = ground arith

  dispatch_error-silent :
      (a : ApprovalRequest) (e : WorkflowError) (o : Option String) (r : Runner S)
      → ¬ Reports (dispatch_error p client i q a e o r)
  unfolding reconcile conflict_failed resumable_failed get
  dispatch_error-silent a e (some id) r h = ground arith
  dispatch_error-silent a e none r h = ground arith

  completed_with-Spent :
      (step : Fields) (a : ApprovalRequest) (answer record' : Fields) (id : String) (r : Runner S)
      → json_or_empty (get "record_id" record') ≡ str id
      → Approved p law q.incident_id q.action_id a.approval_id r.approvals
      → Reports (completed_with p client i q step a answer record' r)
      → Spent p law q.incident_id q.action_id
          (completed_with p client i q step a answer record' r).1.approvals
  unfolding completed_with
  completed_with-Spent step a answer record' id r named approved h =
      let outcome = if truthy (get "replayed" answer) then "replayed" else "committed" in
      let detail = dict (
        ("record_id", json_of (get "record_id" record'))
        ∷ ("correlation_id", str (client.correlation_id r.server))
        ∷ []) in
      let (done, d) =
        Approvals.record_attempt p a.approval_id i.at_attempt outcome detail r.approvals in
      let attempted : done ≡ ok tt = step_done done _ _ h in
      let recorded =
        record_attempt-Approved p law q.incident_id q.action_id a.approval_id r.approvals
          i.at_attempt approved outcome detail attempted in
      let (done', d') =
        Approvals.mark_applied p a.approval_id i.at_mark (json_or_empty (get "record_id" record'))
          d in
      let marked : done' ≡ ok tt = step_done done' _ _ (rw attempted at h) in
      rw (attempted, marked)
        (subst
          (λ v.
            (Approvals.mark_applied p a.approval_id i.at_mark v d).0 ≡ ok tt
            → Spent p law q.incident_id q.action_id
                (Approvals.mark_applied p a.approval_id i.at_mark v d).1)
          (sym named)
          (mark_applied-Spent p law q.incident_id q.action_id a.approval_id d i.at_mark recorded id)
          marked)

  completed_found-Spent :
      (step : Fields) (a : ApprovalRequest) (answer : Fields) (record' : Option Fields)
      (r : Runner S)
      → HasTextId record'
      → Approved p law q.incident_id q.action_id a.approval_id r.approvals
      → Reports (completed_found p client i q step a answer record' r)
      → Spent p law q.incident_id q.action_id
          (completed_found p client i q step a answer record' r).1.approvals
  completed_found-Spent step a answer none r named approved h = absurd h
  completed_found-Spent step a answer (some record') r (id, named) approved h =
      completed_with-Spent step a answer record' id r named approved h

  completed-Spent :
      (step : Fields) (a : ApprovalRequest) (answer : Fields) (r : Runner S)
      → HasTextId (record_in (get "record" answer))
      → Approved p law q.incident_id q.action_id a.approval_id r.approvals
      → Reports (completed p client i q step a answer r)
      → Spent p law q.incident_id q.action_id (completed p client i q step a answer r).1.approvals
  unfolding completed
  completed-Spent step a answer r named approved h =
      completed_found-Spent step a answer _ r named approved h

  answered :
      (step : Fields) (a : ApprovalRequest)
      (answer : Result WorkflowError (Fields × DependencyCall)) (r : Runner S)
      → NamesRecord answer
      → Approved p law q.incident_id q.action_id a.approval_id r.approvals
      → Reports (after_apply p client i q step a answer r)
      → Spent p law q.incident_id q.action_id (after_apply p client i q step a answer r).1.approvals
  answered step a (ok (answer, call)) r named approved h =
      completed-Spent step a answer _ named approved h
  answered step a (err e) r named approved h =
      absurd (dispatch_error-silent a e (existing_record e) _ h)

  -- What the API answers to the request of this run names its record.
  abbrev pub NamesRecords : Type 0
  NamesRecords =
      (s : S)
      → NamesRecord
          (client.apply_action q.incident_id q.action_id
            (Approvals.action_idempotency_key p q.incident_id q.action_id) q.note q.inject s).0

  verdict-Spent :
      (step : Fields) (capability : String) (es : Entries) (r : Runner S)
      (verdict : Result ApprovalError (Answer ApprovalRequest)) (d : Disk)
      → NamesRecords
      → load_file p r.approvals.file ≡ ok es
      → Approvals.validate p capability q.incident_id q.action_id i.at_validate r.approvals
        ≡ (verdict, d)
      → Reports (continue verdict (after_validate p client i q step) (record r { approvals = d }))
      → Spent p law q.incident_id q.action_id
          (continue verdict
            (after_validate p client i q step)
            (record r { approvals = d })).1.approvals
  unfolding audit_accepted call_apply
  verdict-Spent step capability es r (err e) d named loads v h = absurd h
  verdict-Spent step capability es r (ok (refused reason)) d named loads v h =
      absurd (rejected-silent reason _ h)
  verdict-Spent step capability es r (ok (granted a)) d named loads v h =
      let before =
        validate-Approved p law q.incident_id q.action_id i.at_validate r.approvals es loads
          capability {a = a} (ap (λ w. w.0) v) in
      let now =
        subst (Approved p law q.incident_id q.action_id a.approval_id) (ap (λ w. w.1) v) before in
      answered step a
        (client.apply_action q.incident_id q.action_id
          (Approvals.action_idempotency_key p q.incident_id q.action_id) q.note q.inject r.server).0
        _ (named r.server) now h

  with_capability-Spent :
      (step : Fields) (capability : Option String) (es : Entries) (r : Runner S)
      → NamesRecords
      → load_file p r.approvals.file ≡ ok es
      → Reports (with_capability p client i q step capability r)
      → Spent p law q.incident_id q.action_id
          (with_capability p client i q step capability r).1.approvals
  with_capability-Spent step none es r named loads h = absurd (request_approval-silent step r h)
  with_capability-Spent step (some capability) es r named loads h =
      verdict-Spent step capability es r _ _ named loads refl h

  with_step-Spent :
      (step : Option Fields) (es : Entries) (r : Runner S)
      → NamesRecords
      → load_file p r.approvals.file ≡ ok es
      → Reports (with_step p client i q step r)
      → Spent p law q.incident_id q.action_id (with_step p client i q step r).1.approvals
  with_step-Spent none es r named loads h = absurd (unknown_action-silent r h)
  with_step-Spent (some step) es r named loads h = with_capability-Spent step _ es r named loads h

  with_resolved-Spent :
      (step : Result ApprovalError (Option Fields)) (es : Entries) (r : Runner S)
      → NamesRecords
      → load_file p r.approvals.file ≡ ok es
      → Reports (with_resolved p client i q step r)
      → Spent p law q.incident_id q.action_id (with_resolved p client i q step r).1.approvals
  with_resolved-Spent (err e) es r named loads h = absurd h
  with_resolved-Spent (ok step) es r named loads h = with_step-Spent step es r named loads h

  after_runbook-Spent :
      (answer : Result WorkflowError (Fields × DependencyCall)) (es : Entries) (r : Runner S)
      → NamesRecords
      → load_file p r.approvals.file ≡ ok es
      → Reports (after_runbook p client i q answer r)
      → Spent p law q.incident_id q.action_id (after_runbook p client i q answer r).1.approvals
  after_runbook-Spent (err e) es r named loads h = absurd (runbook_failed-silent e r h)
  after_runbook-Spent (ok (runbook, call)) es r named loads h =
      with_resolved-Spent (resolve_action runbook q.action_id) es _ named loads h

  -- On a lawful platform, from an approval file that loads, and for an API whose answers to this
  -- mutation name their record by a text, or by no ID at all, a run that reports applied or
  -- replayed leaves a file that loads and has an applied entry for its incident and action.
  pub apply_incident_action-Spent :
      (r : Runner S) (es : Entries)
      → NamesRecords
      → load_file p r.approvals.file ≡ ok es
      → Reports (apply_incident_action p client i q r)
      → Spent p law q.incident_id q.action_id (apply_incident_action p client i q r).1.approvals
  unfolding apply_incident_action call_runbook
  apply_incident_action-Spent r es named loads h =
      after_runbook-Spent (client.get_runbook q.incident_id r.server).0 es
        (record r { server = (client.get_runbook q.incident_id r.server).1 }) named loads h
