-- ===== src/Runner/Executor/Once.antt =====
-- Two runs for the same incident and action, with any calls of the approval store between them.
use hermes_enterprise_deploy.Base.{◌≡◌, ok, sym, subst, ◌∙◌, inl, inr, ok-injective}
use hermes_enterprise_deploy.Platform.{Platform, IsLawful}
use hermes_enterprise_deploy.Approvals.{Entries, load_file}
use hermes_enterprise_deploy.Approvals.Spent.{IsSpent, Run-IsSpent, spent_refuses}
use hermes_enterprise_deploy.Approvals.Runs.{Run}
use hermes_enterprise_deploy.Runner.Executor.{
  ApiClient, Request, Inputs, Runner, apply_incident_action,
}
use hermes_enterprise_deploy.Runner.Executor.Gate.{Authorized, apply_incident_action-gate}
use hermes_enterprise_deploy.Runner.Executor.Applied.{
  Reports, NamesRecords, apply_incident_action-Spent,
}

module _ (p : Platform) (law : IsLawful p) {S T : Type 0} (client : ApiClient S)
    (client' : ApiClient T) (i i' : Inputs) (q q' : Request) where
  unauthorized :
      (r : Runner T) (es : Entries) {after : T}
      → load_file p r.approvals.file ≡ ok es
      → IsSpent q'.incident_id q'.action_id es
      → ¬ Authorized p client' i' q' r.approvals
          (client'.get_runbook q'.incident_id r.server).1
          after
  unauthorized r es loads spent y =
      let same : es ≡ y.entries = ok-injective (sym loads ∙ y.loads) in
      spent_refuses p q'.incident_id q'.action_id y.capability i'.at_validate y.entries y.approval
        (subst (IsSpent q'.incident_id q'.action_id) same spent) y.accepted

  -- On a lawful platform, from an approval file that loads, and for an API whose answers to this
  -- mutation name their record by a text, or by no ID at all, once a run has reported applied or
  -- replayed for an incident and action, and whatever calls of the approval store come after it,
  -- any run for the same incident and action, with any client and capability, leaves the API as
  -- its request of the runbook left it. Here a call is any of the store's methods, or a change of
  -- whether writes succeed; a request names a non-empty incident and action and draws an ID that
  -- the file does not hold, and a mark carries a text as its record ID.
  pub dispatched_once :
      (r : Runner S) (r' : Runner T) (es : Entries)
      → NamesRecords p law client i q
      → load_file p r.approvals.file ≡ ok es
      → Reports (apply_incident_action p client i q r)
      → Run p (apply_incident_action p client i q r).1.approvals r'.approvals
      → q'.incident_id ≡ q.incident_id
      → q'.action_id ≡ q.action_id
      → (apply_incident_action p client' i' q' r').1.server
        ≡ (client'.get_runbook q'.incident_id r'.server).1
  dispatched_once r r' es named loads done run same_incident same_action =
      let first = apply_incident_action-Spent p law client i q r es named loads done in
      let (es', loads', spent) =
        Run-IsSpent p q.incident_id q.action_id law _ r'.approvals first.entries first.loads
          first.spent run in
      let there : IsSpent q'.incident_id q'.action_id es' = rw (same_incident, same_action) spent in
      elim (apply_incident_action-gate p client' i' q' r') [
        | inl quiet ↦ quiet
        | inr passed ↦ absurd (unauthorized r' es' loads' there passed)
      ]
