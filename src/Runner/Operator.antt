-- ===== src/Runner/Operator.antt =====
-- workflow-runner/workflow_runner/approval_operator.py: the operator's command. Its two calls of the approval
-- store take the lock one after the other.
use hermes_enterprise_deploy.Base.{
  ℕ, String, Option, none, some, [], ◌∷◌, ◌++◌, Result, ok, err, ◌==◌, string_eq, if◌then◌else◌,
  ◌≡◌, refl, arith, sym, ap, ◌∙◌, ok-injective,
}
use hermes_enterprise_deploy.Base.Exec.{Exec, continue, ◌>>=◌, ◌>>◌, pure}
use hermes_enterprise_deploy.Json.{Json, str, null, Fields, dict, get, get-set}
use hermes_enterprise_deploy.Platform.{Platform, IsLawful}
use hermes_enterprise_deploy.Disk.{Disk}
use hermes_enterprise_deploy.Approvals
use hermes_enterprise_deploy.Approvals.{
  Answer, granted, refused, ApprovalGrant, Entries, load_file, approve,
}
use hermes_enterprise_deploy.Approvals.Entry.{ApprovalError, ApprovalRequest}
use hermes_enterprise_deploy.Approvals.Granted.{Granted, approve-Granted}
use hermes_enterprise_deploy.Runner.Audit.{Lines, append, audit_record}

pub record Operator : Type 0 where
  pub approvals : Disk
  pub audit : Lines

-- `request.correlation_id if request else None`, and the like
abbrev correlation_of : Option ApprovalRequest → Option String
correlation_of none = none
correlation_of (some a) = a.correlation_id

abbrev incident_of : Option ApprovalRequest → Json
incident_of none = null
incident_of (some a) = str a.incident_id

abbrev action_of : Option ApprovalRequest → Json
action_of none = null
action_of (some a) = str a.action_id

module _ (p : Platform) (run_id approval_id identity token : String)
    (at_approve at_get at_audit : ℕ) where
  abbrev pub Step : Type 0 → Type 0
  Step = Exec ApprovalError Operator

  abbrev on_approvals : {A : Type 0} → Approvals.Action A → Step A
  on_approvals m o = let (result, d) = m o.approvals in (result, record o { approvals = d })

  abbrev log : String → String → Option String → Fields → Step (Unit {0})
  log event actor correlation_id fields o = (
    ok tt,
    record o { audit = append p run_id at_audit event actor correlation_id fields o.audit },
  )

  unfoldable pub logged :
      Option ApprovalRequest → Answer ApprovalGrant → Step (Answer ApprovalGrant)
  logged request (refused rejection) = do
    log "approval_rejected" (if identity == "" then "approval-operator" else identity)
        (correlation_of request)
        (dict (
          ("approval_id", str approval_id)
          ∷ ("incident_id", incident_of request)
          ∷ ("action_id", action_of request)
          ∷ ("outcome", str rejection)
          ∷ []))
    pure (refused rejection)
  logged request (granted grant) = do
    log "approval_granted" grant.approved_by (correlation_of request) (
        dict (
          ("approval_id", str grant.approval_id)
          ∷ ("incident_id", str grant.incident_id)
          ∷ ("action_id", str grant.action_id)
          ∷ ("outcome", str "approved")
          ∷ ("expires_at", str grant.expires_at)
          ∷ []))
    pure (granted grant)

  unfoldable pub approve_request : Step (Answer ApprovalGrant)
  unfolding logged
  approve_request = do
    answer ← on_approvals (approve p approval_id identity token at_approve)
    request ← on_approvals (Approvals.get_request p approval_id at_get)
    logged request answer

  -- `_result`, with the fields of `ApprovalGrant.to_dict`
  unfoldable pub result : Answer ApprovalGrant → Fields
  result (refused rejection) =
      dict (("status", str "approval_rejected") ∷ ("reason", str rejection) ∷ [])
  result (granted grant) = dict (
      ("status", str "approved")
      ∷ ("approval_id", str grant.approval_id)
      ∷ ("approval_capability", str grant.approval_capability)
      ∷ ("incident_id", str grant.incident_id)
      ∷ ("action_id", str grant.action_id)
      ∷ ("approved_by", str grant.approved_by)
      ∷ ("approved_at", str grant.approved_at)
      ∷ ("expires_at", str grant.expires_at)
      ∷ [])

  -- What is printed, and the exit code.
  unfoldable pub main : Step (Fields × ℕ)
  unfolding approve_request result
  main = do
    answer ← approve_request
    pure (result answer, elim answer [ granted _ ↦ 0 | refused _ ↦ 1 ])

  -- The line of a grant names the operator and the request.
  pub record IsGrantLine (line : Fields) : Type 0 where
    pub event : get "event" line ≡ some (str "approval_granted")
    pub actor : get "actor" line ≡ some (str (p.strip identity))
    pub approval : get "approval_id" line ≡ some (str approval_id)

  module _ (law : IsLawful p) where
    logged-line :
        (request : Option ApprovalRequest) (answer : Answer ApprovalGrant) (o : Operator)
        (es : Entries) {g : ApprovalGrant} {d : Disk}
        → Granted p law approval_id identity token at_approve es g d
        → (logged request answer o).0 ≡ ok (granted g)
        → (line : Fields) × ((logged request answer o).1.audit ≡ o.audit ++ line ∷ [])
          × IsGrantLine line
    unfolding logged append audit_record get
    logged-line request (refused rejection) o es granted_ e = cc
    logged-line request (granted grant) o es {g} x e =
        let same : grant ≡ g = ground arith in
        (
          audit_record p run_id at_audit "approval_granted" grant.approved_by
              (correlation_of request)
              (dict (
                ("approval_id", str grant.approval_id)
                ∷ ("incident_id", str grant.incident_id)
                ∷ ("action_id", str grant.action_id)
                ∷ ("outcome", str "approved")
                ∷ ("expires_at", str grant.expires_at)
                ∷ []))
              o.audit,
          refl,
          record {
            event = simp get-set;
            actor = simp get-set (
                ap (λ v. some (str v))
                  (ap (λ (n : ApprovalGrant). n.approved_by) same ∙ x.grant_approver));
            approval = simp get-set (
                ap (λ v. some (str v))
                  (ap (λ (n : ApprovalGrant). n.approval_id) same ∙ x.grant_id));
          },
        )

    logged-answer :
        (request : Option ApprovalRequest) (answer : Answer ApprovalGrant) (o : Operator)
        → (logged request answer o).0 ≡ ok answer
    unfolding logged
    logged-answer request (refused rejection) o = refl
    logged-answer request (granted grant) o = refl

    abbrev pub Audited : Entries → ApprovalGrant → Lines → Operator → Type 0
    Audited es g audit o =
        (d : Disk) × Granted p law approval_id identity token at_approve es g d
        × (line : Fields) × (o.audit ≡ audit ++ line ∷ [])
        × IsGrantLine line

    abbrev looked_up : Answer ApprovalGrant → Step (Answer ApprovalGrant)
    looked_up answer = on_approvals (Approvals.get_request p approval_id at_get) >>= λ request.
        logged request answer

    looked_up-Audited :
        (answer : Answer ApprovalGrant) (rest : Result ApprovalError (Option ApprovalRequest))
        (o : Operator) (audit : Lines) (d : Disk) (es : Entries) {g : ApprovalGrant}
        → (answer ≡ granted g → Granted p law approval_id identity token at_approve es g d)
        → o.audit ≡ audit
        → (continue rest (λ request. logged request answer) o).0 ≡ ok (granted g)
        → Audited es g audit (continue rest (λ request. logged request answer) o).1
    looked_up-Audited answer (err e) o audit d es x same h = cc
    looked_up-Audited answer (ok request) o audit d es {g} x same h =
        let grant = x (ok-injective (sym (logged-answer request answer o) ∙ h)) in
        let (line, written, shape) = logged-line request answer o es grant h in
        (d, grant, line, written ∙ ap (λ (l : Lines). l ++ line ∷ []) same, shape)

    after_approve :
        (answer : Result ApprovalError (Answer ApprovalGrant)) (o : Operator) (d : Disk)
        (es : Entries) {g : ApprovalGrant}
        → (answer ≡ ok (granted g) → Granted p law approval_id identity token at_approve es g d)
        → (continue answer looked_up o).0 ≡ ok (granted g)
        → Audited es g o.audit (continue answer looked_up o).1
    after_approve (err e) o d es x h = cc
    after_approve (ok answer) o d es x h =
        looked_up-Audited answer _ _ o.audit d es (λ e. x (ap (λ a. ok a) e)) refl h

    -- On a lawful platform and from a file that loads, when the operator's command gives a grant,
    -- the audit log has one more line, which names the operator and the approval.
    pub approve_request-Audited :
        (o : Operator) (es : Entries) (g : ApprovalGrant)
        → load_file p o.approvals.file ≡ ok es
        → (approve_request o).0 ≡ ok (granted g)
        → Audited es g o.audit (approve_request o).1
    unfolding approve_request
    approve_request-Audited o es g loads h =
        let (answer, d) = approve p approval_id identity token at_approve o.approvals in
        after_approve answer (record o { approvals = d }) d es
          (λ e.
            approve-Granted p law o.approvals es loads approval_id identity token at_approve g d
              (ap (λ a. (a, d)) e))
          h
