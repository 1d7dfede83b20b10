-- ===== src/Agent/Fit.antt =====
-- The results that the evaluator passes.
use hermes_enterprise_deploy.Base.{
  String, Bool, true, false, Option, none, some, List, [], ◌∷◌, not, ◌==◌, ◌≡◌, ◌≢◌, refl, sym,
  subst, ◌∙◌, inl, inr, arith, eq_iff, Bool-cases, All, string_eq,
}
use hermes_enterprise_deploy.Base.Members.{is_empty, In, All-of, append-eq-nil}
use hermes_enterprise_deploy.Json.{Json, Fields}
use hermes_enterprise_deploy.Platform.{Platform}
use hermes_enterprise_deploy.Agent.Retrieval.{RunbookDocument}
use hermes_enterprise_deploy.Agent.State.{IncidentGraphState, or_empty}
use hermes_enterprise_deploy.Agent.Checks.{Violation, report, status_violations}
use hermes_enterprise_deploy.Agent.Evaluation
use hermes_enterprise_deploy.Agent.Reviewed.{
  IsReviewed, Fresh, AllSourced-nil, index_documents-AllSourced, check_actions-IsReviewed,
}
use hermes_enterprise_deploy.Agent.Inversion.{
  report-eq-nil, map-eq-nil, minus-eq-nil, is_empty-eq-nil,
}

module _ (p : Platform) (show : Json → String) (documents : List RunbookDocument) where
  -- The status agrees with the evidence.
  pub data IsConsistent (retrieved citations : List String) (actions : List Fields)
      : Option String → Type 0 where
    ready :
        retrieved ≢ []
        → All (λ id. In id citations) retrieved
        → IsConsistent retrieved citations actions (some "ready_for_review")
    blocked :
        retrieved ≡ []
        → citations ≡ []
        → actions ≡ []
        → IsConsistent retrieved citations actions (some "blocked_missing_evidence")

  not_nil : {A : Type 0} (xs : List A) → is_empty xs ≡ false → xs ≢ []
  not_nil [] h = cc
  not_nil (x ∷ xs) h = λ e. cc

  negated : (b : Bool) → not b ≡ false → b ≡ true
  negated true e = refl
  negated false e = cc

  unreported :
      {A : Type 0} (xs : List A) (v : Violation) → report (not (is_empty xs)) v ≡ [] → xs ≡ []
  unreported xs v h = is_empty-eq-nil xs (negated _ (report-eq-nil _ _ h))

  status-IsConsistent :
      (status : Option String) (retrieved citations : List String) (actions : List Fields)
      → status_violations status retrieved citations actions ≡ []
      → IsConsistent retrieved citations actions status
  status-IsConsistent none retrieved citations actions e = cc
  status-IsConsistent (some s) retrieved citations actions e =
      elim (Bool-cases (s == "ready_for_review")) [
        | inl is_ready ↦ elim (Bool-cases (is_empty retrieved)) [
          | inl nothing ↦ cc (rw (is_ready, nothing) at e)
          | inr some_id ↦
              subst (λ t. IsConsistent retrieved citations actions (some t))
                (sym ((eq_iff s "ready_for_review").0 is_ready))
                (ready (not_nil retrieved some_id) (
                  minus-eq-nil retrieved citations (
                    is_empty-eq-nil _
                      (negated _ (report-eq-nil _ _ (rw (is_ready, some_id) at e))))))
        ]
        | inr other ↦ elim (Bool-cases (s == "blocked_missing_evidence")) [
          | inl is_blocked ↦
              let (rest, no_actions) = append-eq-nil _ _ (rw (other, is_blocked) at e) in
              let (no_ids, no_citations) = append-eq-nil _ _ rest in
              subst (λ t. IsConsistent retrieved citations actions (some t))
                (sym ((eq_iff s "blocked_missing_evidence").0 is_blocked))
                (blocked (unreported retrieved _ no_ids) (unreported citations _ no_citations)
                  (unreported actions _ no_actions))
          | inr unknown ↦ cc (rw (other, unknown) at e)
        ]
      ]

  executed-none :
      (o : Option (List String)) → Evaluation.executed_violations p show o ≡ [] → o ≡ some []
  executed-none (some []) e = refl
  executed-none none e = cc
  executed-none (some (x ∷ xs)) e = cc

  -- A result that is fit for review.
  pub record IsFit (result : IncidentGraphState) : Type 0 where
    pub consistent :
        IsConsistent
          (Evaluation.retrieved_ids p show result (some documents))
          (or_empty result.citations)
          (or_empty result.actions)
          result.status
    pub cites_retrieved :
        All
          (λ c. In c (Evaluation.retrieved_ids p show result (some documents)))
          (or_empty result.citations)
    pub reviewed :
        All
          (IsReviewed p show documents (Evaluation.retrieved_ids p show result (some documents)))
          (or_empty result.actions)
    pub distinct : Fresh p show documents [] (or_empty result.actions)
    pub nothing_executed : result.executed_actions ≡ some []

  violations_of-IsFit :
      (result : IncidentGraphState)
      → Evaluation.violations_of p show result (some documents) ≡ []
      → IsFit result
  unfolding Evaluation.violations_of
  violations_of-IsFit result e =
      let (e7, no_executed) = append-eq-nil _ _ e in
      let (e6, no_gates) = append-eq-nil _ _ e7 in
      let (e5, _) = append-eq-nil _ _ e6 in
      let (e4, no_actions) = append-eq-nil _ _ e5 in
      let (e3, no_citations) = append-eq-nil _ _ e4 in
      let (_, no_status) = append-eq-nil _ _ e3 in
      let (reviewed, fresh) =
        check_actions-IsReviewed p show documents _ _ (or_empty result.actions) []
          (index_documents-AllSourced p show documents documents [] (All-of _ documents λ d m. m)
            (AllSourced-nil p show documents))
          no_actions no_gates in
      record {
        consistent = status-IsConsistent result.status _ _ _ no_status;
        cites_retrieved = minus-eq-nil _ _ (map-eq-nil _ _ no_citations);
        reviewed = reviewed;
        distinct = fresh;
        nothing_executed = executed-none result.executed_actions no_executed;
      }

module _ (p : Platform) (show : Json → String) where
  unverified : (result : IncidentGraphState) → Evaluation.violations_of p show result none ≢ []
  unfolding Evaluation.violations_of
  unverified result e = cc

  decided :
      (result : IncidentGraphState) (documents : Option (List RunbookDocument))
      (e : Evaluation.Evaluation)
      → Evaluation.evaluate_workflow_result p show result documents ≡ some e
      → e.passed ≡ is_empty (Evaluation.violations_of p show result documents)
  unfolding Evaluation.evaluate_workflow_result
  decided result documents e h = ground arith

  -- A result passes the evaluator only against authoritative documents, and then its status agrees
  -- with its evidence, its citations were retrieved, its action IDs are distinct, nothing was
  -- executed, and every action has an ID that is not blank, cites a retrieved authoritative
  -- document that has an action of the same fingerprint, and requires an approval exactly when it
  -- is consequential.
  pub evaluate_workflow_result-IsFit :
      (result : IncidentGraphState) (documents : Option (List RunbookDocument))
      (e : Evaluation.Evaluation)
      → Evaluation.evaluate_workflow_result p show result documents ≡ some e
      → e.passed ≡ true
      → (authoritative : List RunbookDocument) × (documents ≡ some authoritative)
        × IsFit p show authoritative result
  evaluate_workflow_result-IsFit result none e h passed =
      absurd (unverified result (is_empty-eq-nil _ (sym (decided result none e h) ∙ passed)))
  evaluate_workflow_result-IsFit result (some documents) e h passed = (
    documents,
    refl,
    violations_of-IsFit p show documents result
        (is_empty-eq-nil _ (sym (decided result (some documents) e h) ∙ passed)),
  )
