-- ===== src/Agent/Left.antt =====
-- The state that a run of the graph leaves, in closed form.
use hermes_enterprise_deploy.Base.{
  String, Bool, true, false, none, some, List, [], ◌∷◌, ◌++◌, ◌≡◌, refl, All, ok, if◌then◌else◌,
  string_eq,
}
use hermes_enterprise_deploy.Base.Members.{All-In, All-of, Descends, is_empty}
use hermes_enterprise_deploy.Json.{Json, str, Fields}
use hermes_enterprise_deploy.Platform.{Platform}
use hermes_enterprise_deploy.Agent.Retrieval.{RunbookDocument, search}
use hermes_enterprise_deploy.Agent.State.{IncidentGraphState}
use hermes_enterprise_deploy.Agent.Checks.{status_violations}
use hermes_enterprise_deploy.Agent.Graph
use hermes_enterprise_deploy.Agent.Graph.{ids_of, text_or_empty}
use hermes_enterprise_deploy.Agent.Flat.{
  IsEntry, flat, names, tidy, digest, analyze_documents-eq, reviewed-eq, all_digests-eq,
}
use hermes_enterprise_deploy.Agent.Silent.{minus-none}
use mathlib.Core.List.{map}

pub join : {A : Type 0} (xs ys : List A) → xs ≡ [] → ys ≡ [] → xs ++ ys ≡ []
join xs ys e f = rw (e, f) refl

pub Descends-mono :
    {A : Type 0} (R Q : A → A → Type 0) (xs : List A)
    → ((x y : A) → R x y → Q x y)
    → Descends R xs
    → Descends Q xs
Descends-mono R Q [] g h = tt
Descends-mono R Q (x ∷ xs) g h =
    (All-of (Q x) xs λ y m. g x y (All-In (R x) xs y h.0 m), Descends-mono R Q xs g h.1)

pub taken : {A : Type 0} (b : Bool) (x : A) → b ≡ true → (if b then some x else none) ≡ some x
taken true x e = refl
taken false x e = cc

pub status-none :
    (found : List RunbookDocument) (actions : List Fields)
    → (found ≡ [] → actions ≡ [])
    → status_violations
        (some (if is_empty found then "blocked_missing_evidence" else "ready_for_review"))
        (ids_of found)
        (ids_of found)
        actions
      ≡ []
status-none [] actions f = rw (f refl) refl
status-none (d ∷ ds) actions f = rw (minus-none (ids_of (d ∷ ds)) (ids_of (d ∷ ds)) λ x m. m) refl

module _ (p : Platform) (show : Json → String) where
  -- What a run leaves, from the documents found.
  abbrev pub left_by : List RunbookDocument → IncidentGraphState → IncidentGraphState
  left_by found before = record before {
    retrieved_documents = some found;
    retrieved_document_ids = some (ids_of found);
    retrieved_action_provenance = some (map (λ e. str (digest p show e)) (flat found));
    actions = some (map tidy (flat found));
    consequential_action_ids = some (names (flat found));
    citations = some (ids_of found);
    executed_actions = some [];
    status = some (if is_empty found then "blocked_missing_evidence" else "ready_for_review");
    node_trace =
        before.node_trace
        ++ "retrieve" ∷ []
        ++ "analyze" ∷ []
        ++ "safety_review" ∷ []
        ++ "finalize" ∷ [];
  }

  pub invoke-eq :
      (documents : List RunbookDocument) (before : IncidentGraphState)
      → All (λ d. All (IsEntry p) d.actions) (search p (text_or_empty before.question) documents 3)
      → Graph.invoke p show documents before
        ≡ ok (left_by (search p (text_or_empty before.question) documents 3) before)
  unfolding Graph.invoke Graph.retrieve Graph.analyze Graph.safety_review Graph.finalize
  invoke-eq documents before h =
      let found = search p (text_or_empty before.question) documents 3 in
      rw
        (
          analyze_documents-eq p show found h,
          reviewed-eq p show (flat found),
          all_digests-eq p show found,
        )
        refl
