-- ===== src/Agent/Gated.antt =====
-- What the graph leaves in its state: every action comes from a document that was found, and is gated.
use hermes_enterprise_deploy.Base.{
  String, Option, none, some, List, [], ◌∷◌, ◌++◌, ◌≡◌, refl, sym, ap, ◌∙◌, if◌then◌else◌, Result,
  ok, err, ◌>>=◌, >>=-eq-ok, ok-injective, All, All-append,
}
use hermes_enterprise_deploy.Base.Members.{is_empty, In, All-of, All-In}
use hermes_enterprise_deploy.Json.{Json, bool, str, Fields, get, get-set}
use hermes_enterprise_deploy.Platform.{Platform}
use hermes_enterprise_deploy.Agent.Retrieval.{RunbookDocument, search}
use hermes_enterprise_deploy.Agent.Ranking.{search-IsBest}
use hermes_enterprise_deploy.Agent.State.{IncidentGraphState}
use hermes_enterprise_deploy.Agent.Checks.{is_true}
use hermes_enterprise_deploy.Agent.Graph
use hermes_enterprise_deploy.Agent.Graph.{item, present, text_or_empty, ids_of, review_action}
use mathlib.Core.List.{map}

present-ok : (key : String) (o : Option Json) (j : Json) → present key o ≡ ok j → o ≡ some j
present-ok key none j e = cc
present-ok key (some v) j e = ap some (ok-injective e)

pub All_map :
    {A B : Type 0} (P : A → Type 0) (Q : B → Type 0) (f : A → B) (xs : List A)
    → ((x : A) → P x → Q (f x))
    → All P xs
    → All Q (map f xs)
All_map P Q f [] g h = tt
All_map P Q f (x ∷ xs) g h = (g x h.0, All_map P Q f xs g h.1)

-- An action of a document, as the graph passes it on: it cites its document.
pub record IsFrom (found : List RunbookDocument) (action : Fields) : Type 0 where
  pub document : RunbookDocument
  pub retrieved : In document found
  pub origin : Fields
  pub of_document : In origin document.actions
  pub cited : get "citation_id" action ≡ some (str document.document_id)
  pub same_flag : get "consequential" action ≡ get "consequential" origin

-- It needs an approval exactly when the document says that it is consequential.
pub record IsGated (found : List RunbookDocument) (action : Fields) : Type 0 where
  pub from : IsFrom found action
  pub gated :
      get "approval_required" action ≡ some (bool (is_true (get "consequential" from.origin)))

review_action-IsGated :
    (found : List RunbookDocument) (action : Fields)
    → IsFrom found action
    → IsGated found (review_action action)
review_action-IsGated found action h = record {
  from = record {
    document = h.document;
    retrieved = h.retrieved;
    origin = h.origin;
    of_document = h.of_document;
    cited = get-set "citation_id" "approval_required" _ action ∙ h.cited;
    same_flag = get-set "consequential" "approval_required" _ action ∙ h.same_flag;
  };
  gated =
      get-set "approval_required" "approval_required" _ action
      ∙ ap (λ o. some (bool (is_true o))) h.same_flag;
}

abbrev pub Succeeds : {A : Type 0} → Result String A → Type 0
Succeeds {A} r = (x : A) × (r ≡ ok x)

succeeds :
    {A B : Type 0} {x : A} {r : Result String A} (next : A → Result String B)
    → r ≡ ok x
    → Succeeds (next x)
    → Succeeds (r >>= next)
succeeds {r = ok x'} next e (y, h) = (y, ap next (ok-injective e) ∙ h)
succeeds {r = err k} next e h = cc

module _ (p : Platform) (show : Json → String) where
  analyze_actions-IsFrom :
      (found : List RunbookDocument) (d : RunbookDocument) (sources : List Fields)
      → In d found
      → All (λ a. In a d.actions) sources
      → (out : List Fields × List String)
      → Graph.analyze_actions p show d.document_id sources ≡ ok out
      → All (IsFrom found) out.0
  unfolding Graph.analyze_actions get
  analyze_actions-IsFrom found d [] m h out e = rw (sym (ok-injective e)) tt
  analyze_actions-IsFrom found d (source ∷ rest) m h out e =
      let (_, e1, r1) = >>=-eq-ok (item "action_id" source) _ e in
      let (c, e2, r2) = >>=-eq-ok (item "consequential" source) _ r1 in
      let (_, e3, r3) = >>=-eq-ok (item "description" source) _ r2 in
      let (more, e4, r4) = >>=-eq-ok (Graph.analyze_actions p show d.document_id rest) _ r3 in
      rw (sym (ok-injective r4)) (
        record {
          document = d;
          retrieved = m;
          origin = source;
          of_document = h.0;
          cited = refl;
          same_flag = sym (present-ok "consequential" (get "consequential" source) c e2);
        },
        analyze_actions-IsFrom found d rest m h.1 more e4,
      )

  analyze_documents-IsFrom :
      (found documents : List RunbookDocument)
      → All (λ d. In d found) documents
      → (out : List Fields × List String) → Graph.analyze_documents p show documents ≡ ok out
      → All (IsFrom found) out.0
  unfolding Graph.analyze_documents
  analyze_documents-IsFrom found [] h out e = rw (sym (ok-injective e)) tt
  analyze_documents-IsFrom found (d ∷ ds) h out e =
      let (first, e1, r1) = >>=-eq-ok (Graph.analyze_actions p show d.document_id d.actions) _ e in
      let (more, e2, r2) = >>=-eq-ok (Graph.analyze_documents p show ds) _ r1 in
      rw (sym (ok-injective r2)) (
        All-append (IsFrom found) first.0 more.0
          (analyze_actions-IsFrom found d d.actions h.0 (All-of _ d.actions λ a m. m) first e1)
          (analyze_documents-IsFrom found ds h.1 more e2))

  -- What a run leaves: the documents that the search found, cited one by one, and their actions, gated; nothing was
  -- executed.
  pub record IsReviewable (found : List RunbookDocument) (before after : IncidentGraphState)
      : Type 0 where
    pub gated :
        (actions : List Fields) × (after.actions ≡ some actions) × All (IsGated found) actions
    pub evidence : after.retrieved_document_ids ≡ some (ids_of found)
    pub citations : after.citations ≡ some (ids_of found)
    pub status :
        after.status
        ≡ some (if is_empty found then "blocked_missing_evidence" else "ready_for_review")
    pub nothing_executed : after.executed_actions ≡ some []
    pub trace :
        after.node_trace
        ≡ before.node_trace
          ++ "retrieve" ∷ []
          ++ "analyze" ∷ []
          ++ "safety_review" ∷ []
          ++ "finalize" ∷ []

  -- A run of the graph that returns leaves the documents that the search found as its evidence and
  -- its citations, a status that says whether there are any, no executed action, the trace of the
  -- four nodes, and only actions of the found documents, each citing its document and requiring an
  -- approval exactly when the document marks it consequential.
  pub invoke-IsReviewable :
      (retriever : List RunbookDocument) (before after : IncidentGraphState)
      → Graph.invoke p show retriever before ≡ ok after
      → IsReviewable (search p (text_or_empty before.question) retriever 3) before after
  unfolding Graph.invoke Graph.retrieve Graph.analyze Graph.safety_review Graph.finalize
  invoke-IsReviewable retriever before after e =
      let found = search p (text_or_empty before.question) retriever 3 in
      let (analyzed, e1, r1) =
        >>=-eq-ok (Graph.analyze p show (Graph.retrieve p show retriever before)) _ e in
      let (out, e2, r2) = >>=-eq-ok (Graph.analyze_documents p show found) _ e1 in
      rw (sym (ok-injective r1), sym (ok-injective r2))
        (record {
          gated = (
            map review_action out.0,
            refl,
            All_map (IsFrom found) (IsGated found) review_action out.0 (review_action-IsGated found)
                (analyze_documents-IsFrom found found (All-of _ found λ d m. m) out e2),
          );
          evidence = refl;
          citations = refl;
          status = refl;
          nothing_executed = refl;
          trace = refl;
        })

  -- Every action of the documents has the three keys that the graph reads.
  abbrev pub HasKeys : Fields → Type 0
  HasKeys action =
      (id : Json) × (consequential : Json) × (description : Json) × (get "action_id" action
        ≡ some id)
      × (get "consequential" action ≡ some consequential)
      × (get "description" action ≡ some description)

  analyze_actions-total :
      (document_id : String) (actions : List Fields)
      → All HasKeys actions
      → Succeeds (Graph.analyze_actions p show document_id actions)
  unfolding Graph.analyze_actions
  analyze_actions-total document_id [] h = (_, refl)
  analyze_actions-total document_id (action ∷ rest) ((i, c, d, e1, e2, e3), h) =
      let (out, e) = analyze_actions-total document_id rest h in
      succeeds _ (ap (present "action_id") e1) (
        succeeds _ (ap (present "consequential") e2)
          (succeeds _ (ap (present "description") e3) (succeeds _ e (_, refl))))

  analyze_documents-total :
      (documents : List RunbookDocument)
      → All (λ d. All HasKeys d.actions) documents
      → Succeeds (Graph.analyze_documents p show documents)
  unfolding Graph.analyze_documents
  analyze_documents-total [] h = (_, refl)
  analyze_documents-total (d ∷ ds) h =
      let (first, e1) = analyze_actions-total d.document_id d.actions h.0 in
      let (more, e2) = analyze_documents-total ds h.1 in succeeds _ e1 (succeeds _ e2 (_, refl))

  -- If every action of the documents has an ID, a flag and a description, a run of the graph
  -- returns.
  pub invoke-total :
      (retriever : List RunbookDocument) (before : IncidentGraphState)
      → All (λ d. All HasKeys d.actions) retriever
      → Succeeds (Graph.invoke p show retriever before)
  unfolding Graph.invoke Graph.retrieve Graph.analyze
  invoke-total retriever before h =
      let found = search p (text_or_empty before.question) retriever 3 in
      let best = search-IsBest p (text_or_empty before.question) retriever 3 in
      let keys =
        All-of (λ d. All HasKeys d.actions) found
          λ d m. All-In _ retriever d h (best.matches d m).0 in
      let (out, e) = analyze_documents-total found keys in
      let (done, e') = succeeds {r = Graph.analyze_documents p show found} _ e (_, refl) in
      succeeds _ e' (_, refl)
