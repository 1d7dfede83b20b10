-- ===== src/Agent/Graph.antt =====
-- agent_workflow/graph.py: the nodes, and the run of the compiled graph. A node's answer replaces the keys that it
-- names, and its `node_trace` is added to that of the state, as langgraph documents it for the annotated key; the
-- edges run the nodes one after the other. A missing key of an action is the KeyError of its name.
use hermes_enterprise_deploy.Base.{
  String, Bool, Option, none, some, List, [], ◌∷◌, ◌++◌, if◌then◌else◌, Result, ok, err, ◌>>=◌,
}
use hermes_enterprise_deploy.Base.Members.{is_empty}
use hermes_enterprise_deploy.Json.{Json, bool, str, Fields, get, set, dict}
use hermes_enterprise_deploy.Platform.{Platform}
use hermes_enterprise_deploy.Agent.Retrieval.{RunbookDocument, search}
use hermes_enterprise_deploy.Agent.State.{IncidentGraphState, or_empty, python_str}
use hermes_enterprise_deploy.Agent.Checks.{is_true}
use hermes_enterprise_deploy.Agent.Evaluation.{action_provenance_sha256, digests}
use mathlib.Core.List.{map}

abbrev pub present : String → Option Json → Result String Json
present key none = err key
present key (some j) = ok j

-- `source_action[key]`
abbrev pub item : String → Fields → Result String Json
item key action = present key (get key action)

abbrev pub text_or_empty : Option String → String
text_or_empty none = ""
text_or_empty (some s) = s

abbrev pub ids_of : List RunbookDocument → List String
ids_of documents = map (λ d. d.document_id) documents

-- `{**action, "approval_required": action.get("consequential") is True}`
abbrev pub review_action : Fields → Fields
review_action action = set "approval_required" (bool (is_true (get "consequential" action))) action

module _ (p : Platform) (show : Json → String) where
  unfoldable pub all_digests : List RunbookDocument → List Json
  unfolding action_provenance_sha256
  all_digests [] = []
  all_digests (d ∷ ds) = map (λ digest. str digest) (digests p show d) ++ all_digests ds

  unfoldable pub retrieve : List RunbookDocument → IncidentGraphState → IncidentGraphState
  unfolding all_digests search
  retrieve retriever state =
      let documents = search p (text_or_empty state.question) retriever 3 in
      record state {
        retrieved_documents = some documents;
        retrieved_document_ids = some (ids_of documents);
        retrieved_action_provenance = some (all_digests documents);
        node_trace = state.node_trace ++ "retrieve" ∷ [];
      }

  abbrev pub proposed : String → Json → Json → Json → Fields
  proposed document_id action_id description consequential = dict (
      ("action_id", str (python_str show action_id))
      ∷ ("description", str (python_str show description))
      ∷ ("citation_id", str document_id)
      ∷ ("consequential", consequential)
      ∷ ("approval_required", bool Bool.false)
      ∷ [])

  -- The inner loop of `analyze`: the actions of a document, and the IDs of the consequential ones.
  unfoldable pub analyze_actions : String → List Fields → Result String (List Fields × List String)
  analyze_actions document_id [] = ok ([], [])
  analyze_actions document_id (action ∷ rest) = do
    action_id ← item "action_id" action
    consequential ← item "consequential" action
    description ← item "description" action
    (actions, ids) ← analyze_actions document_id rest
    ok (
      proposed document_id action_id description consequential ∷ actions,
      (if is_true (some consequential) then python_str show action_id ∷ ids else ids),
    )

  unfoldable pub analyze_documents :
      List RunbookDocument → Result String (List Fields × List String)
  unfolding analyze_actions
  analyze_documents [] = ok ([], [])
  analyze_documents (d ∷ ds) = do
    (actions, ids) ← analyze_actions d.document_id d.actions
    (more, more_ids) ← analyze_documents ds
    ok (actions ++ more, ids ++ more_ids)

  unfoldable pub analyze : IncidentGraphState → Result String IncidentGraphState
  unfolding analyze_documents
  analyze state = do
    (actions, ids) ← analyze_documents (or_empty state.retrieved_documents)
    ok (record state {
      actions = some actions;
      consequential_action_ids = some ids;
      node_trace = state.node_trace ++ "analyze" ∷ [];
    })

  unfoldable pub safety_review : IncidentGraphState → IncidentGraphState
  unfolding set
  safety_review state = record state {
    actions = some (map review_action (or_empty state.actions));
    executed_actions = some [];
    node_trace = state.node_trace ++ "safety_review" ∷ [];
  }

  unfoldable pub finalize : IncidentGraphState → IncidentGraphState
  finalize state =
      let documents = or_empty state.retrieved_documents in
      record state {
        status =
            some (if is_empty documents then "blocked_missing_evidence" else "ready_for_review");
        citations = some (ids_of documents);
        node_trace = state.node_trace ++ "finalize" ∷ [];
      }

  -- `graph.invoke`
  unfoldable pub invoke :
      List RunbookDocument → IncidentGraphState → Result String IncidentGraphState
  unfolding retrieve analyze safety_review finalize
  invoke retriever state = do
    analyzed ← analyze (retrieve retriever state)
    ok (finalize (safety_review analyzed))
