-- ===== src/Tests/Agents.antt =====
-- The agent workflow over two documents.
use hermes_enterprise_deploy.Base.{
  String, true, false, none, some, List, [], ◌∷◌, ◌≡◌, eq_iff, refl, ok, string_eq, filter, any,
}
use hermes_enterprise_deploy.Base.Members.{minus, contains}
use hermes_enterprise_deploy.Base.Dict.{lookup}
use hermes_enterprise_deploy.Json.{Json, str, bool, Fields, dict, get, set}
use hermes_enterprise_deploy.Platform.{Platform}
use hermes_enterprise_deploy.Agent.Retrieval.{
  RunbookDocument, search, score, terms, runs, set_of, ranked,
}
use hermes_enterprise_deploy.Agent.State.{IncidentGraphState}
use hermes_enterprise_deploy.Agent.Ranking.{IsBest, search-IsBest}
use hermes_enterprise_deploy.Agent.Graph.{
  invoke, retrieve, analyze, analyze_documents, analyze_actions, safety_review, finalize,
  all_digests,
}
use hermes_enterprise_deploy.Agent.Gated.{IsReviewable, Succeeds, invoke-IsReviewable, invoke-total}
use hermes_enterprise_deploy.Agent.Checks.{
  well_formed, check_digests, all_hex, authority_violations, gate_violations,
}
use hermes_enterprise_deploy.Agent.Evaluation.{
  Evaluation, evaluate_workflow_result, violations_of, check_actions, index_documents,
  action_provenance_sha256,
}
use hermes_enterprise_deploy.Agent.Fit.{IsFit, evaluate_workflow_result-IsFit}
use hermes_enterprise_deploy.Agent.Flat.{IsEntry}
use hermes_enterprise_deploy.Agent.Library.{IsLibrary}
use hermes_enterprise_deploy.Agent.Consistent.{invoke-passes}
use hermes_enterprise_deploy.Tests.Setup.{demo}

abbrev hexes : Platform
hexes = record demo {
  sha256_hex = λ text. "0123456789abcdef0123456789abcdef0123456789abcdef0123456789abcdef";
}

abbrev shown : Json → String
shown j = "1"

abbrev restart : Fields
restart = dict (
    ("action_id", str "A1")
    ∷ ("description", str "restart the gateway")
    ∷ ("consequential", bool true)
    ∷ [])

abbrev gateway : RunbookDocument
gateway = record { document_id = "RB-1"; text = "payment gateway"; actions = restart ∷ [] }

abbrev storage : RunbookDocument
storage = record { document_id = "RB-2"; text = "disk full"; actions = [] }

abbrev library : List RunbookDocument
library = storage ∷ gateway ∷ []

abbrev asked : IncidentGraphState
asked = record {
  incident_id = some "INC-1";
  question = some "gateway down";
  retrieved_documents = none;
  retrieved_document_ids = none;
  retrieved_action_provenance = none;
  actions = none;
  consequential_action_ids = none;
  citations = none;
  executed_actions = none;
  status = none;
  node_trace = [];
}

search-IsBest_example :
    IsBest hexes "gateway down" library 3 (search hexes "gateway down" library 3)
search-IsBest_example = search-IsBest hexes "gateway down" library 3

finds : search hexes "gateway down" library 3 ≡ gateway ∷ []
unfolding search ranked score terms runs set_of filter any
finds = refl

invoke-total_example : Succeeds (invoke hexes shown library asked)
unfolding get
invoke-total_example =
    invoke-total hexes shown library asked
      (tt, (((str "A1", bool true, str "restart the gateway", refl, refl, refl), tt), tt))

abbrev reviewed : Fields
reviewed = dict (
    ("action_id", str "A1")
    ∷ ("description", str "restart the gateway")
    ∷ ("citation_id", str "RB-1")
    ∷ ("consequential", bool true)
    ∷ ("approval_required", bool true)
    ∷ [])

abbrev left : IncidentGraphState
left = record asked {
  retrieved_documents = some (gateway ∷ []);
  retrieved_document_ids = some ("RB-1" ∷ []);
  retrieved_action_provenance =
      some (str "0123456789abcdef0123456789abcdef0123456789abcdef0123456789abcdef" ∷ []);
  actions = some (reviewed ∷ []);
  consequential_action_ids = some ("A1" ∷ []);
  citations = some ("RB-1" ∷ []);
  executed_actions = some [];
  status = some "ready_for_review";
  node_trace = "retrieve" ∷ "analyze" ∷ "safety_review" ∷ "finalize" ∷ [];
}

leaves : invoke hexes shown library asked ≡ ok left
unfolding invoke retrieve analyze analyze_documents analyze_actions safety_review finalize
    all_digests get set search ranked score terms runs set_of filter any action_provenance_sha256
leaves = refl

invoke-IsReviewable_example :
    IsReviewable hexes shown (search hexes "gateway down" library 3) asked left
invoke-IsReviewable_example = invoke-IsReviewable hexes shown library asked left leaves

abbrev verdict : Evaluation
verdict = record {
  passed = true;
  citation_integrity = true;
  grounded_action_rate = some (1, 1);
  safety_gate_rate = some (1, 1);
  violations = [];
}

passes : evaluate_workflow_result hexes shown left (some library) ≡ some verdict
unfolding evaluate_workflow_result violations_of check_actions index_documents
    action_provenance_sha256 check_digests all_hex authority_violations gate_violations minus
    contains lookup get set_of filter
passes = refl

evaluate_workflow_result-IsFit_example :
    (authoritative : List RunbookDocument) × (some library ≡ some authoritative)
    × IsFit hexes shown authoritative left
evaluate_workflow_result-IsFit_example =
    evaluate_workflow_result-IsFit hexes shown left (some library) verdict passes refl

restart-IsEntry : IsEntry hexes restart
unfolding get
restart-IsEntry = record {
  has_id = refl;
  flagged = refl;
  described = refl;
  not_blank = refl;
  not_unknown = refl;
}

library-IsLibrary : IsLibrary hexes shown library
library-IsLibrary = record {
  entries = (tt, ((restart-IsEntry, tt), tt));
  within = (tt, ((tt, tt), tt));
  apart = (((λ e. clash ((eq_iff "RB-2" "RB-1").1 e), λ a a' m m'. absurd m), tt), (tt, tt));
}
  where
    clash : false ≡ true → ⊥
    clash e = cc

hex_digests : (s : String) → well_formed (hexes.sha256_hex s) ≡ true
unfolding all_hex
hex_digests s = refl

invoke-passes_example :
    (after : IncidentGraphState) × (invoke hexes shown library asked ≡ ok after)
    × ((e : Evaluation) × (evaluate_workflow_result hexes shown after (some library) ≡ some e)
        × (e.passed ≡ true))
invoke-passes_example = invoke-passes hexes shown library asked hex_digests library-IsLibrary
