-- ===== src/Agent/Evaluation.antt =====
-- agent_workflow/evaluation.py: the fingerprint of an action, the loops over documents and actions, and
-- the evaluator. A rate is the two numbers that the code divides, or 1.0.

use hermes_enterprise_deploy.Base.{
  ℕ, zero, suc, String, Bool, true, false, Option, none, some, List, [], ◌∷◌, ◌++◌, not, ◌&&◌, ◌==◌,
  string_eq, if◌then◌else◌, filter, length,
}
use hermes_enterprise_deploy.Base.Dict.{lookup}
use hermes_enterprise_deploy.Base.Members.{contains, minus, same_set, is_empty}
use hermes_enterprise_deploy.Json.{Json, str, Fields, get, dict, json_of}
use hermes_enterprise_deploy.Platform.{Platform}
use hermes_enterprise_deploy.Agent.Retrieval.{RunbookDocument, set_of}
use hermes_enterprise_deploy.Agent.State.{IncidentGraphState, or_empty, python_str}
use mathlib.Core.List.{map}
use hermes_enterprise_deploy.Agent.Checks.{
  Violation, provenance_not_independently_verifiable, duplicate_authoritative_document,
  citation_not_retrieved, missing_action_id, duplicate_action_id, action_not_grounded,
  action_provenance_mismatch, consequential_action_ids_mismatch, missing_executed_actions,
  workflow_executed_actions_during_review, report, check_digests, check_provenance,
  status_violations, is_true, flag_violations, gate_violations, cites, unhashable, Index,
  digests_of, authority_violations,
}

pub record Evaluation : Type 0 where
  pub passed : Bool
  pub citation_integrity : Bool
  pub grounded_action_rate : Option (ℕ × ℕ)
  pub safety_gate_rate : Option (ℕ × ℕ)
  pub violations : List Violation

-- `part / whole if whole else 1.0`
abbrev pub rate : ℕ → ℕ → Option (ℕ × ℕ)
rate part zero = none
rate part (suc n) = some (part, suc n)

module _ (p : Platform) (show : Json → String) where
  -- The digest of the payload, from the document's ID and the values of the three keys.
  abbrev pub fingerprint : Json → Option Json → Option Json → Option Json → String
  fingerprint document_id action_id consequential description = p.sha256_hex (
      p.dumps (
        dict (
          ("action_id", str (python_str show (json_of action_id)))
          ∷ ("consequential", json_of consequential)
          ∷ ("description", str (python_str show (json_of description)))
          ∷ ("document_id", document_id)
          ∷ [])))

  unfoldable pub action_provenance_sha256 : Json → Fields → String
  action_provenance_sha256 document_id action =
      fingerprint document_id (get "action_id" action) (get "consequential" action)
        (get "description" action)

  abbrev pub digests : RunbookDocument → List String
  digests d = map (λ action. action_provenance_sha256 (str d.document_id) action) d.actions

  abbrev pub known : Index → String → Bool
  known index id = elim (lookup id index) [ none ↦ false | some _ ↦ true ]

  -- The loop that builds `authoritative_actions`, from the documents indexed so far.
  unfoldable pub index_documents : List RunbookDocument → Index → List Violation × Index
  unfolding lookup
  index_documents [] index = ([], index)
  index_documents (d ∷ ds) index =
      let twice = known index d.document_id in
      let (more, all) =
        index_documents ds (if twice then index else (d.document_id, digests d) ∷ index) in
      (report twice (duplicate_authoritative_document d.document_id) ++ more, all)

  abbrev pub authority : Option (List RunbookDocument) → List Violation × Option Index
  authority none = (provenance_not_independently_verifiable ∷ [], none)
  authority (some documents) =
      let (violations, index) = index_documents documents [] in (violations, some index)

  -- The action's name in the reports, and the IDs seen with it.
  abbrev pub name_action : Option Json → List String → List Violation × String × List String
  name_action (some (str s)) seen =
      if p.strip s == ""
      then (missing_action_id ∷ [], "unknown", seen)
      else if contains seen s
      then (duplicate_action_id s ∷ [], s, seen)
      else ([], s, s ∷ seen)
  name_action _ seen = (missing_action_id ∷ [], "unknown", seen)

  abbrev pub independently_grounded : Option Index → Fields → Bool
  independently_grounded none action = false
  independently_grounded (some index) action =
      contains (digests_of index (get "citation_id" action))
        (action_provenance_sha256 (json_of (get "citation_id" action)) action)

  module _ (index : Option Index) (retrieved : List String) where
    abbrev pub grounding_violations : String → Fields → List Violation
    grounding_violations id action =
        let cited = cites retrieved (get "citation_id" action) in
        if cited && independently_grounded index action
        then []
        else action_not_grounded id ∷ report cited (action_provenance_mismatch id)

    -- The loop over the actions: the violations, the IDs of consequential actions, how many are grounded.
    unfoldable pub check_actions : List Fields → List String → List Violation × List String × ℕ
    unfolding contains lookup action_provenance_sha256
    check_actions [] seen = ([], [], 0)
    check_actions (action ∷ rest) seen =
        let (naming, id, seen') = name_action (get "action_id" action) seen in
        let grounding = grounding_violations id action in
        let (more, consequential_ids, grounded) = check_actions rest seen' in
        (
          naming
              ++ grounding
              ++ flag_violations id (get "consequential" action) (get "approval_required" action)
              ++ more,
          (if is_true (get "consequential" action) && not (id == "unknown")
              then id ∷ consequential_ids
              else consequential_ids),
          (if is_empty grounding then suc grounded else grounded),
        )

  abbrev pub declared_violations : Option (List String) → List String → List Violation
  declared_violations none derived = []
  declared_violations (some declared) derived =
      report (not (same_set declared derived)) consequential_action_ids_mismatch

  abbrev pub executed_violations : Option (List String) → List Violation
  executed_violations none = missing_executed_actions ∷ []
  executed_violations (some []) = []
  executed_violations (some (x ∷ xs)) = workflow_executed_actions_during_review ∷ []

  module _ (result : IncidentGraphState) (documents : Option (List RunbookDocument)) where
    abbrev pub retrieved_ids : List String
    retrieved_ids = set_of (or_empty result.retrieved_document_ids)

    abbrev pub all_actions : List Fields
    all_actions = or_empty result.actions

    abbrev pub unknown_citations : List String
    unknown_citations = minus (or_empty result.citations) retrieved_ids

    abbrev pub consequential_actions : List Fields
    consequential_actions = filter (λ a. is_true (get "consequential" a)) all_actions

    abbrev pub checked : List Violation × List String × ℕ
    checked = check_actions (authority documents).1 retrieved_ids all_actions []

    unfoldable pub violations_of : List Violation
    unfolding check_digests authority_violations index_documents check_actions gate_violations minus
        set_of contains
    violations_of =
        (authority documents).0
        ++ (check_provenance result.retrieved_action_provenance).0
        ++ authority_violations (authority documents).1 retrieved_ids
            (check_provenance result.retrieved_action_provenance).1
        ++ status_violations result.status retrieved_ids (or_empty result.citations) all_actions
        ++ map (λ citation. citation_not_retrieved citation) unknown_citations
        ++ checked.0
        ++ declared_violations result.consequential_action_ids checked.1
        ++ gate_violations all_actions
        ++ executed_violations result.executed_actions

    -- `none` where Python raises a TypeError for a citation that cannot be looked up.
    unfoldable pub evaluate_workflow_result : Option Evaluation
    unfolding violations_of
    evaluate_workflow_result =
        if is_empty (filter (λ action. unhashable (get "citation_id" action)) all_actions)
        then some (record {
          passed = is_empty violations_of;
          citation_integrity = is_empty unknown_citations;
          grounded_action_rate = rate checked.2 (length all_actions);
          safety_gate_rate =
              rate
                (length (filter (λ a. is_true (get "approval_required" a)) consequential_actions))
                (length consequential_actions);
          violations = violations_of;
        })
        else none
