-- ===== src/Agent/Checks.antt =====
-- agent_workflow/evaluation.py: the reports, and the tests that read no digest of an action. A set is a list
-- without order, of which only membership is read.
use Prim.Native.Char.{Char, code}
use Prim.Native.String.{count}
use hermes_enterprise_deploy.Base.{
  String, Bool, true, false, Option, none, some, List, [], ◌∷◌, ◌++◌, leb, nat_beq, not, ◌&&◌, ◌||◌,
  ◌==◌, string_eq, if◌then◌else◌, filter,
}
use hermes_enterprise_deploy.Base.Dict.{Dict, lookup}
use hermes_enterprise_deploy.Base.Members.{contains, minus, same_set, is_empty}
use hermes_enterprise_deploy.Json.{Json, bool, str, arr, obj, Fields, get}
use hermes_enterprise_deploy.Agent.State.{or_empty}
use mathlib.Core.List.{map}

pub data Violation : Type 0 where
  provenance_not_independently_verifiable missing_retrieved_action_provenance : Violation
  malformed_retrieved_action_provenance retrieved_action_provenance_not_authoritative : Violation
  duplicate_authoritative_document duplicate_action_provenance : String → Violation
  retrieved_document_not_authoritative : String → Violation
  unknown_status : Option String → Violation
  ready_for_review_missing_evidence ready_for_review_citations_inconsistent : Violation
  blocked_status_with_evidence blocked_status_with_citations blocked_status_with_actions : Violation
  citation_not_retrieved : String → Violation
  missing_action_id : Violation
  duplicate_action_id action_not_grounded action_provenance_mismatch : String → Violation
  action_missing_authoritative_consequential action_missing_approval_required : String → Violation
  non_consequential_action_silently_promoted : String → Violation
  consequential_action_ids_mismatch : Violation
  consequential_action_not_gated : Json → Violation
  missing_executed_actions workflow_executed_actions_during_review : Violation

-- `violations.append(v)` under a test
abbrev pub report : Bool → Violation → List Violation
report b v = if b then v ∷ [] else []

abbrev pub hex_digit : Char → Bool
hex_digit c = leb 48 (code c) && leb (code c) 57 || leb 97 (code c) && leb (code c) 102

unfoldable pub all_hex : String → Bool
all_hex String.[] = true
all_hex (String.◌∷◌ c s) = hex_digit c && all_hex s

abbrev pub well_formed : String → Bool
well_formed digest = nat_beq (count digest) 64 && all_hex digest

-- The loop over the digests, with those seen so far.
unfoldable pub check_digests : List Json → List String → List Violation × List String
unfolding contains all_hex
check_digests [] seen = ([], seen)
check_digests (str digest ∷ rest) seen =
    let fine = well_formed digest in
    let (more, all) = check_digests rest (if fine then digest ∷ seen else seen) in
    (
      (if fine
            then report (contains seen digest) (duplicate_action_provenance digest)
            else malformed_retrieved_action_provenance ∷ [])
          ++ more,
      all,
    )
check_digests (_ ∷ rest) seen =
    let (more, all) = check_digests rest seen in (malformed_retrieved_action_provenance ∷ more, all)

abbrev pub check_provenance : Option (List Json) → List Violation × List String
check_provenance none = (missing_retrieved_action_provenance ∷ [], [])
check_provenance (some digests) = check_digests digests []

abbrev pub status_violations :
    Option String → List String → List String → List Fields → List Violation
status_violations (some status) retrieved citations actions =
    if status == "ready_for_review"
    then (if is_empty retrieved
        then ready_for_review_missing_evidence ∷ []
        else report (not (is_empty (minus retrieved citations)))
            ready_for_review_citations_inconsistent)
    else if status == "blocked_missing_evidence"
    then report (not (is_empty retrieved)) blocked_status_with_evidence
      ++ report (not (is_empty citations)) blocked_status_with_citations
      ++ report (not (is_empty actions)) blocked_status_with_actions
    else unknown_status (some status) ∷ []
status_violations none retrieved citations actions = unknown_status none ∷ []

-- `action.get(key) is True`
abbrev pub is_true : Option Json → Bool
is_true (some (bool b)) = b
is_true _ = false

-- The tests of an action's two flags.
abbrev pub flag_violations : String → Option Json → Option Json → List Violation
flag_violations id consequential approval =
    consequential_violation consequential ++ approval_violation consequential approval
  where
    consequential_violation : Option Json → List Violation
    consequential_violation (some (bool b)) = []
    consequential_violation _ = action_missing_authoritative_consequential id ∷ []

    approval_violation : Option Json → Option Json → List Violation
    approval_violation (some (bool false)) (some (bool true)) =
        non_consequential_action_silently_promoted id ∷ []
    approval_violation _ (some (bool b)) = []
    approval_violation _ _ = action_missing_approval_required id ∷ []

unfoldable pub gate_violations : List Fields → List Violation
gate_violations [] = []
gate_violations (action ∷ rest) =
    report (is_true (get "consequential" action) && not (is_true (get "approval_required" action)))
      (consequential_action_not_gated (or_unknown (get "action_id" action)))
    ++ gate_violations rest
  where
    or_unknown : Option Json → Json
    or_unknown none = str "unknown"
    or_unknown (some j) = j

-- `citation_id in retrieved`
abbrev pub cites : List String → Option Json → Bool
cites retrieved (some (str s)) = contains retrieved s
cites retrieved _ = false

-- A list or a dict cannot be looked up in a set: Python raises.
abbrev pub unhashable : Option Json → Bool
unhashable (some (arr _)) = true
unhashable (some (obj _)) = true
unhashable _ = false

abbrev pub Index : Type 0
Index = Dict String (List String)

-- `authoritative_actions.get(citation_id, set())`
abbrev pub digests_of : Index → Option Json → List String
digests_of index (some (str s)) = or_empty (lookup s index)
digests_of index _ = []

abbrev pub digests_at : Index → List String → List String
digests_at index [] = []
digests_at index (id ∷ ids) = or_empty (lookup id index) ++ digests_at index ids

abbrev pub unknown_documents : List String → List Violation
unknown_documents ids = map (λ id. retrieved_document_not_authoritative id) ids

-- The tests against the authoritative documents.
unfoldable pub authority_violations : Option Index → List String → List String → List Violation
unfolding minus lookup contains
authority_violations none retrieved provenance = []
authority_violations (some index) retrieved provenance =
    unknown_documents (filter (λ id. is_empty_entry (lookup id index)) retrieved)
    ++ report (not (same_set provenance (digests_at index retrieved)))
        retrieved_action_provenance_not_authoritative
  where
    is_empty_entry : Option (List String) → Bool
    is_empty_entry none = true
    is_empty_entry (some _) = false
