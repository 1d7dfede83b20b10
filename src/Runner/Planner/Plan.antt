-- ===== src/Runner/Planner/Plan.antt =====
-- What the list of proposed actions says of the runbook.
use hermes_enterprise_deploy.Base.{
  ℕ, ◌+◌, String, true, false, Option, none, some, List, [], ◌∷◌, ◌++◌, append_assoc, append-nil,
  ◌≡◌, refl, sym, ap, subst, ◌∙◌, ◌⊎◌, inl, inr, Result, ok, err, length, length-append, >>=-eq-ok,
  ok-injective, arith, Bool-cases, ◌==◌, string_eq,
}
use hermes_enterprise_deploy.Json.{
  Json, null, str, arr, obj, Items, nil, cons, Fields, end, get, has, truthy,
}
use hermes_enterprise_deploy.Runner.Planner.{
  ProposedAction, PlanError, type_error, key_error, added, action_of, append_steps,
  build_proposed_actions, append_all, source_of, with_source, requires_approval, description_of,
  id_of,
}

-- The steps of a runbook that can be planned.
abbrev steps_of : Option Json → Items
steps_of (some (arr steps)) = steps
steps_of _ = nil

-- The action with the number `n` for a step: it takes the text and the ID of the step, and requires an
-- approval unless the step says otherwise.
pub record IsActionOf (source : String) (n : ℕ) (step : Json) (a : ProposedAction) : Type 0 where
  pub fields : Fields
  pub is_dict : step ≡ obj fields
  pub order : a.order ≡ n
  pub description : get "action" fields ≡ some (str a.description)
  pub approval :
      ((get "approval_required" fields ≡ none) × (a.approval_required ≡ true))
      ⊎ ((flag : Json) × (get "approval_required" fields ≡ some flag)
          × (a.approval_required ≡ truthy (some flag)))
  pub id :
      ((a.action_id ≡ none) × ((get "step_id" fields ≡ none) ⊎ (get "step_id" fields ≡ some null)))
      ⊎ ((s : String) × (get "step_id" fields ≡ some (str s)) × (a.action_id ≡ some s))
  pub source_same : a.source ≡ source

-- One action for each step, in their order, numbered from `n` without a gap.
abbrev pub Follows : String → ℕ → Items → List ProposedAction → Type 0
Follows source n nil [] = Unit
Follows source n (cons step steps) (a ∷ as') =
    IsActionOf source n step a × Follows source (n + 1) steps as'
Follows source n _ _ = ⊥

described : (o : Option Json) {s : String} → description_of o ≡ ok s → o ≡ some (str s)
described (some (str s)) e = ap (λ t. some (str t)) (ok-injective e)
described _ e = cc

approved_by_step :
    (o : Option Json)
    → ((o ≡ none) × (requires_approval o ≡ true))
      ⊎ ((flag : Json) × (o ≡ some flag) × (requires_approval o ≡ truthy (some flag)))
approved_by_step none = inl (refl, refl)
approved_by_step (some flag) = inr (flag, refl, refl)

identified :
    (o : Option Json) {id : Option String}
    → id_of o ≡ ok id
    → ((id ≡ none) × ((o ≡ none) ⊎ (o ≡ some null)))
      ⊎ ((s : String) × (o ≡ some (str s)) × (id ≡ some s))
identified none e = inl (sym (ok-injective e), inl refl)
identified (some null) e = inl (sym (ok-injective e), inr refl)
identified (some (str s)) e = inr (s, refl, sym (ok-injective e))
identified (some _) e = cc

source_of-text :
    (o : Option Json) {source : String}
    → source_of o ≡ ok source
    → ((o ≡ none) × (source ≡ "runbook")) ⊎ (o ≡ some (str source))
source_of-text none e = inl (refl, sym (ok-injective e))
source_of-text (some (str s)) e = inr (ap (λ t. some (str t)) (ok-injective e))
source_of-text (some _) e = cc

action_of-IsActionOf :
    (source : String) (n : ℕ) (step : Fields) {a : ProposedAction}
    → action_of source n step ≡ ok a
    → IsActionOf source n (obj step) a
action_of-IsActionOf source n step {a} e =
    let (description, described_as, e1) = >>=-eq-ok (description_of (get "action" step)) _ e in
    let (id, named, e2) = >>=-eq-ok (id_of (get "step_id" step)) _ e1 in
    let same = ok-injective e2 in
    subst (IsActionOf source n (obj step)) same (record {
      fields = step;
      is_dict = refl;
      order = refl;
      description = described (get "action" step) described_as;
      id = identified (get "step_id" step) named;
      approval = approved_by_step (get "approval_required" step);
      source_same = refl;
    })

append_steps-Follows :
    (source : String) (acc : List ProposedAction) (steps : Items) {out : List ProposedAction}
    → append_steps source acc steps ≡ ok out
    → (rest : List ProposedAction) × (out ≡ acc ++ rest)
      × Follows source (length acc + 1) steps rest
unfolding append_steps
append_steps-Follows source acc nil e = ([], sym (append-nil acc ∙ ok-injective e), tt)
append_steps-Follows source acc (cons (obj step) steps) {out} e =
    let (a, made, e') = >>=-eq-ok (action_of source (length acc + 1) step) _ e in
    let (rest, same, follows) = append_steps-Follows source (acc ++ a ∷ []) steps e' in
    (
      a ∷ rest,
      same ∙ append_assoc acc (a ∷ []) rest,
      (
        action_of-IsActionOf source (length acc + 1) step made,
        subst (λ n. Follows source n steps rest) (omega (arith, length-append acc (a ∷ [])))
            follows,
      ),
    )
append_steps-Follows source acc (cons _ steps) e = cc

-- The list: the two actions that the workflow adds, then those of the steps.
pub record Planned (runbook : Fields) (actions : List ProposedAction) : Type 0 where
  pub first : ProposedAction
  pub second : ProposedAction
  pub rest : List ProposedAction
  pub source : String
  pub named :
      ((get "runbook_id" runbook ≡ none) × (source ≡ "runbook"))
      ⊎ (get "runbook_id" runbook ≡ some (str source))
  pub split : actions ≡ first ∷ second ∷ rest
  pub first_order : first.order ≡ 1
  pub second_order : second.order ≡ 2
  pub first_free : first.approval_required ≡ false
  pub second_free : second.approval_required ≡ false
  pub follows : Follows source 3 (steps_of (get "steps" runbook)) rest

append_all-Follows :
    (source : String) (acc : List ProposedAction) (o : Option Json) {out : List ProposedAction}
    → append_all source acc o ≡ ok out
    → (rest : List ProposedAction) × (out ≡ acc ++ rest)
      × Follows source (length acc + 1) (steps_of o) rest
append_all-Follows source acc none e = ([], sym (append-nil acc ∙ ok-injective e), tt)
append_all-Follows source acc (some (arr steps)) e = append_steps-Follows source acc steps e
append_all-Follows source acc (some (obj end)) e = ([], sym (append-nil acc ∙ ok-injective e), tt)
append_all-Follows source acc (some (str s)) {out} e = elim (Bool-cases (s == "")) [
  | inl blank ↦
      let kept : ok acc ≡ ok out = rw blank at e in
      ([], sym (append-nil acc ∙ ok-injective kept), tt)
  | inr other ↦
      let no : ◌≡◌ {A = Result PlanError (List ProposedAction)} (err type_error) (ok out) =
        rw other at e in
      cc
]
append_all-Follows source acc (some _) e = cc

with_source-Planned :
    (runbook : Fields) (source : String) {out : List ProposedAction}
    → source_of (get "runbook_id" runbook) ≡ ok source
    → with_source runbook source ≡ ok out
    → Planned runbook out
with_source-Planned runbook source named e =
    let first = added 1 "workflow-runner" in
    let second = added 2 source in
    let (rest, same, follows) =
      append_all-Follows source (first ∷ second ∷ []) (get "steps" runbook) e in
    record {
      first = first;
      second = second;
      rest = rest;
      source = source;
      named = source_of-text (get "runbook_id" runbook) named;
      split = same;
      first_order = refl;
      second_order = refl;
      first_free = refl;
      second_free = refl;
      follows = follows;
    }

-- When the proposed actions are built, they are the two of the workflow, numbered 1 and 2 and
-- without approval, and then one for each step of the runbook in its order, numbered from 3
-- without a gap, with the text and the ID of the step and the ID of the runbook as source (the
-- word runbook if it has none), which requires an approval unless the step says otherwise.
pub build_proposed_actions-Planned :
    (incident runbook : Fields) (actions : List ProposedAction)
    → build_proposed_actions incident runbook ≡ ok actions
    → Planned runbook actions
unfolding build_proposed_actions
build_proposed_actions-Planned incident runbook actions e =
    elim (Bool-cases (has "incident_id" incident)) [
      | inl named ↦
          let (source, text, made) =
            >>=-eq-ok (source_of (get "runbook_id" runbook)) _ (rw named at e) in
          with_source-Planned runbook source text made
      | inr nameless ↦
          let no : ◌≡◌ {A = Result PlanError (List ProposedAction)} (err key_error) (ok actions) =
            rw nameless at e in
          cc
    ]
