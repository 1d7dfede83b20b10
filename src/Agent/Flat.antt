-- ===== src/Agent/Flat.antt =====
-- What the graph makes of documents whose actions are well-formed: the actions of all documents in one list, each
-- with its document.
use hermes_enterprise_deploy.Base.{
  String, Bool, true, false, some, List, [], ◌∷◌, ◌++◌, ◌≡◌, refl, sym, ap, ap₂, ◌∙◌, if◌then◌else◌,
  ok, All, ◌==◌, string_eq,
}
use hermes_enterprise_deploy.Json.{Json, bool, str, Fields, get, set, dict, text_at}
use hermes_enterprise_deploy.Platform.{Platform}
use hermes_enterprise_deploy.Agent.Retrieval.{RunbookDocument}
use hermes_enterprise_deploy.Agent.Checks.{is_true}
use hermes_enterprise_deploy.Agent.Evaluation.{fingerprint, action_provenance_sha256}
use hermes_enterprise_deploy.Agent.Graph
use hermes_enterprise_deploy.Agent.Graph.{review_action}
use mathlib.Core.List.{map}

-- An action with the document that it stands in.
abbrev pub Entry : Type 0
Entry = RunbookDocument × Fields

abbrev pub id_of : Fields → String
id_of action = text_at "action_id" action

abbrev pub flag_of : Fields → Bool
flag_of action = is_true (get "consequential" action)

-- The three keys hold what the schema of a runbook asks for.
pub record IsEntry (p : Platform) (action : Fields) : Type 0 where
  pub has_id : get "action_id" action ≡ some (str (id_of action))
  pub flagged : get "consequential" action ≡ some (bool (flag_of action))
  pub described : get "description" action ≡ some (str (text_at "description" action))
  pub not_blank : (p.strip (id_of action) == "") ≡ false
  pub not_unknown : (id_of action == "unknown") ≡ false

abbrev pub flat : List RunbookDocument → List Entry
flat [] = []
flat (d ∷ ds) = map (λ a. (d, a)) d.actions ++ flat ds

abbrev pub names : List Entry → List String
names [] = []
names ((d, a) ∷ es) = if flag_of a then id_of a ∷ names es else names es

-- The action as the graph leaves it.
abbrev pub tidy : Entry → Fields
tidy (d, a) = dict (
    ("action_id", str (id_of a))
    ∷ ("description", str (text_at "description" a))
    ∷ ("citation_id", str d.document_id)
    ∷ ("consequential", bool (flag_of a))
    ∷ ("approval_required", bool (flag_of a))
    ∷ [])

names-append : (xs ys : List Entry) → names (xs ++ ys) ≡ names xs ++ names ys
names-append [] ys = refl
names-append ((d, a) ∷ xs) ys = added (flag_of a) (id_of a) _ _ (names ys) (names-append xs ys)
  where
    added :
        (b : Bool) (i : String) (zs us vs : List String)
        → zs ≡ us ++ vs
        → (if b then i ∷ zs else zs) ≡ (if b then i ∷ us else us) ++ vs
    added true i zs us vs e = ap (◌∷◌ i) e
    added false i zs us vs e = e

pub map-append :
    {A B : Type 0} (f : A → B) (xs ys : List A) → map f (xs ++ ys) ≡ map f xs ++ map f ys
map-append f [] ys = refl
map-append f (x ∷ xs) ys = ap (◌∷◌ (f x)) (map-append f xs ys)

map-map :
    {A B C : Type 0} (g : B → C) (f : A → B) (h : A → C) (xs : List A)
    → ((x : A) → g (f x) ≡ h x)
    → map g (map f xs) ≡ map h xs
map-map g f h [] e = refl
map-map g f h (x ∷ xs) e = ap₂ (λ y ys. y ∷ ys) (e x) (map-map g f h xs e)

module _ (p : Platform) (show : Json → String) where
  abbrev pub digest : Entry → String
  digest (d, a) = action_provenance_sha256 p show (str d.document_id) a

  abbrev analyzed : Entry → Fields
  analyzed (d, a) =
      Graph.proposed p show d.document_id (str (id_of a)) (str (text_at "description" a))
        (bool (flag_of a))

  analyze_step :
      (document_id : String) (a : Fields) (rest : List Fields) (i s : String) (b : Bool)
      (out : List Fields × List String)
      → get "action_id" a ≡ some (str i)
      → get "consequential" a ≡ some (bool b)
      → get "description" a ≡ some (str s)
      → Graph.analyze_actions p show document_id rest ≡ ok out
      → Graph.analyze_actions p show document_id (a ∷ rest)
        ≡ ok (
          Graph.proposed p show document_id (str i) (str s) (bool b) ∷ out.0,
          if b then i ∷ out.1 else out.1,
        )
  unfolding Graph.analyze_actions
  analyze_step document_id a rest i s b out h1 h2 h3 h4 = rw (h1, h2, h3, h4) refl

  analyze_actions-eq :
      (d : RunbookDocument) (actions : List Fields)
      → All (IsEntry p) actions
      → Graph.analyze_actions p show d.document_id actions
        ≡ ok (map analyzed (map (λ a. (d, a)) actions), names (map (λ a. (d, a)) actions))
  unfolding Graph.analyze_actions
  analyze_actions-eq d [] h = refl
  analyze_actions-eq d (a ∷ rest) h =
      analyze_step d.document_id a rest _ _ _ _ h.0.has_id h.0.flagged h.0.described
        (analyze_actions-eq d rest h.1)

  pub analyze_documents-eq :
      (ds : List RunbookDocument)
      → All (λ d. All (IsEntry p) d.actions) ds
      → Graph.analyze_documents p show ds ≡ ok (map analyzed (flat ds), names (flat ds))
  unfolding Graph.analyze_documents
  analyze_documents-eq [] h = refl
  analyze_documents-eq (d ∷ ds) h =
      rw
        (
          analyze_actions-eq d d.actions h.0,
          analyze_documents-eq ds h.1,
          map-append analyzed (map (λ a. (d, a)) d.actions) (flat ds),
          names-append (map (λ a. (d, a)) d.actions) (flat ds),
        )
        refl

  pub reviewed-eq : (es : List Entry) → map review_action (map analyzed es) ≡ map tidy es
  unfolding get set
  reviewed-eq es = map-map review_action analyzed tidy es λ e. refl

  pub all_digests-eq :
      (ds : List RunbookDocument)
      → Graph.all_digests p show ds ≡ map (λ e. str (digest e)) (flat ds)
  unfolding Graph.all_digests
  all_digests-eq [] = refl
  all_digests-eq (d ∷ ds) =
      ap₂ (λ xs ys. xs ++ ys)
        (map-map (λ t. str t) _ (λ a. str (digest (d, a))) d.actions (λ a. refl)
          ∙ sym (map-map (λ e. str (digest e)) (λ a. (d, a)) _ d.actions (λ a. refl)))
        (all_digests-eq ds)
      ∙ sym (map-append (λ e. str (digest e)) (map (λ a. (d, a)) d.actions) (flat ds))

  same_fingerprint :
      (j : Json) (a b : Fields)
      → get "action_id" a ≡ get "action_id" b
      → get "consequential" a ≡ get "consequential" b
      → get "description" a ≡ get "description" b
      → action_provenance_sha256 p show j a ≡ action_provenance_sha256 p show j b
  unfolding action_provenance_sha256
  same_fingerprint j a b h1 h2 h3 =
      ap₂ (λ i c. fingerprint p show j i c (get "description" a)) h1 h2
      ∙ ap (fingerprint p show j (get "action_id" b) (get "consequential" b)) h3

  pub tidy-digest :
      (d : RunbookDocument) (a : Fields)
      → IsEntry p a
      → action_provenance_sha256 p show (str d.document_id) (tidy (d, a)) ≡ digest (d, a)
  unfolding get
  tidy-digest d a h =
      same_fingerprint (str d.document_id) (tidy (d, a)) a (sym h.has_id) (sym h.flagged)
        (sym h.described)
