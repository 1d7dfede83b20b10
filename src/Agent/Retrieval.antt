-- ===== src/Agent/Retrieval.antt =====
-- agent_workflow/retrieval.py. The set of a text's terms is a list without repetitions. `re.findall` of
-- `[a-z0-9]+` is the list of the longest runs of such characters.
use Prim.Native.Nat.{Ordering}
use Prim.Native.Char.{Char, code}
use Prim.Native.String.{compare}
use hermes_enterprise_deploy.Base.{
  ℕ, String, Bool, true, false, List, [], ◌∷◌, leb, ltb, nat_beq, not, ◌&&◌, ◌||◌, ◌==◌, string_eq,
  if◌then◌else◌, filter, length, any,
}
use hermes_enterprise_deploy.Base.Members.{take}
use hermes_enterprise_deploy.Json.{Fields}
use hermes_enterprise_deploy.Platform.{Platform}

pub record RunbookDocument : Type 0 where
  pub document_id : String
  pub text : String
  pub actions : List Fields

abbrev term_char : Char → Bool
term_char c = leb 97 (code c) && leb (code c) 122 || leb 48 (code c) && leb (code c) 57

abbrev emit : String → List String → List String
emit word words = if word == "" then words else word ∷ words

-- The run that the text begins with, and the runs after it.
unfoldable pub runs : String → String × List String
runs String.[] = ("", [])
runs (String.◌∷◌ c s) =
    let (word, words) = runs s in
    if term_char c then (String.◌∷◌ c word, words) else ("", emit word words)

abbrev pub find_all : String → List String
find_all s = let (word, words) = runs s in emit word words

unfoldable pub set_of : List String → List String
set_of [] = []
set_of (x ∷ xs) = x ∷ filter (λ y. not (y == x)) (set_of xs)

module _ (p : Platform) (query : String) where
  -- `_terms`
  unfoldable pub terms : String → List String
  unfolding runs set_of
  terms value = set_of (find_all (p.lower value))

  -- `len(query_terms & _terms(document.text))`
  unfoldable pub score : RunbookDocument → ℕ
  unfolding terms
  score d = length (filter (λ t. any (λ u. u == t) (terms d.text)) (terms query))

  abbrev id_le : String → String → Bool
  id_le a b = elim (compare a b) [ Ordering.gt ↦ false | _ ↦ true ]

  -- The order of the keys `(-score, document_id)`
  abbrev pub key_le : RunbookDocument → RunbookDocument → Bool
  key_le a b =
      ltb (score b) (score a) || nat_beq (score a) (score b) && id_le a.document_id b.document_id

  abbrev pub insert : RunbookDocument → List RunbookDocument → List RunbookDocument
  insert x [] = x ∷ []
  insert x (y ∷ ys) = let rest = insert x ys in if key_le x y then x ∷ y ∷ ys else y ∷ rest

  -- `sorted`, which is stable; the score of a document stands for the tuple that carries it.
  unfoldable pub ranked : List RunbookDocument → List RunbookDocument
  ranked [] = []
  ranked (x ∷ xs) = insert x (ranked xs)

  unfoldable pub search : List RunbookDocument → ℕ → List RunbookDocument
  unfolding ranked
  search documents limit = take limit (filter (λ d. ltb 0 (score d)) (ranked documents))
