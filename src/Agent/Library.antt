-- ===== src/Agent/Library.antt =====
-- Libraries of well-formed runbooks, and what a search keeps of them.
use hermes_enterprise_deploy.Base.{
  ℕ, String, List, [], ◌∷◌, ◌++◌, ◌≢◌, refl, sym, ap, subst, ◌⊎◌, inl, inr, All, Bool-cases,
}
use hermes_enterprise_deploy.Base.Members.{
  In, All-In, All-of, Descends, Descends-filter, Descends-take,
}
use hermes_enterprise_deploy.Json.{Json, Fields}
use hermes_enterprise_deploy.Platform.{Platform}
use hermes_enterprise_deploy.Agent.Retrieval.{RunbookDocument, key_le, insert, ranked, search}
use hermes_enterprise_deploy.Agent.Ranking.{In-of_insert, In-of_ranked, search-IsBest}
use hermes_enterprise_deploy.Agent.Gated.{All_map}
use hermes_enterprise_deploy.Agent.Inversion.{In-of_map}
use hermes_enterprise_deploy.Agent.Flat.{Entry, IsEntry, flat, id_of, digest}
use mathlib.Core.List.{map}

split : {A : Type 0} (xs ys : List A) (z : A) → In z (xs ++ ys) → In z xs ⊎ In z ys
split [] ys z m = inr m
split (x ∷ xs) ys z (inl e) = inl (inl e)
split (x ∷ xs) ys z (inr m) = elim (split xs ys z m) [ inl l ↦ inl (inr l) | inr r ↦ inr r ]

Descends-append :
    {A : Type 0} (R : A → A → Type 0) (xs ys : List A)
    → Descends R xs
    → Descends R ys
    → ((x y : A) → In x xs → In y ys → R x y)
    → Descends R (xs ++ ys)
Descends-append R [] ys h k f = k
Descends-append R (x ∷ xs) ys h k f = (
  (All-of (R x) (xs ++ ys) λ y m. elim (split xs ys y m) [
    | inl left ↦ All-In (R x) xs y h.0 left
    | inr right ↦ f x y (inl refl) right
  ]),
  Descends-append R xs ys h.1 k λ z y m n. f z y (inr m) n,
)

pub Descends-map :
    {A B : Type 0} (R : A → A → Type 0) (Q : B → B → Type 0) (f : A → B) (xs : List A)
    → ((x y : A) → R x y → Q (f x) (f y))
    → Descends R xs
    → Descends Q (map f xs)
Descends-map R Q f [] g h = tt
Descends-map R Q f (x ∷ xs) g h =
    (All_map (R x) (Q (f x)) f xs (g x) h.0, Descends-map R Q f xs g h.1)

module _ (p : Platform) (show : Json → String) where
  -- Two actions have neither their ID nor their fingerprint in common.
  abbrev pub Differ : Entry → Entry → Type 0
  Differ e e' = (id_of e.1 ≢ id_of e'.1) × (digest p show e ≢ digest p show e')

  abbrev pub Separate : RunbookDocument → RunbookDocument → Type 0
  Separate d d' =
      (d.document_id ≢ d'.document_id)
      × ((a a' : Fields) → In a d.actions → In a' d'.actions → Differ (d, a) (d', a'))

  -- Every action is well-formed, and no two documents or actions are confused.
  pub record IsLibrary (documents : List RunbookDocument) : Type 0 where
    pub entries : All (λ d. All (IsEntry p) d.actions) documents
    pub within : All (λ d. Descends (λ a a'. Differ (d, a) (d, a')) d.actions) documents
    pub apart : Descends Separate documents

  flipped : (d d' : RunbookDocument) → Separate d d' → Separate d' d
  flipped d d' (n, f) = (
    (λ e. n (sym e)),
    λ a a' m m'. let (i, j) = f a' a m' m in ((λ e. i (sym e)), λ e. j (sym e)),
  )

  module _ (query : String) where
    insert-Separate :
        (x : RunbookDocument) (l : List RunbookDocument)
        → All (Separate x) l
        → Descends Separate l
        → Descends Separate (insert p query x l)
    insert-Separate x [] s h = (tt, tt)
    insert-Separate x (z ∷ zs) s h = elim (Bool-cases (key_le p query x z)) [
      | inl first ↦ rw first (s, h)
      | inr later ↦ rw later (
        (All-of (Separate z) (insert p query x zs) λ y m. elim (In-of_insert p query x y zs m) [
          | inl e ↦ subst (Separate z) (sym e) (flipped x z s.0)
          | inr m' ↦ All-In (Separate z) zs y h.0 m'
        ]),
        insert-Separate x zs s.1 h.1,
      )
    ]

    ranked-Separate :
        (l : List RunbookDocument) → Descends Separate l → Descends Separate (ranked p query l)
    unfolding ranked
    ranked-Separate [] h = tt
    ranked-Separate (x ∷ xs) h =
        insert-Separate x (ranked p query xs)
          (All-of (Separate x) (ranked p query xs)
            λ y m. All-In (Separate x) xs y h.0 (In-of_ranked p query y xs m))
          (ranked-Separate xs h.1)

    pub search-IsLibrary :
        (documents : List RunbookDocument) (limit : ℕ)
        → IsLibrary documents
        → IsLibrary (search p query documents limit)
    unfolding search
    search-IsLibrary documents limit h =
        let best = search-IsBest p query documents limit in
        record {
          entries = All-of _ _ λ d m. All-In _ documents d h.entries (best.matches d m).0;
          within = All-of _ _ λ d m. All-In _ documents d h.within (best.matches d m).0;
          apart =
              Descends-take Separate limit _
                (Descends-filter Separate _ _ (ranked-Separate documents h.apart));
        }

  pub In-flat :
      (ds : List RunbookDocument) (e : Entry) → In e (flat ds) → In e.0 ds × In e.1 e.0.actions
  In-flat [] e m = absurd m
  In-flat (d ∷ ds) e m = elim (split (map (λ a. (d, a)) d.actions) (flat ds) e m) [
    | inl here ↦
        let (a, m', same) = In-of_map (λ a. (d, a)) d.actions e here in
        (inl (ap (λ x. x.0) same), subst (λ x. In x.1 x.0.actions) (sym same) m')
    | inr there ↦ let (d_there, a_there) = In-flat ds e there in (inr d_there, a_there)
  ]

  pub flat-Differ : (ds : List RunbookDocument) → IsLibrary ds → Descends Differ (flat ds)
  flat-Differ [] h = tt
  flat-Differ (d ∷ ds) h =
      Descends-append Differ (map (λ a. (d, a)) d.actions) (flat ds)
        (Descends-map (λ a a'. Differ (d, a) (d, a')) Differ (λ a. (d, a)) d.actions (λ a a' r. r)
          h.within.0)
        (flat-Differ ds (record { entries = h.entries.1; within = h.within.1; apart = h.apart.1 }))
        λ x y m n.
          let (a, m', same) = In-of_map (λ a. (d, a)) d.actions x m in
          let (d_there, a_there) = In-flat ds y n in
          subst (λ e. Differ e y) (sym same)
            ((All-In (Separate d) ds y.0 h.apart.0 d_there).1 a y.1 m' a_there)
