-- ===== src/Agent/Ranking.antt =====
-- What the retriever returns.
use hermes_enterprise_deploy.Base.{
  ℕ, ◌≤◌, String, true, false, List, [], ◌∷◌, ◌≡◌, ◌⊎◌, inl, inr, arith, string_eq, length,
  Bool-cases, All,
}
use hermes_enterprise_deploy.Base.Members.{
  In, All-In, All-of, In-filter, In-of_filter, length-take, In-of_take, Descends, Descends-filter,
  Descends-take, In-take,
}
use hermes_enterprise_deploy.Platform.{Platform}
use hermes_enterprise_deploy.Agent.Retrieval.{
  RunbookDocument, score, key_le, insert, ranked, search,
}

module _ (p : Platform) (query : String) where
  abbrev AtLeast : RunbookDocument → RunbookDocument → Type 0
  AtLeast a b = score p query b ≤ score p query a

  pub In-of_insert :
      (x y : RunbookDocument) (l : List RunbookDocument)
      → In y (insert p query x l)
      → (y ≡ x) ⊎ In y l
  In-of_insert x y [] m = m
  In-of_insert x y (z ∷ zs) m = elim (Bool-cases (key_le p query x z)) [
    | inl first ↦ rw first at m
    | inr later ↦ elim (rw later at m) [
      | inl e ↦ inr (inl e)
      | inr m' ↦ elim (In-of_insert x y zs m') [ inl e ↦ inl e | inr m'' ↦ inr (inr m'') ]
    ]
  ]

  In-insert :
      (x y : RunbookDocument) (l : List RunbookDocument)
      → (y ≡ x) ⊎ In y l
      → In y (insert p query x l)
  In-insert x y [] m = m
  In-insert x y (z ∷ zs) m = elim (Bool-cases (key_le p query x z)) [
    | inl first ↦ rw first m
    | inr later ↦ rw later elim m [
      | inl e ↦ inr (In-insert x y zs (inl e))
      | inr (inl e) ↦ inl e
      | inr (inr m') ↦ inr (In-insert x y zs (inr m'))
    ]
  ]

  key_le-AtLeast : (a b : RunbookDocument) → key_le p query a b ≡ true → AtLeast a b
  key_le-AtLeast a b h = ground arith

  not-key_le-AtLeast : (a b : RunbookDocument) → key_le p query a b ≡ false → AtLeast b a
  not-key_le-AtLeast a b h = ground arith

  insert-Descends :
      (x : RunbookDocument) (l : List RunbookDocument)
      → Descends AtLeast l
      → Descends AtLeast (insert p query x l)
  insert-Descends x [] h = (tt, tt)
  insert-Descends x (z ∷ zs) h = elim (Bool-cases (key_le p query x z)) [
    | inl first ↦
        let top = key_le-AtLeast x z first in
        rw first ((top, All-of _ zs λ y m. below y (All-In (AtLeast z) zs y h.0 m) top), h)
    | inr later ↦ rw later (
      All-of _ _ λ y m. elim (In-of_insert x y zs m) [
        | inl e ↦ rw e (not-key_le-AtLeast x z later)
        | inr m' ↦ All-In (AtLeast z) zs y h.0 m'
      ],
      insert-Descends x zs h.1,
    )
  ]
    where
      below : (y : RunbookDocument) → AtLeast z y → AtLeast x z → AtLeast x y
      below y a b = omega (arith, a, b)

  ranked-Descends : (l : List RunbookDocument) → Descends AtLeast (ranked p query l)
  unfolding ranked
  ranked-Descends [] = tt
  ranked-Descends (x ∷ xs) = insert-Descends x (ranked p query xs) (ranked-Descends xs)

  In-ranked : (x : RunbookDocument) (l : List RunbookDocument) → In x l → In x (ranked p query l)
  unfolding ranked
  In-ranked x [] m = m
  In-ranked x (y ∷ ys) (inl e) = In-insert y x _ (inl e)
  In-ranked x (y ∷ ys) (inr m) = In-insert y x _ (inr (In-ranked x ys m))

  pub In-of_ranked :
      (x : RunbookDocument) (l : List RunbookDocument) → In x (ranked p query l) → In x l
  unfolding ranked
  In-of_ranked x [] m = m
  In-of_ranked x (y ∷ ys) m = elim (In-of_insert y x _ m) [
    | inl e ↦ inl e
    | inr m' ↦ inr (In-of_ranked x ys m')
  ]

  -- The best matches of a query among the documents, `limit` of them at most.
  pub record IsBest (documents : List RunbookDocument) (limit : ℕ) (found : List RunbookDocument)
      : Type 0 where
    pub bounded : length found ≤ limit
    pub matches : (d : RunbookDocument) → In d found → In d documents × (1 ≤ score p query d)
    pub descends : Descends AtLeast found
    pub complete :
        (d : RunbookDocument)
        → In d documents
        → 1 ≤ score p query d
        → In d found
          ⊎ ((length found ≡ limit) × All (λ other. score p query d ≤ score p query other) found)

  -- A search returns at most as many documents as the limit, each from the library and sharing a
  -- term with the query, in descending order of score; a document that shares a term and is left
  -- out scores at most as much as each that is returned, and as many as the limit are returned.
  pub search-IsBest :
      (documents : List RunbookDocument) (limit : ℕ)
      → IsBest documents limit (search p query documents limit)
  unfolding search
  search-IsBest documents limit = record {
    bounded = length-take limit _;
    matches = λ d m.
        let (m', h) = In-of_filter _ _ d (In-of_take limit _ d m) in
        (In-of_ranked d documents m', ground arith);
    descends =
        Descends-take AtLeast limit _ (Descends-filter AtLeast _ _ (ranked-Descends documents));
    complete = λ d m h.
        In-take AtLeast limit _ d (Descends-filter AtLeast _ _ (ranked-Descends documents))
          (In-filter _ _ d (In-ranked d documents m) (ground arith));
  }
