-- ===== src/Agent/Passing.antt =====
-- The loops of the evaluator over well-formed documents report nothing.
use hermes_enterprise_deploy.Base.{
  String, Bool, true, false, none, some, List, [], ◌∷◌, ◌≡◌, ◌≢◌, refl, sym, ap, subst, ◌∙◌, inl,
  inr, if◌then◌else◌, All, ◌==◌, string_eq, eq_iff, Bool-cases, not, ◌&&◌,
}
use hermes_enterprise_deploy.Base.Dict.{lookup}
use hermes_enterprise_deploy.Base.Members.{In, Descends, contains, In-contains}
use hermes_enterprise_deploy.Json.{Json, str, get}
use hermes_enterprise_deploy.Platform.{Platform}
use hermes_enterprise_deploy.Agent.Retrieval.{RunbookDocument}
use hermes_enterprise_deploy.Agent.Checks.{Index, digests_at}
use hermes_enterprise_deploy.Agent.Evaluation
use hermes_enterprise_deploy.Agent.Graph.{ids_of}
use hermes_enterprise_deploy.Agent.Flat.{
  Entry, IsEntry, flat, names, tidy, id_of, flag_of, digest, tidy-digest, map-append,
}
use hermes_enterprise_deploy.Agent.Silent.{differs, flag_violations-none}
use mathlib.Core.List.{map}

pub In-map : {A B : Type 0} (f : A → B) (xs : List A) (x : A) → In x xs → In (f x) (map f xs)
In-map f [] x m = absurd m
In-map f (y ∷ ys) x (inl e) = inl (ap f e)
In-map f (y ∷ ys) x (inr m) = inr (In-map f ys x m)

pub map-fuse :
    {A B C : Type 0} (g : B → C) (f : A → B) (xs : List A)
    → map g (map f xs) ≡ map (λ x. g (f x)) xs
map-fuse g f [] = refl
map-fuse g f (x ∷ xs) = ap (◌∷◌ (g (f x))) (map-fuse g f xs)

module _ (p : Platform) (show : Json → String) where
  abbrev pub Apart : RunbookDocument → RunbookDocument → Type 0
  Apart d d' = d.document_id ≢ d'.document_id

  -- The index has every document of the list.
  abbrev pub Indexes : Index → List RunbookDocument → Type 0
  Indexes index = All λ d. lookup d.document_id index ≡ some (Evaluation.digests p show d)

  index-keeps :
      (ds : List RunbookDocument) (index : Index) (k : String) (v : List String)
      → lookup k index ≡ some v
      → lookup k (Evaluation.index_documents p show ds index).1 ≡ some v
  unfolding Evaluation.index_documents lookup
  index-keeps [] index k v e = e
  index-keeps (d ∷ ds) index k v e =
      elim (Bool-cases (Evaluation.known p show index d.document_id)) [
        | inl twice ↦ rw twice (index-keeps ds index k v e)
        | inr once ↦
            rw once (
              index-keeps ds ((d.document_id, Evaluation.digests p show d) ∷ index) k v (kept once))
      ]
    where
      kept :
          Evaluation.known p show index d.document_id ≡ false
          → lookup k ((d.document_id, Evaluation.digests p show d) ∷ index) ≡ some v
      kept once = elim (Bool-cases (d.document_id == k)) [
        | inl same ↦
            let known_k = ap (λ o. elim o [ none ↦ false | some _ ↦ true ]) e in
            let known_d : Evaluation.known p show index d.document_id ≡ true =
              ap (Evaluation.known p show index) ((eq_iff d.document_id k).0 same) ∙ known_k in
            cc
        | inr other ↦ rw other e
      ]

  new_key :
      (d : RunbookDocument) (ds : List RunbookDocument) (index : Index)
      → All (Apart d) ds
      → All (λ x. lookup x.document_id index ≡ none) ds
      → All
          (λ x. lookup x.document_id ((d.document_id, Evaluation.digests p show d) ∷ index) ≡ none)
          ds
  unfolding lookup
  new_key d [] index a n = tt
  new_key d (x ∷ xs) index a n =
      (rw (differs d.document_id x.document_id a.0) n.0, new_key d xs index a.1 n.1)

  pub index_documents-eq :
      (ds : List RunbookDocument) (index : Index)
      → Descends Apart ds
      → All (λ d. lookup d.document_id index ≡ none) ds
      → ((Evaluation.index_documents p show ds index).0 ≡ [])
        × Indexes (Evaluation.index_documents p show ds index).1 ds
  unfolding Evaluation.index_documents lookup
  index_documents-eq [] index a n = (refl, tt)
  index_documents-eq (d ∷ ds) index a n =
      let fresh : Evaluation.known p show index d.document_id ≡ false =
        ap (λ o. elim o [ none ↦ false | some _ ↦ true ]) n.0 in
      let own : lookup d.document_id ((d.document_id, Evaluation.digests p show d) ∷ index)
          ≡ some (Evaluation.digests p show d) =
        rw ((eq_iff d.document_id d.document_id).1 refl) refl in
      let (silent, others) = index_documents-eq ds _ a.1 (new_key d ds index a.0 n.1) in
      let same : (Evaluation.index_documents p show (d ∷ ds) index).1
          ≡ (Evaluation.index_documents p show ds
              ((d.document_id, Evaluation.digests p show d) ∷ index)).1 =
        rw fresh refl in
      (
        rw fresh silent,
        subst (λ all. Indexes all (d ∷ ds)) (sym same)
            (index-keeps ds _ d.document_id _ own, others),
      )

  pub digests_at-eq :
      (index : Index) (ds : List RunbookDocument)
      → Indexes index ds
      → digests_at index (ids_of ds) ≡ map (digest p show) (flat ds)
  digests_at-eq index [] h = refl
  digests_at-eq index (d ∷ ds) h =
      rw
        (
          h.0,
          digests_at-eq index ds h.1,
          map-append (digest p show) (map (λ a. (d, a)) d.actions) (flat ds),
          map-fuse (digest p show) (λ a. (d, a)) d.actions,
        )
        refl

  -- What a list of entries has where the evaluator reports none of them.
  abbrev pub Fits : Index → List String → Entry → Type 0
  Fits index retrieved (d, a) =
      IsEntry p a
      × In a d.actions
      × In d.document_id retrieved
      × (lookup d.document_id index ≡ some (Evaluation.digests p show d))

  grounding-none :
      (index : Index) (retrieved : List String) (e : Entry)
      → Fits index retrieved e
      → Evaluation.grounding_violations p show (some index) retrieved (id_of e.1) (tidy e) ≡ []
  unfolding get
  grounding-none index retrieved (d, a) (h, m, r, l) =
      let there : contains (Evaluation.digests p show d)
            (Evaluation.action_provenance_sha256 p show (str d.document_id) (tidy (d, a)))
          ≡ true =
        rw (tidy-digest p show d a h) (In-contains _ _ (In-map _ d.actions a m)) in
      rw (In-contains retrieved d.document_id r, l, there) refl

  abbrev pub OtherId : Entry → Entry → Type 0
  OtherId e e' = id_of e.1 ≢ id_of e'.1

  unseen_ids :
      (e : Entry) (es : List Entry) (seen : List String)
      → All (OtherId e) es
      → All (λ x. contains seen (id_of x.1) ≡ false) es
      → All (λ x. contains (id_of e.1 ∷ seen) (id_of x.1) ≡ false) es
  unfolding contains
  unseen_ids e [] seen o h = tt
  unseen_ids e (x ∷ xs) seen o h =
      (rw (differs (id_of e.1) (id_of x.1) o.0, h.0) refl, unseen_ids e xs seen o.1 h.1)

  chosen :
      (b unknown : Bool) (id : String) (xs ys : List String)
      → unknown ≡ false
      → xs ≡ ys
      → (if b && not unknown then id ∷ xs else xs) ≡ (if b then id ∷ ys else ys)
  chosen true true id xs ys u e = cc
  chosen true false id xs ys u e = ap (◌∷◌ id) e
  chosen false unknown id xs ys u e = e

  pub check_actions-eq :
      (index : Index) (retrieved : List String) (es : List Entry) (seen : List String)
      → All (Fits index retrieved) es
      → Descends OtherId es
      → All (λ x. contains seen (id_of x.1) ≡ false) es
      → ((Evaluation.check_actions p show (some index) retrieved (map tidy es) seen).0 ≡ [])
        × ((Evaluation.check_actions p show (some index) retrieved (map tidy es) seen).1 ≡ names es)
  unfolding Evaluation.check_actions get
  check_actions-eq index retrieved [] seen f o u = (refl, refl)
  check_actions-eq index retrieved ((d, a) ∷ es) seen f o u =
      let (more, ids) =
        check_actions-eq index retrieved es (id_of a ∷ seen) f.1 o.1
          (unseen_ids (d, a) es seen o.0 u.1) in
      let entry : IsEntry p a = f.0.0 in
      rw
        (
          entry.not_blank,
          u.0,
          grounding-none index retrieved (d, a) f.0,
          flag_violations-none (id_of a) (flag_of a),
          more,
        )
        (refl, chosen (flag_of a) (id_of a == "unknown") (id_of a) _ _ entry.not_unknown ids)
