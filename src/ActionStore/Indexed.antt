-- ===== src/ActionStore/Indexed.antt =====
-- The store's three attributes agree: loading the records once more builds exactly this index.
use hermes_enterprise_deploy.Base.{
  ◌≤◌, String, Bool, none, List, [], ◌∷◌, ◌++◌, ◌≡◌, refl, sym, ap, ap₂, ◌∙◌, subst, Eq, ok, arith,
  ◌==◌, string_eq, pair_eq, find, find-append, count, count-append, count-eq-zero, Option-cases,
  >>=-eq-ok, ok-injective, >>=-ok, All, append-nil, append_assoc, inl, inr,
}
use hermes_enterprise_deploy.Base.Dict.{Dict, lookup, insert, lookup-insert}
use hermes_enterprise_deploy.Json.{Json, obj, Items, nil, cons, Fields, of_dicts}
use hermes_enterprise_deploy.Platform.{Platform}
use hermes_enterprise_deploy.ActionStore.Record.{
  validate_action_record, validate_action_record-same, IsRecord,
}
use hermes_enterprise_deploy.ActionStore.Loading.{
  Index, empty_index, key_of, pair_of, publish, add_item, index_items,
}

abbrev pub has_key : String → Fields → Bool
has_key k r = key_of r == k

abbrev pub has_pair : String × String → Fields → Bool
has_pair q r = pair_of r == q

-- A dictionary that holds the first record of each key, when a record with a new key is added.
module _ {K : Type 0} ⦃e : Eq K⦄ (f : Fields → K) (d : Dict K Fields) (rs : List Fields)
    (item : Fields) (at : (k : K) → lookup k d ≡ find (λ r. e.beq (f r) k) rs)
    (new : lookup (f item) d ≡ none) where
  lookup-find_publish :
      (k : K) → lookup k (insert (f item) item d) ≡ find (λ r. e.beq (f r) k) (rs ++ item ∷ [])
  lookup-find_publish k =
      rw (lookup-insert k (f item) item d, find-append (λ r. e.beq (f r) k) rs item)
        (ground (arith, at k, e.beq_iff (f item) k, new, at (f item)))

  count-publish :
      (k : K) → count (λ r. e.beq (f r) k) rs ≤ 1 → count (λ r. e.beq (f r) k) (rs ++ item ∷ []) ≤ 1
  unfolding count
  count-publish k h =
      rw (count-append (λ r. e.beq (f r) k) rs (item ∷ []))
        (ground (arith, at k, e.beq_iff (f item) k, new, count-eq-zero (λ r. e.beq (f r) k) rs))

-- The dictionaries hold the first record of each key and each pair, and there is no second.
pub record Finds (ix : Index) : Type 0 where
  pub at_key : (k : String) → lookup k ix.by_key ≡ find (has_key k) ix.records
  pub at_pair : (q : String × String) → lookup q ix.by_pair ≡ find (has_pair q) ix.records
  pub one_key : (k : String) → count (has_key k) ix.records ≤ 1
  pub one_pair : (q : String × String) → count (has_pair q) ix.records ≤ 1

pub Finds-empty : Finds empty_index
Finds-empty = record {
  at_key = λ k. unfold lookup find in refl;
  at_pair = λ q. unfold lookup find in refl;
  one_key = λ k. unfold count in omega arith;
  one_pair = λ q. unfold count in omega arith;
}

pub publish-Finds :
    (item : Fields) (ix : Index)
    → lookup (key_of item) ix.by_key ≡ none
    → lookup (pair_of item) ix.by_pair ≡ none
    → Finds ix
    → Finds (publish item ix)
publish-Finds item ix new_key new_pair h = record {
  at_key = lookup-find_publish key_of ix.by_key ix.records item h.at_key new_key;
  at_pair = lookup-find_publish pair_of ix.by_pair ix.records item h.at_pair new_pair;
  one_key = λ k. count-publish key_of ix.by_key ix.records item h.at_key new_key k (h.one_key k);
  one_pair =
      λ q. count-publish pair_of ix.by_pair ix.records item h.at_pair new_pair q (h.one_pair q);
}

add_item-eq-publish :
    (item : Fields) (ix : Index) {ix' : Index} → add_item item ix ≡ ok ix' → ix' ≡ publish item ix
unfolding add_item
add_item-eq-publish item ix e = ground arith

add_item-Finds :
    (item : Fields) (ix : Index) {ix' : Index} → add_item item ix ≡ ok ix' → Finds ix → Finds ix'
unfolding add_item
add_item-Finds item ix e h = elim (Option-cases (lookup (key_of item) ix.by_key)) [
  | inr (r, old) ↦ ground arith
  | inl new_key ↦ elim (Option-cases (lookup (pair_of item) ix.by_pair)) [
    | inr (r, old) ↦ ground arith
    | inl new_pair ↦
        let same : publish item ix ≡ _ = ground arith in
        subst Finds same (publish-Finds item ix new_key new_pair h)
  ]
]

module _ (p : Platform) where
  index_items-Finds :
      (rs : Items) (ix : Index) {ix' : Index} → index_items p rs ix ≡ ok ix' → Finds ix → Finds ix'
  unfolding index_items
  index_items-Finds nil ix e h = subst Finds (ok-injective e) h
  index_items-Finds (cons raw rest) ix {ix'} e h =
      let (item, valid, e') = >>=-eq-ok (validate_action_record p raw) _ e in
      let (jx, added, e'') = >>=-eq-ok (add_item item ix) (index_items p rest) e' in
      index_items-Finds rest jx e'' (add_item-Finds item ix added h)

  -- What has been added is what the items hold, in order, and each is a valid record.
  pub index_items-records :
      (rs : Items) (ix : Index) {ix' : Index}
      → index_items p rs ix ≡ ok ix'
      → (new : List Fields) × (ix'.records ≡ ix.records ++ new)
        × (rs ≡ of_dicts new)
        × All (IsRecord p) new
  unfolding index_items of_dicts
  index_items-records nil ix {ix'} e = (
    [],
    sym (ap (λ (x : Index). x.records) (ok-injective e)) ∙ sym (append-nil ix.records),
    refl,
    tt,
  )
  index_items-records (cons raw rest) ix {ix'} e =
      let (item, valid, e') = >>=-eq-ok (validate_action_record p raw) _ e in
      let (jx, added, e'') = >>=-eq-ok (add_item item ix) (index_items p rest) e' in
      let (new, grown, same, valids) = index_items-records rest jx e'' in
      let raw_item : raw ≡ obj item = validate_action_record-same p raw valid in
      (
        item ∷ new,
        grown
            ∙ ap (λ (x : Index). x.records ++ new) (add_item-eq-publish item ix added)
            ∙ append_assoc ix.records (item ∷ []) new,
        ap₂ cons raw_item same,
        (subst (λ (r : Json). validate_action_record p r ≡ ok item) raw_item valid, valids),
      )

  -- Loading the records once more builds this very index, and they are valid.
  pub record IsIndexed (ix : Index) : Type 0 where
    pub reloads : index_items p (of_dicts ix.records) empty_index ≡ ok ix

  pub IsIndexed-Finds : (ix : Index) → IsIndexed ix → Finds ix
  IsIndexed-Finds ix h = index_items-Finds (of_dicts ix.records) empty_index h.reloads Finds-empty

  index_items-append :
      (rs : List Fields) (item : Fields) (ix : Index) {jx : Index}
      → IsRecord p item
      → index_items p (of_dicts rs) ix ≡ ok jx
      → index_items p (of_dicts (rs ++ item ∷ [])) ix ≡ add_item item jx
  unfolding index_items of_dicts
  index_items-append [] item ix {jx} valid e =
      rw (valid, ← ok-injective e) (>>=-ok (add_item item ix))
  index_items-append (r ∷ rs) item ix {jx} valid e =
      let (r', v, e') = >>=-eq-ok (validate_action_record p (obj r)) _ e in
      let (kx, added, e'') = >>=-eq-ok (add_item r' ix) _ e' in
      rw (v, added) (index_items-append rs item kx valid e'')

  -- A valid record under a new key and a new pair keeps the index exact.
  pub publish-IsIndexed :
      (item : Fields) (ix : Index)
      → IsRecord p item
      → lookup (key_of item) ix.by_key ≡ none
      → lookup (pair_of item) ix.by_pair ≡ none
      → IsIndexed ix
      → IsIndexed (publish item ix)
  publish-IsIndexed item ix valid new_key new_pair h = record {
    reloads =
        index_items-append ix.records item empty_index valid h.reloads
        ∙ unfold add_item in rw (new_key, new_pair);
  }
