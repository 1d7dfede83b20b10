-- ===== src/Agent/Silent.antt =====
-- When each test of the evaluator reports nothing.
use hermes_enterprise_deploy.Base.{
  String, Bool, true, false, some, List, [], ◌∷◌, ◌≡◌, ◌≢◌, refl, sym, ap, ◌⊎◌, inl, inr, All, ◌==◌,
  string_eq, eq_iff, Bool-cases, filter, not, ◌&&◌,
}
use hermes_enterprise_deploy.Base.Members.{
  In, All-In, All-of, Descends, contains, minus, same_set, In-contains,
}
use hermes_enterprise_deploy.Json.{bool, str, get}
use hermes_enterprise_deploy.Agent.Retrieval.{set_of}
use hermes_enterprise_deploy.Agent.Checks.{
  check_digests, well_formed, flag_violations, gate_violations,
}
use hermes_enterprise_deploy.Agent.Flat.{Entry, tidy, flag_of}
use mathlib.Core.List.{map}

pub differs : (x y : String) → x ≢ y → (x == y) ≡ false
differs x y n = elim (Bool-cases (x == y)) [
  | inl same ↦ absurd (n ((eq_iff x y).0 same))
  | inr other ↦ other
]

pub filter-all :
    {A : Type 0} (q : A → Bool) (xs : List A) → All (λ x. q x ≡ true) xs → filter q xs ≡ xs
unfolding filter
filter-all q [] h = refl
filter-all q (x ∷ xs) h = rw (h.0, filter-all q xs h.1) refl

pub filter-none :
    {A : Type 0} (q : A → Bool) (xs : List A) → All (λ x. q x ≡ false) xs → filter q xs ≡ []
unfolding filter
filter-none q [] h = refl
filter-none q (x ∷ xs) h = rw (h.0, filter-none q xs h.1) refl

abbrev pub Different : String → String → Type 0
Different x y = x ≢ y

pub set_of-eq : (xs : List String) → Descends Different xs → set_of xs ≡ xs
unfolding set_of
set_of-eq [] h = refl
set_of-eq (x ∷ xs) h =
    rw
      (
        set_of-eq xs h.1,
        filter-all (λ y. not (y == x)) xs
            (All-of _ xs λ y m. ap not (differs y x λ e. All-In (Different x) xs y h.0 m (sym e))),
      )
      refl

pub minus-none : (xs ys : List String) → ((x : String) → In x xs → In x ys) → minus xs ys ≡ []
unfolding minus
minus-none xs ys f =
    filter-none (λ x. not (contains ys x)) xs (All-of _ xs λ x m. ap not (In-contains ys x (f x m)))

pub same_set-of :
    (xs ys : List String)
    → ((x : String) → In x xs → In x ys)
    → ((y : String) → In y ys → In y xs)
    → same_set xs ys ≡ true
same_set-of xs ys f g = rw (minus-none xs ys f, minus-none ys xs g) refl

-- The digests in the order in which the loop has seen them last.
abbrev pub rev_onto : List String → List String → List String
rev_onto [] seen = seen
rev_onto (x ∷ xs) seen = rev_onto xs (x ∷ seen)

pub In-rev_onto :
    (xs seen : List String) (x : String) → In x xs ⊎ In x seen → In x (rev_onto xs seen)
In-rev_onto [] seen x (inl m) = absurd m
In-rev_onto [] seen x (inr m) = m
In-rev_onto (y ∷ ys) seen x (inl (inl e)) = In-rev_onto ys (y ∷ seen) x (inr (inl e))
In-rev_onto (y ∷ ys) seen x (inl (inr m)) = In-rev_onto ys (y ∷ seen) x (inl m)
In-rev_onto (y ∷ ys) seen x (inr m) = In-rev_onto ys (y ∷ seen) x (inr (inr m))

pub In-of_rev_onto :
    (xs seen : List String) (x : String) → In x (rev_onto xs seen) → In x xs ⊎ In x seen
In-of_rev_onto [] seen x m = inr m
In-of_rev_onto (y ∷ ys) seen x m = elim (In-of_rev_onto ys (y ∷ seen) x m) [
  | inl later ↦ inl (inr later)
  | inr (inl e) ↦ inl (inl e)
  | inr (inr early) ↦ inr early
]

unseen :
    (x : String) (xs seen : List String)
    → All (Different x) xs
    → All (λ y. contains seen y ≡ false) xs
    → All (λ y. contains (x ∷ seen) y ≡ false) xs
unfolding contains
unseen x [] seen d h = tt
unseen x (y ∷ ys) seen d h = (rw (differs x y d.0, h.0) refl, unseen x ys seen d.1 h.1)

pub check_digests-eq :
    (xs seen : List String)
    → All (λ x. well_formed x ≡ true) xs
    → Descends Different xs
    → All (λ x. contains seen x ≡ false) xs
    → check_digests (map (λ x. str x) xs) seen ≡ ([], rev_onto xs seen)
unfolding check_digests
check_digests-eq [] seen w d u = refl
check_digests-eq (x ∷ xs) seen w d u =
    rw (w.0, u.0, check_digests-eq xs (x ∷ seen) w.1 d.1 (unseen x xs seen d.0 u.1)) refl

pub flag_violations-none :
    (id : String) (b : Bool) → flag_violations id (some (bool b)) (some (bool b)) ≡ []
flag_violations-none id true = refl
flag_violations-none id false = refl

not_both : (b : Bool) → (b && not b) ≡ false
not_both true = refl
not_both false = refl

pub gate_violations-none : (es : List Entry) → gate_violations (map tidy es) ≡ []
unfolding gate_violations get
gate_violations-none [] = refl
gate_violations-none ((d, a) ∷ es) = rw (not_both (flag_of a), gate_violations-none es) refl
