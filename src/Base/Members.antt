-- ===== src/Base/Members.antt =====
-- Membership in a list as a proposition, and what a filter and a slice keep of it.
use mathlib.Core.Path.{◌≡◌, refl, sym, subst}
use mathlib.Core.Bool.{Bool, true, false}
use mathlib.Core.Logic.{◌⊎◌, inl, inr}
use mathlib.Core.List.{List, [], ◌∷◌, ◌++◌}
use Prim.Native.String.{String}
use text.Mathlib.TextEquality.{eq_iff}
use mathlib.Core.Bool.{not, ◌||◌}
use Prim.Native.Nat.{ℕ, zero, suc, ◌≤◌}
use native.Mathlib.Omega.{arith}
use hermes_enterprise_deploy.Base.Lists.{length, filter, All}
use hermes_enterprise_deploy.Base.Tests.{Bool-cases, ◌==◌, string_eq, if◌then◌else◌}

-- `xs[:n]`
abbrev pub take {ℓ} : {A : Type ℓ} → ℕ → List A → List A
take zero xs = []
take (suc n) [] = []
take (suc n) (x ∷ xs) = x ∷ take n xs

-- `x in xs`, as a proposition
abbrev pub In : {A : Type 0} → A → List A → Type 0
In x [] = ⊥
In x (y ∷ ys) = (x ≡ y) ⊎ In x ys

pub All-In : {A : Type 0} (P : A → Type 0) (xs : List A) (x : A) → All P xs → In x xs → P x
All-In P [] x h m = absurd m
All-In P (y ∷ ys) x h (inl e) = subst P (sym e) h.0
All-In P (y ∷ ys) x h (inr m) = All-In P ys x h.1 m

pub All-of : {A : Type 0} (P : A → Type 0) (xs : List A) → ((x : A) → In x xs → P x) → All P xs
All-of P [] f = tt
All-of P (y ∷ ys) f = (f y (inl refl), All-of P ys λ x m. f x (inr m))

module _ {A : Type 0} where
  pub In-filter : (q : A → Bool) (xs : List A) (x : A) → In x xs → q x ≡ true → In x (filter q xs)
  unfolding filter
  In-filter q [] x m h = absurd m
  In-filter q (y ∷ ys) x (inl e) h = rw (sym e, h) (inl refl)
  In-filter q (y ∷ ys) x (inr m) h = elim (Bool-cases (q y)) [
    | inl yes_y ↦ rw yes_y (inr (In-filter q ys x m h))
    | inr no_y ↦ rw no_y (In-filter q ys x m h)
  ]

  pub In-of_filter :
      (q : A → Bool) (xs : List A) (x : A) → In x (filter q xs) → In x xs × (q x ≡ true)
  unfolding filter
  In-of_filter q [] x m = absurd m
  In-of_filter q (y ∷ ys) x m = elim (Bool-cases (q y)) [
    | inl yes_y ↦ elim (rw yes_y at m) [
      | inl e ↦ (inl e, rw (e, yes_y))
      | inr m' ↦ let (m'', h) = In-of_filter q ys x m' in (inr m'', h)
    ]
    | inr no_y ↦ let (m'', h) = In-of_filter q ys x (rw no_y at m) in (inr m'', h)
  ]

  pub length-take : (n : ℕ) (xs : List A) → length (take n xs) ≤ n
  length-take zero xs = omega arith
  length-take (suc n) [] = omega arith
  length-take (suc n) (x ∷ xs) = omega (arith, length-take n xs)

  pub In-of_take : (n : ℕ) (xs : List A) (x : A) → In x (take n xs) → In x xs
  In-of_take (suc n) (y ∷ ys) x (inl e) = inl e
  In-of_take (suc n) (y ∷ ys) x (inr m) = inr (In-of_take n ys x m)
  In-of_take zero xs x m = absurd m
  In-of_take (suc n) [] x m = absurd m

  -- Every item of an earlier place stands in the relation to every later one.
  abbrev pub Descends : (A → A → Type 0) → List A → Type 0
  Descends R [] = Unit
  Descends R (x ∷ xs) = All (λ y. R x y) xs × Descends R xs

  pub Descends-filter :
      (R : A → A → Type 0) (q : A → Bool) (xs : List A) → Descends R xs → Descends R (filter q xs)
  unfolding filter
  Descends-filter R q [] h = tt
  Descends-filter R q (x ∷ xs) h = elim (Bool-cases (q x)) [
    | inl yes_x ↦
        rw yes_x (
          All-of _ _ λ y m. All-In _ xs y h.0 (In-of_filter q xs y m).0,
          Descends-filter R q xs h.1,
        )
    | inr no_x ↦ rw no_x (Descends-filter R q xs h.1)
  ]

  pub Descends-take :
      (R : A → A → Type 0) (n : ℕ) (xs : List A) → Descends R xs → Descends R (take n xs)
  Descends-take R zero xs h = tt
  Descends-take R (suc n) [] h = tt
  Descends-take R (suc n) (x ∷ xs) h =
      (All-of _ _ λ y m. All-In _ xs y h.0 (In-of_take n xs y m), Descends-take R n xs h.1)

  -- An item that does not fit comes after all that do, and they fill the room.
  pub In-take :
      (R : A → A → Type 0) (n : ℕ) (xs : List A) (x : A)
      → Descends R xs
      → In x xs
      → In x (take n xs) ⊎ ((length (take n xs) ≡ n) × All (λ y. R y x) (take n xs))
  In-take R zero xs x h m = inr (refl, tt)
  In-take R (suc n) [] x h m = absurd m
  In-take R (suc n) (y ∷ ys) x h (inl e) = inl (inl e)
  In-take R (suc n) (y ∷ ys) x h (inr m) = elim (In-take R n ys x h.1 m) [
    | inl early ↦ inl (inr early)
    | inr (full, before) ↦ inr (omega (arith, full), (All-In _ ys x h.0 m, before))
  ]

-- `s in xs`, as a test
unfoldable pub contains : List String → String → Bool
contains [] s = false
contains (x ∷ xs) s = x == s || contains xs s

pub contains_of_filter :
    (known names : List String) (name : String)
    → filter (λ n. not (contains known n)) names ≡ []
    → contains names name ≡ true
    → contains known name ≡ true
unfolding filter contains
contains_of_filter known [] name e h = cc
contains_of_filter known (x ∷ names) name e h = elim (Bool-cases (contains known x)) [
  | inr unknown ↦ cc (rw unknown at e)
  | inl fine ↦ elim (Bool-cases (x == name)) [
    | inl same ↦ subst (λ n. contains known n ≡ true) ((eq_iff x name).0 same) fine
    | inr other ↦ contains_of_filter known names name (rw fine at e) (rw other at h)
  ]
]

-- `set(xs) - set(ys)`, in the order of `xs`
unfoldable pub minus : List String → List String → List String
unfolding filter contains
minus xs ys = filter (λ x. not (contains ys x)) xs

abbrev pub is_empty : {A : Type 0} → List A → Bool
is_empty [] = true
is_empty (x ∷ xs) = false

-- Equality of two sets
abbrev pub same_set : List String → List String → Bool
same_set xs ys = if is_empty (minus xs ys) then is_empty (minus ys xs) else false

pub contains-In : (xs : List String) (s : String) → contains xs s ≡ true → In s xs
unfolding contains
contains-In [] s h = cc
contains-In (x ∷ xs) s h = elim (Bool-cases (x == s)) [
  | inl same ↦ inl (sym ((eq_iff x s).0 same))
  | inr other ↦ inr (contains-In xs s (rw other at h))
]

pub In-contains : (xs : List String) (s : String) → In s xs → contains xs s ≡ true
unfolding contains
In-contains [] s m = absurd m
In-contains (x ∷ xs) s (inl e) = rw ((eq_iff x s).1 (sym e))
In-contains (x ∷ xs) s (inr m) = elim (Bool-cases (x == s)) [
  | inl same ↦ rw same
  | inr other ↦ rw (other, In-contains xs s m)
]

pub append-eq-nil : {A : Type 0} (xs ys : List A) → xs ++ ys ≡ [] → (xs ≡ []) × (ys ≡ [])
append-eq-nil [] ys e = (refl, e)
append-eq-nil (x ∷ xs) ys e = cc
