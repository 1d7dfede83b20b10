-- ===== src/Agent/Inversion.antt =====
-- What follows from reports that are empty.
use hermes_enterprise_deploy.Base.{
  String, Bool, true, false, Option, none, some, List, [], ◌∷◌, not, ◌&&◌, ◌≡◌, refl, inl, inr,
  Bool-cases, All, string_eq, filter,
}
use hermes_enterprise_deploy.Base.Members.{contains, minus, is_empty, In, contains-In}
use hermes_enterprise_deploy.Json.{Json, bool}
use mathlib.Core.List.{map}
use hermes_enterprise_deploy.Agent.Checks.{Violation, report, is_true, flag_violations}

pub report-eq-nil : (b : Bool) (v : Violation) → report b v ≡ [] → b ≡ false
report-eq-nil true v e = cc
report-eq-nil false v e = refl

pub map-eq-nil : {A B : Type 0} (f : A → B) (xs : List A) → map f xs ≡ [] → xs ≡ []
map-eq-nil f [] e = refl
map-eq-nil f (x ∷ xs) e = cc

pub In-of_map :
    {A B : Type 0} (f : A → B) (xs : List A) (y : B)
    → In y (map f xs)
    → (x : A) × In x xs × (y ≡ f x)
In-of_map f [] y m = absurd m
In-of_map f (x ∷ xs) y (inl e) = (x, inl refl, e)
In-of_map f (x ∷ xs) y (inr m) = let (x', m', e) = In-of_map f xs y m in (x', inr m', e)

pub minus-eq-nil : (xs ys : List String) → minus xs ys ≡ [] → All (λ x. In x ys) xs
unfolding minus filter
minus-eq-nil [] ys e = tt
minus-eq-nil (x ∷ xs) ys e = elim (Bool-cases (contains ys x)) [
  | inl there ↦ (contains-In ys x there, minus-eq-nil xs ys (rw there at e))
  | inr gone ↦ cc (rw gone at e)
]

pub is_empty-eq-nil : {A : Type 0} (xs : List A) → is_empty xs ≡ true → xs ≡ []
is_empty-eq-nil [] h = refl
is_empty-eq-nil (x ∷ xs) h = cc

pub flags-agree :
    (id : String) (consequential approval : Option Json)
    → flag_violations id consequential approval ≡ []
    → (is_true consequential && not (is_true approval)) ≡ false
    → (b : Bool) × (consequential ≡ some (bool b)) × (approval ≡ some (bool b))
flags-agree id (some (bool true)) (some (bool true)) e h = (true, refl, refl)
flags-agree id (some (bool false)) (some (bool false)) e h = (false, refl, refl)
flags-agree id (some (bool false)) (some (bool true)) e h = cc
flags-agree id (some (bool true)) (some (bool false)) e h = cc
flags-agree id (some (bool b)) (some _) e h = cc
flags-agree id (some (bool b)) none e h = cc
flags-agree id (some _) a e h = cc
flags-agree id none a e h = cc
