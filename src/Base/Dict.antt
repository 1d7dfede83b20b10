-- ===== src/Base/Dict.antt =====
-- A Python dict as an association list in insertion order.
use mathlib.Core.Path.{◌≡◌, refl}
use mathlib.Core.Option.{Option, none, some}
use mathlib.Core.List.{List, [], ◌∷◌, ◌++◌}
use native.Mathlib.Omega.{arith}
use hermes_enterprise_deploy.Base.Tests.{if◌then◌else◌, Eq}
use hermes_enterprise_deploy.Base.Lists.{or_else}

abbrev pub Dict : Type 0 → Type 0 → Type 0
Dict K V = List (K × V)

module _ {K V : Type 0} ⦃e : Eq K⦄ where
  -- `d.get(k)`
  unfoldable pub lookup : K → Dict K V → Option V
  lookup k [] = none
  lookup k ((j, v) ∷ d) = if e.beq j k then some v else lookup k d

  -- `d[k] = v`: an old key keeps its place, a new one goes last.
  unfoldable pub insert : K → V → Dict K V → Dict K V
  insert k v [] = (k, v) ∷ []
  insert k v ((j, w) ∷ d) = if e.beq j k then (k, v) ∷ d else (j, w) ∷ insert k v d

  pub lookup-insert :
      (j k : K) (v : V) (d : Dict K V)
      → lookup j (insert k v d) ≡ (if e.beq k j then some v else lookup j d)
  unfolding lookup insert
  lookup-insert j k v [] = refl
  lookup-insert j k v ((i, w) ∷ d) =
      ground (arith, e.beq_iff k j, e.beq_iff i k, e.beq_iff i j, lookup-insert j k v d)

  pub lookup-insert_self : (k : K) (v : V) (d : Dict K V) → lookup k (insert k v d) ≡ some v
  lookup-insert_self k v d = ground (arith, lookup-insert k k v d, e.beq_iff k k)

  -- Every key stands once.
  abbrev pub NodupKeys : Dict K V → Type 0
  NodupKeys [] = Unit
  NodupKeys ((k, v) ∷ d) = (lookup k d ≡ none) × NodupKeys d

  pub NodupKeys-insert : (k : K) (v : V) (d : Dict K V) → NodupKeys d → NodupKeys (insert k v d)
  unfolding insert
  NodupKeys-insert k v [] h = (unfold lookup in refl, tt)
  NodupKeys-insert k v ((j, w) ∷ d) h =
      ground
        (arith, NodupKeys-insert k v d h.1, lookup-insert j k v d, e.beq_iff j k, e.beq_iff k j)

  pub lookup-append :
      (k : K) (c d : Dict K V) → lookup k (c ++ d) ≡ or_else (lookup k c) (lookup k d)
  unfolding lookup
  lookup-append k [] d = refl
  lookup-append k ((j, v) ∷ c) d = ground (arith, lookup-append k c d)

  pub insert_new :
      (k : K) (v : V) (d : Dict K V) → lookup k d ≡ none → insert k v d ≡ d ++ (k, v) ∷ []
  unfolding lookup insert
  insert_new k v [] h = refl
  insert_new k v ((j, w) ∷ d) h = ground (arith, insert_new k v d)

  pub NodupKeys-middle :
      (k : K) (v : V) (c d : Dict K V) → NodupKeys (c ++ (k, v) ∷ d) → lookup k c ≡ none
  unfolding lookup
  NodupKeys-middle k v [] d h = refl
  NodupKeys-middle k v ((j, w) ∷ c) d h = ground (
    arith,
    NodupKeys-middle k v c d h.1,
    lookup-append j c ((k, v) ∷ d),
    e.beq_iff j k,
    e.beq_iff k j,
  )
