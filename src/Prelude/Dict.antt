-- ===== src/Prelude/Dict.antt =====
-- A Python dict keyed by `str`, in insertion order.
use mathlib.Core.Path.{◌≡◌, refl}
use mathlib.Core.Logic.{◌≢◌}
use mathlib.Core.Bool.{Bool, false, ◌||◌}
use mathlib.Core.Option.{Option, none, some}
use mathlib.Core.List.{List, [], ◌∷◌}
use native.Mathlib.Omega.{arith}
use Prim.Native.String.{String}
use aura_x.Prelude.Tests.{if◌then◌else◌, str_eq, str_eq_iff, str_eq_refl}

abbrev pub Dict {ℓ} : Type ℓ → Type ℓ
Dict V = List (String × V)

-- Membership in a `set[str]`, kept as a list.
abbrev pub member : String → List String → Bool
member k [] = false
member k (j ∷ s) = str_eq k j || member k s

module _ {ℓ} {V : Type ℓ} where
  -- `d.get(k)`
  abbrev pub lookup : String → Dict V → Option V
  lookup k [] = none
  lookup k ((j, v) ∷ d) = if str_eq k j then some v else lookup k d

  -- `d[k] = v`
  abbrev pub insert : String → V → Dict V → Dict V
  insert k v [] = (k, v) ∷ []
  insert k v ((j, w) ∷ d) = if str_eq k j then (j, v) ∷ d else (j, w) ∷ insert k v d

  -- `d.get(k, default)`
  abbrev pub get_or : String → Dict V → V → V
  get_or k d v = elim (lookup k d) [ none ↦ v | some w ↦ w ]

  abbrev pub keys : Dict V → List String
  keys [] = []
  keys ((j, v) ∷ d) = j ∷ keys d

  pub lookup-insert :
      (j k : String) (v : V) (d : Dict V)
      → lookup j (insert k v d) ≡ (if str_eq j k then some v else lookup j d)
  lookup-insert j k v [] = refl
  lookup-insert j k v ((i, w) ∷ d) =
      ground (arith, str_eq_iff j k, str_eq_iff k i, str_eq_iff j i, lookup-insert j k v d)

  pub lookup-insert_self : (k : String) (v : V) (d : Dict V) → lookup k (insert k v d) ≡ some v
  lookup-insert_self k v d = ground (arith, lookup-insert k k v d, str_eq_refl k)

  pub lookup-insert_ne :
      (j k : String) (v : V) (d : Dict V) → j ≢ k → lookup j (insert k v d) ≡ lookup j d
  lookup-insert_ne j k v d h = ground (arith, lookup-insert j k v d, str_eq_iff j k)

module _ {ℓ} {V : Type ℓ} where
  -- The object under a key is changed in place.
  abbrev pub modify : String → (V → V) → Dict V → Dict V
  modify k g [] = []
  modify k g ((j, v) ∷ d) = if str_eq k j then (j, g v) ∷ d else (j, v) ∷ modify k g d

  -- Every object is changed in place.
  abbrev pub modify_all : (V → V) → Dict V → Dict V
  modify_all g [] = []
  modify_all g ((j, v) ∷ d) = (j, g v) ∷ modify_all g d

  pub lookup-modify :
      (j k : String) (g : V → V) (d : Dict V)
      → lookup j (modify k g d) ≡ (
          if str_eq j k
          then elim (lookup j d) [ none ↦ none | some v ↦ some (g v) ]
          else lookup j d)
  lookup-modify j k g [] = ground arith
  lookup-modify j k g ((i, w) ∷ d) =
      ground (arith, str_eq_iff j k, str_eq_iff k i, str_eq_iff j i, lookup-modify j k g d)

  pub keys-modify : (k : String) (g : V → V) (d : Dict V) → keys (modify k g d) ≡ keys d
  keys-modify k g [] = refl
  keys-modify k g ((i, w) ∷ d) = ground (arith, keys-modify k g d)

  pub keys-modify_all : (g : V → V) (d : Dict V) → keys (modify_all g d) ≡ keys d
  keys-modify_all g [] = refl
  keys-modify_all g ((i, w) ∷ d) = ground (arith, keys-modify_all g d)

  pub lookup-modify_all :
      (j : String) (g : V → V) (d : Dict V)
      → lookup j (modify_all g d) ≡ elim (lookup j d) [ none ↦ none | some v ↦ some (g v) ]
  lookup-modify_all j g [] = refl
  lookup-modify_all j g ((i, w) ∷ d) = ground (arith, lookup-modify_all j g d)
