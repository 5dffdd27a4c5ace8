-- ===== src/Config/Merge.antt =====
-- What a deep merge leaves under each key.
use aura_x.Prelude.{◌≡◌, Option, none, some, List, [], ◌∷◌, String, Result, ok, raise}
use aura_x.Config.{Value, leaf, table, names, Entries, nil, entry, get, merge_value}

abbrev value_or {ℓ} : {A : Type ℓ} → A → Result A → A
value_or a (ok b) = b
value_or a (raise e) = a

module _ {ℓ} {V : Type ℓ} where
  -- no key comes twice
  abbrev pub Distinct : Entries V → Type ℓ
  Distinct nil = Unit
  Distinct (entry k v rest) = (get k rest ≡ none) × Distinct rest

  -- what a key holds after a merge, from what it held before and what the overlay holds
  abbrev pub merged_at : Option (Value V) → Option (Value V) → Option (Value V)
  merged_at old none = old
  merged_at old (some v) = some (merge_value old v)

  -- the names that the list of includes holds
  abbrev pub Listed : (V → List String) → Option (Value V) → List String → Type 0
  Listed strings none includes = includes ≡ []
  Listed strings (some (leaf v)) includes = includes ≡ strings v
  Listed strings (some (table entries)) includes = includes ≡ names entries

  -- what a key holds after some dicts have overlaid what it held, the first one first
  abbrev pub overlaid : String → List (Entries V) → Option (Value V) → Option (Value V)
  overlaid key [] old = old
  overlaid key (d ∷ dicts) old = overlaid key dicts (merged_at old (get key d))
