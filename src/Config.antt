-- ===== src/Config.antt =====
-- The parameter files of src/aurax/config.py. A file is what YAML reads in it, a nested dict whose
-- leaves are a parameter, and which lists of names a leaf holds is another.
pub mod Merge
use aura_x.Prelude.{
  Option, none, some, List, [], ◌∷◌, String, Result, ok, raise, Error, ◌>>=◌, if◌then◌else◌,
}
use aura_x.Prelude.Tests.{str_eq}

mutual
  pub data Value {ℓ} (V : Type ℓ) : Type ℓ where
    leaf : V → Value V
    table : Entries V → Value V

  pub data Entries {ℓ} (V : Type ℓ) : Type ℓ where
    nil : Entries V
    entry : String → Value V → Entries V → Entries V

module _ {ℓ} {V : Type ℓ} where
  -- `d.get(key)`
  abbrev pub get : String → Entries V → Option (Value V)
  get key nil = none
  get key (entry k v rest) = if str_eq key k then some v else get key rest

  -- `d[key] = value`
  abbrev pub set : String → Value V → Entries V → Entries V
  set key value nil = entry key value nil
  set key value (entry k v rest) =
      if str_eq key k then entry k value rest else entry k v (set key value rest)

  -- `d.pop(key)`
  abbrev pub pop : String → Entries V → Entries V
  pop key nil = nil
  pop key (entry k v rest) =
      let later = pop key rest in if str_eq key k then rest else entry k v later

  abbrev pub names : Entries V → List String
  names nil = []
  names (entry k v rest) = k ∷ names rest

unfoldable mutual
  -- `_deep_merge`: the loop over `overlay.items()`, on the copy `out`
  pub deep_merge {ℓ} : {V : Type ℓ} → Entries V → Entries V → Entries V
  deep_merge out nil = out
  deep_merge out (entry key value rest) =
      deep_merge (set key (merge_value (get key out) value) out) rest

  -- what stands under a key afterwards, from what stood there before
  pub merge_value {ℓ} : {V : Type ℓ} → Option (Value V) → Value V → Value V
  merge_value (some (table base)) (table overlay) = table (deep_merge base overlay)
  merge_value (some (leaf v)) (table overlay) = table overlay
  merge_value none (table overlay) = table overlay
  merge_value old (leaf v) = leaf v

module _ {ℓ} {V : Type ℓ} (files : String → Option (Entries V)) (strings : V → List String) where
  -- `root.pop("includes", []) or []`
  abbrev pub includes_of : Option (Value V) → List String
  includes_of none = []
  includes_of (some (leaf v)) = strings v
  includes_of (some (table entries)) = names entries

  -- the loop over the includes
  unfoldable pub include_all : List String → Entries V → Result (Entries V)
  include_all [] merged = ok merged
  include_all (include ∷ rest) merged = elim (files include) [
    | none ↦ raise Error.config_error
    | some entries ↦ include_all rest (deep_merge merged entries)
  ]

  -- what follows the test that the root file is there
  abbrev pub load_root : Option (Entries V) → Result (Entries V)
  load_root none = raise Error.config_error
  load_root (some root) =
      include_all (includes_of (get "includes" root)) nil
      >>= (λ merged. ok (deep_merge merged (pop "includes" root)))

  -- `load_params`, in a directory
  unfoldable pub load_params : Result (Entries V)
  load_params = load_root (files "default.yaml")
