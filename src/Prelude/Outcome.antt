-- ===== src/Prelude/Outcome.antt =====
-- Python's exceptions as values. A state that an operation has changed before it raises comes back
-- beside the result.
use mathlib.Core.Path.{◌≡◌, refl}
use mathlib.Core.Logic.{◌⊎◌, inl, inr}
use mathlib.Core.Bool.{Bool}
use mathlib.Core.Option.{Option, none, some}
use mathlib.Core.List.{List, [], ◌∷◌}
use Prim.Native.Nat.{ℕ, zero, suc}
use aura_x.Prelude.Tests.{if◌then◌else◌}
use aura_x.Prelude.Lists.{get_elem?}

pub data Error : Type 0 where
  key_error zero_division value_error runtime_error overflow_error config_error type_error
        index_error attribute_error :
      Error

pub data Result {ℓ} (A : Type ℓ) : Type ℓ where
  ok : A → Result A
  raise : Error → Result A

module _ {ℓ κ} {A : Type ℓ} {B : Type κ} where
  infixl 5 ◌>>=◌
  -- the next step, unless an exception is on its way
  abbrev pub ◌>>=◌ : Result A → (A → Result B) → Result B
  raise e >>= next = raise e
  ok a >>= next = next a

  -- Inversion of a successful step.
  pub >>=-eq-ok :
      (m : Result A) (next : A → Result B) {b : B}
      → (m >>= next) ≡ ok b
      → (a : A) × (m ≡ ok a) × (next a ≡ ok b)
  >>=-eq-ok (raise e) next h = cc
  >>=-eq-ok (ok a) next h = (a, refl, h)

infixl 5 ◌>>◌
-- a statement and what follows it
abbrev pub ◌>>◌ {ℓ} : {A : Type ℓ} → Result (Unit {0}) → Result A → Result A
first >> rest = first >>= (λ done. rest)

-- `if test: raise e`
abbrev pub raise_if : Bool → Error → Result (Unit {0})
raise_if test e = if test then raise e else ok tt

abbrev pub or_raise {ℓ} : {A : Type ℓ} → Option A → Error → Result A
or_raise none e = raise e
or_raise (some a) e = ok a

pub Result-cases {ℓ} :
    {A : Type ℓ} (r : Result A) → ((a : A) × (r ≡ ok a)) ⊎ ((e : Error) × (r ≡ raise e))
Result-cases (ok a) = inl (a, refl)
Result-cases (raise e) = inr (e, refl)

module _ {ℓ} {A : Type ℓ} where
  -- `xs.iloc[ps]`, and `xs[ps]` of numpy
  abbrev pub iloc : List A → List ℕ → Result (List A)
  iloc xs [] = ok []
  iloc xs (p ∷ ps) =
      or_raise (get_elem? xs p) Error.index_error
      >>= (λ here. iloc xs ps >>= (λ rest. ok (here ∷ rest)))

  -- `xs[p] = a`
  abbrev pub set_at : List A → ℕ → A → List A
  set_at [] p a = []
  set_at (x ∷ xs) zero a = a ∷ xs
  set_at (x ∷ xs) (suc p) a = x ∷ set_at xs p a

  -- `xs[ps] = values`
  abbrev pub set_all : List A → List ℕ → List A → List A
  set_all xs [] values = xs
  set_all xs (p ∷ ps) [] = xs
  set_all xs (p ∷ ps) (v ∷ values) = set_all (set_at xs p v) ps values
