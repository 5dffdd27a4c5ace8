-- ===== src/Prelude/Floats.antt =====
-- All that the code does with a `float`. The type and its operations are parameters of the model:
-- IEEE 754 arithmetic is not defined here, and what a theorem uses of it is one of the law records.
use Prim.Native.Nat.{ℕ}
use mathlib.Core.Path.{◌≡◌}
use mathlib.Core.Bool.{Bool, true, false}
use aura_x.Prelude.Int.{ℤ}
use aura_x.Prelude.Tests.{if◌then◌else◌}
use aura_x.Prelude.Outcome.{Result, ok, raise, zero_division}

pub record Float {ℓ} (F : Type ℓ) : Type ℓ where
  -- `lit m e` is the literal of m · 10^-e; an `int` in float arithmetic is `of_int`
  pub lit : ℕ → ℕ → F
  pub of_int : ℤ → F
  pub neg_inf : F
  pub nan : F
  pub add : F → F → F
  pub sub : F → F → F
  pub mul : F → F → F
  -- the quotient at a divisor that is not zero; at zero, numpy's
  pub div : F → F → F
  pub abs : F → F
  pub sqrt : F → F
  pub floor : F → ℤ
  -- `round(x, n)`
  pub round : F → ℕ → F
  pub is_finite : F → Bool
  pub lt : F → F → Bool
  pub le : F → F → Bool
  pub eq : F → F → Bool

infixl 65 ◌⊕◌ ◌⊖◌
infixl 70 ◌⊗◌ ◌⊘◌
module _ {ℓ} {F : Type ℓ} ⦃f : Float F⦄ where
  abbrev pub ◌⊕◌ : F → F → F
  ◌⊕◌ = f.add

  abbrev pub ◌⊖◌ : F → F → F
  ◌⊖◌ = f.sub

  abbrev pub ◌⊗◌ : F → F → F
  ◌⊗◌ = f.mul

  abbrev pub ◌⊘◌ : F → F → F
  ◌⊘◌ = f.div

  -- `0.0` and `1.0`
  abbrev pub nought : F
  nought = f.lit 0 0

  abbrev pub unit : F
  unit = f.lit 1 0

  -- Python's `x / y`, which raises at a zero divisor.
  abbrev pub divide : F → F → Result F
  divide x y = if f.eq y nought then raise zero_division else ok (f.div x y)

  -- Python's `max(x, y)` and `min(x, y)`: the first, unless the second is beyond it.
  abbrev pub fmax : F → F → F
  fmax x y = if f.lt x y then y else x

  abbrev pub fmin : F → F → F
  fmin x y = if f.lt y x then y else x

-- IEEE 754 comparisons. A number is a value that is `<=` itself; NaN is none.
pub record IsOrdered {ℓ} (F : Type ℓ) ⦃f : Float F⦄ : Type ℓ where
  pub nought_number : f.le (f.lit 0 0) (f.lit 0 0) ≡ true
  pub number_of_le : (x y : F) → f.le x y ≡ true → (f.le x x ≡ true) × (f.le y y ≡ true)
  pub le_trans : (x y z : F) → f.le x y ≡ true → f.le y z ≡ true → f.le x z ≡ true
  pub lt-le : (x y : F) → f.lt x y ≡ true → f.le x y ≡ true
  pub lt-not-le : (x y : F) → f.lt x y ≡ true → f.le y x ≡ false
  pub not-lt-le : (x y : F) → f.le x x ≡ true → f.le y y ≡ true → f.lt x y ≡ false → f.le y x ≡ true

-- IEEE 754: the sum of two positive values is positive, and no positive value is zero.
pub record AddsPositive {ℓ} (F : Type ℓ) ⦃f : Float F⦄ : Type ℓ where
  pub add_positive :
      (x y : F)
      → f.lt (f.lit 0 0) x ≡ true
      → f.lt (f.lit 0 0) y ≡ true
      → f.lt (f.lit 0 0) (f.add x y) ≡ true
  pub positive_ne : (x : F) → f.lt (f.lit 0 0) x ≡ true → f.eq x (f.lit 0 0) ≡ false
