-- ===== src/Prelude/Fixed.antt =====
-- An instance of `Float` to run the model on: numbers in millionths, rounded down, with the two
-- special values that the code uses. The laws of the comparisons hold of it.
use Prim.Native.Nat.{ℕ, zero, suc, ◌+◌, ◌*◌, ◌/◌, ◌^◌}
use mathlib.Core.Path.{◌≡◌}
use mathlib.Core.Bool.{Bool, true, false}
use native.Mathlib.Omega.{arith}
use aura_x.Prelude.Tests.{leb, if◌then◌else◌}
use aura_x.Prelude.Int.{
  ℤ, pos, negsuc, pos_part, neg_part, ◌+ℤ◌, ◌-ℤ◌, ◌*ℤ◌, floor_div, ltb_ℤ, leb_ℤ,
}
use aura_x.Prelude.Floats.{Float, IsOrdered, AddsPositive}

pub data Fixed : Type 0 where
  nan : Fixed
  neg_inf : Fixed
  fin : ℤ → Fixed

abbrev scale : ℕ
scale = 1_000_000

abbrev both : (ℤ → ℤ → ℤ) → Fixed → Fixed → Fixed
both g (fin a) (fin b) = fin (g a b)
both g neg_inf (fin b) = neg_inf
both g _ _ = nan

abbrev plus : Fixed → Fixed → Fixed
plus (fin a) (fin b) = fin (a +ℤ b)
plus (fin a) neg_inf = neg_inf
plus neg_inf (fin b) = neg_inf
plus neg_inf neg_inf = neg_inf
plus _ _ = nan

abbrev lt : Fixed → Fixed → Bool
lt (fin a) (fin b) = ltb_ℤ a b
lt neg_inf (fin b) = true
lt _ _ = false

abbrev le : Fixed → Fixed → Bool
le (fin a) (fin b) = leb_ℤ a b
le neg_inf (fin b) = true
le neg_inf neg_inf = true
le _ _ = false

abbrev eq : Fixed → Fixed → Bool
eq (fin a) (fin b) = if leb_ℤ a b then leb_ℤ b a else false
eq neg_inf neg_inf = true
eq _ _ = false

-- The quotient of two integers in millionths, towards zero.
unfoldable pub quotient : ℤ → ℤ → ℤ
unfolding ◌-ℤ◌
quotient (pos a) (pos b) = pos (a * scale / b)
quotient (pos a) (negsuc b) = pos 0 -ℤ pos (a * scale / suc b)
quotient (negsuc a) (pos b) = pos 0 -ℤ pos (suc a * scale / b)
quotient (negsuc a) (negsuc b) = pos (suc a * scale / suc b)

abbrev magnitude : Fixed → Fixed
magnitude (fin a) = fin (pos (pos_part a + neg_part a))
magnitude x = x

-- The greatest root whose square is at most `n`, by bisection over twenty-six bits.
unfoldable pub root : ℕ → ℕ → ℕ → ℕ
root zero n r = r
root (suc k) n r = let s = r + 2 ^ k in root k n (if leb (s * s) n then s else r)

unfoldable pub square_root : Fixed → Fixed
unfolding root
square_root (fin (pos a)) = fin (pos (root 26 (a * scale) 0))
square_root x = nan

unfoldable pub whole : Fixed → ℤ
unfolding floor_div
whole (fin a) = floor_div a scale
whole _ = pos 0

abbrev finite : Fixed → Bool
finite (fin a) = true
finite _ = false

instance abbrev pub fixed_float : Float Fixed
fixed_float = record {
  lit = λ m e. fin (pos (m * scale / 10 ^ e));
  of_int = λ n. fin (n *ℤ pos scale);
  neg_inf = neg_inf;
  nan = nan;
  add = plus;
  sub = both ◌-ℤ◌;
  mul = both (λ a b. floor_div (a *ℤ b) scale);
  div = both quotient;
  abs = magnitude;
  sqrt = square_root;
  floor = whole;
  round = λ x n. x;
  is_finite = finite;
  lt = lt;
  le = le;
  eq = eq;
}

pub Fixed-IsOrdered : IsOrdered Fixed
Fixed-IsOrdered = ground arith

add_positive :
    (x y : Fixed)
    → lt (fin (pos 0)) x ≡ true
    → lt (fin (pos 0)) y ≡ true
    → lt (fin (pos 0)) (plus x y) ≡ true
unfolding ◌+ℤ◌
add_positive (fin a) (fin b) h k = ground arith
add_positive (fin a) nan h k = cc
add_positive (fin a) neg_inf h k = cc
add_positive nan y h k = cc
add_positive neg_inf y h k = cc

positive_ne : (x : Fixed) → lt (fin (pos 0)) x ≡ true → eq x (fin (pos 0)) ≡ false
positive_ne (fin a) h = ground arith
positive_ne nan h = cc
positive_ne neg_inf h = cc

pub Fixed-AddsPositive : AddsPositive Fixed
unfolding ◌+ℤ◌
Fixed-AddsPositive = record { add_positive = add_positive; positive_ne = positive_ne }
