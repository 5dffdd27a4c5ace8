-- ===== src/Tests/Hmm.antt =====
-- The most likely path of a model with two states over three rows.
use aura_x.Prelude.{
  ℕ, zero, suc, ◌≡◌, refl, subst, true, false, some, List, [], ◌∷◌, get_elem?, is_empty, All, arith,
  Bool-cases, inl, inr, if◌then◌else◌,
}
use aura_x.Prelude.Int.{ℤ, ◌+ℤ◌, leb_ℤ}
use aura_x.Prelude.Fixed.{Fixed, fixed_float, Fixed-IsOrdered}
use aura_x.Regimes.Hmm.{Arrays}
use aura_x.Regimes.Hmm.Viterbi.{viterbi, viterbi_loop, backtrack}
use aura_x.Regimes.Hmm.Paths.{AddsMonotone, FindsGreatest, IsNumber, score, All-get_elem?}
use aura_x.Regimes.Hmm.Optimal.{viterbi_optimal}
use aura_x.Tests.Data.{num}
use aura_x.Tests.Protocol.{total}

leb-+ℤ_left : (c a b : ℤ) → leb_ℤ a b ≡ true → leb_ℤ (c +ℤ a) (c +ℤ b) ≡ true
unfolding ◌+ℤ◌
leb-+ℤ_left c a b h = ground arith

leb-+ℤ_right : (c a b : ℤ) → leb_ℤ a b ≡ true → leb_ℤ (a +ℤ c) (b +ℤ c) ≡ true
unfolding ◌+ℤ◌
leb-+ℤ_right c a b h = ground arith

add_left :
    (c x y : Fixed)
    → fixed_float.is_finite c ≡ true
    → fixed_float.le x y ≡ true
    → fixed_float.le (fixed_float.add c x) (fixed_float.add c y) ≡ true
add_left (Fixed.fin c) (Fixed.fin a) (Fixed.fin b) h l = leb-+ℤ_left c a b l
add_left (Fixed.fin c) Fixed.neg_inf (Fixed.fin b) h l = refl
add_left (Fixed.fin c) Fixed.neg_inf Fixed.neg_inf h l = refl
add_left (Fixed.fin c) Fixed.neg_inf Fixed.nan h l = absurd cc
add_left (Fixed.fin c) (Fixed.fin a) Fixed.neg_inf h l = absurd cc
add_left (Fixed.fin c) (Fixed.fin a) Fixed.nan h l = absurd cc
add_left (Fixed.fin c) Fixed.nan y h l = absurd cc
add_left Fixed.nan x y h l = absurd cc
add_left Fixed.neg_inf x y h l = absurd cc

add_right :
    (c x y : Fixed)
    → fixed_float.is_finite c ≡ true
    → fixed_float.le x y ≡ true
    → fixed_float.le (fixed_float.add x c) (fixed_float.add y c) ≡ true
add_right (Fixed.fin c) (Fixed.fin a) (Fixed.fin b) h l = leb-+ℤ_right c a b l
add_right (Fixed.fin c) Fixed.neg_inf (Fixed.fin b) h l = refl
add_right (Fixed.fin c) Fixed.neg_inf Fixed.neg_inf h l = refl
add_right (Fixed.fin c) Fixed.neg_inf Fixed.nan h l = absurd cc
add_right (Fixed.fin c) (Fixed.fin a) Fixed.neg_inf h l = absurd cc
add_right (Fixed.fin c) (Fixed.fin a) Fixed.nan h l = absurd cc
add_right (Fixed.fin c) Fixed.nan y h l = absurd cc
add_right Fixed.nan x y h l = absurd cc
add_right Fixed.neg_inf x y h l = absurd cc

finite_number : (x : Fixed) → fixed_float.is_finite x ≡ true → fixed_float.le x x ≡ true
finite_number (Fixed.fin a) h = ground arith
finite_number Fixed.nan h = absurd cc
finite_number Fixed.neg_inf h = absurd cc

Fixed-AddsMonotone : AddsMonotone Fixed
Fixed-AddsMonotone = record {
  finite_number = finite_number;
  add_left = add_left;
  add_right = add_right;
}

-- the greatest element and its position, in a list from a first element on
abbrev best_from : Fixed → List Fixed → ℕ × Fixed
best_from x [] = (0, x)
best_from x (y ∷ ys) =
    let r = best_from y ys in if fixed_float.lt x r.1 then (suc r.0, r.1) else (0, x)

best_from_found :
    (x : Fixed) (xs : List Fixed) → get_elem? (x ∷ xs) (best_from x xs).0 ≡ some (best_from x xs).1
best_from_found x [] = refl
best_from_found x (y ∷ ys) = elim (Bool-cases (fixed_float.lt x (best_from y ys).1)) [
  | inl e ↦ rw e (best_from_found y ys)
  | inr e ↦ rw e refl
]

head_or_tail :
    (x bound : Fixed) (xs : List Fixed) (i : ℕ) (z : Fixed)
    → get_elem? (x ∷ xs) i ≡ some z
    → fixed_float.le x bound ≡ true
    → ((j : ℕ) → get_elem? xs j ≡ some z → fixed_float.le z bound ≡ true)
    → fixed_float.le z bound ≡ true
head_or_tail x bound xs zero z h l rest =
    subst (λ w. fixed_float.le w bound ≡ true) (ground (arith, h)) l
head_or_tail x bound xs (suc i) z h l rest = rest i h

best_from_greatest :
    (x : Fixed) (xs : List Fixed) (i : ℕ) (z : Fixed)
    → All IsNumber (x ∷ xs)
    → get_elem? (x ∷ xs) i ≡ some z
    → fixed_float.le z (best_from x xs).1 ≡ true
best_from_greatest x [] i z (n, ns) h = head_or_tail x x [] i z h n (λ j k. absurd (cc k))
best_from_greatest x (y ∷ ys) i z (n, ns) h =
    let best = (best_from y ys).1 in
    let number =
      All-get_elem? IsNumber (y ∷ ys) (best_from y ys).0 best ns (best_from_found y ys) in
    let within : (j : ℕ) → get_elem? (y ∷ ys) j ≡ some z → fixed_float.le z best ≡ true =
      λ j k. best_from_greatest y ys j z ns k in
    elim (Bool-cases (fixed_float.lt x best)) [
      | inl e ↦ rw e (head_or_tail x best (y ∷ ys) i z h (Fixed-IsOrdered.lt-le x best e) within)
      | inr e ↦
          let over = Fixed-IsOrdered.not-lt-le x best n number e in
          rw e (
            head_or_tail x x (y ∷ ys) i z h n
              (λ j k. Fixed-IsOrdered.le_trans z best x (within j k) over))
    ]

abbrev greatest_of : List Fixed → ℕ × Fixed
greatest_of [] = (0, Fixed.nan)
greatest_of (x ∷ xs) = best_from x xs

abbrev arrays : Arrays Fixed
arrays = record {
  log = λ x. x;
  exp = λ x. x;
  logsumexp = λ xs. (greatest_of xs).1;
  sum = total;
  argmax = λ xs. (greatest_of xs).0;
  amax = λ xs. (greatest_of xs).1;
  column_means = λ rows. [];
  column_stds = λ rows. [];
  column_vars = λ rows. [];
  two_pi = num 6;
  quantile_bins = λ k column. [];
}

argmax-amax :
    (xs : List Fixed)
    → is_empty xs ≡ false
    → All IsNumber xs
    → get_elem? xs (greatest_of xs).0 ≡ some (greatest_of xs).1
argmax-amax [] h n = absurd cc
argmax-amax (x ∷ xs) h n = best_from_found x xs

amax_greatest :
    (xs : List Fixed) (i : ℕ) (x : Fixed)
    → All IsNumber xs
    → get_elem? xs i ≡ some x
    → fixed_float.le x (greatest_of xs).1 ≡ true
amax_greatest [] i z n h = absurd cc
amax_greatest (x ∷ xs) i z n h = best_from_greatest x xs i z n h

finds_greatest : FindsGreatest arrays
finds_greatest = record { argmax-amax = argmax-amax; amax_greatest = amax_greatest }

-- staying is likelier than moving; the second row speaks for the other state, but not by enough
abbrev stays : List (List Fixed)
stays = (num 4 ∷ num 1 ∷ []) ∷ (num 1 ∷ num 4 ∷ []) ∷ []

abbrev starts : List Fixed
starts = num 2 ∷ num 2 ∷ []

abbrev first_row : List Fixed
first_row = num 5 ∷ num 1 ∷ []

abbrev later_rows : List (List Fixed)
later_rows = (num 2 ∷ num 4 ∷ []) ∷ (num 5 ∷ num 1 ∷ []) ∷ []

decoded : viterbi arrays stays starts (first_row ∷ later_rows) ≡ 0 ∷ 0 ∷ 0 ∷ []
unfolding viterbi viterbi_loop backtrack ◌+ℤ◌
decoded = refl

viterbi_optimal_example :
    (best : Fixed) × (score stays starts
        (first_row ∷ later_rows)
        (viterbi arrays stays starts (first_row ∷ later_rows))
      ≡ some best)
    × (fixed_float.le
          (fixed_float.add (num 5) (
            fixed_float.add
              (fixed_float.add (num 4) (fixed_float.add (fixed_float.add (num 2) (num 5)) (num 1)))
              (num 1)))
          best
        ≡ true)
viterbi_optimal_example =
    viterbi_optimal arrays Fixed-IsOrdered Fixed-AddsMonotone finds_greatest stays
      ((refl, (refl, (refl, tt))), ((refl, (refl, (refl, tt))), tt)) refl starts first_row
      later_rows (0 ∷ 1 ∷ 0 ∷ []) _ (refl, (refl, (refl, tt)))
      ((refl, (refl, (refl, tt))), ((refl, (refl, (refl, tt))), ((refl, (refl, (refl, tt))), tt)))
      refl
