-- ===== src/Prelude/Lists.antt =====
-- Lists measured and indexed by native numbers, under the library's names, and the passes over
-- lists that the program makes.
use Prim.Native.Nat.{ℕ, zero, suc, ◌+◌, ◌≤◌}
use mathlib.Core.Path.{◌≡◌, refl, ap, ◌∙◌}
use mathlib.Core.Bool.{Bool, true, false, ◌||◌}
use mathlib.Core.List.{List, [], ◌∷◌, ◌++◌}
use mathlib.Core.Option.{Option, none, some}
use native.Mathlib.Omega.{arith}
use aura_x.Prelude.Tests.{if◌then◌else◌}

module _ {ℓ} {A : Type ℓ} where
  abbrev pub length : List A → ℕ
  length [] = 0
  length (x ∷ xs) = suc (length xs)

  abbrev pub get_elem? : List A → ℕ → Option A
  get_elem? [] i = none
  get_elem? (x ∷ xs) zero = some x
  get_elem? (x ∷ xs) (suc i) = get_elem? xs i

  abbrev pub All {κ} : (A → Type κ) → List A → Type κ
  All P [] = Unit
  All P (x ∷ xs) = P x × All P xs

  -- A Boolean mask: the elements that pass, in order.
  abbrev pub select : (A → Bool) → List A → List A
  select p [] = []
  select p (x ∷ xs) = let rest = select p xs in if p x then x ∷ rest else rest

  -- Python's `any`.
  abbrev pub any : (A → Bool) → List A → Bool
  any p [] = false
  any p (x ∷ xs) = p x || any p xs

  -- `df.empty`, and `not xs` of a sequence
  abbrev pub is_empty : List A → Bool
  is_empty [] = true
  is_empty (x ∷ xs) = false

  abbrev pub concat : List (List A) → List A
  concat [] = []
  concat (xs ∷ rest) = xs ++ concat rest

  -- an operation of two vectors, element by element
  abbrev pub zip_with : (A → A → A) → List A → List A → List A
  zip_with g [] ys = []
  zip_with g (x ∷ xs) [] = []
  zip_with g (x ∷ xs) (y ∷ ys) = g x y ∷ zip_with g xs ys

  abbrev pub replicate : ℕ → A → List A
  replicate zero a = []
  replicate (suc n) a = a ∷ replicate n a

  pub length-replicate : (n : ℕ) (a : A) → length (replicate n a) ≡ n
  length-replicate zero a = refl
  length-replicate (suc n) a = ap suc (length-replicate n a)

  pub length-append : (xs ys : List A) → length (xs ++ ys) ≡ length xs + length ys
  length-append [] ys = omega arith
  length-append (x ∷ xs) ys = omega (arith, length-append xs ys)

  pub All-append {κ} : (P : A → Type κ) (xs ys : List A) → All P xs → All P ys → All P (xs ++ ys)
  All-append P [] ys _ q = q
  All-append P (x ∷ xs) ys (p, ps) q = (p, All-append P xs ys ps q)

  pub select-append :
      (p : A → Bool) (xs ys : List A) → select p (xs ++ ys) ≡ select p xs ++ select p ys
  select-append p [] ys = refl
  select-append p (x ∷ xs) ys = ground (arith, select-append p xs ys)

  pub select-congr :
      (p q : A → Bool) (xs : List A) → ((x : A) → p x ≡ q x) → select p xs ≡ select q xs
  select-congr p q [] h = refl
  select-congr p q (x ∷ xs) h = ground (arith, h x, select-congr p q xs h)

module _ {ℓ} {A : Type ℓ} where
  pub append_replicate :
      (xs : List A) (n : ℕ) (a : A) → (xs ++ (a ∷ [])) ++ replicate n a ≡ xs ++ replicate (suc n) a
  append_replicate [] n a = refl
  append_replicate (x ∷ xs) n a = ap (◌∷◌ x) (append_replicate xs n a)

  replicate_last : (n : ℕ) (a : A) → replicate n a ++ (a ∷ []) ≡ replicate (suc n) a
  replicate_last zero a = refl
  replicate_last (suc n) a = ap (◌∷◌ a) (replicate_last n a)

  pub append_replicate_last :
      (xs : List A) (n : ℕ) (a : A) → (xs ++ replicate n a) ++ (a ∷ []) ≡ xs ++ replicate (suc n) a
  append_replicate_last [] n a = replicate_last n a
  append_replicate_last (x ∷ xs) n a = ap (◌∷◌ x) (append_replicate_last xs n a)

  -- how many elements pass
  abbrev pub count : (A → Bool) → List A → ℕ
  count p xs = length (select p xs)

  pub count-append : (p : A → Bool) (xs ys : List A) → count p (xs ++ ys) ≡ count p xs + count p ys
  count-append p xs ys =
      ap length (select-append p xs ys) ∙ length-append (select p xs) (select p ys)

  pub count-replicate_le : (p : A → Bool) (n : ℕ) (a : A) → count p (replicate n a) ≤ n
  count-replicate_le p zero a = omega arith
  count-replicate_le p (suc n) a = ground (arith, count-replicate_le p n a)

  pub count-replicate_none :
      (p : A → Bool) (n : ℕ) (a : A) → p a ≡ false → count p (replicate n a) ≡ 0
  count-replicate_none p zero a h = refl
  count-replicate_none p (suc n) a h = rw h (count-replicate_none p n a h)

  abbrev pub take : ℕ → List A → List A
  take zero xs = []
  take (suc n) [] = []
  take (suc n) (x ∷ xs) = x ∷ take n xs

  abbrev pub drop : ℕ → List A → List A
  drop zero xs = xs
  drop (suc n) [] = []
  drop (suc n) (x ∷ xs) = drop n xs

  pub length-take_le : (n : ℕ) (xs : List A) → length (take n xs) ≤ n
  length-take_le zero xs = omega arith
  length-take_le (suc n) [] = omega arith
  length-take_le (suc n) (x ∷ xs) = omega (arith, length-take_le n xs)
