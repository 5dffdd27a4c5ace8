-- ===== src/Meta/Calibration/Pava.antt =====
-- Pooling adjacent violators gives a fit of the same length that never falls.
use aura_x.Prelude.{
  ℕ, zero, suc, ◌+◌, ◌≤◌, ◌≡◌, refl, ap, ◌∙◌, true, false, List, [], ◌∷◌, ◌++◌, length, All,
  replicate, length-append, length-replicate, ok, Float, IsOrdered, ◌⊕◌, ◌⊗◌, nought, arith,
  Bool-cases, inl, inr,
}
use aura_x.Prelude.Floats.{AddsPositive}
use mathlib.Core.List.{append-nil}
use aura_x.Meta.Calibration.{Block, pool, pool_all, spread, pava}

module _ {ℓ} {F : Type ℓ} ⦃f : Float F⦄ where
  -- no element of a list that follows `x` is below the one before it
  abbrev pub From : F → List F → Type 0
  From x [] = Unit
  From x (y ∷ ys) = (f.lt y x ≡ false) × From y ys

  abbrev pub NeverFalls : List F → Type 0
  NeverFalls [] = Unit
  NeverFalls (x ∷ xs) = From x xs

  abbrev pub Sound : Block F → Type 0
  Sound b = (1 ≤ b.count) × (f.lt nought b.weight ≡ true)

  -- sound blocks, each above the one before it
  abbrev pub Stepped : List (Block F) → Type 0
  Stepped [] = Unit
  Stepped (b ∷ []) = Sound b
  Stepped (b ∷ a ∷ below) = Sound b × (f.le b.value a.value ≡ false) × Stepped (a ∷ below)

  abbrev pub total : List (Block F) → ℕ
  total [] = 0
  total (b ∷ below) = b.count + total below

module _ {ℓ} {F : Type ℓ} ⦃f : Float F⦄ (laws : IsOrdered F) (adds : AddsPositive F) where
  Stepped-below :
      (a : Block F) (below : List (Block F)) → Stepped (a ∷ below) → Sound a × Stepped below
  Stepped-below a [] st = (st, tt)
  Stepped-below a (b ∷ below) (s, e, st) = (s, st)

  pool-Stepped :
      (b : Block F) (blocks : List (Block F))
      → Sound b
      → Stepped blocks
      → (out : List (Block F)) × (pool b blocks ≡ ok out)
        × Stepped out
        × (total out ≡ b.count + total blocks)
  unfolding pool
  pool-Stepped b [] sound st = (b ∷ [], refl, sound, refl)
  pool-Stepped b (a ∷ below) sound st = elim (Bool-cases (f.le b.value a.value)) [
    | inr e ↦ (b ∷ a ∷ below, rw e refl, (sound, e, st), refl)
    | inl e ↦
        let (sound_a, rest) = Stepped-below a below st in
        let weight = adds.add_positive a.weight b.weight sound_a.1 sound.1 in
        let zero_test = adds.positive_ne (a.weight ⊕ b.weight) weight in
        let (out, h, st', n) =
          pool-Stepped
            (record {
              value = f.div (a.value ⊗ a.weight ⊕ b.value ⊗ b.weight) (a.weight ⊕ b.weight);
              weight = a.weight ⊕ b.weight;
              count = a.count + b.count;
            })
            below (omega (arith, sound.0), weight) rest in
        (out, rw (e, zero_test) h, st', omega (arith, n))
  ]

  pool_all-Stepped :
      (y w : List F) (blocks : List (Block F))
      → length y ≡ length w
      → All (λ x. f.lt nought x ≡ true) w
      → Stepped blocks
      → (out : List (Block F)) × (pool_all y w blocks ≡ ok out)
        × Stepped out
        × (total out ≡ length y + total blocks)
  unfolding pool_all
  pool_all-Stepped [] [] blocks len pos st = (blocks, refl, st, omega arith)
  pool_all-Stepped [] (wi ∷ w) blocks len pos st = absurd (omega (arith, len))
  pool_all-Stepped (yi ∷ y) [] blocks len pos st = absurd (omega (arith, len))
  pool_all-Stepped (yi ∷ y) (wi ∷ w) blocks len (p, pos) st =
      let (mid, h, st1, n) =
        pool-Stepped (record { value = yi; weight = wi; count = 1 }) blocks (omega arith, p) st in
      let (out, k, st2, m) = pool_all-Stepped y w mid (omega (arith, len)) pos st1 in
      (out, rw h k, st2, omega (arith, n, m))

  lt_irrefl : (x : F) → f.lt x x ≡ false
  lt_irrefl x = ground (arith, laws.lt-le x x, laws.lt-not-le x x)

  From-replicate : (n : ℕ) (x : F) (out : List F) → From x out → From x (replicate n x ++ out)
  From-replicate zero x out h = h
  From-replicate (suc n) x out h = (lt_irrefl x, From-replicate n x out h)

  NeverFalls-replicate :
      (n : ℕ) (x : F) (out : List F) → From x out → NeverFalls (replicate n x ++ out)
  NeverFalls-replicate zero x [] h = tt
  NeverFalls-replicate zero x (y ∷ out) h = h.1
  NeverFalls-replicate (suc n) x out h = From-replicate n x out h

  From-replicate_above :
      (z : F) (n : ℕ) (x : F) (out : List F)
      → 1 ≤ n
      → f.lt x z ≡ false
      → From x out
      → From z (replicate n x ++ out)
  From-replicate_above z zero x out l e h = absurd (omega (arith, l))
  From-replicate_above z (suc n) x out l e h = (e, From-replicate n x out h)

  -- what stands after the blocks does not fall below the last of them
  abbrev Fits : List (Block F) → List F → Type 0
  Fits [] out = NeverFalls out
  Fits (b ∷ below) out = From b.value out

  Fits-below :
      (b : Block F) (below : List (Block F)) (out : List F)
      → Stepped (b ∷ below)
      → From b.value out
      → Fits below (replicate b.count b.value ++ out)
  Fits-below b [] out st h = NeverFalls-replicate b.count b.value out h
  Fits-below b (a ∷ below) out (sound, e, st) h =
      From-replicate_above a.value b.count b.value out sound.0
        (ground (arith, laws.lt-le b.value a.value)) h

  spread_NeverFalls :
      (blocks : List (Block F)) (out : List F)
      → Stepped blocks
      → Fits blocks out
      → NeverFalls (spread blocks out)
  spread_NeverFalls [] out st h = h
  spread_NeverFalls (b ∷ below) out st h =
      let (sound, rest) = Stepped-below b below st in
      spread_NeverFalls below _ rest (Fits-below b below out st h)

  length-spread :
      (blocks : List (Block F)) (out : List F)
      → length (spread blocks out) ≡ total blocks + length out
  length-spread [] out = omega arith
  length-spread (b ∷ below) out = omega (
    arith,
    length-spread below (replicate b.count b.value ++ out),
    length-append (replicate b.count b.value) out,
    length-replicate b.count b.value,
  )

  Fits-end : (blocks : List (Block F)) → Fits blocks []
  Fits-end [] = tt
  Fits-end (b ∷ below) = tt

  -- The pool-adjacent-violators fit of values under positive weights, one for each value, returns,
  -- NaN among the values or not: it has one number for each value and never falls.
  pub pava-NeverFalls :
      (y w : List F)
      → length y ≡ length w
      → All (λ x. f.lt nought x ≡ true) w
      → (out : List F) × (pava y w ≡ ok out) × (length out ≡ length y) × NeverFalls out
  unfolding pava
  pava-NeverFalls y w len pos =
      let (blocks, h, st, n) = pool_all-Stepped y w [] len pos tt in
      (
        spread blocks [],
        rw h refl,
        omega (arith, n, length-spread blocks []),
        spread_NeverFalls blocks [] st (Fits-end blocks),
      )

module _ {ℓ} {F : Type ℓ} ⦃f : Float F⦄ where
  -- each element is above the one before it
  abbrev pub Climbs : F → List F → Type 0
  Climbs x [] = Unit
  Climbs x (y ∷ ys) = (f.le y x ≡ false) × Climbs y ys

  abbrev pub Rises : List F → Type 0
  Rises [] = Unit
  Rises (x ∷ xs) = Climbs x xs

  -- the values rise from the last block on
  abbrev GoesOn : List (Block F) → List F → Type 0
  GoesOn [] y = Rises y
  GoesOn (b ∷ below) y = Climbs b.value y

  pool_above :
      (b : Block F) (blocks : List (Block F)) (y : List F)
      → GoesOn blocks (b.value ∷ y)
      → (pool b blocks ≡ ok (b ∷ blocks)) × Climbs b.value y
  unfolding pool
  pool_above b [] y h = (refl, h)
  pool_above b (a ∷ below) y (e, h) = (rw e refl, h)

  pool_all_above :
      (y w : List F) (blocks : List (Block F)) (rest : List F)
      → length y ≡ length w
      → GoesOn blocks y
      → (out : List (Block F)) × (pool_all y w blocks ≡ ok out)
        × (spread out rest ≡ spread blocks (y ++ rest))
  unfolding pool_all
  pool_all_above [] [] blocks rest len h = (blocks, refl, refl)
  pool_all_above [] (wi ∷ w) blocks rest len h = absurd (omega (arith, len))
  pool_all_above (yi ∷ y) [] blocks rest len h = absurd (omega (arith, len))
  pool_all_above (yi ∷ y) (wi ∷ w) blocks rest len h =
      let b : Block F = record { value = yi; weight = wi; count = 1 } in
      let (pushed, climbs) = pool_above b blocks y h in
      let (out, run, eq) = pool_all_above y w (b ∷ blocks) rest (omega (arith, len)) climbs in
      (out, rw pushed run, eq)

  -- Values that rise strictly, under whatever weights, one for each value, are their own fit.
  pava-Rises : (y w : List F) → length y ≡ length w → Rises y → pava y w ≡ ok y
  unfolding pava
  pava-Rises y w len h =
      let (out, run, eq) = pool_all_above y w [] [] len h in rw run (ap ok (eq ∙ append-nil y))
