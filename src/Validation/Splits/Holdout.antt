-- ===== src/Validation/Splits/Holdout.antt =====
-- What is developed on knows nothing of the holdout.
use aura_x.Prelude.{
  ℕ, zero, suc, ◌+◌, ◌-◌, ◌≤◌, ◌<◌, ◌≡◌, refl, subst, ◌==◌, Bool, true, false, not, some, List, [],
  ◌∷◌, length, get_elem?, take, any, All, ok, >>=-eq-ok, Bool-cases, inl, inr, arith, if◌then◌else◌,
}
use aura_x.Validation.Purge.{Label, Numpy, purge_train_times, overlaps}
use aura_x.Validation.Purge.Merge.{WellFormed}
use aura_x.Validation.Purge.Exact.{purge_train_times_exact}
use aura_x.Validation.Splits.{arange, rows_at, positions, holdout_split}
use aura_x.Validation.Splits.NoLeak.{
  Rising, All-of_elems, All-select, All-sorted, All-rows_at, not-true,
}
use aura_x.Validation.Splits.Stands.{StandsAt, positions-StandsAt}

-- the label at the position overlaps none of the holdout
abbrev pub Unseen : List Label → List Label → ℕ → Type 0
Unseen t1 hold_t1 p =
    (row : Label) × (get_elem? t1 p ≡ some row) × (any (overlaps row) hold_t1 ≡ false)

get_elem?-take :
    (n : ℕ) (t1 : List Label) (k : ℕ) (row : Label)
    → get_elem? (take n t1) k ≡ some row
    → (k < n) × (get_elem? t1 k ≡ some row)
get_elem?-take zero t1 k row h = absurd (ground arith)
get_elem?-take (suc n) [] k row h = absurd (ground arith)
get_elem?-take (suc n) (r ∷ t1) zero row h = (omega arith, h)
get_elem?-take (suc n) (r ∷ t1) (suc k) row h =
    let (l, at) = get_elem?-take n t1 k row h in (omega (arith, l), at)

take-StandsAt : (n : ℕ) (t1 : List Label) → All (StandsAt t1 (λ p. p < n)) (take n t1)
take-StandsAt n t1 =
    All-of_elems (StandsAt t1 (λ p. p < n)) (take n t1)
      (λ k row at. let (l, found) = get_elem?-take n t1 k row at in (k, l, found))

get_elem?-some :
    (t1 : List Label) (k : ℕ) → k < length t1 → (row : Label) × (get_elem? t1 k ≡ some row)
get_elem?-some [] k l = absurd (omega (arith, l))
get_elem?-some (row ∷ t1) zero l = (row, refl)
get_elem?-some (row ∷ t1) (suc k) l = get_elem?-some t1 k (omega (arith, l))

-- an index that is wholly developed on
arange-Unseen :
    (t1 : List Label) (from n : ℕ)
    → from + n ≤ length t1
    → All (λ p. (p < from + n) × Unseen t1 [] p) (arange from n)
arange-Unseen t1 from zero h = tt
arange-Unseen t1 from (suc n) h =
    let (row, at) = get_elem?-some t1 from (omega (arith, h)) in
    (
      (omega arith, (row, at, refl)),
      subst (λ m. All (λ p. (p < m) × Unseen t1 [] p) (arange (suc from) n)) (omega arith)
          (arange-Unseen t1 (suc from) n (omega (arith, h))),
    )

ok-inj {ℓ} : {A : Type ℓ} {a b : A} → ok a ≡ ok b → a ≡ b
ok-inj h = cc

then_of {ℓ} :
    {A : Type ℓ} (b : Bool) (x y : A) {z : A} → b ≡ true → (if b then x else y) ≡ z → x ≡ z
then_of true x y h e = e
then_of false x y h e = absurd cc

else_of {ℓ} :
    {A : Type ℓ} (b : Bool) (x y : A) {z : A} → b ≡ false → (if b then x else y) ≡ z → y ≡ z
else_of true x y h e = absurd cc
else_of false x y h e = e

All-take : (n : ℕ) (t1 : List Label) → All WellFormed t1 → All WellFormed (take n t1)
All-take zero t1 h = tt
All-take (suc n) [] h = tt
All-take (suc n) (row ∷ t1) (h, hs) = (h, All-take n t1 hs)

clear :
    (t1 hold_t1 : List Label) (cut : ℕ) (ps : List ℕ)
    → All
        (λ p.
          (p < cut)
          × ((row : Label) × (get_elem? t1 p ≡ some row)
              × (not (any (overlaps row) hold_t1) ≡ true)))
        ps
    → All (λ p. (p < cut) × Unseen t1 hold_t1 p) ps
clear t1 hold_t1 cut [] h = tt
clear t1 hold_t1 cut (p ∷ ps) ((l, (row, at, free)), hs) =
    ((l, (row, at, not-true _ free)), clear t1 hold_t1 cut ps hs)

-- what a split of development and holdout keeps apart
abbrev pub Apart : List Label → ℕ → List ℕ × List ℕ → Type 0
Apart t1 cut (dev, hold) =
    (hold_t1 : List Label) × (hold ≡ arange cut (length t1 - cut))
    × (rows_at t1 hold ≡ ok hold_t1)
    × All (λ p. (p < cut) × Unseen t1 hold_t1 p) dev

-- On well-formed labels and an index without duplicates, cut inside it, the holdout is every
-- position from the cut on; each development position is before the cut, and its label overlaps no
-- label of the holdout.
pub holdout_split-Apart :
    (np : Numpy) (t1 : List Label) (cut : ℕ) (split : List ℕ × List ℕ)
    → All WellFormed t1
    → Rising 0 t1
    → cut ≤ length t1
    → holdout_split np t1 cut ≡ ok split
    → Apart t1 cut split
unfolding holdout_split rows_at
holdout_split-Apart np t1 cut split wf r inside e = elim (Bool-cases (length t1 - cut == 0)) [
  | inl all_dev ↦
      let none_held : length t1 - cut ≡ 0 = ground arith in
      let eq = ok-inj (then_of _ _ _ all_dev e) in
      subst (Apart t1 cut) eq (
        [],
        refl,
        rw none_held refl,
        subst (λ m. All (λ p. (p < m) × Unseen t1 [] p) (arange 0 cut)) (omega arith)
            (arange-Unseen t1 0 cut (omega (arith, inside))),
      )
  | inr some_hold ↦
      let e0 = else_of _ _ _ some_hold e in
      let (hold_t1, held, e1) = >>=-eq-ok (rows_at t1 (arange cut (length t1 - cut))) _ e0 in
      let (ps, placed, e2) =
        >>=-eq-ok (positions t1 (purge_train_times np (take cut t1) hold_t1)) _ e1 in
      let early = take-StandsAt cut t1 in
      let pure =
        purge_train_times_exact np (take cut t1) hold_t1 (All-take cut t1 wf)
          (All-rows_at WellFormed t1 _ hold_t1 wf held) in
      let kept =
        positions-StandsAt t1 (λ p. p < cut) (λ row. not (any (overlaps row) hold_t1) ≡ true) _ ps r
          (All-select _ (λ row. not (any (overlaps row) hold_t1)) (take cut t1) early)
          (subst (λ rows. positions t1 rows ≡ ok ps) pure placed) in
      subst (Apart t1 cut) (ok-inj e2)
        (hold_t1, refl, held, All-sorted _ ps (clear t1 hold_t1 cut ps kept))
]
