-- ===== src/Tests/Validation.antt =====
-- src/aurax/validation at concrete labels, with a numpy that sorts by insertion and searches by
-- counting.
use aura_x.Prelude.{
  ℕ, ◌≤◌, ◌<◌, ◌≡◌, refl, ◌∙◌, ◌⊎◌, Bool, not, List, [], ◌∷◌, count, select, any, All, leb, ok,
  arith, if◌then◌else◌, Bool-cases, inl, inr,
}
use aura_x.Prelude.Int.{pos, negsuc}
use aura_x.Prelude.Fixed.{fixed_float}
use aura_x.Validation.Purge.{Label, Ascending, Numpy, purge_train_times, overlaps}
use aura_x.Validation.Purge.Exact.{purge_train_times_exact}
use aura_x.Validation.Splits.{fold, sorted, rows_at}
use aura_x.Validation.Splits.NoLeak.{Clear}
use aura_x.Validation.Splits.Returns.{fold_leaks_nothing}
use aura_x.Validation.Baselines.{
  majority_class_side, majority_class_side_majority, votes, is_up, is_down,
}

unfoldable pub place : Label → List Label → List Label
place l [] = l ∷ []
place l (m ∷ ms) = let later = place l ms in if leb l.0 m.0 then l ∷ m ∷ ms else m ∷ later

unfoldable pub by_start : List Label → List Label
unfolding place
by_start [] = []
by_start (l ∷ ls) = place l (by_start ls)

place-Ascending :
    (l : Label) (ms : List Label) (lo : ℕ) → lo ≤ l.0 → Ascending lo ms → Ascending lo (place l ms)
unfolding place
place-Ascending l [] lo h a = (h, tt)
place-Ascending l ((s, e) ∷ ms) lo h (b, a) = elim (Bool-cases (leb l.0 s)) [
  | inl k ↦ rw k (h, (ground arith, a))
  | inr k ↦ rw k (b, place-Ascending l ms s (ground arith) a)
]

pub by_start-Ascending : (ls : List Label) → Ascending 0 (by_start ls)
unfolding by_start
by_start-Ascending [] = tt
by_start-Ascending (l ∷ ls) =
    place-Ascending l (by_start ls) 0 (omega arith) (by_start-Ascending ls)

count-place :
    (p : Label → Bool) (l : Label) (ms : List Label) → count p (place l ms) ≡ count p (l ∷ ms)
unfolding place
count-place p l [] = refl
count-place p l (m ∷ ms) = ground (arith, count-place p l ms)

pub count-by_start : (p : Label → Bool) (ls : List Label) → count p (by_start ls) ≡ count p ls
unfolding by_start
count-by_start p [] = refl
count-by_start p (l ∷ ls) = count-place p l (by_start ls) ∙ ground (arith, count-by_start p ls)

abbrev pub numpy : Numpy
numpy = record {
  sort_rows = by_start;
  searchsorted_right = λ a v. count (λ s. leb s v) a;
  sort_rows-sorts = by_start-Ascending;
  sort_rows-permutes = count-by_start;
  searchsorted_right-counts = λ a v h. refl;
}

abbrev labels : List Label
labels = (0, 3) ∷ (2, 4) ∷ (5, 6) ∷ (8, 9) ∷ []

purge_train_times_exact_example :
    purge_train_times numpy labels ((3, 5) ∷ [])
    ≡ select (λ row. not (any (overlaps row) ((3, 5) ∷ []))) labels
purge_train_times_exact_example =
    purge_train_times_exact numpy labels ((3, 5) ∷ []) (ground arith) (ground arith)

fold_leaks_nothing_example :
    (train : List ℕ) × (test_t1 : List Label) × (fold numpy labels 1 (1 ∷ [])
      ≡ ok (train, sorted (1 ∷ [])))
    × (rows_at labels (sorted (1 ∷ [])) ≡ ok test_t1)
    × All (Clear labels 1 test_t1) train
fold_leaks_nothing_example =
    fold_leaks_nothing numpy labels 1 (1 ∷ []) (ground arith) (ground arith) (ground arith)

majority_class_side_majority_example :
    let ls = pos 1 ∷ negsuc 0 ∷ negsuc 0 ∷ pos 0 ∷ [] in
    (votes (pos 1) ls ≤ votes (majority_class_side ls) ls)
    × ((majority_class_side ls ≡ pos 1)
        ⊎ ((majority_class_side ls ≡ negsuc 0) × (count is_up ls < count is_down ls)))
majority_class_side_majority_example =
    majority_class_side_majority (pos 1 ∷ negsuc 0 ∷ negsuc 0 ∷ pos 0 ∷ []) (pos 1)
