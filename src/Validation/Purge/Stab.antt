-- ===== src/Validation/Purge/Stab.antt =====
-- The stabbing query of `purge_train_times` (src/aurax/validation/cpcv.py): among disjoint sorted
-- intervals, only the rightmost that starts in time can overlap.
use aura_x.Prelude.{
  ℕ, suc, ◌≤◌, ◌≡◌, refl, true, false, List, [], ◌∷◌, map, leb, any, arith, count, Bool-cases, inl,
  inr,
}
use aura_x.Validation.Purge.{Label, start_of, end_of, end_reaches, overlaps}
use aura_x.Validation.Purge.Merge.{Disjoint, Beyond}

abbrev before : ℕ → List Label → ℕ
before a1 merged = count (λ s. leb s a1) (map start_of merged)

-- Intervals that start beyond a label neither count nor overlap.
all-Beyond :
    (a0 a1 e : ℕ) (merged : List Label)
    → Disjoint merged
    → Beyond e merged
    → a1 ≤ e
    → (before a1 merged ≡ 0) × (any (overlaps (a0, a1)) merged ≡ false)
all-Beyond a0 a1 e [] d b h = (refl, refl)
all-Beyond a0 a1 e ((s, t) ∷ rest) (w, b', d) b h =
    ground (arith, all-Beyond a0 a1 t rest d b' (omega arith))

-- One more interval in front shifts the query by one place.
end_reaches-shift :
    (e : ℕ) (n : ℕ) (ends : List ℕ) (a0 : ℕ)
    → end_reaches (suc (suc n)) (e ∷ ends) a0 ≡ end_reaches (suc n) ends a0
end_reaches-shift e n ends a0 = refl

-- The rightmost interval that starts in time overlaps the label if and only if any interval does.
pub end_reaches-eq-any :
    (a0 a1 : ℕ) (merged : List Label)
    → Disjoint merged
    → end_reaches (before a1 merged) (map end_of merged) a0 ≡ any (overlaps (a0, a1)) merged
end_reaches-eq-any a0 a1 [] d = refl
end_reaches-eq-any a0 a1 ((s, e) ∷ []) d = ground arith
end_reaches-eq-any a0 a1 ((s, e) ∷ (s', e') ∷ rest) (w, b, d) = elim (Bool-cases (leb s' a1)) [
  | inl in_time ↦
      (let ih = end_reaches-eq-any a0 a1 ((s', e') ∷ rest) d in
        let early : leb s a1 ≡ true = ground arith in
        let covered : leb a0 e ≡ true → leb a0 e' ≡ true = ground (arith, d.0) in
        rw early (ground (arith, ih, covered)))
  | inr late ↦
      (let rest_beyond = all-Beyond a0 a1 a1 ((s', e') ∷ rest) d (ground arith) (omega arith) in
        ground (arith, rest_beyond.0, rest_beyond.1))
]
