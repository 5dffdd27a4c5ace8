-- ===== src/Validation/Purge/Merge.antt =====
-- `_merge_intervals` of src/aurax/validation/cpcv.py gives disjoint intervals that overlap the same
-- labels.
use aura_x.Prelude.{
  ℕ, ◌≤◌, ◌<◌, ◌≡◌, refl, ◌||◌, Bool, List, [], ◌∷◌, max, ltb, any, All, arith, Bool-cases, inl,
  inr, ltb→lt,
}
use aura_x.Validation.Purge.{Label, Ascending, merge_from, merge_sorted, overlaps}

abbrev pub WellFormed : Label → Type 0
WellFormed (s, e) = s ≤ e

abbrev pub Beyond : ℕ → List Label → Type 0
Beyond e [] = Unit
Beyond e ((s, t) ∷ rest) = e < s

-- Intervals in order, each ending before the next one starts.
abbrev pub Disjoint : List Label → Type 0
Disjoint [] = Unit
Disjoint ((s, e) ∷ rest) = (s ≤ e) × Beyond e rest × Disjoint rest

abbrev Opens : ℕ → List Label → Type 0
Opens a [] = Unit
Opens a ((s, e) ∷ rest) = s ≡ a

merge_from-Opens : (c a e : ℕ) (rest : List Label) → Opens a (merge_from c (a, e) rest)
unfolding merge_from
merge_from-Opens c a e [] = refl
merge_from-Opens c a e ((s, t) ∷ rest) = elim (Bool-cases (ltb c s)) [
  | inl apart ↦ rw apart refl
  | inr joined ↦ rw joined (merge_from-Opens (max c t) a (max e t) rest)
]

Opens-Beyond : (e a : ℕ) (l : List Label) → e < a → Opens a l → Beyond e l
Opens-Beyond e a [] h o = tt
Opens-Beyond e a ((s, t) ∷ rest) h o = omega arith

Ascending-weaken : (a s : ℕ) (rest : List Label) → a ≤ s → Ascending s rest → Ascending a rest
Ascending-weaken a s [] h asc = tt
Ascending-weaken a s ((t, e) ∷ rest) h (k, asc) = (omega arith, asc)

or_assoc : (a b c : Bool) → (a || b) || c ≡ a || (b || c)
or_assoc a b c = ground arith

merge_from-Disjoint :
    (e a : ℕ) (rest : List Label)
    → a ≤ e
    → Ascending a rest
    → All WellFormed rest
    → Disjoint (merge_from e (a, e) rest)
unfolding merge_from
merge_from-Disjoint e a [] h asc wf = (h, tt, tt)
merge_from-Disjoint e a ((s, t) ∷ rest) h (later, asc) (w, wf) = elim (Bool-cases (ltb e s)) [
  | inl apart ↦
      (let beyond : e < s = ltb→lt e s apart in
        let end : max e t ≡ t = omega arith in
        rw (apart, end)
          (
            h,
            Opens-Beyond e s (merge_from t (s, t) rest) beyond (merge_from-Opens t s t rest),
            merge_from-Disjoint t s rest w asc wf,
          ))
  | inr joined ↦
      rw joined (
        merge_from-Disjoint (max e t) a rest (omega arith) (Ascending-weaken a s rest later asc) wf)
]

-- A label that reaches the joined interval reaches one of its two parts.
overlaps_join :
    (l : Label) (a e s t : ℕ)
    → WellFormed l
    → a ≤ s
    → s ≤ e
    → overlaps l (a, max e t) ≡ overlaps l (a, e) || overlaps l (s, t)
overlaps_join (a0, a1) a e s t lw h k = ground arith

merge_from-overlaps :
    (l : Label) (e a : ℕ) (rest : List Label)
    → WellFormed l
    → a ≤ e
    → Ascending a rest
    → All WellFormed rest
    → any (overlaps l) (merge_from e (a, e) rest) ≡ overlaps l (a, e) || any (overlaps l) rest
unfolding merge_from
merge_from-overlaps l e a [] lw h asc wf = refl
merge_from-overlaps l e a ((s, t) ∷ rest) lw h (later, asc) (w, wf) = elim (Bool-cases (ltb e s)) [
  | inl apart ↦
      (let beyond : e < s = ltb→lt e s apart in
        let end : max e t ≡ t = omega arith in
        rw (apart, end) (rw (merge_from-overlaps l t s rest lw w asc wf)))
  | inr joined ↦
      (let near : s ≤ e = ground arith in
        rw
          (
            joined,
            merge_from-overlaps l (max e t) a rest lw (omega arith)
                (Ascending-weaken a s rest later asc) wf,
            overlaps_join l a e s t lw later near,
          )
          (or_assoc (overlaps l (a, e)) (overlaps l (s, t)) _))
]

-- What `_merge_intervals` returns for sorted, well-formed rows is disjoint and in order.
pub merge_sorted-Disjoint :
    (rows : List Label) → Ascending 0 rows → All WellFormed rows → Disjoint (merge_sorted rows)
merge_sorted-Disjoint [] asc wf = tt
merge_sorted-Disjoint ((s, e) ∷ rest) (_, asc) (w, wf) = merge_from-Disjoint e s rest w asc wf

-- And a well-formed label overlaps one of the merged intervals if and only if it overlaps a row.
pub merge_sorted-overlaps :
    (l : Label) (rows : List Label)
    → WellFormed l
    → Ascending 0 rows
    → All WellFormed rows
    → any (overlaps l) (merge_sorted rows) ≡ any (overlaps l) rows
merge_sorted-overlaps l [] lw asc wf = refl
merge_sorted-overlaps l ((s, e) ∷ rest) lw (_, asc) (w, wf) =
    merge_from-overlaps l e s rest lw w asc wf
