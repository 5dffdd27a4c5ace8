-- ===== src/Data/Frame/Laws.antt =====
-- What the operations on a frame do to the row at each instant.
use aura_x.Prelude.{
  ℕ, suc, ◌≤◌, ◌<◌, ◌≡◌, refl, sym, subst, ◌==◌, Bool, true, false, Option, none, some, [], ◌∷◌,
  ◌++◌, any, count, select, if◌then◌else◌, arith, ==_iff, Bool-cases, Option-cases, inl, inr,
}
use aura_x.Data.Frame.{Frame, is_at, keep_last, find, find_last, Ascending, Rising}

module _ {ℓ} {A : Type ℓ} where
  -- one row at most at each instant
  abbrev pub Unique : Frame A → Type 0
  Unique rows = (k : ℕ) → count (is_at k) rows ≤ 1

  -- the value of the first row
  abbrev pub first_value : Frame A → Option A
  first_value [] = none
  first_value ((t, a) ∷ rows) = some a

  pub find-eq-select : (k : ℕ) (rows : Frame A) → find k rows ≡ first_value (select (is_at k) rows)
  find-eq-select k [] = refl
  find-eq-select k ((t, a) ∷ rows) = ground (arith, find-eq-select k rows)

  count-any : (k : ℕ) (rows : Frame A) → any (is_at k) rows ≡ false → count (is_at k) rows ≡ 0
  count-any k [] h = refl
  count-any k ((t, a) ∷ rows) h = ground (arith, count-any k rows)

  count-keep_last_le :
      (k : ℕ) (rows : Frame A) → count (is_at k) (keep_last rows) ≤ count (is_at k) rows
  count-keep_last_le k [] = omega arith
  count-keep_last_le k ((t, a) ∷ rows) = ground (arith, count-keep_last_le k rows)

  pub keep_last-Unique : (rows : Frame A) → Unique (keep_last rows)
  keep_last-Unique [] k = omega arith
  keep_last-Unique ((t, a) ∷ rows) k =
      ground (arith, keep_last-Unique rows k, count-any t rows, count-keep_last_le k rows)

  find_last-any : (k : ℕ) (rows : Frame A) → any (is_at k) rows ≡ false → find_last k rows ≡ none
  find_last-any k [] h = refl
  find_last-any k ((t, a) ∷ rows) h = ground (arith, find_last-any k rows)

  find_last-again :
      (k : ℕ) (rows : Frame A) → any (is_at k) rows ≡ true → (a : A) × (find_last k rows ≡ some a)
  find_last-again k [] h = absurd cc
  find_last-again k ((t, a) ∷ rows) h = elim (Bool-cases (any (is_at k) rows)) [
    | inl later ↦ let (b, e) = find_last-again k rows later in (b, rw e refl)
    | inr none_later ↦ (a, ground (arith, find_last-any k rows none_later))
  ]

  pub find-keep_last : (k : ℕ) (rows : Frame A) → find k (keep_last rows) ≡ find_last k rows
  find-keep_last k [] = refl
  find-keep_last k ((t, a) ∷ rows) = elim (Bool-cases (any (is_at t) rows)) [
    | inl again ↦
        let (b, later) = find_last-again t rows again in ground (arith, find-keep_last k rows)
    | inr once ↦ ground (arith, find-keep_last k rows, find_last-any t rows once)
  ]

  pub find_last-append :
      (k : ℕ) (xs ys : Frame A)
      → find_last k (xs ++ ys) ≡ elim (find_last k ys) [ some a ↦ some a | none ↦ find_last k xs ]
  find_last-append k [] ys = elim (Option-cases (find_last k ys)) [
    | inl e ↦ rw e refl
    | inr (b, e) ↦ rw e refl
  ]
  find_last-append k ((t, a) ∷ xs) ys = elim (Option-cases (find_last k ys)) [
    | inl e ↦ ground (arith, find_last-append k xs ys)
    | inr (b, e) ↦ ground (arith, find_last-append k xs ys)
  ]

  -- below its first instant a rising frame has no row
  pub Rising-find-none : (lo k : ℕ) (rows : Frame A) → Rising lo rows → k < lo → find k rows ≡ none
  Rising-find-none lo k [] r h = refl
  Rising-find-none lo k ((t, a) ∷ rows) (l, r) h = ground (arith, Rising-find-none (suc t) k rows r)

  Rising-find_last-none :
      (lo k : ℕ) (rows : Frame A) → Rising lo rows → k < lo → find_last k rows ≡ none
  Rising-find_last-none lo k [] r h = refl
  Rising-find_last-none lo k ((t, a) ∷ rows) (l, r) h =
      ground (arith, Rising-find_last-none (suc t) k rows r)

  pub Rising-find_last :
      (lo k : ℕ) (rows : Frame A) → Rising lo rows → find_last k rows ≡ find k rows
  Rising-find_last lo k [] r = refl
  Rising-find_last lo k ((t, a) ∷ rows) (l, r) =
      ground (arith, Rising-find_last (suc t) k rows r, Rising-find_last-none (suc t) k rows r)

  -- a sorted frame without duplicates rises
  pub Unique-Rising : (lo : ℕ) (rows : Frame A) → Ascending lo rows → Unique rows → Rising lo rows
  Unique-Rising lo [] asc u = tt
  Unique-Rising lo ((t, a) ∷ []) (l, asc) u = (l, tt)
  Unique-Rising lo ((t, a) ∷ (w, b) ∷ rows) (l, (m, asc)) u =
      let rest = Unique-Rising t ((w, b) ∷ rows) (m, asc) (λ k. ground (arith, u k)) in
      (l, (ground (arith, u t), rest.1))

  -- rising frames with the same row at every instant are equal
  pub Rising-ext :
      (lo : ℕ) (xs ys : Frame A)
      → Rising lo xs
      → Rising lo ys
      → ((k : ℕ) → find k xs ≡ find k ys)
      → xs ≡ ys
  Rising-ext lo [] [] r s same = refl
  Rising-ext lo [] ((w, b) ∷ ys) r s same = absurd (ground (arith, same w))
  Rising-ext lo ((t, a) ∷ xs) [] r s same = absurd (ground (arith, same t))
  Rising-ext lo ((t, a) ∷ xs) ((w, b) ∷ ys) (l, r) (m, s) same =
      let here : t ≡ w =
        ground (
          arith,
          same t,
          same w,
          Rising-find-none (suc t) w xs r,
          Rising-find-none (suc w) t ys s,
        ) in
      let value : a ≡ b = ground (arith, same t) in
      ground (
        arith,
        Rising-ext (suc t) xs ys r (subst (λ (n : ℕ). Rising (suc n) ys) (sym here) s) (λ k.
            ground
              (arith, same k, Rising-find-none (suc t) k xs r, Rising-find-none (suc w) k ys s)),
      )

  Rising-weaken : (lo mid : ℕ) (rows : Frame A) → lo ≤ mid → Rising mid rows → Rising lo rows
  Rising-weaken lo mid [] l r = tt
  Rising-weaken lo mid ((t, a) ∷ rows) l (m, r) = (omega (arith, l, m), r)

  -- the rows of a rising frame that pass a test rise
  pub Rising-select :
      (p : ℕ × A → Bool) (lo : ℕ) (rows : Frame A) → Rising lo rows → Rising lo (select p rows)
  Rising-select p lo [] r = tt
  Rising-select p lo ((t, a) ∷ rows) (l, r) = elim (Bool-cases (p (t, a))) [
    | inl e ↦ rw e (l, Rising-select p (suc t) rows r)
    | inr e ↦ rw e (Rising-weaken lo (suc t) _ (omega (arith, l)) (Rising-select p (suc t) rows r))
  ]

  Rising-count_none :
      (lo k : ℕ) (rows : Frame A) → Rising lo rows → k < lo → count (is_at k) rows ≡ 0
  Rising-count_none lo k [] r h = refl
  Rising-count_none lo k ((t, a) ∷ rows) (l, r) h =
      ground (arith, Rising-count_none (suc t) k rows r)

  pub Rising-Unique : (lo : ℕ) (rows : Frame A) → Rising lo rows → Unique rows
  Rising-Unique lo [] r k = omega arith
  Rising-Unique lo ((t, a) ∷ rows) (l, r) k =
      ground (arith, Rising-Unique (suc t) rows r k, Rising-count_none (suc t) k rows r)

  -- a test of the instants leaves the row at each instant that passes
  pub find-select :
      (p : ℕ → Bool) (k : ℕ) (rows : Frame A)
      → find k (select (λ r. p r.0) rows) ≡ (if p k then find k rows else none)
  find-select p k [] = ground arith
  find-select p k ((t, a) ∷ rows) = elim (Bool-cases (t == k)) [
    | inl e ↦
        subst
          (λ n.
            find n (select (λ r. p r.0) ((t, a) ∷ rows))
            ≡ (if p n then find n ((t, a) ∷ rows) else none))
          ((==_iff t k).0 e) (ground (arith, find-select p t rows))
    | inr e ↦ ground (arith, find-select p k rows)
  ]

  Ascending-weaken :
      (lo mid : ℕ) (rows : Frame A) → lo ≤ mid → Ascending mid rows → Ascending lo rows
  Ascending-weaken lo mid [] l asc = tt
  Ascending-weaken lo mid ((t, a) ∷ rows) l (m, asc) = (omega (arith, l, m), asc)

  pub Ascending-keep_last :
      (lo : ℕ) (rows : Frame A) → Ascending lo rows → Ascending lo (keep_last rows)
  Ascending-keep_last lo [] asc = tt
  Ascending-keep_last lo ((t, a) ∷ rows) (l, asc) =
      let rest = Ascending-keep_last t rows asc in
      elim (Bool-cases (any (is_at t) rows)) [
        | inl e ↦ rw e (Ascending-weaken lo t _ l rest)
        | inr e ↦ rw e (l, rest)
      ]
