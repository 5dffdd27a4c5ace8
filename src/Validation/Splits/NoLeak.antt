-- ===== src/Validation/Splits/NoLeak.antt =====
-- No train position of a fold leaks: its label overlaps no test label and no embargo holds it.
use aura_x.Prelude.{
  ℕ, zero, suc, ◌+◌, ◌≤◌, ◌<◌, ◌≡◌, refl, ap, leb, Bool, true, false, not, Option, none, some, List,
  [], ◌∷◌, get_elem?, any, select, All, ok, Error, or_raise, >>=-eq-ok, Bool-cases, Option-cases,
  inl, inr, arith, subst, sym, ◌∙◌,
}
use aura_x.Validation.Purge.{Label, Numpy, purge_train_times, overlaps}
use aura_x.Validation.Purge.Merge.{WellFormed}
use aura_x.Validation.Purge.Exact.{purge_train_times_exact}
use aura_x.Validation.Splits.{
  position_from, position, embargoes, keep_rows, apply_embargo, insert_sorted, sorted, positions,
  rows_at, fold,
}

-- The starts rise strictly: an index without duplicates.
abbrev pub Rising : ℕ → List Label → Type 0
Rising lo [] = Unit
Rising lo ((t, e) ∷ rest) = (lo ≤ t) × Rising (suc t) rest

position_from-none :
    (i lo ts : ℕ) (rows : List Label) → Rising lo rows → ts < lo → position_from i rows ts ≡ none
position_from-none i lo ts [] r h = refl
position_from-none i lo ts ((t, e) ∷ rows) (l, r) h =
    rw (position_from-none (suc i) (suc t) ts rows r (omega arith)) (ground arith)

position_from-eq :
    (i lo k : ℕ) (rows : List Label) (row : Label)
    → Rising lo rows
    → get_elem? rows k ≡ some row
    → position_from i rows row.0 ≡ some (i + k)
position_from-eq i lo k [] row r h = absurd cc
position_from-eq i lo zero ((t, e) ∷ rows) row (l, r) h =
    let later = position_from-none (suc i) (suc t) t rows r (omega arith) in
    let same : (t, e) ≡ row = cc in
    subst (λ (r : Label). position_from i ((t, e) ∷ rows) r.0 ≡ some (i + 0)) same
      (rw later (ground arith))
position_from-eq i lo (suc k) ((t, e) ∷ rows) row (l, r) h =
    rw (position_from-eq (suc i) (suc t) k rows row r h) (ap some (omega arith))

pub position-eq :
    (k : ℕ) (t1 : List Label) (row : Label)
    → Rising 0 t1
    → get_elem? t1 k ≡ some row
    → position t1 row.0 ≡ some k
position-eq k t1 row r h = position_from-eq 0 0 k t1 row r h ∙ ap some (omega arith)

pub All-map :
    {P Q : Label → Type 0} (g : (row : Label) → P row → Q row) (rows : List Label)
    → All P rows
    → All Q rows
All-map g [] h = tt
All-map g (row ∷ rows) (h, hs) = (g row h, All-map g rows hs)

some-inj : {a b : ℕ} → some a ≡ some b → a ≡ b
some-inj h = cc

pub not-true : (b : Bool) → not b ≡ true → b ≡ false
not-true true h = cc
not-true false h = refl

-- the row stands in the Series
abbrev pub Stands : List Label → Label → Type 0
Stands t1 row = (p : ℕ) × (get_elem? t1 p ≡ some row)

pub All-of_elems {κ} :
    (P : Label → Type κ) (rows : List Label)
    → ((k : ℕ) (row : Label) → get_elem? rows k ≡ some row → P row)
    → All P rows
All-of_elems P [] h = tt
All-of_elems P (row ∷ rows) h = (h 0 row refl, All-of_elems P rows (λ k. h (suc k)))

pub All-select {κ} :
    (P : Label → Type κ) (p : Label → Bool) (rows : List Label)
    → All P rows
    → All (λ row. P row × (p row ≡ true)) (select p rows)
All-select P p [] h = tt
All-select P p (row ∷ rows) (h, hs) = elim (Bool-cases (p row)) [
  | inl e ↦ rw e ((h, e), All-select P p rows hs)
  | inr e ↦ rw e (All-select P p rows hs)
]

pub or_raise-eq : {A : Type 0} (o : Option A) (e : Error) {a : A} → or_raise o e ≡ ok a → o ≡ some a
or_raise-eq none e h = cc
or_raise-eq (some b) e h = cc

-- the row keeps its position after the embargo
abbrev Kept : List Label → ℕ → List Label → (Label → Type 0) → Label → Type 0
Kept index k test_t1 P row =
    P row
    × ((p : ℕ) × (position index row.0 ≡ some p) × (any (embargoes index k p) test_t1 ≡ false))

keep_rows-Kept :
    (index test_t1 train kept : List Label) (k : ℕ) (P : Label → Type 0)
    → All P train
    → keep_rows index k test_t1 train ≡ ok kept
    → All (Kept index k test_t1 P) kept
unfolding keep_rows
keep_rows-Kept index test_t1 [] kept k P h e =
    let eq : [] ≡ kept = cc in subst (All (Kept index k test_t1 P)) eq tt
keep_rows-Kept index test_t1 ((t0, t1) ∷ train) kept k P (h, hs) e =
    let (p, found, e1) = >>=-eq-ok (or_raise (position index t0) Error.key_error) _ e in
    let (rest, kept_rest, e2) = >>=-eq-ok (keep_rows index k test_t1 train) _ e1 in
    let later = keep_rows-Kept index test_t1 train rest k P hs kept_rest in
    elim (Bool-cases (any (embargoes index k p) test_t1)) [
      | inl out ↦
          let eq : rest ≡ kept = ground arith in subst (All (Kept index k test_t1 P)) eq later
      | inr free ↦
          let eq : (t0, t1) ∷ rest ≡ kept = ground arith in
          subst (All (Kept index k test_t1 P)) eq ((h, (p, or_raise-eq _ _ found, free)), later)
    ]

All-insert_sorted :
    (P : ℕ → Type 0) (p : ℕ) (ps : List ℕ) → P p → All P ps → All P (insert_sorted p ps)
All-insert_sorted P p [] h hs = (h, tt)
All-insert_sorted P p (q ∷ qs) h (k, ks) = elim (Bool-cases (leb p q)) [
  | inl e ↦ rw e (h, (k, ks))
  | inr e ↦ rw e (k, All-insert_sorted P p qs h ks)
]

pub All-sorted : (P : ℕ → Type 0) (ps : List ℕ) → All P ps → All P (sorted ps)
All-sorted P [] h = tt
All-sorted P (p ∷ ps) (h, hs) = All-insert_sorted P p (sorted ps) h (All-sorted P ps hs)

-- with no embargo, nothing is embargoed
embargoes_none :
    (index : List Label) (p : ℕ) (test_t1 : List Label) → any (embargoes index 0 p) test_t1 ≡ false
embargoes_none index p [] = refl
embargoes_none index p ((t0, t1) ∷ test_t1) = elim (Option-cases (position index t1)) [
  | inl e ↦ rw (e, embargoes) (embargoes_none index p test_t1)
  | inr (q, e) ↦ rw (e, embargoes) (ground (arith, embargoes_none index p test_t1))
]

-- The label at the train position overlaps no test label, and no embargo holds the position.
abbrev pub Clear : List Label → ℕ → List Label → ℕ → Type 0
Clear t1 k test_t1 p =
    (row : Label) × (get_elem? t1 p ≡ some row)
    × (any (overlaps row) test_t1 ≡ false)
    × (any (embargoes t1 k p) test_t1 ≡ false)

-- a row of the Series that overlaps no test label
abbrev Survives : List Label → List Label → Label → Type 0
Survives t1 test_t1 row = Stands t1 row × (not (any (overlaps row) test_t1) ≡ true)

apply_embargo-Kept :
    (t1 test_t1 train kept : List Label) (k : ℕ)
    → Rising 0 t1
    → All (Survives t1 test_t1) train
    → apply_embargo train test_t1 t1 k ≡ ok kept
    → All (Kept t1 k test_t1 (Survives t1 test_t1)) kept
unfolding apply_embargo
apply_embargo-Kept t1 test_t1 train kept zero r h e =
    let eq : train ≡ kept = ground arith in
    subst (All (Kept t1 0 test_t1 (Survives t1 test_t1))) eq (
      All-map
        (λ (row : Label) ((i, at), apart).
          (((i, at), apart), (i, position-eq i t1 row r at, embargoes_none t1 i test_t1)))
        train h)
apply_embargo-Kept t1 test_t1 train kept (suc k) r h e =
    keep_rows-Kept t1 test_t1 train kept (suc k) (Survives t1 test_t1) h e

positions-Clear :
    (t1 test_t1 rows : List Label) (ps : List ℕ) (k : ℕ)
    → Rising 0 t1
    → All (Kept t1 k test_t1 (Survives t1 test_t1)) rows
    → positions t1 rows ≡ ok ps
    → All (Clear t1 k test_t1) ps
unfolding positions
positions-Clear t1 test_t1 [] ps k r h e =
    let eq : [] ≡ ps = cc in subst (All (Clear t1 k test_t1)) eq tt
positions-Clear t1 test_t1 ((t, u) ∷ rows) ps k r ((((i, at), apart), (p, same, free)), hs) e =
    let (q, found, e1) = >>=-eq-ok (or_raise (position t1 t) Error.key_error) _ e in
    let (rest, placed, e2) = >>=-eq-ok (positions t1 rows) _ e1 in
    let later = positions-Clear t1 test_t1 rows rest k r hs placed in
    let stands = position-eq i t1 (t, u) r at in
    let eq : q ∷ rest ≡ ps = ground arith in
    let same_position : p ≡ q = some-inj (sym same ∙ or_raise-eq _ _ found) in
    let same_row : i ≡ q = some-inj (sym stands ∙ or_raise-eq _ _ found) in
    let at_position : get_elem? t1 q ≡ some (t, u) =
      subst (λ j. get_elem? t1 j ≡ some (t, u)) same_row at in
    let free_position = subst (λ j. any (embargoes t1 k j) test_t1 ≡ false) same_position free in
    subst (All (Clear t1 k test_t1)) eq
      (((t, u), at_position, not-true _ apart, free_position), later)

All-get_elem? :
    (P : Label → Type 0) (t1 : List Label) (k : ℕ) {row : Label}
    → All P t1
    → get_elem? t1 k ≡ some row
    → P row
All-get_elem? P [] k h e = absurd cc
All-get_elem? P (r ∷ t1) zero {row = row} (h, hs) e = let same : r ≡ row = cc in subst P same h
All-get_elem? P (r ∷ t1) (suc k) (h, hs) e = All-get_elem? P t1 k hs e

pub All-rows_at :
    (P : Label → Type 0) (t1 : List Label) (ps : List ℕ) (rows : List Label)
    → All P t1
    → rows_at t1 ps ≡ ok rows
    → All P rows
unfolding rows_at
All-rows_at P t1 [] rows h e = let eq : [] ≡ rows = cc in subst (All P) eq tt
All-rows_at P t1 (p ∷ ps) rows h e =
    let (row, found, e1) = >>=-eq-ok (or_raise (get_elem? t1 p) Error.index_error) _ e in
    let (rest, placed, e2) = >>=-eq-ok (rows_at t1 ps) _ e1 in
    let eq : row ∷ rest ≡ rows = ground arith in
    subst (All P) eq
      (All-get_elem? P t1 p h (or_raise-eq _ _ found), All-rows_at P t1 ps rest h placed)

-- A fold of well-formed labels on an index without duplicates leaks nothing: the label at each of
-- its train positions overlaps no test label, and no embargo holds the position.
pub fold-Clear :
    (np : Numpy) (t1 : List Label) (k : ℕ) (test_pos train test : List ℕ)
    → All WellFormed t1
    → Rising 0 t1
    → fold np t1 k test_pos ≡ ok (train, test)
    → (test_t1 : List Label) × (rows_at t1 test ≡ ok test_t1) × All (Clear t1 k test_t1) train
unfolding fold
fold-Clear np t1 k test_pos train test wf r e =
    let (test_t1, tests, e1) = >>=-eq-ok (rows_at t1 (sorted test_pos)) _ e in
    let (kept, embargoed, e2) =
      >>=-eq-ok (apply_embargo (purge_train_times np t1 test_t1) test_t1 t1 k) _ e1 in
    let (ps, placed, e3) = >>=-eq-ok (positions t1 kept) _ e2 in
    let same_test : sorted test_pos ≡ test = ground arith in
    let same_train : sorted ps ≡ train = ground arith in
    let survivors =
      subst (All (Survives t1 test_t1))
        (sym (
          purge_train_times_exact np t1 test_t1 wf
            (All-rows_at WellFormed t1 (sorted test_pos) test_t1 wf tests)))
        (All-select (Stands t1) (λ row. not (any (overlaps row) test_t1)) t1
          (All-of_elems (Stands t1) t1 (λ i row at. (i, at)))) in
    let clear =
      positions-Clear t1 test_t1 kept ps k r
        (apply_embargo-Kept t1 test_t1 (purge_train_times np t1 test_t1) kept k r survivors
          embargoed)
        placed in
    (
      test_t1,
      subst (λ t. rows_at t1 t ≡ ok test_t1) same_test tests,
      subst (All (Clear t1 k test_t1)) same_train (All-sorted (Clear t1 k test_t1) ps clear),
    )
