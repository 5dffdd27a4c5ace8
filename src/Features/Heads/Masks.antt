-- ===== src/Features/Heads/Masks.antt =====
-- The rows up to an instant are the first rows of an ascending index, and masks on first rows.
use aura_x.Prelude.{
  ℕ, suc, zero, ◌≡◌, ◌≤◌, ◌<◌, refl, sym, ap, ◌∙◌, leb, Bool, true, false, ◌||◌, List, [], ◌∷◌,
  ◌++◌, map, take, select, count, Float, arith, Bool-cases, inl, inr,
}
use aura_x.Data.Frame.{Frame}
use aura_x.Features.Series.{notna}
use aura_x.Meta.Gated.{where_set}
use aura_x.Features.Base.{Features, is_ascending}
use aura_x.Features.Pipeline.{Matrix, mask_columns, mask_rows, or_notna, any_notna, drop_warmup}
use aura_x.Features.Heads.{cut}
use aura_x.Features.Trailing.{map-take, take_nil}

-- how many instants are up to one
abbrev pub rows_until : ℕ → List ℕ → ℕ
rows_until now index = count (λ t. leb t now) index

ascending_tail :
    (lo t : ℕ) (index : List ℕ)
    → is_ascending lo (t ∷ index) ≡ true
    → (lo ≤ t) × (is_ascending t index ≡ true)
ascending_tail lo t index asc = (ground arith, ground arith)

count-late :
    (now lo : ℕ) (index : List ℕ)
    → is_ascending lo index ≡ true
    → now < lo
    → rows_until now index ≡ 0
count-late now lo [] asc l = refl
count-late now lo (t ∷ index) asc l = ground (arith, count-late now t index)

where_set-late {ℓ} :
    {A : Type ℓ} (now lo : ℕ) (index : List ℕ) (xs : List A)
    → is_ascending lo index ≡ true
    → now < lo
    → where_set (map (λ t. leb t now) index) xs ≡ []
where_set-late now lo [] xs asc l = refl
where_set-late now lo (t ∷ index) [] asc l = refl
where_set-late now lo (t ∷ index) (x ∷ xs) asc l =
    let (above, rest) = ascending_tail lo t index asc in
    let late : leb t now ≡ false = ground arith in
    rw late (where_set-late now t index xs rest (omega (arith, above, l)))

-- a mask of the rows up to an instant keeps the first ones
pub where_set-until {ℓ} :
    {A : Type ℓ} (now lo : ℕ) (index : List ℕ) (xs : List A)
    → is_ascending lo index ≡ true
    → where_set (map (λ t. leb t now) index) xs ≡ take (rows_until now index) xs
where_set-until now lo [] xs asc = refl
where_set-until now lo (t ∷ index) [] asc = sym (take_nil (rows_until now (t ∷ index)))
where_set-until now lo (t ∷ index) (x ∷ xs) asc =
    let (above, rest) = ascending_tail lo t index asc in
    elim (Bool-cases (leb t now)) [
      | inl e ↦ rw e (ap (◌∷◌ x) (where_set-until now t index xs rest))
      | inr e ↦
          let past : now < t = ground arith in
          rw e (
            where_set-late now t index xs rest past
            ∙ ap (λ k. take k (x ∷ xs)) (sym (count-late now t index rest past)))
    ]

select-late {ℓ} :
    {A : Type ℓ} (now lo : ℕ) (rows : Frame A)
    → is_ascending lo (map (λ r. r.0) rows) ≡ true
    → now < lo
    → select (λ r. leb r.0 now) rows ≡ []
select-late now lo [] asc l = refl
select-late now lo ((t, a) ∷ rows) asc l =
    let (above, rest) = ascending_tail lo t (map (λ r. r.0) rows) asc in
    let late : leb t now ≡ false = ground arith in
    rw late (select-late now t rows rest (omega (arith, above, l)))

-- the rows up to an instant are the first ones
pub select-until {ℓ} :
    {A : Type ℓ} (now lo : ℕ) (rows : Frame A)
    → is_ascending lo (map (λ r. r.0) rows) ≡ true
    → select (λ r. leb r.0 now) rows ≡ take (rows_until now (map (λ r. r.0) rows)) rows
select-until now lo [] asc = refl
select-until now lo ((t, a) ∷ rows) asc =
    let (above, rest) = ascending_tail lo t (map (λ r. r.0) rows) asc in
    elim (Bool-cases (leb t now)) [
      | inl e ↦ rw e (ap (◌∷◌ (t, a)) (select-until now t rows rest))
      | inr e ↦
          let past : now < t = ground arith in
          rw e (
            select-late now t rows rest past
            ∙ ap (λ k. take k ((t, a) ∷ rows))
                (sym (count-late now t (map (λ r. r.0) rows) rest past)))
    ]

where_set_nil {ℓ} : {A : Type ℓ} (mask : List Bool) → where_set {A = A} mask [] ≡ []
where_set_nil [] = refl
where_set_nil (b ∷ mask) = refl

-- a mask of the rows that another mask keeps, and the other way round
where_set_swap {ℓ} :
    {A : Type ℓ} (p : ℕ → Bool) (kept : List Bool) (index : List ℕ) (xs : List A)
    → where_set (map p (where_set kept index)) (where_set kept xs)
      ≡ where_set (where_set (map p index) kept) (where_set (map p index) xs)
where_set_swap p [] index xs =
    sym (ap (λ m. where_set m (where_set (map p index) xs)) (where_set_nil (map p index)))
where_set_swap p (k ∷ kept) [] xs = refl
where_set_swap p (k ∷ kept) (t ∷ index) [] =
    where_set_nil (map p (where_set (k ∷ kept) (t ∷ index)))
    ∙ sym (where_set_nil (where_set (map p (t ∷ index)) (k ∷ kept)))
where_set_swap p (k ∷ kept) (t ∷ index) (x ∷ xs) = ground (arith, where_set_swap p kept index xs)

module _ {ℓ} {F : Type ℓ} where
  pub cut-append :
      (n : ℕ) (frame frames : Features F) → cut n (frame ++ frames) ≡ cut n frame ++ cut n frames
  cut-append n [] frames = refl
  cut-append n ((c, xs) ∷ frame) frames = ap (◌∷◌ (c, take n xs)) (cut-append n frame frames)

  mask_columns-until :
      (now lo : ℕ) (index : List ℕ) (columns : Features F)
      → is_ascending lo index ≡ true
      → mask_columns (map (λ t. leb t now) index) columns ≡ cut (rows_until now index) columns
  mask_columns-until now lo index [] asc = refl
  mask_columns-until now lo index ((c, xs) ∷ columns) asc =
      cc (where_set-until now lo index xs asc, mask_columns-until now lo index columns asc)

  mask_columns_swap :
      (p : ℕ → Bool) (kept : List Bool) (index : List ℕ) (columns : Features F)
      → mask_columns (map p (where_set kept index)) (mask_columns kept columns)
        ≡ mask_columns (where_set (map p index) kept) (mask_columns (map p index) columns)
  mask_columns_swap p kept index [] = refl
  mask_columns_swap p kept index ((c, xs) ∷ columns) =
      cc (where_set_swap p kept index xs, mask_columns_swap p kept index columns)

module _ {ℓ} {F : Type ℓ} ⦃f : Float F⦄ where
  or_notna-take :
      (n : ℕ) (mask : List Bool) (xs : List F)
      → or_notna (take n mask) (take n xs) ≡ take n (or_notna mask xs)
  or_notna-take zero mask xs = refl
  or_notna-take (suc n) [] xs = refl
  or_notna-take (suc n) (b ∷ mask) [] = refl
  or_notna-take (suc n) (b ∷ mask) (x ∷ xs) = ap (◌∷◌ (b || notna x)) (or_notna-take n mask xs)

  any_notna-cut :
      (n : ℕ) (mask : List Bool) (columns : Features F)
      → any_notna (take n mask) (cut n columns) ≡ take n (any_notna mask columns)
  any_notna-cut n mask [] = refl
  any_notna-cut n mask ((c, xs) ∷ columns) =
      ap (λ m. any_notna m (cut n columns)) (or_notna-take n mask xs)
      ∙ any_notna-cut n (or_notna mask xs) columns

  -- the rows of a matrix up to an instant
  abbrev pub known_rows : ℕ → Matrix F → Matrix F
  known_rows now m = mask_rows (map (λ t. leb t now) m.index) m

  pub known_rows-take :
      (now : ℕ) (m : Matrix F)
      → is_ascending 0 m.index ≡ true
      → known_rows now m ≡ record {
        index = take (rows_until now m.index) m.index;
        columns = cut (rows_until now m.index) m.columns;
      }
  known_rows-take now m asc =
      cc (where_set-until now 0 m.index m.index asc, mask_columns-until now 0 m.index m.columns asc)

  -- dropping the warm-up of the rows up to an instant keeps those of the whole matrix
  pub drop_warmup-known_rows :
      (now : ℕ) (m : Matrix F)
      → is_ascending 0 m.index ≡ true
      → drop_warmup (known_rows now m) ≡ known_rows now (drop_warmup m)
  unfolding drop_warmup
  drop_warmup-known_rows now m asc =
      let p : ℕ → Bool = λ t. leb t now in
      let n = rows_until now m.index in
      let empty = map {B = Bool} (λ t. false) m.index in
      let kept = any_notna empty m.columns in
      let same : any_notna (map (λ t. false) (where_set (map p m.index) m.index))
            (mask_columns (map p m.index) m.columns)
          ≡ where_set (map p m.index) kept =
        ap (λ index. any_notna (map (λ t. false) index) (mask_columns (map p m.index) m.columns))
          (where_set-until now 0 m.index m.index asc)
        ∙ ap (λ columns. any_notna (map (λ t. false) (take n m.index)) columns)
            (mask_columns-until now 0 m.index m.columns asc)
        ∙ ap (λ mask. any_notna mask (cut n m.columns)) (map-take (λ t. false) n m.index)
        ∙ any_notna-cut n empty m.columns
        ∙ sym (where_set-until now 0 m.index kept asc) in
      ap (λ mask. mask_rows mask (known_rows now m)) same
      ∙ cc (where_set_swap p kept m.index m.index, mask_columns_swap p kept m.index m.columns)
