-- ===== src/Features/Trailing.antt =====
-- The operations of a series on its first `n` rows.
use aura_x.Prelude.{
  ℕ, zero, suc, ◌<◌, ◌≤◌, ◌≡◌, refl, sym, ap, ◌∙◌, subst, ltb, true, none, some, List, [], ◌∷◌, map,
  String, get_elem?, take, zip_with, Float, arith, Bool-cases, Option-cases, inl, inr,
  if◌then◌else◌,
}
use aura_x.Prelude.Tests.{str_eq, str_eq_refl}
use aura_x.Features.Series.{Series, value_at, lagged, last_rows, in_group, group, rank}
use aura_x.Features.Base.{zip_with3}

module _ {ℓ} {A : Type ℓ} where
  pub get_elem?-ext : (xs ys : List A) → ((i : ℕ) → get_elem? xs i ≡ get_elem? ys i) → xs ≡ ys
  get_elem?-ext [] [] h = refl
  get_elem?-ext [] (y ∷ ys) h = absurd (ground (arith, h 0))
  get_elem?-ext (x ∷ xs) [] h = absurd (ground (arith, h 0))
  get_elem?-ext (x ∷ xs) (y ∷ ys) h = ground (arith, h 0, get_elem?-ext xs ys (λ i. h (suc i)))

  pub get_elem?-take :
      (n : ℕ) (xs : List A) (i : ℕ)
      → get_elem? (take n xs) i ≡ (if ltb i n then get_elem? xs i else none)
  get_elem?-take zero xs i = ground arith
  get_elem?-take (suc n) [] i = ground arith
  get_elem?-take (suc n) (x ∷ xs) zero = ground arith
  get_elem?-take (suc n) (x ∷ xs) (suc i) = ground (arith, get_elem?-take n xs i)

  pub take-take : (i n : ℕ) (xs : List A) → i ≤ n → take i (take n xs) ≡ take i xs
  take-take zero n xs h = refl
  take-take (suc i) zero xs h = absurd (omega (arith, h))
  take-take (suc i) (suc n) [] h = refl
  take-take (suc i) (suc n) (x ∷ xs) h = ap (◌∷◌ x) (take-take i n xs (omega (arith, h)))

  pub take_nil : (n : ℕ) → take {A = A} n [] ≡ []
  take_nil zero = refl
  take_nil (suc n) = refl

module _ {ℓ} {A : Type ℓ} where
  -- an operation whose value at a row is read off the rows up to it
  pub trailing_take {κ} :
      {B : Type κ} (op : List A → List B) (g : List A → B)
      → ((xs : List A) (i : ℕ) → get_elem? (op xs) i ≡ value_at g xs i)
      → (n : ℕ) (xs : List A) → op (take n xs) ≡ take n (op xs)
  trailing_take op g law n xs = get_elem?-ext (op (take n xs)) (take n (op xs)) (λ i.
      law (take n xs) i ∙ elim (Bool-cases (ltb i n)) [
        | inl e ↦ ground (
          arith,
          get_elem?-take n xs i,
          get_elem?-take n (op xs) i,
          law xs i,
          take-take (suc i) n xs (ground arith),
        )
        | inr e ↦ ground (arith, get_elem?-take n xs i, get_elem?-take n (op xs) i)
      ])

  pub map-take {κ} :
      {B : Type κ} (g : A → B) (n : ℕ) (xs : List A) → map g (take n xs) ≡ take n (map g xs)
  map-take g zero xs = refl
  map-take g (suc n) [] = refl
  map-take g (suc n) (x ∷ xs) = ap (◌∷◌ (g x)) (map-take g n xs)

  pub zip_with-take :
      (g : A → A → A) (n : ℕ) (xs ys : List A)
      → zip_with g (take n xs) (take n ys) ≡ take n (zip_with g xs ys)
  zip_with-take g zero xs ys = refl
  zip_with-take g (suc n) [] ys = refl
  zip_with-take g (suc n) (x ∷ xs) [] = refl
  zip_with-take g (suc n) (x ∷ xs) (y ∷ ys) = ap (◌∷◌ (g x y)) (zip_with-take g n xs ys)

  pub zip_with3-take :
      (g : A → A → A → A) (n : ℕ) (xs ys zs : List A)
      → zip_with3 g (take n xs) (take n ys) (take n zs) ≡ take n (zip_with3 g xs ys zs)
  zip_with3-take g zero xs ys zs = refl
  zip_with3-take g (suc n) [] ys zs = refl
  zip_with3-take g (suc n) (x ∷ xs) [] zs = refl
  zip_with3-take g (suc n) (x ∷ xs) (y ∷ ys) [] = refl
  zip_with3-take g (suc n) (x ∷ xs) (y ∷ ys) (z ∷ zs) =
      ap (◌∷◌ (g x y z)) (zip_with3-take g n xs ys zs)

  -- the group of a key among the first rows is a beginning of the whole group
  group-take :
      (k : String) (n : ℕ) (keys : List String) (xs : List A)
      → group k (take n keys) (take n xs) ≡ take (rank k (take n keys)) (group k keys xs)
  group-take k zero keys xs = refl
  group-take k (suc n) [] xs = refl
  group-take k (suc n) (j ∷ keys) [] = sym (take_nil (rank k (take (suc n) (j ∷ keys))))
  group-take k (suc n) (j ∷ keys) (x ∷ xs) = ground (arith, group-take k n keys xs)

-- a row of the first `n` has fewer of its own key before it than the first `n` have
rank-lt :
    (n i : ℕ) (keys : List String) (k : String)
    → i < n
    → get_elem? keys i ≡ some k
    → str_eq k k ≡ true
    → rank k (take i keys) < rank k (take n keys)
rank-lt zero i keys k l h e = absurd (omega (arith, l))
rank-lt (suc n) i [] k l h e = absurd cc
rank-lt (suc n) zero (j ∷ keys) k l h e =
    let same : j ≡ k = ground (arith, h) in
    ground (arith, subst (λ m. str_eq k m ≡ true) (sym same) e)
rank-lt (suc n) (suc i) (j ∷ keys) k l h e =
    ground (arith, rank-lt n i keys k (omega (arith, l)) h e)

module _ {ℓ} {F : Type ℓ} ⦃f : Float F⦄ (pd : Series F) where
  pub shift-take : (k n : ℕ) (xs : List F) → pd.shift k (take n xs) ≡ take n (pd.shift k xs)
  shift-take k = trailing_take (pd.shift k) (lagged k) (pd.shift_at k)

  pub diff-take : (k n : ℕ) (xs : List F) → pd.diff k (take n xs) ≡ take n (pd.diff k xs)
  diff-take k =
      trailing_take (pd.diff k) (λ past. f.sub (lagged 0 past) (lagged k past)) (pd.diff_at k)

  pub rolling-take :
      (w : ℕ) (agg : List F → F) (n : ℕ) (xs : List F)
      → pd.rolling w agg (take n xs) ≡ take n (pd.rolling w agg xs)
  rolling-take w agg =
      trailing_take (pd.rolling w agg) (λ past. agg (last_rows w past)) (pd.rolling_at w agg)

  pub ewm_mean-take :
      (alpha : F) (m n : ℕ) (xs : List F)
      → pd.ewm_mean alpha m (take n xs) ≡ take n (pd.ewm_mean alpha m xs)
  ewm_mean-take alpha m =
      trailing_take (pd.ewm_mean alpha m) (pd.ewm_last alpha m) (pd.ewm_mean_at alpha m)

  pub rolling_corr-take :
      (w n : ℕ) (xs ys : List F)
      → pd.rolling_corr w (take n xs) (take n ys) ≡ take n (pd.rolling_corr w xs ys)
  rolling_corr-take w n xs ys =
      get_elem?-ext (pd.rolling_corr w (take n xs) (take n ys)) (take n (pd.rolling_corr w xs ys))
        (λ i. pd.rolling_corr_at w (take n xs) (take n ys) i ∙ elim (Bool-cases (ltb i n)) [
          | inl e ↦
              let within : suc i ≤ n = ground arith in
              ground (
                arith,
                get_elem?-take n xs i,
                get_elem?-take n (pd.rolling_corr w xs ys) i,
                pd.rolling_corr_at w xs ys i,
                take-take (suc i) n xs within,
                take-take (suc i) n ys within,
              )
          | inr e ↦
              ground (arith, get_elem?-take n xs i, get_elem?-take n (pd.rolling_corr w xs ys) i)
        ])

  -- a row of the first `n` has the same place in its group, and the group the same value there
  in_group-take :
      (g : List F → List F)
      → ((n : ℕ) (xs : List F) → g (take n xs) ≡ take n (g xs))
      → (keys : List String) (xs : List F) (n i : ℕ) → i < n
      → in_group g (take n keys) (take n xs) i ≡ in_group g keys xs i
  in_group-take g trailing keys xs n i l = elim (Option-cases (get_elem? keys i)) [
    | inl e ↦ ground (arith, get_elem?-take n keys i)
    | inr (k, e) ↦
        let here : get_elem? (take n keys) i ≡ some k = ground (arith, get_elem?-take n keys i) in
        let c = rank k (take n keys) in
        let below : rank k (take i keys) < c = rank-lt n i keys k l e (str_eq_refl k) in
        let value : g (group k (take n keys) (take n xs)) ≡ take c (g (group k keys xs)) =
          ap g (group-take k n keys xs) ∙ trailing c (group k keys xs) in
        let place : take i (take n keys) ≡ take i keys = take-take i n keys (omega (arith, l)) in
        let found = get_elem?-take c (g (group k keys xs)) (rank k (take i keys)) in
        ground (arith, here, e, place, value, found, below)
  ]

  pub transform-take :
      (g : List F → List F)
      → ((n : ℕ) (xs : List F) → g (take n xs) ≡ take n (g xs))
      → (n : ℕ) (keys : List String) (xs : List F)
      → pd.transform g (take n keys) (take n xs) ≡ take n (pd.transform g keys xs)
  transform-take g trailing n keys xs =
      get_elem?-ext (pd.transform g (take n keys) (take n xs)) (take n (pd.transform g keys xs))
        (λ i. pd.transform_at g (take n keys) (take n xs) i ∙ elim (Bool-cases (ltb i n)) [
          | inl e ↦ ground (
            arith,
            get_elem?-take n xs i,
            get_elem?-take n (pd.transform g keys xs) i,
            pd.transform_at g keys xs i,
            in_group-take g trailing keys xs n i (ground arith),
          )
          | inr e ↦
              ground (arith, get_elem?-take n xs i, get_elem?-take n (pd.transform g keys xs) i)
        ])
