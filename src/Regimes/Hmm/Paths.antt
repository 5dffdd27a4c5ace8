-- ===== src/Regimes/Hmm/Paths.antt =====
-- What a path through the states scores, and the laws that the best one rests on.
use aura_x.Prelude.{
  ℕ, zero, suc, ◌≡◌, refl, subst, true, false, Option, none, some, List, [], ◌∷◌, map, get_elem?,
  zip_with, is_empty, All, Float, ◌⊕◌, arith, Option-cases, inl, inr,
}
use aura_x.Regimes.Hmm.{Arrays}

-- IEEE 754: a finite value is a number, and adding one to both sides keeps `<=`.
pub record AddsMonotone {ℓ} (F : Type ℓ) ⦃f : Float F⦄ : Type ℓ where
  pub finite_number : (x : F) → f.is_finite x ≡ true → f.le x x ≡ true
  pub add_left :
      (c x y : F) → f.is_finite c ≡ true → f.le x y ≡ true → f.le (f.add c x) (f.add c y) ≡ true
  pub add_right :
      (c x y : F) → f.is_finite c ≡ true → f.le x y ≡ true → f.le (f.add x c) (f.add y c) ≡ true

module _ {ℓ} {F : Type ℓ} ⦃f : Float F⦄ where
  abbrev pub IsNumber : F → Type 0
  IsNumber x = f.le x x ≡ true

  abbrev pub IsFinite : F → Type 0
  IsFinite x = f.is_finite x ≡ true

  -- a row with a state at least, of finite values
  abbrev pub IsFiniteRow : List F → Type 0
  IsFiniteRow row = (is_empty row ≡ false) × All IsFinite row

-- numpy: `argmax` of an array of numbers is a position of its `max`, and no element exceeds it
pub record FindsGreatest {ℓ} {F : Type ℓ} ⦃f : Float F⦄ (np : Arrays F) : Type ℓ where
  pub argmax-amax :
      (xs : List F)
      → is_empty xs ≡ false
      → All IsNumber xs
      → get_elem? xs (np.argmax xs) ≡ some (np.amax xs)
  pub amax_greatest :
      (xs : List F) (i : ℕ) (x : F)
      → All IsNumber xs
      → get_elem? xs i ≡ some x
      → f.le x (np.amax xs) ≡ true

module _ {ℓ} {F : Type ℓ} ⦃f : Float F⦄ where
  -- the log-likelihood of a path from a state with a value on: for each row, the value, the transition
  -- and the emission of the next state; none where a state is not there or the lengths differ
  abbrev pub score_from : List (List F) → F → ℕ → List (List F) → List ℕ → Option F
  score_from cols v s [] [] = some v
  score_from cols v s [] (s' ∷ path) = none
  score_from cols v s (em ∷ log_em) [] = none
  score_from cols v s (em ∷ log_em) (s' ∷ path) = elim (get_elem? cols s') [
    | none ↦ none
    | some col ↦ elim (get_elem? col s) [
      | none ↦ none
      | some w ↦ elim (get_elem? em s') [
        | none ↦ none
        | some e ↦ score_from cols (e ⊕ (v ⊕ w)) s' log_em path
      ]
    ]
  ]

  abbrev pub score : List (List F) → List F → List (List F) → List ℕ → Option F
  score cols start [] path = none
  score cols start (em ∷ log_em) [] = none
  score cols start (em ∷ log_em) (s ∷ path) = elim (get_elem? start s) [
    | none ↦ none
    | some a ↦ elim (get_elem? em s) [
      | none ↦ none
      | some e ↦ score_from cols (a ⊕ e) s log_em path
    ]
  ]

module _ {ℓ κ} {A : Type ℓ} {B : Type κ} where
  pub get_elem?-map :
      (g : A → B) (xs : List A) (i : ℕ) (x : A)
      → get_elem? xs i ≡ some x
      → get_elem? (map g xs) i ≡ some (g x)
  get_elem?-map g [] i x h = absurd cc
  get_elem?-map g (y ∷ xs) zero x h = ground (arith, h)
  get_elem?-map g (y ∷ xs) (suc i) x h = get_elem?-map g xs i x h

  pub map-get_elem? :
      (g : A → B) (xs : List A) (i : ℕ) (z : B)
      → get_elem? (map g xs) i ≡ some z
      → (x : A) × (get_elem? xs i ≡ some x) × (z ≡ g x)
  map-get_elem? g [] i z h = absurd cc
  map-get_elem? g (y ∷ xs) zero z h = (y, refl, ground (arith, h))
  map-get_elem? g (y ∷ xs) (suc i) z h = map-get_elem? g xs i z h

module _ {ℓ} {A : Type ℓ} where
  pub get_elem?-zip_with :
      (g : A → A → A) (xs ys : List A) (i : ℕ) (x y : A)
      → get_elem? xs i ≡ some x
      → get_elem? ys i ≡ some y
      → get_elem? (zip_with g xs ys) i ≡ some (g x y)
  get_elem?-zip_with g [] ys i x y h k = absurd cc
  get_elem?-zip_with g (a ∷ xs) [] i x y h k = absurd cc
  get_elem?-zip_with g (a ∷ xs) (b ∷ ys) zero x y h k = ground (arith, h, k)
  get_elem?-zip_with g (a ∷ xs) (b ∷ ys) (suc i) x y h k = get_elem?-zip_with g xs ys i x y h k

  pub zip_with-get_elem? :
      (g : A → A → A) (xs ys : List A) (i : ℕ) (z : A)
      → get_elem? (zip_with g xs ys) i ≡ some z
      → (x : A) × (y : A) × (get_elem? xs i ≡ some x) × (get_elem? ys i ≡ some y) × (z ≡ g x y)
  zip_with-get_elem? g [] ys i z h = absurd cc
  zip_with-get_elem? g (a ∷ xs) [] i z h = absurd cc
  zip_with-get_elem? g (a ∷ xs) (b ∷ ys) zero z h = (a, b, refl, refl, ground (arith, h))
  zip_with-get_elem? g (a ∷ xs) (b ∷ ys) (suc i) z h = zip_with-get_elem? g xs ys i z h

  pub All-get_elem? {κ} :
      (P : A → Type κ) (xs : List A) (i : ℕ) (x : A) → All P xs → get_elem? xs i ≡ some x → P x
  All-get_elem? P [] i x h e = absurd cc
  All-get_elem? P (y ∷ xs) zero x (p, ps) e = subst P (ground (arith, e)) p
  All-get_elem? P (y ∷ xs) (suc i) x (p, ps) e = All-get_elem? P xs i x ps e

module _ {ℓ} {F : Type ℓ} ⦃f : Float F⦄ where
  pub score_from_step :
      (cols : List (List F)) (v : F) (s s' : ℕ) (em : List F) (log_em : List (List F))
      (path : List ℕ) (col : List F) (w e : F)
      → get_elem? cols s' ≡ some col
      → get_elem? col s ≡ some w
      → get_elem? em s' ≡ some e
      → score_from cols v s (em ∷ log_em) (s' ∷ path) ≡ score_from cols (e ⊕ (v ⊕ w)) s' log_em path
  score_from_step cols v s s' em log_em path col w e h k l = rw (h, k, l, score_from) refl

  -- a path that scores takes transitions and emissions that are there
  pub score_from-some :
      (cols : List (List F)) (v : F) (s s' : ℕ) (em : List F) (log_em : List (List F))
      (path : List ℕ) (u : F)
      → score_from cols v s (em ∷ log_em) (s' ∷ path) ≡ some u
      → (col : List F) × (w : F) × (e : F) × (get_elem? cols s' ≡ some col)
        × (get_elem? col s ≡ some w)
        × (get_elem? em s' ≡ some e)
        × (score_from cols (e ⊕ (v ⊕ w)) s' log_em path ≡ some u)
  score_from-some cols v s s' em log_em path u h = elim (Option-cases (get_elem? cols s')) [
    | inl c ↦ absurd (cc (rw (c, score_from) at h))
    | inr (col, c) ↦ elim (Option-cases (get_elem? col s)) [
      | inl d ↦ absurd (cc (rw (c, d, score_from) at h))
      | inr (w, d) ↦ elim (Option-cases (get_elem? em s')) [
        | inl e ↦ absurd (cc (rw (c, d, e, score_from) at h))
        | inr (x, e) ↦ (col, w, x, c, d, e, rw (c, d, e, score_from) at h)
      ]
    ]
  ]

  pub score_start :
      (cols : List (List F)) (start em : List F) (log_em : List (List F)) (s : ℕ) (path : List ℕ)
      (a e : F)
      → get_elem? start s ≡ some a
      → get_elem? em s ≡ some e
      → score cols start (em ∷ log_em) (s ∷ path) ≡ score_from cols (a ⊕ e) s log_em path
  score_start cols start em log_em s path a e h k = rw (h, k, score) refl

  -- a path that scores starts at a state that is there
  pub score-some :
      (cols : List (List F)) (start em : List F) (log_em : List (List F)) (s : ℕ) (path : List ℕ)
      (u : F)
      → score cols start (em ∷ log_em) (s ∷ path) ≡ some u
      → (a : F) × (e : F) × (get_elem? start s ≡ some a) × (get_elem? em s ≡ some e)
  score-some cols start em log_em s path u h = elim (Option-cases (get_elem? start s)) [
    | inl c ↦ absurd (cc (rw (c, score) at h))
    | inr (a, c) ↦ elim (Option-cases (get_elem? em s)) [
      | inl d ↦ absurd (cc (rw (c, d, score) at h))
      | inr (e, d) ↦ (a, e, c, d)
    ]
  ]
