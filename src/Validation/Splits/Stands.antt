-- ===== src/Validation/Splits/Stands.antt =====
-- Rows at positions, and the positions of rows.
use aura_x.Prelude.{
  ℕ, ◌≡◌, subst, some, List, [], ◌∷◌, get_elem?, All, ok, Error, or_raise, >>=-eq-ok, arith,
}
use aura_x.Validation.Purge.{Label}
use aura_x.Validation.Splits.{position, rows_at, positions}
use aura_x.Validation.Splits.NoLeak.{Rising, position-eq, or_raise-eq}

-- the row stands at a position of a kind
abbrev pub StandsAt : List Label → (ℕ → Type 0) → Label → Type 0
StandsAt t1 P row = (i : ℕ) × P i × (get_elem? t1 i ≡ some row)

pub rows_at-StandsAt :
    (t1 : List Label) (P : ℕ → Type 0) (ps : List ℕ) (rows : List Label)
    → All P ps
    → rows_at t1 ps ≡ ok rows
    → All (StandsAt t1 P) rows
unfolding rows_at
rows_at-StandsAt t1 P [] rows h e = let eq : [] ≡ rows = cc in subst (All (StandsAt t1 P)) eq tt
rows_at-StandsAt t1 P (p ∷ ps) rows (h, hs) e =
    let (row, found, e1) = >>=-eq-ok (or_raise (get_elem? t1 p) Error.index_error) _ e in
    let (rest, placed, e2) = >>=-eq-ok (rows_at t1 ps) _ e1 in
    let eq : row ∷ rest ≡ rows = ground arith in
    subst (All (StandsAt t1 P)) eq
      ((p, h, or_raise-eq _ _ found), rows_at-StandsAt t1 P ps rest hs placed)

pub positions-StandsAt :
    (t1 : List Label) (P : ℕ → Type 0) (Q : Label → Type 0) (rows : List Label) (ps : List ℕ)
    → Rising 0 t1
    → All (λ row. StandsAt t1 P row × Q row) rows
    → positions t1 rows ≡ ok ps
    → All (λ p. P p × ((row : Label) × (get_elem? t1 p ≡ some row) × Q row)) ps
unfolding positions
positions-StandsAt t1 P Q [] ps r h e = let eq : [] ≡ ps = cc in subst (All _) eq tt
positions-StandsAt t1 P Q ((t, u) ∷ rows) ps r (((i, p, at), q), hs) e =
    let (j, found, e1) = >>=-eq-ok (or_raise (position t1 t) Error.key_error) _ e in
    let (rest, placed, e2) = >>=-eq-ok (positions t1 rows) _ e1 in
    let stands = position-eq i t1 (t, u) r at in
    let same : i ≡ j = ground (arith, stands, or_raise-eq _ _ found) in
    let eq : i ∷ rest ≡ ps = ground arith in
    subst (All _) eq ((p, ((t, u), at, q)), positions-StandsAt t1 P Q rows rest r hs placed)
