-- ===== src/Data/Frame.antt =====
-- A pandas frame indexed by time, as src/aurax/l0_data uses it: the list of its rows, each with the
-- instant of its index, in UTC.
pub mod Laws
use aura_x.Prelude.{
  ℕ, suc, ◌≤◌, ◌<◌, ◌≡◌, ◌==◌, Bool, true, not, Option, none, some, List, [], ◌∷◌, any, count,
  select, if◌then◌else◌,
}

abbrev pub Frame {ℓ} : Type ℓ → Type ℓ
Frame A = List (ℕ × A)

module _ {ℓ} {A : Type ℓ} where
  -- the row stands at the instant
  abbrev pub is_at : ℕ → ℕ × A → Bool
  is_at k (t, a) = t == k

  -- `df[~df.index.duplicated(keep="last")]`
  abbrev pub keep_last : Frame A → Frame A
  keep_last [] = []
  keep_last (r ∷ rows) =
      let rest = keep_last rows in if any (is_at r.0) rows then rest else r ∷ rest

  -- the first row at an instant
  abbrev pub find : ℕ → Frame A → Option A
  find k [] = none
  find k ((t, a) ∷ rows) = if t == k then some a else find k rows

  -- the last row at an instant
  abbrev pub find_last : ℕ → Frame A → Option A
  find_last k [] = none
  find_last k ((t, a) ∷ rows) =
      let here : Option A = if t == k then some a else none in
      elim (find_last k rows) [ some b ↦ some b | none ↦ here ]

  -- the index ascends, with equal instants or without
  abbrev pub Ascending : ℕ → Frame A → Type 0
  Ascending lo [] = Unit
  Ascending lo ((t, a) ∷ rows) = (lo ≤ t) × Ascending t rows

  abbrev pub Rising : ℕ → Frame A → Type 0
  Rising lo [] = Unit
  Rising lo ((t, a) ∷ rows) = (lo ≤ t) × Rising (suc t) rows

-- pandas: `sort_index` orders the rows by their index. Of an instant that has one row it keeps that
-- row and no other.
pub record Pandas {ℓ} (A : Type ℓ) : Type ℓ where
  pub sort_index : Frame A → Frame A
  pub sort_index-sorts : (rows : Frame A) → Ascending 0 (sort_index rows)
  pub sort_index-keeps :
      (k : ℕ) (rows : Frame A)
      → count (is_at k) rows ≤ 1
      → select (is_at k) (sort_index rows) ≡ select (is_at k) rows
