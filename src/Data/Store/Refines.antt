-- ===== src/Data/Store/Refines.antt =====
-- The store as a function from a path and an instant to a row, and each upsert as a change to it.
use mathlib.Core.Path.{fun_ext}
use aura_x.Prelude.{
  ℕ, ◌≤◌, ◌≡◌, refl, sym, ap, ◌∙◌, subst, true, Option, none, some, List, [], ◌∷◌, ◌++◌, length,
  String, ok, arith, if◌then◌else◌, Bool-cases, Option-cases, inl, inr,
}
use aura_x.Prelude.Tests.{str_eq, str_eq_iff}
use aura_x.Prelude.Dict.{lookup, insert, lookup-insert}
use aura_x.Data.Frame.{Frame, find, find_last, Rising, Pandas}
use aura_x.Data.Frame.Laws.{
  Unique, keep_last-Unique, find-keep_last, find_last-append, Unique-Rising, Rising-find_last,
  find-eq-select, first_value,
}
use aura_x.Data.Store.{Files, old_rows, merged, upsert_parquet}

module _ {ℓ} {A : Type ℓ} where
  -- every file rises: its index is sorted and has no duplicates
  abbrev pub IsValid : Files A → Type ℓ
  IsValid files = (path : String) (rows : Frame A) → lookup path files ≡ some rows → Rising 0 rows

  -- the row at an instant of a file
  abbrev pub view : Files A → String → ℕ → Option A
  view files path k = find k (old_rows (lookup path files))

  -- the abstract upsert: where the incoming rows have an instant, their last row there
  abbrev pub update : String → Frame A → (String → ℕ → Option A) → String → ℕ → Option A
  update path df f p k =
      let new : Option A = elim (find_last k df) [ some a ↦ some a | none ↦ f p k ] in
      if str_eq p path then new else f p k

module _ {ℓ} {A : Type ℓ} (pd : Pandas A) where
  pub find-sort_index :
      (k : ℕ) (rows : Frame A) → Unique rows → find k (pd.sort_index rows) ≡ find k rows
  find-sort_index k rows u =
      find-eq-select k (pd.sort_index rows)
      ∙ ap first_value (pd.sort_index-keeps k rows (u k))
      ∙ sym (find-eq-select k rows)

  pub sort_index-Rising : (rows : Frame A) → Unique rows → Rising 0 (pd.sort_index rows)
  sort_index-Rising rows u =
      Unique-Rising 0 (pd.sort_index rows) (pd.sort_index-sorts rows)
        (λ k. subst (λ (n : ℕ). n ≤ 1) (sym (ap length (pd.sort_index-keeps k rows (u k)))) (u k))

  pub merged-Rising : (old : Option (Frame A)) (df : Frame A) → Rising 0 (merged pd old df)
  merged-Rising old df = sort_index-Rising _ (keep_last-Unique (old_rows old ++ df))

  pub find-merged :
      (k : ℕ) (old : Option (Frame A)) (df : Frame A)
      → Rising 0 (old_rows old)
      → find k (merged pd old df)
        ≡ elim (find_last k df) [ some a ↦ some a | none ↦ find k (old_rows old) ]
  find-merged k old df r =
      find-sort_index k _ (keep_last-Unique (old_rows old ++ df))
      ∙ find-keep_last k (old_rows old ++ df)
      ∙ find_last-append k (old_rows old) df
      ∙ ap (λ o. elim (find_last k df) [ some a ↦ some a | none ↦ o ])
          (Rising-find_last 0 k (old_rows old) r)

  pub IsValid-old_rows :
      (files : Files A) (path : String) → IsValid files → Rising 0 (old_rows (lookup path files))
  IsValid-old_rows files path v = elim (Option-cases (lookup path files)) [
    | inl e ↦ rw e tt
    | inr (rows, e) ↦ rw e (v path rows e)
  ]

  IsValid-insert :
      (path : String) (rows : Frame A) (files : Files A)
      → Rising 0 rows
      → IsValid files
      → IsValid (insert path rows files)
  IsValid-insert path rows files r v p found h = elim (Bool-cases (str_eq p path)) [
    | inl e ↦ subst (Rising 0) (ground (arith, lookup-insert p path rows files)) r
    | inr e ↦ v p found (ground (arith, lookup-insert p path rows files))
  ]

  view-insert :
      (path : String) (rows : Frame A) (files : Files A) (p : String) (k : ℕ)
      → view (insert path rows files) p k ≡ (if str_eq p path then find k rows else view files p k)
  view-insert path rows files p k = rw (lookup-insert p path rows files) (ground arith)

  -- An upsert into valid files counts the incoming rows, leaves valid files, and is the abstract
  -- upsert.
  pub upsert_refines :
      (path : String) (df : Frame A) (files : Files A)
      → IsValid files
      → let (n, files') = upsert_parquet pd true path df files in
        (n ≡ ok (length df)) × IsValid files' × (view files' ≡ update path df (view files))
  unfolding upsert_parquet
  upsert_refines path [] files v = (refl, v, fun_ext (λ p. fun_ext (λ k. ground arith)))
  upsert_refines path (r ∷ df) files v =
      let old = lookup path files in
      let rising = IsValid-old_rows files path v in
      (
        refl,
        IsValid-insert path _ files (merged-Rising old (r ∷ df)) v,
        fun_ext (λ p. fun_ext (λ k.
            view-insert path _ files p k ∙ elim (Bool-cases (str_eq p path)) [
              | inl e ↦
                  let here : p ≡ path = (str_eq_iff p path).0 e in
                  let kept : view files p k ≡ find k (old_rows old) =
                    ap (λ q. view files q k) here in
                  rw e (
                    find-merged k old (r ∷ df) rising
                    ∙ ap (λ o. elim (find_last k (r ∷ df)) [ some a ↦ some a | none ↦ o ])
                        (sym kept))
              | inr e ↦ rw e refl
            ])),
      )

-- a call of `upsert_bars`, `upsert_features` or `upsert_labels`, by the path of its store
pub data Upsert {ℓ} (A : Type ℓ) : Type ℓ where
  upsert : String → Frame A → Upsert A

module _ {ℓ} {A : Type ℓ} where
  -- the same calls on a function
  pub replay : List (Upsert A) → (String → ℕ → Option A) → String → ℕ → Option A
  replay [] f = f
  replay (upsert path df ∷ calls) f = replay calls (update path df f)

module _ {ℓ} {A : Type ℓ} (pd : Pandas A) where
  -- the calls in turn, on the files
  unfoldable pub run : List (Upsert A) → Files A → Files A
  run [] files = files
  run (upsert path df ∷ calls) files = run calls (upsert_parquet pd true path df files).1

  -- With a parquet engine there, any sequence of upserts into valid files leaves valid files, each
  -- sorted with one row at an instant, and what the files then hold is the replay of the calls on a
  -- function: the last row that came for a path and an instant.
  pub run_refines :
      (calls : List (Upsert A)) (files : Files A)
      → IsValid files
      → IsValid (run calls files) × (view (run calls files) ≡ replay calls (view files))
  unfolding run replay
  run_refines [] files v = (v, refl)
  run_refines (upsert path df ∷ calls) files v =
      let (n, v', e) = upsert_refines pd path df files v in
      let (w, rest) = run_refines calls _ v' in (w, rest ∙ ap (replay calls) e)
