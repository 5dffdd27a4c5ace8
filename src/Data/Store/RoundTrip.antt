-- ===== src/Data/Store/RoundTrip.antt =====
-- What a load gives back of what the upserts have put there.
use aura_x.Prelude.{
  ℕ, ◌≡◌, refl, sym, ap, ◌∙◌, Bool, true, false, Option, none, some, [], ◌∷◌, ◌++◌, select, length,
  String, ok, arith, if◌then◌else◌, Bool-cases, Option-cases, inl, inr,
}
use aura_x.Prelude.Tests.{str_eq, str_eq_refl}
use aura_x.Prelude.Dict.{Dict, lookup, insert, lookup-insert_self}
use aura_x.Data.Frame.{Frame, find, find_last, Rising, Pandas}
use aura_x.Data.Frame.Laws.{
  Rising-Unique, Rising-select, Rising-ext, find-select, keep_last-Unique, find-keep_last,
  find_last-append,
}
use aura_x.Data.Store.{Files, in_bounds, old_rows, merged, upsert_parquet, load_parquet}
use aura_x.Data.Store.Refines.{
  IsValid, view, update, find-sort_index, sort_index-Rising, merged-Rising, find-merged,
  upsert_refines,
}

-- the first of two values, the second where there is none
absorb {ℓ} :
    {A : Type ℓ} (o b c : Option A)
    → b ≡ elim o [ some a ↦ some a | none ↦ c ]
    → elim o [ some a ↦ some a | none ↦ b ] ≡ elim o [ some a ↦ some a | none ↦ c ]
absorb none b c e = e
absorb (some a) b c e = refl

insert_again {ℓ} :
    {V : Type ℓ} (k : String) (v : V) (d : Dict V) → insert k v (insert k v d) ≡ insert k v d
insert_again k v [] = rw (str_eq_refl k) refl
insert_again k v ((j, w) ∷ d) = elim (Bool-cases (str_eq k j)) [
  | inl e ↦ ground (arith, e)
  | inr e ↦ ground (arith, e, insert_again k v d)
]

module _ {ℓ} {A : Type ℓ} (pd : Pandas A) where
  -- a load reads the view, within its bounds
  pub load_view :
      (path : String) (start end : Option ℕ) (files : Files A)
      → IsValid files
      → (rows : Frame A) × (load_parquet pd true path start end files ≡ ok rows)
        × Rising 0 rows
        × ((k : ℕ) → find k rows ≡ (if in_bounds start end k then view files path k else none))
  unfolding load_parquet
  load_view path start end files v = elim (Option-cases (lookup path files)) [
    | inl e ↦ ([], rw (e, load_parquet) refl, tt, λ k. rw e (ground arith))
    | inr (rows, e) ↦
        let rising = v path rows e in
        let unique = Rising-Unique 0 rows rising in
        (
          select (λ r. in_bounds start end r.0) (pd.sort_index rows),
          rw (e, load_parquet) refl,
          Rising-select _ 0 _ (sort_index-Rising pd rows unique),
          λ k. rw e (
              find-select (in_bounds start end) k (pd.sort_index rows)
              ∙ ap (λ o. if in_bounds start end k then o else none)
                  (find-sort_index pd k rows unique)),
        )
  ]

  update_here :
      (path : String) (df : Frame A) (f : String → ℕ → Option A) (k : ℕ)
      → update path df f path k ≡ elim (find_last k df) [ some a ↦ some a | none ↦ f path k ]
  update_here path df f k = rw (str_eq_refl path) refl

  -- With a parquet engine there, after an upsert into valid files a load from its path gives a sorted
  -- frame with one row at an instant. Within the bounds the row at an instant is the last incoming
  -- row there, or what the path had there before; outside of them there is none.
  pub load_parquet-upsert_parquet :
      (path : String) (df : Frame A) (start end : Option ℕ) (files : Files A)
      → IsValid files
      → (rows : Frame A) × (load_parquet pd true path start end
            (upsert_parquet pd true path df files).1
          ≡ ok rows)
        × Rising 0 rows
        × ((k : ℕ)
            → find k rows ≡ (
                if in_bounds start end k
                then elim (find_last k df) [ some a ↦ some a | none ↦ view files path k ]
                else none))
  load_parquet-upsert_parquet path df start end files v =
      let (n, v', e) = upsert_refines pd path df files v in
      let (rows, loads, rising, reads) = load_view path start end _ v' in
      (
        rows,
        loads,
        rising,
        λ k.
            reads k
            ∙ ap (λ o. if in_bounds start end k then o else none)
                (ap (λ (f : String → ℕ → Option A). f path k) e
                  ∙ update_here path df (view files) k),
      )

  find-merged_any :
      (k : ℕ) (old : Option (Frame A)) (df : Frame A)
      → find k (merged pd old df)
        ≡ elim (find_last k df) [ some a ↦ some a | none ↦ find_last k (old_rows old) ]
  find-merged_any k old df =
      find-sort_index pd k _ (keep_last-Unique (old_rows old ++ df))
      ∙ find-keep_last k (old_rows old ++ df)
      ∙ find_last-append k (old_rows old) df

  merged_again :
      (old : Option (Frame A)) (df : Frame A)
      → merged pd (some (merged pd old df)) df ≡ merged pd old df
  merged_again old df =
      let rising = merged-Rising pd old df in
      Rising-ext 0 _ _ (merged-Rising pd (some (merged pd old df)) df) rising (λ k.
        find-merged pd k (some (merged pd old df)) df rising
        ∙ absorb (find_last k df) _ _ (find-merged_any k old df)
        ∙ sym (find-merged_any k old df))

  -- Repeating an upsert at once, whatever the files hold and whether or not the parquet engine is
  -- there, gives the same result and leaves the files as the first call left them.
  pub upsert_parquet_again :
      (engine : Bool) (path : String) (df : Frame A) (files : Files A)
      → let (n, files') = upsert_parquet pd engine path df files in
        upsert_parquet pd engine path df files' ≡ (n, files')
  unfolding upsert_parquet
  upsert_parquet_again engine path [] files = refl
  upsert_parquet_again false path (r ∷ df) files = refl
  upsert_parquet_again true path (r ∷ df) files =
      let m = merged pd (lookup path files) (r ∷ df) in
      rw (lookup-insert_self path m files) (
        rw (merged_again (lookup path files) (r ∷ df))
          (ap (λ d. (ok (length (r ∷ df)), d)) (insert_again path m files)))
