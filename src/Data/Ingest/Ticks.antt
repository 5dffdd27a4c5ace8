-- ===== src/Data/Ingest/Ticks.antt =====
-- The loop over the tick history ends, and its requests cover the range that it is asked for.
use aura_x.Prelude.{
  ℕ, zero, suc, ◌+◌, ◌-◌, ◌*◌, ◌≤◌, ◌<◌, ◌≡◌, refl, ap, ◌∙◌, ltb, Bool, not, ◌&&◌, Option, some,
  List, [], ◌∷◌, min, length, is_empty, concat, String, Result, ok, raise, if◌then◌else◌, arith,
  Bool-cases, inl, inr,
}
use aura_x.Prelude.Tests.{ltb→lt}
use mathlib.Core.Path.{fun_ext}
use aura_x.Data.Frame.{Frame, keep_last, Pandas}
use aura_x.Data.Schema.{Row, ticks_to_frame}
use aura_x.Data.Ingest.{Op, go_on, done, Source, day, keep_frame, tick_loop, ingest_ticks}

-- Windows that tile a range: each begins where the one before it has ended, is not empty and spans
-- a chunk at most, and together they end where the range ends.
abbrev pub Tiles : ℕ → ℕ → ℕ → List (ℕ × ℕ) → Type 0
Tiles chunk start end [] = end ≤ start
Tiles chunk start end ((a, b) ∷ windows) =
    (a ≡ start) × (a < b) × (b ≤ a + chunk) × (b ≤ end) × Tiles chunk b end windows

abbrev pub windows_of : ℕ → ℕ → ℕ → ℕ → List (ℕ × ℕ)
windows_of zero chunk end cursor = []
windows_of (suc fuel) chunk end cursor =
    let chunk_end = min (cursor + chunk) end in
    let rest = windows_of fuel chunk end chunk_end in
    if ltb cursor end then (cursor, chunk_end) ∷ rest else []

next_fuel :
    (fuel chunk end cursor : ℕ)
    → 1 ≤ chunk
    → cursor < end
    → end - cursor < suc fuel
    → end - min (cursor + chunk) end < fuel
next_fuel fuel chunk end cursor c l h = omega (arith, c, l, h)

windows_of-Tiles :
    (fuel chunk end cursor : ℕ)
    → 1 ≤ chunk
    → end - cursor < fuel
    → Tiles chunk cursor end (windows_of fuel chunk end cursor)
windows_of-Tiles zero chunk end cursor c h = absurd (omega (arith, h))
windows_of-Tiles (suc fuel) chunk end cursor c h = elim (Bool-cases (ltb cursor end)) [
  | inl e ↦ rw e (
    refl,
    ground arith,
    ground arith,
    ground arith,
    windows_of-Tiles fuel chunk end (min (cursor + chunk) end) c
        (next_fuel fuel chunk end cursor c (ltb→lt cursor end e) h),
  )
  | inr e ↦ rw e (ground arith)
]

module _ {ℓ κ} {S : Type ℓ} {A : Type κ} where
  -- the call returns or raises, from every state
  abbrev pub Returns : Op S A → Type (ℓ ⊔ κ)
  Returns m = (s : S) → (r : Result A × S) × (m s ≡ some r)

go_on-Returns {ℓ κ μ} :
    {S : Type ℓ} {A : Type κ} {B : Type μ} (next : A → Op S B) (o : Option (Result A × S))
    → (r : Result A × S) × (o ≡ some r)
    → ((a : A) → Returns (next a))
    → (r : Result B × S) × (go_on next o ≡ some r)
go_on-Returns next o ((raise e, s), h) n = ((raise e, s), rw h refl)
go_on-Returns next o ((ok a, s), h) n = let (r, e) = n a s in (r, rw h e)

module _ {ℓ κ} {S : Type ℓ} {V : Type κ} (pd : Pandas (Row V)) (source : Source S V) where
  -- the requests of a list of windows, one after the other
  abbrev pub fetch_all :
      String → List (ℕ × ℕ) → List (Frame (Row V)) → ℕ → Op S (List (Frame (Row V)) × ℕ)
  fetch_all symbol [] frames total s = done (frames, total) s
  fetch_all symbol ((a, b) ∷ windows) frames total s =
      go_on
        (λ raw.
          let df = ticks_to_frame pd source.minus raw in
          fetch_all symbol windows (keep_frame pd source df frames) (total + length df))
        (source.copy_ticks symbol a b s)

  tick_loop-fetch_all :
      (fuel chunk : ℕ) (symbol : String) (end cursor : ℕ) (frames : List (Frame (Row V)))
      (total : ℕ) (s : S)
      → 1 ≤ chunk
      → end - cursor < fuel
      → tick_loop pd source fuel chunk symbol end cursor frames total s
        ≡ fetch_all symbol (windows_of fuel chunk end cursor) frames total s
  unfolding tick_loop
  tick_loop-fetch_all zero chunk symbol end cursor frames total s c h = absurd (omega (arith, h))
  tick_loop-fetch_all (suc fuel) chunk symbol end cursor frames total s c h =
      elim (Bool-cases (ltb cursor end)) [
        | inr e ↦ rw e refl
        | inl e ↦ rw e (
            ap (λ next. go_on next (source.copy_ticks symbol cursor (min (cursor + chunk) end) s))
              (fun_ext (λ raw. fun_ext (λ s1.
                tick_loop-fetch_all fuel chunk symbol end (min (cursor + chunk) end) _ _ s1 c
                  (next_fuel fuel chunk end cursor c (ltb→lt cursor end e) h)))))
      ]

  -- With a chunk that is not zero and fuel for more than the milliseconds of the range, the loop of
  -- `ingest_ticks` does not run out of fuel of its own: it makes the requests of a list of windows
  -- in turn and collects their answers. The windows tile the range: none is empty or longer than a
  -- chunk, each begins where the one before it ended, and together they run from its start to its
  -- end.
  tick_loop-Tiles :
      (fuel chunk : ℕ) (symbol : String) (start end : ℕ) (s : S)
      → 1 ≤ chunk
      → end - start < fuel
      → (windows : List (ℕ × ℕ)) × Tiles chunk start end windows
        × (tick_loop pd source fuel chunk symbol end start [] 0 s ≡ fetch_all symbol windows [] 0 s)
  tick_loop-Tiles fuel chunk symbol start end s c h = (
    windows_of fuel chunk end start,
    windows_of-Tiles fuel chunk end start c h,
    tick_loop-fetch_all fuel chunk symbol end start [] 0 s c h,
  )

  fetch_all-Returns :
      (symbol : String) (windows : List (ℕ × ℕ)) (frames : List (Frame (Row V))) (total : ℕ)
      → ((a b : ℕ) → Returns (source.copy_ticks symbol a b))
      → Returns (fetch_all symbol windows frames total)
  fetch_all-Returns symbol [] frames total answers s = ((ok (frames, total), s), refl)
  fetch_all-Returns symbol ((a, b) ∷ windows) frames total answers s =
      go_on-Returns _ _ (answers a b s) (λ raw. fetch_all-Returns symbol windows _ _ answers)

  -- what follows the requests: the frames are written, each instant once, and the rows are counted
  abbrev pub store_ticks : String → Bool → List (Frame (Row V)) × ℕ → Op S ℕ
  store_ticks symbol store (frames, total) s =
      if store && not (is_empty frames)
      then go_on (λ n. done total) (source.append_ticks symbol (keep_last (concat frames)) s)
      else done total s

  -- From every state, given a chunk of one day or more, fuel for more than the milliseconds of the
  -- range, and that the client's requests and the write to the tick table return or raise:
  -- `ingest_ticks` returns or raises. It makes the requests of a list of windows, in turn and no
  -- others, and then stores what they bring, if it is told to and there is any. The windows tile the
  -- range: none is empty or longer than the days of a chunk, and each begins where the one before it
  -- ended, from the start of the range to its end.
  pub ingest_ticks-Tiles :
      (fuel days : ℕ) (symbol : String) (start end : ℕ) (store : Bool) (s : S)
      → 1 ≤ days
      → end - start < fuel
      → ((a b : ℕ) → Returns (source.copy_ticks symbol a b))
      → ((df : Frame (Row V)) → Returns (source.append_ticks symbol df))
      → (windows : List (ℕ × ℕ)) × Tiles (days * 86_400_000) start end windows
        × (ingest_ticks pd source fuel days symbol start end store s
            ≡ go_on (store_ticks symbol store) (fetch_all symbol windows [] 0 s))
        × (r : Result ℕ × S) × (ingest_ticks pd source fuel days symbol start end store s ≡ some r)
  unfolding ingest_ticks
  ingest_ticks-Tiles fuel days symbol start end store s d h answers writes =
      let (windows, tiles, e) =
        tick_loop-Tiles fuel (days * day) symbol start end s (omega (arith, d)) h in
      let (r, f) = fetch_all-Returns symbol windows [] 0 answers s in
      let (r2, e2) =
        go_on-Returns _ _ (r, e ∙ f)
          (λ (frames, total) s1. elim (Bool-cases (store && not (is_empty frames))) [
            | inl stores ↦
                rw stores (go_on-Returns _ _ (writes _ s1) (λ n s2. ((ok total, s2), refl)))
            | inr drops ↦ rw drops ((ok total, s1), refl)
          ]) in
      (windows, tiles, ap (go_on (store_ticks symbol store)) e, r2, e2)
