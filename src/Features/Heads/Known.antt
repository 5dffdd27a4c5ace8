-- ===== src/Features/Heads/Known.antt =====
-- What the blocks compute of the bars up to an instant.
use aura_x.Prelude.{
  ℕ, zero, suc, is_empty, ◌≡◌, ◌≤◌, refl, sym, ap, ◌∙◌, leb, Bool, true, false, not, List, [], ◌∷◌,
  ◌++◌, map, All, String, select, count, take, Result, ok, Error, raise_if, ◌>>=◌, ◌>>◌, >>=-eq-ok,
  Float, arith, Bool-cases, inl, inr,
}
use aura_x.Data.Frame.{Frame, find, is_at}
use aura_x.Data.Frame.Laws.{Unique, find-select}
use aura_x.Features.Series.{Series, or_nan}
use aura_x.Features.Base.{Bars, Features, missing, index_of, is_ascending, ensure_ohlcv}
use aura_x.Features.Volatility.{volatility_compute, volatility_features}
use aura_x.Features.TrendMemory.{trend_memory_compute, trend_memory_features}
use aura_x.Features.Sessions.{session_compute, session_features}
use aura_x.Features.CrossPair.{
  CrossPairBlock, cross_pair_compute, cross_pair_features, pair_features,
}
use aura_x.Features.Pipeline.{
  FeatureBlock, volatility, trend_memory, session, cross_pair, block_compute, compute_each,
}
use aura_x.Features.Trailing.{map-take}
use aura_x.Features.Heads.{map_ok, bind-map_ok, head, cut}
use aura_x.Features.Heads.Volatility.{volatility_features-head}
use aura_x.Features.Heads.Blocks.{
  trend_memory_features-head, session_features-head, pair_features-head,
}
use aura_x.Features.Heads.Masks.{rows_until, select-until, cut-append}

-- the rows of a frame up to an instant
abbrev pub until {ℓ} : {A : Type ℓ} → ℕ → Frame A → Frame A
until now rows = select (λ r. leb r.0 now) rows

is_ascending-take :
    (n lo : ℕ) (index : List ℕ)
    → is_ascending lo index ≡ true
    → is_ascending lo (take n index) ≡ true
is_ascending-take zero lo index h = refl
is_ascending-take (suc n) lo [] h = refl
is_ascending-take (suc n) lo (t ∷ index) h = ground (arith, is_ascending-take n t index)

module _ {ℓ} {F : Type ℓ} where
  -- the bars up to an instant, and a block that knows its partner up to it
  abbrev pub known_bars : ℕ → Bars F → Bars F
  known_bars now bars = record bars { rows = until now bars.rows }

  abbrev pub known_block : ℕ → FeatureBlock F → FeatureBlock F
  known_block now (volatility b) = volatility b
  known_block now (trend_memory b) = trend_memory b
  known_block now (session b) = session b
  known_block now (cross_pair b) =
      cross_pair (record b { partner_close = until now b.partner_close })

  -- a partner has one close at an instant
  abbrev pub HasUniquePartner : FeatureBlock F → Type 0
  HasUniquePartner (volatility b) = Unit
  HasUniquePartner (trend_memory b) = Unit
  HasUniquePartner (session b) = Unit
  HasUniquePartner (cross_pair b) = Unique b.partner_close

  pub ensure_ohlcv-Ascending :
      (bars : Bars F) → ensure_ohlcv false bars ≡ ok tt → is_ascending 0 (index_of bars) ≡ true
  unfolding ensure_ohlcv
  ensure_ohlcv-Ascending bars h =
      let (a, e, h') =
        >>=-eq-ok (raise_if (not (is_empty (missing false bars.names))) Error.value_error) _ h in
      let (b, e', h'') = >>=-eq-ok (raise_if (not bars.is_datetime) Error.value_error) _ h' in
      ground (arith, h'')

  pub ensure_ohlcv-head :
      (n : ℕ) (bars : Bars F)
      → ensure_ohlcv false bars ≡ ok tt
      → ensure_ohlcv false (head n bars) ≡ ok tt
  unfolding ensure_ohlcv
  ensure_ohlcv-head n bars h =
      let ascends = ensure_ohlcv-Ascending bars h in
      let still : is_ascending 0 (index_of (head n bars)) ≡ is_ascending 0 (index_of bars) =
        ap (is_ascending 0) (map-take (λ r. r.0) n bars.rows)
        ∙ is_ascending-take n 0 (index_of bars) ascends
        ∙ sym ascends in
      ap
        (λ (b : Bool).
          raise_if (not (is_empty (missing false bars.names))) Error.value_error
          >> (raise_if (not bars.is_datetime) Error.value_error
              >> raise_if (not b) Error.value_error))
        still
      ∙ h

  -- one row at most at each instant, up to an instant as well
  until-Unique : (now : ℕ) (partner : Frame F) → Unique partner → Unique (until now partner)
  until-Unique now partner u k = omega (arith, u k, count-until_le now k partner)
    where
      count-until_le :
          (now k : ℕ) (rows : Frame F) → count (is_at k) (until now rows) ≤ count (is_at k) rows
      count-until_le now k [] = omega arith
      count-until_le now k ((t, a) ∷ rows) = ground (arith, count-until_le now k rows)

  until-Early :
      (now : ℕ) (rows : Frame (String → F))
      → All (λ t. leb t now ≡ true) (map (λ r. r.0) (until now rows))
  until-Early now [] = tt
  until-Early now ((t, a) ∷ rows) = elim (Bool-cases (leb t now)) [
    | inl e ↦ rw e (e, until-Early now rows)
    | inr e ↦ rw e (until-Early now rows)
  ]

  pub known_bars-head :
      (now : ℕ) (bars : Bars F)
      → ensure_ohlcv false bars ≡ ok tt
      → known_bars now bars ≡ head (rows_until now (index_of bars)) bars
  known_bars-head now bars h =
      ap (λ rows. record bars { rows = rows })
        (select-until now 0 bars.rows (ensure_ohlcv-Ascending bars h))

  -- a block past its check
  checked :
      (g : Bars F → Result (Features F)) (n : ℕ) (bars : Bars F)
      → ensure_ohlcv false bars ≡ ok tt
      → g (head n bars) ≡ map_ok (cut n) (g bars)
      → (ensure_ohlcv false (head n bars) >> g (head n bars))
        ≡ map_ok (cut n) (ensure_ohlcv false bars >> g bars)
  checked g n bars h e =
      ap (λ (r : Result (Unit {0})). r >> g (head n bars)) (ensure_ohlcv-head n bars h)
      ∙ e
      ∙ ap (λ (r : Result (Unit {0})). map_ok (cut n) (r >> g bars)) (sym h)

module _ {ℓ} {F : Type ℓ} ⦃f : Float F⦄ (pd : Series F) where
  -- the closes of a partner at the instants of an index that ends in time
  closes-until :
      (now : ℕ) (partner : Frame F) (index : List ℕ)
      → All (λ t. leb t now ≡ true) index
      → map (λ t. or_nan (find t (until now partner))) index
        ≡ map (λ t. or_nan (find t partner)) index
  closes-until now partner [] early = refl
  closes-until now partner (t ∷ index) (e, early) =
      cc (rw e at (find-select (λ t. leb t now) t partner), closes-until now partner index early)

  -- aligning what is known of the partner gives the first rows of the whole alignment
  reindex-known :
      (now : ℕ) (partner : Frame F) (bars : Bars F)
      → Unique partner
      → ensure_ohlcv false bars ≡ ok tt
      → pd.reindex (until now partner) (index_of (known_bars now bars))
        ≡ map_ok (take (rows_until now (index_of bars))) (pd.reindex partner (index_of bars))
  reindex-known now partner bars u h =
      let n = rows_until now (index_of bars) in
      let close : ℕ → F = λ t. or_nan (find t partner) in
      pd.reindex_unique (until now partner) (index_of (known_bars now bars))
        (until-Unique now partner u)
      ∙ ap ok (
          closes-until now partner (index_of (known_bars now bars)) (until-Early now bars.rows)
          ∙ ap (λ b. map close (index_of b)) (known_bars-head now bars h)
          ∙ ap (map close) (map-take (λ r. r.0) n bars.rows)
          ∙ map-take close n (index_of bars))
      ∙ ap (map_ok (take n)) (sym (pd.reindex_unique partner (index_of bars) u))

  cross_pair_features-known :
      (b : CrossPairBlock F) (now : ℕ) (bars : Bars F)
      → Unique b.partner_close
      → ensure_ohlcv false bars ≡ ok tt
      → cross_pair_compute pd
          (record b { partner_close = until now b.partner_close })
          (known_bars now bars)
        ≡ map_ok (cut (rows_until now (index_of bars))) (cross_pair_compute pd b bars)
  unfolding cross_pair_compute cross_pair_features pair_features
  cross_pair_features-known b now bars u h =
      let n = rows_until now (index_of bars) in
      let known = known_bars now bars in
      let same = known_bars-head now bars h in
      let b' : CrossPairBlock F = record b { partner_close = until now b.partner_close } in
      let features : Bars F → Result (List F) → Result (Features F) =
        λ bars r. r >>= (λ partner. ok (pair_features pd b bars partner)) in
      ap (λ (r : Result (Unit {0})). r >> cross_pair_features pd b' known)
        (ap (ensure_ohlcv false) same ∙ ensure_ohlcv-head n bars h)
      ∙ ap (features known) (reindex-known now b.partner_close bars u h)
      ∙ ap (λ bars'. features bars' (map_ok (take n) (pd.reindex b.partner_close (index_of bars))))
          same
      ∙ bind-map_ok (take n) (cut n) (pd.reindex b.partner_close (index_of bars)) _ _
          (λ partner. ap ok (pair_features-head pd b n bars partner))
      ∙ ap (λ (r : Result (Unit {0})). map_ok (cut n) (r >> cross_pair_features pd b bars)) (sym h)

  -- A block computes, of what is known at an instant, the first rows of what it computes of all.
  block_compute-known :
      (block : FeatureBlock F) (now : ℕ) (bars : Bars F)
      → HasUniquePartner block
      → ensure_ohlcv false bars ≡ ok tt
      → block_compute pd (known_block now block) (known_bars now bars)
        ≡ map_ok (cut (rows_until now (index_of bars))) (block_compute pd block bars)
  unfolding block_compute volatility_compute trend_memory_compute session_compute
  block_compute-known (volatility b) now bars u h =
      let n = rows_until now (index_of bars) in
      ap (volatility_compute pd b) (known_bars-head now bars h)
      ∙ checked (volatility_features pd b) n bars h (volatility_features-head pd b n bars)
  block_compute-known (trend_memory b) now bars u h =
      let n = rows_until now (index_of bars) in
      ap (trend_memory_compute pd b) (known_bars-head now bars h)
      ∙ checked (λ bars. ok (trend_memory_features pd b bars)) n bars h
          (ap ok (trend_memory_features-head pd b n bars))
  block_compute-known (session b) now bars u h =
      let n = rows_until now (index_of bars) in
      ap (session_compute pd b) (known_bars-head now bars h)
      ∙ checked (session_features pd b) n bars h (session_features-head pd b n bars)
  block_compute-known (cross_pair b) now bars u h = cross_pair_features-known b now bars u h

  pub compute_each-known :
      (blocks : List (FeatureBlock F)) (now : ℕ) (bars : Bars F)
      → All HasUniquePartner blocks
      → ensure_ohlcv false bars ≡ ok tt
      → compute_each pd (map (known_block now) blocks) (known_bars now bars)
        ≡ map_ok (cut (rows_until now (index_of bars))) (compute_each pd blocks bars)
  unfolding compute_each
  compute_each-known [] now bars us h = refl
  compute_each-known (block ∷ blocks) now bars (u, us) h =
      let n = rows_until now (index_of bars) in
      let rest = compute_each pd (map (known_block now) blocks) (known_bars now bars) in
      ap (λ (r : Result (Features F)). r >>= (λ frame. rest >>= (λ frames. ok (frame ++ frames))))
        (block_compute-known block now bars u h)
      ∙ bind-map_ok (cut n) (cut n) (block_compute pd block bars) _ _ (λ frame.
        ap (λ (r : Result (Features F)). r >>= (λ frames. ok (cut n frame ++ frames)))
          (compute_each-known blocks now bars us h)
        ∙ bind-map_ok (cut n) (cut n) (compute_each pd blocks bars) _ _
            (λ frames. ap ok (sym (cut-append n frame frames))))
