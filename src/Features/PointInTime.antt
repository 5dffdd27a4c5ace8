-- ===== src/Features/PointInTime.antt =====
-- The point-in-time discipline of src/aurax/l1_features: what is known at an instant gives the same
-- features up to it as the whole history.
use aura_x.Prelude.{
  ℕ, ◌≡◌, refl, sym, ap, ◌∙◌, Bool, true, false, List, [], ◌∷◌, map, All, ok, >>=-eq-ok, Float,
  if◌then◌else◌,
}
use aura_x.Features.Series.{Series}
use aura_x.Features.Base.{Bars, index_of, is_ascending, ensure_ohlcv}
use aura_x.Features.Pipeline.{FeatureBlock, Matrix, drop_warmup, compute_each, some_block, compute}
use aura_x.Features.Trailing.{map-take}
use aura_x.Features.Heads.{map_ok, cut}
use aura_x.Features.Heads.Masks.{rows_until, known_rows, known_rows-take, drop_warmup-known_rows}
use aura_x.Features.Heads.Known.{
  known_bars, known_block, HasUniquePartner, known_bars-head, compute_each-known,
  ensure_ohlcv-Ascending, ensure_ohlcv-head,
}

module _ {ℓ} {F : Type ℓ} where
  some_block-known :
      (blocks : List (FeatureBlock F)) (now : ℕ)
      → some_block (map (known_block now) blocks) ≡ some_block blocks
  some_block-known [] now = refl
  some_block-known (block ∷ blocks) now = refl

module _ {ℓ} {F : Type ℓ} ⦃f : Float F⦄ where
  -- the matrix of the bars up to an instant, with its warm-up or without
  matrix_known :
      (dropna_warmup : Bool) (now : ℕ) (whole m : Matrix F)
      → is_ascending 0 whole.index ≡ true
      → ok (if dropna_warmup then drop_warmup whole else whole) ≡ ok m
      → ok (if dropna_warmup then drop_warmup (known_rows now whole) else known_rows now whole)
        ≡ ok (known_rows now m)
  matrix_known false now whole m asc h = ap (map_ok (known_rows now)) h
  matrix_known true now whole m asc h =
      ap ok (drop_warmup-known_rows now whole asc) ∙ ap (map_ok (known_rows now)) h

module _ {ℓ} {F : Type ℓ} ⦃f : Float F⦄ (pd : Series F) where
  -- Where the features of all bars are computed, those of the bars up to an instant, with a partner
  -- known up to it, are computed as well, and are the rows of the former up to that instant, with
  -- the warm-up dropped or kept. Each partner has one close at most at an instant.
  pub compute_known :
      (blocks : List (FeatureBlock F)) (dropna_warmup : Bool) (bars : Bars F) (now : ℕ)
      (m : Matrix F)
      → All HasUniquePartner blocks
      → compute pd blocks dropna_warmup bars ≡ ok m
      → compute pd (map (known_block now) blocks) dropna_warmup (known_bars now bars)
        ≡ ok (known_rows now m)
  unfolding compute
  compute_known blocks dropna_warmup bars now m us h =
      let n = rows_until now (index_of bars) in
      let (a, ensured, h1) = >>=-eq-ok (ensure_ohlcv false bars) _ h in
      let (columns, each, h2) = >>=-eq-ok (compute_each pd blocks bars) _ h1 in
      let (b, some_one, h3) = >>=-eq-ok (some_block blocks) _ h2 in
      let same = known_bars-head now bars ensured in
      let checks = ap (ensure_ohlcv false) same ∙ ensure_ohlcv-head n bars ensured in
      let columns' : compute_each pd (map (known_block now) blocks) (known_bars now bars)
          ≡ ok (cut n columns) =
        compute_each-known pd blocks now bars us ensured ∙ ap (map_ok (cut n)) each in
      let one : some_block (map (known_block now) blocks) ≡ ok tt =
        some_block-known blocks now ∙ some_one in
      let whole : Matrix F = record { index = index_of bars; columns = columns } in
      let asc = ensure_ohlcv-Ascending bars ensured in
      let upto : List ℕ → Matrix F = λ index. record { index = index; columns = cut n columns } in
      let known : upto (index_of (known_bars now bars)) ≡ known_rows now whole =
        ap (λ b. upto (index_of b)) same
        ∙ ap upto (map-take (λ r. r.0) n bars.rows)
        ∙ sym (known_rows-take now whole asc) in
      rw (checks, columns', one)
        (ap (λ w. ok (if dropna_warmup then drop_warmup w else w)) known
          ∙ matrix_known dropna_warmup now whole m asc h3)
