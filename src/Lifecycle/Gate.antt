-- ===== src/Lifecycle/Gate.antt =====
-- The Go/No-Go decision that ends `run_validation` of src/aurax/validation/harness.py. The metrics
-- that come before it are given.
use Prim.Native.String.{◌++◌}
use aura_x.Prelude.{
  is_empty, Bool, true, false, ◌&&◌, ◌≡◌, refl, List, [], ◌∷◌, ◌++◌ as append, String, Float,
  nought, if◌then◌else◌, arith, ◌↔◌,
}
use aura_x.Prelude.Dict.{Dict}

-- What the validation measures.
pub record Metrics {ℓ} (F : Type ℓ) : Type ℓ where
  pub cpcv_sharpe_mean : F
  pub walk_forward_sharpe : F
  pub holdout_sharpe : F
  pub baselines : Dict F
  pub deflated_sharpe : F

pub record ValidationReport {ℓ} (F : Type ℓ) : Type ℓ where
  pub metrics : Metrics F
  pub best_baseline : F
  pub passed : Bool
  pub reasons : List String

-- a reason, unless the test passes
abbrev pub unless : Bool → String → List String → List String
unless passes reason reasons = if passes then reasons else append reasons (reason ∷ [])

is_empty-append : (rs : List String) (r : String) → is_empty (append rs (r ∷ [])) ≡ false
is_empty-append [] r = refl
is_empty-append (x ∷ rs) r = refl

unless-is_empty :
    (passes : Bool) (r : String) (rs : List String)
    → is_empty (unless passes r rs) ≡ passes && is_empty rs
unless-is_empty true r rs = refl
unless-is_empty false r rs = is_empty-append rs r

module _ {ℓ} {F : Type ℓ} ⦃f : Float F⦄ where
  -- Python's `max` of a non-empty sequence
  abbrev pub maximum : F → Dict F → F
  maximum best [] = best
  maximum best ((name, x) ∷ rest) = maximum (if f.lt best x then x else best) rest

  abbrev pub best_of : Dict F → F
  best_of [] = nought
  best_of ((name, x) ∷ rest) = maximum x rest

  -- positive and above the baseline
  abbrev pub beats : F → F → Bool
  beats baseline x = f.lt nought x && f.lt baseline x

  abbrev pub fails_to_beat : (String → F → String) → String → F → F → String
  fails_to_beat format name x best =
      name
      ++ (" Sharpe "
          ++ (format "+.3f" x ++ (" fails to beat best baseline " ++ format "+.3f" best)))

  unfoldable pub go_no_go : (String → F → String) → F → Metrics F → ValidationReport F
  go_no_go format deflated_sharpe_min m =
      let best = best_of m.baselines in
      let r1 =
        unless (beats best m.cpcv_sharpe_mean) (fails_to_beat format "CPCV" m.cpcv_sharpe_mean best)
          [] in
      let r2 =
        unless (f.lt nought m.walk_forward_sharpe)
          ("walk-forward Sharpe " ++ (format "+.3f" m.walk_forward_sharpe ++ " not positive")) r1 in
      let r3 =
        unless (beats best m.holdout_sharpe) (fails_to_beat format "holdout" m.holdout_sharpe best)
          r2 in
      let r4 =
        unless (f.le deflated_sharpe_min m.deflated_sharpe)
          ("deflated Sharpe "
            ++ (format ".3f" m.deflated_sharpe ++ (" < " ++ format ".2f" deflated_sharpe_min)))
          r3 in
      record { metrics = m; best_baseline = best; passed = is_empty r4; reasons = r4 }

  -- The four criteria.
  abbrev pub Clears : F → Metrics F → Type 0
  Clears deflated_sharpe_min m =
      let best = best_of m.baselines in
      (beats best m.cpcv_sharpe_mean ≡ true)
      × (f.lt nought m.walk_forward_sharpe ≡ true)
      × (beats best m.holdout_sharpe ≡ true)
      × (f.le deflated_sharpe_min m.deflated_sharpe ≡ true)

  -- The report passes exactly when the four criteria hold.
  pub go_no_go_iff :
      (format : String → F → String) (deflated_sharpe_min : F) (m : Metrics F)
      → (go_no_go format deflated_sharpe_min m).passed ≡ true ↔ Clears deflated_sharpe_min m
  unfolding go_no_go
  go_no_go_iff format deflated_sharpe_min m = ground arith
