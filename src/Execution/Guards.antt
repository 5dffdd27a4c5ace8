-- ===== src/Execution/Guards.antt =====
-- src/aurax/l7_execution/guards.py: the predicates that are checked before every order.
use aura_x.Prelude.{ℕ, ◌*◌, Bool, List, any, leb, Float, ◌⊖◌, Result, ok, ◌>>=◌, divide}
use aura_x.Market.Clock.{Datetime, distance}

module _ {ℓ} {F : Type ℓ} ⦃f : Float F⦄ where
  abbrev pub spread_ok : F → F → Bool
  spread_ok spread_pips max_spread_pips = f.le spread_pips max_spread_pips

  pub slippage_ok : F → F → F → F → Result Bool
  slippage_ok intended_price fill_price pip_size max_slippage_pips = do
    slip_pips ← divide (f.abs (fill_price ⊖ intended_price)) pip_size
    ok (f.le slip_pips max_slippage_pips)

-- `timedelta(minutes=m)`, in microseconds
abbrev pub window : ℕ → ℕ
window blackout_minutes = blackout_minutes * 60_000_000

unfoldable pub in_news_window : Datetime → List Datetime → ℕ → Bool
in_news_window now events blackout_minutes =
    any (λ ev. leb (distance now ev) (window blackout_minutes)) events
