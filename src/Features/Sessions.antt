-- ===== src/Features/Sessions.antt =====
-- src/aurax/l1_features/session.py. The index is in UTC.
use Prim.Native.String.{◌++◌}
use aura_x.Prelude.{
  ℕ, ◌/◌, ◌%◌, max, ltb, leb, Bool, false, ◌&&◌, Option, none, some, List, [], ◌∷◌, map, String,
  Result, ok, Error, or_raise, ◌>>=◌, ◌>>◌, zip_with, Float, nought, unit, if◌then◌else◌,
}
use aura_x.Prelude.Tests.{str_eq}
use aura_x.Prelude.Dict.{insert}
use aura_x.Market.{Session}
use aura_x.Features.Series.{Series, observed}
use aura_x.Features.Base.{
  Bars, Features, index_of, column, ensure_ohlcv, prefixed, log_returns, without_zeros,
}

-- `Session.value`
abbrev pub session_value : Session → String
session_value Session.asian = "asian"
session_value Session.london = "london"
session_value Session.ny = "ny"
session_value Session.off = "off"

abbrev pub Windows : Type 0
Windows = List (Session × (ℕ × ℕ))

abbrev pub default_windows : Windows
default_windows = (Session.asian, (0, 8)) ∷ (Session.london, (7, 16)) ∷ (Session.ny, (12, 21)) ∷ []

-- `windows or DEFAULT_WINDOWS`
abbrev pub or_default : Windows → Windows
or_default [] = default_windows
or_default (w ∷ windows) = w ∷ windows

-- `index.hour`, of an instant in milliseconds
abbrev pub hour : ℕ → ℕ
hour t = t / 3_600_000 % 24

abbrev pub in_window : ℕ → ℕ → ℕ → Bool
in_window start end t = leb start (hour t) && ltb (hour t) end

-- `windows[sess]`
abbrev pub window_of : Session → Windows → Option (ℕ × ℕ)
window_of sess [] = none
window_of sess ((s, w) ∷ windows) =
    if str_eq (session_value sess) (session_value s) then some w else window_of sess windows

-- the session of an instant, `asian`, `london` and `ny` in the order of the loop
abbrev pub session_at : (ℕ × ℕ) → (ℕ × ℕ) → (ℕ × ℕ) → ℕ → String
session_at (a0, a1) (l0, l1) (n0, n1) t =
    if in_window n0 n1 t
    then "ny"
    else if in_window l0 l1 t
    then "london"
    else if in_window a0 a1 t
    then "asian"
    else "off"

unfoldable pub primary_session : Windows → List ℕ → Result (List String)
primary_session windows index =
    let given = or_default windows in
    or_raise (window_of Session.asian given) Error.key_error >>= (λ a.
      or_raise (window_of Session.london given) Error.key_error >>= (λ l.
        or_raise (window_of Session.ny given) Error.key_error
        >>= (λ n. ok (map (session_at a l n) index))))

pub record SessionBlock : Type 0 where
  pub windows : Windows
  pub session_relative_vol_window : ℕ

module _ {ℓ} {F : Type ℓ} ⦃f : Float F⦄ where
  abbrev pub dummies : Windows → List ℕ → Features F → Features F
  dummies [] index cols = cols
  dummies ((sess, (start, end)) ∷ windows) index cols = dummies windows index (
      insert ("is_" ++ session_value sess)
        (map (λ t. if in_window start end t then unit else nought) index) cols)

  unfoldable pub session_membership : Windows → List ℕ → Features F
  session_membership windows index = dummies (or_default windows) index []

module _ {ℓ} {F : Type ℓ} ⦃f : Float F⦄ (pd : Series F) where
  -- the mean of a session's prior bars
  abbrev pub prior_mean : ℕ → List F → List F
  prior_mean win x = pd.rolling win (observed (max 5 (win / 4)) pd.mean) (pd.shift 1 x)

  -- `SessionBlock.compute` past its check
  unfoldable pub session_features : SessionBlock → Bars F → Result (Features F)
  session_features b bars =
      let out = session_membership b.windows (index_of bars) in
      let abs_ret = map f.abs (log_returns pd (column "close" bars)) in
      primary_session b.windows (index_of bars) >>= (λ sess.
        let baseline = pd.transform (prior_mean b.session_relative_vol_window) sess abs_ret in
        ok (
          prefixed "sess" (insert "rel_vol" (zip_with f.div abs_ret (without_zeros baseline)) out)))

  -- `SessionBlock.compute`
  unfoldable pub session_compute : SessionBlock → Bars F → Result (Features F)
  session_compute b bars = ensure_ohlcv false bars >> session_features b bars
