-- ===== src/Market/Clock.antt =====
-- Python's naive `datetime`: its fields, its distance in microseconds, and the one format that the
-- order ids use.
use Prim.Native.String.{◌++◌}
use aura_x.Prelude.{ℕ, ◌+◌, ◌-◌, ◌*◌, ◌/◌, ◌%◌, Bool, ◌&&◌, ◌||◌, not, String, if◌then◌else◌, ◌==◌}
use aura_x.Prelude.Text.{padded}

pub record Datetime : Type 0 where
  pub year : ℕ
  pub month : ℕ
  pub day : ℕ
  pub hour : ℕ
  pub minute : ℕ
  pub second : ℕ
  pub microsecond : ℕ

is_leap : ℕ → Bool
is_leap y = (y % 4 == 0) && (not (y % 100 == 0) || (y % 400 == 0))

-- The days of the year before the first of the month.
days_before_month : Bool → ℕ → ℕ
days_before_month leap m =
    let extra = if leap then 1 else 0 in
    if m == 1
    then 0
    else if m == 2
    then 31
    else if m == 3
    then 59 + extra
    else if m == 4
    then 90 + extra
    else if m == 5
    then 120 + extra
    else if m == 6
    then 151 + extra
    else if m == 7
    then 181 + extra
    else if m == 8
    then 212 + extra
    else if m == 9
    then 243 + extra
    else if m == 10
    then 273 + extra
    else if m == 11
    then 304 + extra
    else 334 + extra

-- `datetime.toordinal`, less one for the days before the year 1.
ordinal : Datetime → ℕ
unfolding is_leap days_before_month
ordinal t =
    let y = t.year - 1 in
    y * 365 + y / 4 - y / 100 + y / 400 + days_before_month (is_leap t.year) t.month + t.day

-- The microseconds since the last day before the year 1.
unfoldable pub microseconds : Datetime → ℕ
unfolding ordinal
microseconds t =
    (((ordinal t * 24 + t.hour) * 60 + t.minute) * 60 + t.second) * 1_000_000 + t.microsecond

-- `abs(t - u)`, in microseconds
unfoldable pub distance : Datetime → Datetime → ℕ
distance t u = (microseconds t - microseconds u) + (microseconds u - microseconds t)

-- `t.strftime("%Y%m%d%H%M")`, for the years 1000 to 9999
unfoldable pub minute_key : Datetime → String
minute_key t =
    padded 4 t.year
    ++ (padded 2 t.month ++ (padded 2 t.day ++ (padded 2 t.hour ++ padded 2 t.minute)))
