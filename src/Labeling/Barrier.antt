-- ===== src/Labeling/Barrier.antt =====
-- `triple_barrier_labels` of src/aurax/l4_labeling/triple_barrier.py. The columns are lists that are
-- aligned to the bars; an event is the position of its bar in the index, where it has one.
pub mod FirstTouch
use aura_x.Prelude.{
  ℕ, zero, suc, ◌+◌, ◌-◌, ◌≤◌, Bool, true, false, not, ◌&&◌, ◌||◌, Option, none, some, List, [],
  ◌∷◌, min, leb, ltb, length, get_elem?, take, drop, Float, ◌⊕◌, ◌⊖◌, ◌⊗◌, ◌⊘◌, nought, unit,
  if◌then◌else◌,
}
use aura_x.Prelude.Int.{ℤ, pos, negsuc}
use aura_x.Market.{BarrierTouch, tp, sl, vertical, Label, down, neutral, up}

pub record Bar {ℓ} (F : Type ℓ) : Type ℓ where
  pub ts : ℕ
  pub high : F
  pub low : F
  pub close : F
  pub atr : F

pub record BarrierConfig {ℓ} (F : Type ℓ) : Type ℓ where
  pub tp_mult : F
  pub sl_mult : F
  pub vertical_bars : ℕ
  pub min_ret : F
  -- `tie_break == "sl"`
  pub tie_is_sl : Bool

-- One row of the result; the label is a direction or, in meta mode, 1 for a bet that won.
pub record LabelRow {ℓ} (F : Type ℓ) : Type ℓ where
  pub ts : ℕ
  pub t1 : ℕ
  pub label : ℤ
  pub ret : F
  pub barrier : BarrierTouch
  pub tp_price : F
  pub sl_price : F
  pub side : Option F

-- `int(Label.…)` of a touch
abbrev pub direction : BarrierTouch → ℤ
direction tp = pos 1
direction sl = negsuc 0
direction vertical = pos 0

abbrev pub is_tp : BarrierTouch → Bool
is_tp tp = true
is_tp _ = false

abbrev pub is_vertical : BarrierTouch → Bool
is_vertical vertical = true
is_vertical _ = false

module _ {ℓ} {F : Type ℓ} ⦃f : Float F⦄ where
  -- the take-profit and the stop-loss price
  abbrev pub barrier_prices : BarrierConfig F → F → F → F → F × F
  barrier_prices cfg s entry a =
      if f.le nought s
      then (entry ⊕ cfg.tp_mult ⊗ a, entry ⊖ cfg.sl_mult ⊗ a)
      else (entry ⊖ cfg.tp_mult ⊗ a, entry ⊕ cfg.sl_mult ⊗ a)

  abbrev pub hits_tp : F → F → Bar F → Bool
  hits_tp s tp_price b = if f.le nought s then f.le tp_price b.high else f.le b.low tp_price

  abbrev pub hits_sl : F → F → Bar F → Bool
  hits_sl s sl_price b = if f.le nought s then f.le b.low sl_price else f.le sl_price b.high

  -- The walk from bar `j` on, over the bars up to `i_end`: the first touch and its position.
  pub first_touch : Bool → F → F × F → ℕ → ℕ → List (Bar F) → BarrierTouch × ℕ
  first_touch tie_is_sl s prices i_end j [] = (vertical, i_end)
  first_touch tie_is_sl s prices i_end j (b ∷ rest) =
      let later = first_touch tie_is_sl s prices i_end (suc j) rest in
      let hit_tp = hits_tp s prices.0 b in
      let hit_sl = hits_sl s prices.1 b in
      if hit_tp && hit_sl
      then ((if tie_is_sl then sl else tp), j)
      else if hit_tp
      then (tp, j)
      else if hit_sl
      then (sl, j)
      else later

  abbrev pub last_bar : BarrierConfig F → ℕ → ℕ → ℕ
  last_bar cfg i0 n = min (i0 + cfg.vertical_bars) (n - 1)

  -- the bars `i0 + 1` to `i_end`
  abbrev pub window : List (Bar F) → ℕ → ℕ → List (Bar F)
  window bars i0 i_end = take (i_end - i0) (drop (suc i0) bars)

  abbrev pub exit_price : BarrierTouch → F × F → F → F
  exit_price tp prices timeout_close = prices.0
  exit_price sl prices timeout_close = prices.1
  exit_price vertical prices timeout_close = timeout_close

  -- the label and the return, in primary and in meta mode
  abbrev pub outcome_label : BarrierConfig F → Option F → BarrierTouch → F → ℤ × F
  outcome_label cfg none outcome raw_ret = (direction outcome, raw_ret)
  outcome_label cfg (some s) outcome raw_ret =
      let signed = raw_ret ⊗ s in
      (
        (if is_tp outcome || (is_vertical outcome && f.lt cfg.min_ret signed)
            then pos 1
            else pos 0),
        signed,
      )

  -- the touch of an event at bar `i0`, oriented by its side
  abbrev pub touch_of : BarrierConfig F → List (Bar F) → F → ℕ → Bar F → BarrierTouch × ℕ
  touch_of cfg bars s i0 b =
      let i_end = last_bar cfg i0 (length bars) in
      first_touch cfg.tie_is_sl s (barrier_prices cfg s b.close b.atr) i_end (suc i0)
        (window bars i0 i_end)

  row_of : BarrierConfig F → Option F → F → Bar F → BarrierTouch → Bar F → LabelRow F
  row_of cfg side s b outcome last =
      let prices = barrier_prices cfg s b.close b.atr in
      let raw_ret = exit_price outcome prices last.close ⊘ b.close ⊖ unit in
      let (label, ret) = outcome_label cfg side outcome raw_ret in
      record {
        ts = b.ts;
        t1 = last.ts;
        label = label;
        ret = ret;
        barrier = outcome;
        tp_price = prices.0;
        sl_price = prices.1;
        side = side;
      }

  abbrev pub orientation : Option F → F
  orientation none = unit
  orientation (some s) = s

  abbrev pub skips_side : Option F → Bool
  skips_side none = false
  skips_side (some s) = f.eq s nought

  -- One event of the loop: `none` where the source goes on to the next event. `side` is none in
  -- primary mode.
  pub label_event : BarrierConfig F → List (Bar F) → Option F → ℕ → Option (LabelRow F)
  unfolding row_of
  label_event cfg bars side i0 = elim (get_elem? bars i0) [
    | none ↦ none
    | some b ↦
        let s = orientation side in
        let (outcome, t1_idx) = touch_of cfg bars s i0 b in
        let labelled : Option (LabelRow F) = elim (get_elem? bars t1_idx) [
          | none ↦ none
          | some last ↦ some (row_of cfg side s b outcome last)
        ] in
        if leb (length bars) (suc i0)
          || (not (f.is_finite b.atr) || (f.le b.atr nought || skips_side side))
        then none
        else labelled
  ]

  -- the loop over the events that have a bar
  pub label_events : BarrierConfig F → List (Bar F) → List (ℕ × Option F) → List (LabelRow F)
  label_events cfg bars [] = []
  label_events cfg bars ((i0, side) ∷ events) =
      let rest = label_events cfg bars events in
      elim (label_event cfg bars side i0) [ none ↦ rest | some row ↦ row ∷ rest ]
