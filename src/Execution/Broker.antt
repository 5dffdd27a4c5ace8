-- ===== src/Execution/Broker.antt =====
-- src/aurax/l7_execution/broker.py: orders, results, the `Broker` protocol and `PaperBroker`.
pub mod Paper
pub mod Terminal
use aura_x.Prelude.{
  ℕ, zero, suc, ◌+◌, ◌-◌, Bool, true, false, Option, none, some, List, [], ◌∷◌, ◌++◌, String, Float,
  ◌⊕◌, ◌⊖◌, ◌⊗◌, nought, unit, Result, ok, raise, or_raise, key_error, ◌>>=◌, ltb, if◌then◌else◌,
}
use aura_x.Prelude.Dict.{Dict, lookup, insert, get_or}
use aura_x.Prelude.Int.{ℤ, pos, negsuc}
use aura_x.Prelude.Text.{str}
use aura_x.Market.{Side, is_long, side_int}

pub data OrderStatus : Type 0 where
  filled partial rejected requote skipped : OrderStatus

abbrev pub is_requote : OrderStatus → Bool
is_requote requote = true
is_requote _ = false

pub record OrderRequest {ℓ} (F : Type ℓ) : Type ℓ where
  pub client_order_id : String
  pub symbol : String
  pub side : Side
  pub volume_lots : F
  pub pip_size : F
  pub price : Option F
  pub sl : Option F
  pub tp : Option F
  pub max_deviation_pips : F
  pub comment : String
  pub magic : ℕ

pub record OrderResult {ℓ} (F : Type ℓ) : Type ℓ where
  pub client_order_id : String
  pub status : OrderStatus
  pub filled_lots : F
  pub avg_price : F
  pub broker_order_id : Option String
  pub reason : String

-- `OrderResult.is_fill`
abbrev pub is_fill_status : OrderStatus → Bool
is_fill_status filled = true
is_fill_status partial = true
is_fill_status _ = false

module _ {ℓ} {F : Type ℓ} where
  abbrev pub is_fill : OrderResult F → Bool
  is_fill r = is_fill_status r.status

-- The protocol: what the executor needs of a broker in state `B`. An exception leaves the state
-- that the broker had when it was raised.
pub record Broker {ℓ} (F B : Type ℓ) : Type ℓ where
  pub place_order : OrderRequest F → B → Result (OrderResult F) × B

pub record PaperBroker {ℓ} (F : Type ℓ) : Type ℓ where
  pub slippage_pips : F
  pub requotes : ℕ
  pub fill_ratio : F
  pub quotes : Dict (F × F)
  pub seq : ℕ
  pub positions : Dict F
  pub orders : List (OrderRequest F)

module _ {ℓ} {F : Type ℓ} ⦃f : Float F⦄ where
  abbrev pub no_fill : String → OrderStatus → String → OrderResult F
  no_fill coid status reason = record {
    client_order_id = coid;
    status = status;
    filled_lots = nought;
    avg_price = nought;
    broker_order_id = none;
    reason = reason;
  }

  pub set_quote : String → F → F → PaperBroker F → PaperBroker F
  set_quote symbol bid ask b = record b { quotes = insert symbol (bid, ask) b.quotes }

  -- `symbol_info`: the bid, the ask and the spread
  pub symbol_info : String → PaperBroker F → Result (F × F × F)
  symbol_info symbol b = do
    (bid, ask) ← or_raise (lookup symbol b.quotes) key_error
    ok (bid, ask, ask ⊖ bid)

  -- the price before slippage
  abbrev pub base_price : OrderRequest F → F × F → F
  base_price o (bid, ask) = elim o.price [ some p ↦ p | none ↦ if is_long o.side then ask else bid ]

  -- adverse slippage: buys fill higher, sells lower
  abbrev pub slipped_price : OrderRequest F → PaperBroker F → F → F
  slipped_price o b base =
      base ⊕ b.slippage_pips ⊗ o.pip_size ⊗ f.of_int (if is_long o.side then pos 1 else negsuc 0)

  -- the book after a fill
  abbrev pub booked : OrderRequest F → PaperBroker F → F → PaperBroker F
  booked o b lots = record b {
    seq = b.seq + 1;
    positions =
        insert o.symbol (get_or o.symbol b.positions nought ⊕ f.of_int (side_int o.side) ⊗ lots)
          b.positions;
  }

  -- a quote was found
  unfoldable pub fill_order : OrderRequest F → PaperBroker F → F × F → OrderResult F × PaperBroker F
  unfolding str
  fill_order o b quote =
      let fill = slipped_price o b (base_price o quote) in
      let lots = o.volume_lots ⊗ b.fill_ratio in
      let b' = booked o b lots in
      if f.lt o.max_deviation_pips b.slippage_pips
      then (no_fill o.client_order_id rejected "slippage>deviation", b)
      else (
        record {
          client_order_id = o.client_order_id;
          status = if f.le unit b.fill_ratio then filled else partial;
          filled_lots = lots;
          avg_price = fill;
          broker_order_id = some (str b'.seq);
          reason = "";
        },
        b',
      )

  -- `PaperBroker.place_order` after the order is put on record, with the requotes that are left
  unfoldable pub place_recorded :
      OrderRequest F → ℕ → PaperBroker F → Result (OrderResult F) × PaperBroker F
  unfolding fill_order
  place_recorded o (suc n) b =
      (ok (no_fill o.client_order_id requote "requote"), record b { requotes = n })
  place_recorded o zero b = elim (lookup o.symbol b.quotes) [
    | none ↦ (raise key_error, b)
    | some quote ↦ (let (r, b') = fill_order o b quote in (ok r, b'))
  ]

  unfoldable pub place_order :
      OrderRequest F → PaperBroker F → Result (OrderResult F) × PaperBroker F
  unfolding place_recorded
  place_order o b = place_recorded o b.requotes (record b { orders = b.orders ++ (o ∷ []) })

  abbrev pub paper : Broker F (PaperBroker F)
  paper = record { place_order = place_order }
