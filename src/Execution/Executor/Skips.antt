-- ===== src/Execution/Executor/Skips.antt =====
-- A decision that `execute` of src/aurax/l7_execution/executor.py skips changes nothing.
use aura_x.Prelude.{
  ℕ, ◌≡◌, refl, Bool, true, false, not, ◌&&◌, Result, ok, raise, zero_division, Float, ◌⊖◌, ◌⊘◌,
  ◌⊎◌, ap, divide, arith, inl, inr, zero, suc, Bool-cases,
}
use aura_x.Prelude.Dict.{Dict, member}
use aura_x.Market.{InstrumentSpec, is_flat}
use aura_x.Risk.Records.{approved}
use aura_x.Execution.Broker.{
  OrderResult, OrderRequest, skipped, rejected, OrderStatus, Broker, no_fill,
}
use aura_x.Execution.Executor.{
  ExecutionConfig, TradeJournal, Executor, Call, coid, pip, execute, send_loop, send_with_retry,
  pre_trade_ok, next_attempt, order_for, settle,
}

abbrev pub is_skipped : OrderStatus → Bool
is_skipped skipped = true
is_skipped _ = false

module _ {ℓ} {F : Type ℓ} where
  abbrev pub skips : Result (OrderResult F) → Bool
  skips (raise e) = false
  skips (ok r) = is_skipped r.status

-- A broker whose answers are its own: `skipped` is the executor's word.
abbrev pub NeverSkips {ℓ} : {F B : Type ℓ} → Broker F B → Type ℓ
NeverSkips {F} {B} broker = (o : OrderRequest F) (b : B) → skips (broker.place_order o b).0 ≡ false

module _ {ℓ} {F B : Type ℓ} ⦃f : Float F⦄ (broker : Broker F B) (h : NeverSkips broker) where
  next_attempt-not_skipped :
      (again : OrderResult F → B → Result (OrderResult F) × B)
      → ((r : OrderResult F) (b : B) → is_skipped r.status ≡ false → skips (again r b).0 ≡ false)
      → (p : Result (OrderResult F) × B) → skips p.0 ≡ false
      → skips (next_attempt again p).0 ≡ false
  next_attempt-not_skipped again ih (raise e, b) k = k
  next_attempt-not_skipped again ih (ok r, b) k = ground (arith, ih r b k)

  send_loop-not_skipped :
      (n : ℕ) (o : OrderRequest F) (last : OrderResult F) (b : B)
      → is_skipped last.status ≡ false
      → skips (send_loop broker n o last b).0 ≡ false
  unfolding send_loop
  send_loop-not_skipped zero o last b e = e
  send_loop-not_skipped (suc n) o last b e =
      next_attempt-not_skipped (send_loop broker n o) (send_loop-not_skipped n o)
        (broker.place_order o b) (h o b)

  send_with_retry-not_skipped :
      (cfg : ExecutionConfig F) (o : OrderRequest F) (b : B)
      → skips (send_with_retry broker cfg o b).0 ≡ false
  unfolding send_with_retry
  send_with_retry-not_skipped cfg o b =
      send_loop-not_skipped (suc cfg.max_retries) o
        (no_fill o.client_order_id rejected "no_attempt") b refl

module _ {ℓ} {F B J : Type ℓ} ⦃f : Float F⦄ where
  -- Every test before the order: a position, a fresh order id, a spread that can be computed and is
  -- in budget, and no event near by.
  abbrev pub passes : ExecutionConfig F → Dict (InstrumentSpec F) → Call F → Executor B J → Bool
  passes cfg specs c s =
      approved c.decision
      && (not (is_flat c.decision.side)
          && (not (member (coid cfg c) s.seen)
              && elim (divide (c.ask ⊖ c.bid) (pip specs c.decision.symbol)) [
                | raise e ↦ false
                | ok sp ↦ pre_trade_ok cfg sp c.now c.news_events
              ]))

module _ {ℓ} {F B J : Type ℓ} ⦃f : Float F⦄ (broker : Broker F B) (book : TradeJournal F J) where
  settle-not_skipped :
      (cfg : ExecutionConfig F) (c : Call F) (sp : F) (s : Executor B J)
      (p : Result (OrderResult F) × B)
      → skips p.0 ≡ false
      → skips (settle broker book cfg c sp s p).0 ≡ false
  settle-not_skipped cfg c sp s (raise e, b) k = k
  settle-not_skipped cfg c sp s (ok r, b) k = k

  -- If a test fails, nothing changes, and the answer is a skip or the division by a zero pip.
  pub execute_stops :
      (cfg : ExecutionConfig F) (specs : Dict (InstrumentSpec F)) (c : Call F) (s : Executor B J)
      → passes cfg specs c s ≡ false
      → ((execute broker book cfg specs c s).1 ≡ s)
        × ((skips (execute broker book cfg specs c s).0 ≡ true)
            ⊎ ((execute broker book cfg specs c s).0 ≡ raise zero_division))
  unfolding execute
  execute_stops cfg specs c s p = ground arith

  -- If all pass, the order is sent with retries, and its answer settled.
  pub execute_sends :
      (cfg : ExecutionConfig F) (specs : Dict (InstrumentSpec F)) (c : Call F) (s : Executor B J)
      → passes cfg specs c s ≡ true
      → (sp : F) × (execute broker book cfg specs c s
          ≡ settle broker book cfg c sp s
              (send_with_retry broker cfg (order_for cfg c (pip specs c.decision.symbol)) s.broker))
  unfolding execute
  execute_sends cfg specs c s p = ((c.ask ⊖ c.bid) ⊘ pip specs c.decision.symbol, ground arith)

  execute-not_skipped :
      NeverSkips broker
      → (cfg : ExecutionConfig F) (specs : Dict (InstrumentSpec F)) (c : Call F) (s : Executor B J)
      → passes cfg specs c s ≡ true
      → skips (execute broker book cfg specs c s).0 ≡ false
  execute-not_skipped h cfg specs c s go =
      let (sp, e) = execute_sends cfg specs c s go in
      let o = order_for cfg c (pip specs c.decision.symbol) in
      cc (
        ap (λ (r : Result (OrderResult F) × Executor B J). skips r.0) e,
        settle-not_skipped cfg c sp s (send_with_retry broker cfg o s.broker)
            (send_with_retry-not_skipped broker h cfg o s.broker),
      )

  -- With a broker that never skips by itself: either every test passes and the answer is no skip, or
  -- a test fails, and then broker, order ids and journal are as they were, so that the bar can still
  -- fire later, and the call has answered that it skipped or raised on a zero pip.
  pub execute-skips :
      NeverSkips broker
      → (cfg : ExecutionConfig F) (specs : Dict (InstrumentSpec F)) (c : Call F) (s : Executor B J)
      → ((passes cfg specs c s ≡ true) × (skips (execute broker book cfg specs c s).0 ≡ false))
        ⊎ ((passes cfg specs c s ≡ false)
            × ((execute broker book cfg specs c s).1 ≡ s)
            × ((skips (execute broker book cfg specs c s).0 ≡ true)
                ⊎ ((execute broker book cfg specs c s).0 ≡ raise zero_division)))
  execute-skips h cfg specs c s = elim (Bool-cases (passes cfg specs c s)) [
    | inl go ↦ inl (go, execute-not_skipped h cfg specs c s go)
    | inr stop ↦ let (same, why) = execute_stops cfg specs c s stop in inr (stop, same, why)
  ]
