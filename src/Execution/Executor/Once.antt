-- ===== src/Execution/Executor/Once.antt =====
-- The order ids of src/aurax/l7_execution/executor.py: once an order has been answered, no later
-- call sends one for the same id.
use mathlib.Core.List.{append-nil}
use aura_x.Prelude.{
  ℕ, suc, ◌+◌, ◌≤◌, ◌≡◌, refl, sym, ap, ◌∙◌, inl, inr, true, false, List, [], ◌∷◌, ◌++◌, String,
  Result, ok, raise, Float, arith, count, replicate, count-append, count-replicate_le,
  count-replicate_none, str_eq, str_eq_iff, str_eq_refl, Bool-cases,
}
use aura_x.Prelude.Dict.{Dict, member}
use aura_x.Market.{InstrumentSpec}
use aura_x.Execution.Broker.{OrderRequest, OrderResult, PaperBroker, paper}
use aura_x.Execution.Executor.{
  ExecutionConfig, TradeJournal, Executor, Call, coid, pip, execute, order_for, settle,
  send_with_retry,
}
use aura_x.Execution.Executor.Retry.{send_with_retry-orders}
use aura_x.Execution.Executor.Skips.{passes, execute_stops, execute_sends}

module _ {ℓ} {F J : Type ℓ} ⦃f : Float F⦄ (book : TradeJournal F J) where
  -- The orders with an id that a paper broker has been sent.
  abbrev pub sent : String → Executor (PaperBroker F) J → ℕ
  sent id s = count (λ o. str_eq id o.client_order_id) s.broker.orders

  module _ (cfg : ExecutionConfig F) (specs : Dict (InstrumentSpec F)) where
    -- any number of later calls, whose results and exceptions the caller handles
    pub run : List (Call F) → Executor (PaperBroker F) J → Executor (PaperBroker F) J
    run [] s = s
    run (c ∷ cs) s = run cs (execute paper book cfg specs c s).1

    settle-orders :
        (c : Call F) (sp : F) (s : Executor (PaperBroker F) J)
        (p : Result (OrderResult F) × PaperBroker F)
        → (settle paper book cfg c sp s p).1.broker ≡ p.1
    settle-orders c sp s (raise e, b) = refl
    settle-orders c sp s (ok r, b) = refl

    settle_seen :
        (c : Call F) (sp : F) (s : Executor (PaperBroker F) J) (id : String)
        → member id s.seen ≡ true
        → (p : Result (OrderResult F) × PaperBroker F)
        → member id (settle paper book cfg c sp s p).1.seen ≡ true
    settle_seen c sp s id h (raise e, b) = h
    settle_seen c sp s id h (ok r, b) = ground arith

    settle_answered :
        (c : Call F) (sp : F) (s : Executor (PaperBroker F) J) (r : OrderResult F)
        (p : Result (OrderResult F) × PaperBroker F)
        → (settle paper book cfg c sp s p).0 ≡ ok r
        → member (coid cfg c) (settle paper book cfg c sp s p).1.seen ≡ true
    settle_answered c sp s r (raise e, b) h = cc
    settle_answered c sp s r (ok q, b) h = rw (str_eq_refl (coid cfg c))

    execute_answered :
        (c : Call F) (s : Executor (PaperBroker F) J) (r : OrderResult F)
        → passes cfg specs c s ≡ true
        → (execute paper book cfg specs c s).0 ≡ ok r
        → member (coid cfg c) (execute paper book cfg specs c s).1.seen ≡ true
    execute_answered c s r go answered =
        let (sp, e) = execute_sends paper book cfg specs c s go in
        let p =
          send_with_retry paper cfg (order_for cfg c (pip specs c.decision.symbol)) s.broker in
        rw e (
          settle_answered c sp s r p (
            sym (ap (λ (t : Result (OrderResult F) × Executor (PaperBroker F) J). t.0) e)
            ∙ answered))

    fresh_differs :
        (c : Call F) (s : Executor (PaperBroker F) J) (id : String)
        → member id s.seen ≡ true
        → passes cfg specs c s ≡ true
        → str_eq id (coid cfg c) ≡ false
    fresh_differs c s id seen go = elim (Bool-cases (str_eq id (coid cfg c))) [
      | inr e ↦ e
      | inl e ↦
          (let known : member (coid cfg c) s.seen ≡ true =
              rw ((str_eq_iff id (coid cfg c)).0 e) at seen in
            ground arith)
    ]

    -- What one call puts on record: its own order, at most `max_retries + 1` times.
    execute-orders :
        (c : Call F) (s : Executor (PaperBroker F) J)
        → (k : ℕ) × ((execute paper book cfg specs c s).1.broker.orders
            ≡ s.broker.orders ++ replicate k (order_for cfg c (pip specs c.decision.symbol)))
          × (k ≤ suc cfg.max_retries)
    execute-orders c s = elim (Bool-cases (passes cfg specs c s)) [
      | inr stop ↦ (
        0,
        ap (λ (t : Executor (PaperBroker F) J). t.broker.orders)
              (execute_stops paper book cfg specs c s stop).0
            ∙ sym (append-nil s.broker.orders),
        omega arith,
      )
      | inl go ↦
          (let (sp, e) = execute_sends paper book cfg specs c s go in
            let o = order_for cfg c (pip specs c.decision.symbol) in
            let (k, orders, bound) = send_with_retry-orders o cfg s.broker in
            (
              k,
              ap (λ (r : Result (OrderResult F) × Executor (PaperBroker F) J). r.1.broker.orders) e
                  ∙ ap (λ (b : PaperBroker F). b.orders)
                      (settle-orders c sp s (send_with_retry paper cfg o s.broker))
                  ∙ orders,
              bound,
            ))
    ]

    pub execute-sent_le :
        (c : Call F) (s : Executor (PaperBroker F) J) (id : String)
        → sent id (execute paper book cfg specs c s).1 ≤ sent id s + suc cfg.max_retries
    execute-sent_le c s id =
        let o = order_for cfg c (pip specs c.decision.symbol) in
        let (k, orders, bound) = execute-orders c s in
        let test = λ (x : OrderRequest F). str_eq id x.client_order_id in
        omega (
          arith,
          ap (count test) orders,
          count-append test s.broker.orders (replicate k o),
          count-replicate_le test k o,
        )

    -- A call sends nothing under another id.
    execute-sent_other :
        (c : Call F) (s : Executor (PaperBroker F) J) (id : String)
        → str_eq id (coid cfg c) ≡ false
        → sent id (execute paper book cfg specs c s).1 ≡ sent id s
    execute-sent_other c s id h =
        let o = order_for cfg c (pip specs c.decision.symbol) in
        let (k, orders, bound) = execute-orders c s in
        let test = λ (x : OrderRequest F). str_eq id x.client_order_id in
        omega (
          arith,
          ap (count test) orders,
          count-append test s.broker.orders (replicate k o),
          count-replicate_none test k o h,
        )

    -- Nor under an id that it has seen, and no id is forgotten.
    execute_seen :
        (c : Call F) (s : Executor (PaperBroker F) J) (id : String)
        → member id s.seen ≡ true
        → (member id (execute paper book cfg specs c s).1.seen ≡ true)
          × (sent id (execute paper book cfg specs c s).1 ≡ sent id s)
    execute_seen c s id seen = elim (Bool-cases (passes cfg specs c s)) [
      | inr stop ↦ rw ((execute_stops paper book cfg specs c s stop).0) (seen, refl)
      | inl go ↦
          (let (sp, e) = execute_sends paper book cfg specs c s go in
            let o = order_for cfg c (pip specs c.decision.symbol) in
            (
              rw e (settle_seen c sp s id seen (send_with_retry paper cfg o s.broker)),
              execute-sent_other c s id (fresh_differs c s id seen go),
            ))
    ]

    run_seen :
        (cs : List (Call F)) (s : Executor (PaperBroker F) J) (id : String)
        → member id s.seen ≡ true
        → sent id (run cs s) ≡ sent id s
    unfolding run
    run_seen [] s id seen = refl
    run_seen (c ∷ cs) s id seen =
        let (still, same) = execute_seen c s id seen in
        run_seen cs (execute paper book cfg specs c s).1 id still ∙ same

    -- Once a call whose tests pass has been answered (no exception), no later call sends an order
    -- under its id, and at most `max_retries + 1` orders were sent since before it.
    pub run-sent_once :
        (c : Call F) (cs : List (Call F)) (s : Executor (PaperBroker F) J) (r : OrderResult F)
        → passes cfg specs c s ≡ true
        → (execute paper book cfg specs c s).0 ≡ ok r
        → let id = coid cfg c in
          let s' = (execute paper book cfg specs c s).1 in
          (sent id (run cs s') ≡ sent id s')
          × (sent id (run cs s') ≤ sent id s + suc cfg.max_retries)
    run-sent_once c cs s r go answered =
        let same =
          run_seen cs (execute paper book cfg specs c s).1 (coid cfg c)
            (execute_answered c s r go answered) in
        (same, omega (arith, same, execute-sent_le c s (coid cfg c)))
