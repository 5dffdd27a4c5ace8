-- ===== src/Execution/Executor/Retry.antt =====
-- How often `_send_with_retry` of src/aurax/l7_execution/executor.py sends an order to a
-- `PaperBroker`.
use mathlib.Core.List.{append-nil}
use native.Mathlib.Decide.{dec_lt}
use native.Mathlib.Nat.{le_refl}
use aura_x.Prelude.{
  ℕ, zero, suc, ◌-◌, ◌≤◌, ◌<◌, ◌≡◌, refl, ap, false, ◌∙◌, ◌++◌, arith, ok, raise, Result, Float,
  replicate, append_replicate, append_replicate_last,
}
use aura_x.Execution.Broker.{
  OrderRequest, OrderResult, requote, rejected, no_fill, PaperBroker, paper, place_order,
}
use aura_x.Execution.Broker.Paper.{
  asks_again, place_order-requote, place_order-orders, place_order_final,
}
use aura_x.Execution.Executor.{ExecutionConfig, send_loop, send_with_retry, next_attempt}

module _ {ℓ} {F : Type ℓ} ⦃f : Float F⦄ (o : OrderRequest F) where
  -- the broker with `k` requotes left after `n` more orders of the same kind
  abbrev pub requoted : ℕ → ℕ → PaperBroker F → PaperBroker F
  requoted k n b = record b { requotes = k; orders = b.orders ++ replicate n o }

  requoted_zero : (q : ℕ) (b : PaperBroker F) → b.requotes ≡ q → requoted q 0 b ≡ b
  requoted_zero q b e = rw (← e, append-nil b.orders)

  next_attempt_last :
      (again : OrderResult F → PaperBroker F → Result (OrderResult F) × PaperBroker F)
      (p : Result (OrderResult F) × PaperBroker F)
      → asks_again p.0 ≡ false
      → next_attempt again p ≡ p
  next_attempt_last again (raise e, b) h = refl
  next_attempt_last again (ok r, b) h = rw (h, next_attempt)

  send_loop_absorbs :
      (n q : ℕ) (last : OrderResult F) (b : PaperBroker F)
      → b.requotes ≡ q
      → q < n
      → send_loop paper n o last b ≡ place_order o (requoted 0 q b)
  unfolding send_loop
  send_loop_absorbs zero q last b e h = elim h [ ]
  send_loop_absorbs (suc n) zero last b e h =
      next_attempt_last (send_loop paper n o) _ (place_order_final o b e) ∙ rw (requoted_zero 0 b e)
  send_loop_absorbs (suc n) (suc q) last b e h =
      rw (place_order-requote o b e)
        (send_loop_absorbs n q _ _ refl (omega arith) ∙ rw (append_replicate b.orders q o))

  send_loop_exhausts :
      (n q : ℕ) (last : OrderResult F) (b : PaperBroker F)
      → b.requotes ≡ q
      → n < q
      → send_loop paper (suc n) o last b
        ≡ (ok (no_fill o.client_order_id requote "requote"), requoted (q - suc n) (suc n) b)
  unfolding send_loop
  send_loop_exhausts zero (suc q) last b e h = rw (place_order-requote o b e) (
      ap (λ (k : ℕ). (ok (no_fill o.client_order_id requote "requote"), requoted k 1 b))
        (omega arith))
  send_loop_exhausts (suc n) (suc q) last b e h = rw (place_order-requote o b e) (
      send_loop_exhausts n q (no_fill o.client_order_id requote "requote") _ refl (omega arith)
      ∙ rw (append_replicate b.orders (suc n) o) (ground arith))
  send_loop_exhausts n zero last b e h = elim h [ ]

  -- If the retries are enough, every requote is absorbed by one more order, and the answer is that
  -- of a broker with no requote left.
  pub send_with_retry_absorbs :
      (cfg : ExecutionConfig F) (b : PaperBroker F)
      → b.requotes ≤ cfg.max_retries
      → send_with_retry paper cfg o b ≡ place_order o (requoted 0 b.requotes b)
  unfolding send_with_retry
  send_with_retry_absorbs cfg b h =
      send_loop_absorbs (suc cfg.max_retries) b.requotes
        (no_fill o.client_order_id rejected "no_attempt") b refl (omega arith)

  -- If the broker has more requotes left than there are retries, exactly `max_retries + 1` orders are sent, and the answer is a requote.
  pub send_with_retry_exhausts :
      (cfg : ExecutionConfig F) (b : PaperBroker F)
      → cfg.max_retries < b.requotes
      → send_with_retry paper cfg o b ≡ (
        ok (no_fill o.client_order_id requote "requote"),
        requoted (b.requotes - suc cfg.max_retries) (suc cfg.max_retries) b,
      )
  unfolding send_with_retry
  send_with_retry_exhausts cfg b h =
      send_loop_exhausts cfg.max_retries b.requotes
        (no_fill o.client_order_id rejected "no_attempt") b refl (omega arith)

  -- Either way what is put on record is the one order, at most `max_retries + 1` times.
  pub send_with_retry-orders :
      (cfg : ExecutionConfig F) (b : PaperBroker F)
      → (k : ℕ) × ((send_with_retry paper cfg o b).1.orders ≡ b.orders ++ replicate k o)
        × (k ≤ suc cfg.max_retries)
  send_with_retry-orders cfg b = elim (dec_lt cfg.max_retries b.requotes) [
    | yes over ↦ (suc cfg.max_retries, rw (send_with_retry_exhausts cfg b over), le_refl _)
    | no under ↦ (
      suc b.requotes,
      ap (λ (p : Result (OrderResult F) × PaperBroker F). p.1.orders)
            (send_with_retry_absorbs cfg b (omega arith))
          ∙ (place_order-orders o (requoted 0 b.requotes b)).0
          ∙ append_replicate_last b.orders b.requotes o,
      omega arith,
    )
  ]
