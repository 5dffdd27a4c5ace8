-- ===== src/Execution/Executor/Journal.antt =====
-- `_journal` of src/aurax/l7_execution/executor.py: the journal is written on fills alone, and
-- decides nothing.
use mathlib.Core.Path.{subst}
use aura_x.Prelude.{
  ◌≡◌, refl, sym, ◌⊎◌, inl, inr, true, false, Option, some, List, String, Result, ok, raise,
  zero_division, Float, ◌⊖◌, ◌⊘◌, arith, Bool-cases,
}
use aura_x.Prelude.Dict.{Dict}
use aura_x.Market.{InstrumentSpec}
use aura_x.Execution.Broker.{OrderResult, Broker, is_fill}
use aura_x.Execution.Broker.Paper.{fills}
use aura_x.Execution.Executor.{
  ExecutionConfig, TradeJournal, Executor, Call, execute, settle, entry_for, order_for, pip,
  send_with_retry,
}
use aura_x.Execution.Executor.Skips.{passes, skips, execute_stops, execute_sends}

module _ {ℓ} {F B J K : Type ℓ} ⦃f : Float F⦄ (broker : Broker F B) where
  settle_same :
      (book : TradeJournal F J) (book' : TradeJournal F K) (cfg : ExecutionConfig F) (c : Call F)
      (sp : F) (b : B) (seen : List String) (j : Option J) (k : Option K)
      (p : Result (OrderResult F) × B)
      → let (r, s) =
          settle broker book cfg c sp (record { broker = b; seen = seen; journal = j }) p in
        let (r', s') =
          settle broker book' cfg c sp (record { broker = b; seen = seen; journal = k }) p in
        (r ≡ r') × (s.broker ≡ s'.broker) × (s.seen ≡ s'.seen)
  settle_same book book' cfg c sp b seen j k (raise e, b') = (refl, refl, refl)
  settle_same book book' cfg c sp b seen j k (ok r, b') = (refl, refl, refl)

  -- Whatever the journal is, does, raises, or whether there is one at all: the answer, the broker
  -- and the order ids are the same.
  pub execute_same :
      (book : TradeJournal F J) (book' : TradeJournal F K) (cfg : ExecutionConfig F)
      (specs : Dict (InstrumentSpec F)) (c : Call F) (b : B) (seen : List String) (j : Option J)
      (k : Option K)
      → let (r, s) =
          execute broker book cfg specs c (record { broker = b; seen = seen; journal = j }) in
        let (r', s') =
          execute broker book' cfg specs c (record { broker = b; seen = seen; journal = k }) in
        (r ≡ r') × (s.broker ≡ s'.broker) × (s.seen ≡ s'.seen)
  unfolding execute
  execute_same book book' cfg specs c b seen j k = ground (
    arith,
    settle_same book book' cfg c ((c.ask ⊖ c.bid) ⊘ pip specs c.decision.symbol) b seen j k
        (send_with_retry broker cfg (order_for cfg c (pip specs c.decision.symbol)) b),
  )

module _ {ℓ} {F B J : Type ℓ} ⦃f : Float F⦄ (book : TradeJournal F J) where
  -- After a call the journal that was `j` has been handed one entry, if the answer is a fill, with
  -- the fill's id, price and lots; in all other cases it is as it was.
  abbrev pub Journals : Call F → J → Result (OrderResult F) × Executor B J → Type ℓ
  Journals c j (r, s) =
      ((fills r ≡ false) × (s.journal ≡ some j))
      ⊎ ((q : OrderResult F) × (sp : F) × (r ≡ ok q)
          × (is_fill q ≡ true)
          × (s.journal ≡ some (book.record_open (entry_for c q sp) j).1))

  settle-Journals :
      (broker : Broker F B) (cfg : ExecutionConfig F) (c : Call F) (sp : F) (s : Executor B J)
      (j : J)
      → s.journal ≡ some j
      → (p : Result (OrderResult F) × B) → Journals c j (settle broker book cfg c sp s p)
  settle-Journals broker cfg c sp s j e (raise x, b) = inl (refl, e)
  settle-Journals broker cfg c sp s j e (ok r, b) = elim (Bool-cases (is_fill r)) [
    | inl fill ↦ inr (r, sp, refl, fill, ground arith)
    | inr not_fill ↦ inl (not_fill, ground arith)
  ]

  stop-Journals :
      (c : Call F) (s : Executor B J) (j : J)
      → s.journal ≡ some j
      → (r : Result (OrderResult F)) → (skips r ≡ true) ⊎ (r ≡ raise zero_division)
      → Journals c j (r, s)
  stop-Journals c s j e (raise x) h = inl (refl, e)
  stop-Journals c s j e (ok r) h = inl (ground arith, e)

  -- The journal is handed one entry exactly when the answer is a fill, on every branch of `execute`.
  pub execute-Journals :
      (broker : Broker F B) (cfg : ExecutionConfig F) (specs : Dict (InstrumentSpec F)) (c : Call F)
      (s : Executor B J) (j : J)
      → s.journal ≡ some j
      → Journals c j (execute broker book cfg specs c s)
  execute-Journals broker cfg specs c s j e = elim (Bool-cases (passes cfg specs c s)) [
    | inr stop ↦
        (let (same, why) = execute_stops broker book cfg specs c s stop in
          stop-Journals c (execute broker book cfg specs c s).1 j (rw same e)
            (execute broker book cfg specs c s).0 why)
    | inl go ↦
        (let (sp, same) = execute_sends broker book cfg specs c s go in
          subst (Journals c j) (sym same) (
            settle-Journals broker cfg c sp s j e (
              send_with_retry broker cfg (order_for cfg c (pip specs c.decision.symbol)) s.broker)))
  ]
