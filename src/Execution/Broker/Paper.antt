-- ===== src/Execution/Broker/Paper.antt =====
-- What one order does to a `PaperBroker`: `place_order` of src/aurax/l7_execution/broker.py.
use aura_x.Prelude.{
  ℕ, suc, ◌≡◌, Bool, false, ◌&&◌, some, [], ◌∷◌, ◌++◌, String, arith, Float, ◌⊕◌, ◌⊗◌, nought,
  Result, ok, raise, if◌then◌else◌, str_eq,
}
use aura_x.Prelude.Dict.{lookup, get_or, lookup-insert}
use aura_x.Market.{side_int}
use aura_x.Execution.Broker.{
  OrderRequest, OrderResult, requote, is_requote, skipped, is_fill, no_fill, PaperBroker,
  place_recorded, place_order,
}

module _ {ℓ} {F : Type ℓ} where
  -- the lots that a result filled, and whether it filled any
  abbrev pub fills : Result (OrderResult F) → Bool
  fills (raise e) = false
  fills (ok r) = is_fill r

  abbrev pub asks_again : Result (OrderResult F) → Bool
  asks_again (raise e) = false
  asks_again (ok r) = is_requote r.status

  abbrev pub lots_of : ⦃f : Float F⦄ → Result (OrderResult F) → F
  lots_of (raise e) = nought
  lots_of (ok r) = r.filled_lots

module _ {ℓ} {F : Type ℓ} ⦃f : Float F⦄ (o : OrderRequest F) where
  pub place_order-requote :
      (b : PaperBroker F) {k : ℕ}
      → b.requotes ≡ suc k
      → place_order o b ≡ (
        ok (no_fill o.client_order_id requote "requote"),
        record b { requotes = k; orders = b.orders ++ (o ∷ []) },
      )
  unfolding place_order
  place_order-requote b e = rw (e, place_recorded)

  -- Every order is put on record once, whatever becomes of it, and no quote changes.
  pub place_order-orders :
      (b : PaperBroker F)
      → let b' = (place_order o b).1 in (b'.orders ≡ b.orders ++ (o ∷ [])) × (b'.quotes ≡ b.quotes)
  unfolding place_order
  place_order-orders b = ground arith

  -- After an order the position of a symbol is the old one with the signed filled lots added, if
  -- the order filled and is for that symbol, and in all other cases the old one.
  pub place_order-positions :
      (b : PaperBroker F) (j : String)
      → let (r, b') = place_order o b in
        lookup j b'.positions ≡ (
          if fills r && str_eq j o.symbol
          then some (get_or o.symbol b.positions nought ⊕ f.of_int (side_int o.side) ⊗ lots_of r)
          else lookup j b.positions)
  unfolding place_order
  place_order-positions b j = ground (
    arith,
    lookup-insert j o.symbol
        (get_or o.symbol b.positions nought
          ⊕ f.of_int (side_int o.side) ⊗ (o.volume_lots ⊗ b.fill_ratio))
        b.positions,
  )

  pub place_order-not_skipped :
      (b : PaperBroker F) (r : OrderResult F) → (place_order o b).0 ≡ ok r → r.status ≡ skipped → ⊥
  unfolding place_order
  place_order-not_skipped b r e s = ground arith

  -- With no requote left the broker does not ask again.
  pub place_order_final :
      (b : PaperBroker F) → b.requotes ≡ 0 → asks_again (place_order o b).0 ≡ false
  unfolding place_order
  place_order_final b e = rw (e, place_recorded) (ground arith)
