-- ===== src/Data/Repository/Paths.antt =====
-- The path of a file of bars says whose bars it holds.
use Prim.Native.String.{◌++◌, count}
use text.Mathlib.TextLemmas.{
  append_cancel_left, append_cancel_right, append_assoc, append_inj, length-append,
}
use aura_x.Prelude.{◌≡◌, refl, sym, ap, ◌∙◌, false, ◌&&◌, String, arith, Bool-cases, inl, inr}
use aura_x.Prelude.Tests.{str_eq, str_eq_iff}
use aura_x.Market.{Timeframe, timeframe_value}
use aura_x.Data.Store.{bars_path}

module _ (s t : String) where
  -- texts that end alike in length end alike
  same_end : (p q u v : String) → s ++ (p ++ u) ≡ t ++ (q ++ v) → count u ≡ count v → u ≡ v
  same_end p q u v e l =
      let e' : (s ++ p) ++ u ≡ (t ++ q) ++ v = append_assoc s p u ∙ e ∙ sym (append_assoc t q v) in
      let m : count (s ++ p) ≡ count (t ++ q) =
        omega (arith, length-append (s ++ p) u, length-append (t ++ q) v, ap count e', l) in
      (append_inj e' m).1

  ends_apart :
      (p q u v : String)
      → count u ≡ count v
      → str_eq u v ≡ false
      → s ++ (p ++ u) ≡ t ++ (q ++ v)
      → ⊥
  ends_apart p q u v l d e = cc ((str_eq_iff u v).1 (same_end p q u v e l))

  bars_path-injective :
      (a b : Timeframe)
      → bars_path s a ≡ bars_path t b
      → (s ≡ t) × (timeframe_value a ≡ timeframe_value b)
  unfolding str_eq
  bars_path-injective Timeframe.m15 Timeframe.m15 e =
      (append_cancel_right s t "/M15.parquet" (append_cancel_left "bars/" _ _ e), refl)
  bars_path-injective Timeframe.m15 Timeframe.h4 e =
      absurd
        (ends_apart "/M1" "/H" "5.parquet" "4.parquet" refl refl (append_cancel_left "bars/" _ _ e))
  bars_path-injective Timeframe.m15 Timeframe.d1 e =
      absurd
        (ends_apart "/M1" "/D" "5.parquet" "1.parquet" refl refl (append_cancel_left "bars/" _ _ e))
  bars_path-injective Timeframe.h4 Timeframe.m15 e =
      absurd
        (ends_apart "/H" "/M1" "4.parquet" "5.parquet" refl refl (append_cancel_left "bars/" _ _ e))
  bars_path-injective Timeframe.h4 Timeframe.h4 e =
      (append_cancel_right s t "/H4.parquet" (append_cancel_left "bars/" _ _ e), refl)
  bars_path-injective Timeframe.h4 Timeframe.d1 e =
      absurd
        (ends_apart "/H" "/D" "4.parquet" "1.parquet" refl refl (append_cancel_left "bars/" _ _ e))
  bars_path-injective Timeframe.d1 Timeframe.m15 e =
      absurd
        (ends_apart "/D" "/M1" "1.parquet" "5.parquet" refl refl (append_cancel_left "bars/" _ _ e))
  bars_path-injective Timeframe.d1 Timeframe.h4 e =
      absurd
        (ends_apart "/D" "/H" "1.parquet" "4.parquet" refl refl (append_cancel_left "bars/" _ _ e))
  bars_path-injective Timeframe.d1 Timeframe.d1 e =
      (append_cancel_right s t "/D1.parquet" (append_cancel_left "bars/" _ _ e), refl)

  -- two paths are equal just where the symbol and the timeframe are
  pub bars_path_same :
      (a b : Timeframe)
      → str_eq (bars_path s a) (bars_path t b)
        ≡ (str_eq s t && str_eq (timeframe_value a) (timeframe_value b))
  bars_path_same a b = elim (Bool-cases (str_eq (bars_path s a) (bars_path t b))) [
    | inl e ↦
        let (here, same) =
          bars_path-injective a b ((str_eq_iff (bars_path s a) (bars_path t b)).0 e) in
        ground (
          arith,
          e,
          (str_eq_iff s t).1 here,
          (str_eq_iff (timeframe_value a) (timeframe_value b)).1 same,
        )
    | inr e ↦ elim (Bool-cases (str_eq s t)) [
      | inr d ↦ ground (arith, e, d)
      | inl here ↦ elim (Bool-cases (str_eq (timeframe_value a) (timeframe_value b))) [
        | inr d ↦ ground (arith, e, d)
        | inl same ↦
            let path : bars_path s a ≡ bars_path t b =
              ap (λ x. bars_path x a) ((str_eq_iff s t).0 here)
              ∙ ap (λ v. "bars/" ++ (t ++ ("/" ++ (v ++ ".parquet"))))
                  ((str_eq_iff (timeframe_value a) (timeframe_value b)).0 same) in
            absurd (cc (e, (str_eq_iff (bars_path s a) (bars_path t b)).1 path))
      ]
    ]
  ]
