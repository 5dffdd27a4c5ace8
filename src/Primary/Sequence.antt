-- ===== src/Primary/Sequence.antt =====
-- `SequenceSideModel` of src/aurax/l3_primary/deep.py: the windows, the split in time, the loop with its
-- early stopping, and the probabilities. The network, its optimiser and its shuffles are an interface.
use aura_x.Prelude.{
  ℕ, zero, suc, ◌-◌, max, ltb, leb, Option, none, some, List, [], ◌∷◌, map, length, take, drop,
  get_elem?, zip_with, Result, ok, Error, ◌>>=◌, ◌>>◌, raise_if, or_raise, Float, ◌⊕◌, ◌⊖◌, ◌⊗◌,
  ◌⊘◌, nought, unit, fmax, if◌then◌else◌,
}
use aura_x.Prelude.Int.{ℤ, pos, pos_part}
use aura_x.Primary.{Proba, encode_labels, align_row, make_sequences}
use aura_x.Primary.Members.{classes_of, beside}
use aura_x.Meta.Gated.{eq_ℤ}
use aura_x.Meta.Logistic.{Matrices}

pub record SequenceConfig {ℓ} (F : Type ℓ) : Type ℓ where
  pub lookback : ℕ
  pub epochs : ℕ
  pub patience : ℕ
  pub val_frac : F

-- a window with the position of its class and its weight
pub record Sample {ℓ} (F : Type ℓ) : Type ℓ where
  pub window : List (List F)
  pub target : ℕ
  pub weight : F

-- PyTorch: a network of a number of features and of classes, an epoch over the samples, the weighted
-- mean of the losses, and the probabilities of a window
pub record Network {ℓ} (F N : Type ℓ) : Type ℓ where
  pub build : ℕ → ℕ → N
  pub train_epoch : List (Sample F) → N → N
  pub mean_loss : List (Sample F) → N → F
  pub probabilities : N → List (List F) → List F

-- `best_val`, `best_state` and `bad`
pub record Best {ℓ} (F N : Type ℓ) : Type ℓ where
  pub best_val : F
  pub best_state : Option N
  pub bad : ℕ

pub record SequenceModel {ℓ} (F N : Type ℓ) : Type ℓ where
  pub mean : List F
  pub std : List F
  pub classes : List ℤ
  pub net : N

-- `cls_idx[v]`
abbrev pub class_index : List ℤ → ℤ → ℕ
class_index [] v = 0
class_index (c ∷ classes) v = let rest = suc (class_index classes v) in if eq_ℤ c v then 0 else rest

-- the values at the ends of the windows
abbrev pub at_ends {ℓ κ} : {A : Type ℓ} {B : Type κ} → List B → List (A × ℕ) → Result (List B)
at_ends ys [] = ok []
at_ends ys ((window, i) ∷ seqs) =
    or_raise (get_elem? ys i) Error.index_error
    >>= (λ y. at_ends ys seqs >>= (λ rest. ok (y ∷ rest)))

module _ {ℓ} {F : Type ℓ} ⦃f : Float F⦄ where
  -- `_standardize_windows`
  unfoldable pub standardize_windows :
      Matrices F → List F → List F → ℕ → List (List F) → List (List (List F) × ℕ)
  standardize_windows np mean std lookback xs =
      make_sequences (map np.nan_to_num)
        (map (λ x. zip_with f.div (zip_with f.sub (map np.nan_to_num x) mean) std) xs) lookback

  abbrev pub samples_of : List (List (List F) × ℕ) → List ℕ → List F → List (Sample F)
  samples_of [] ys ws = []
  samples_of (s ∷ seqs) [] ws = []
  samples_of (s ∷ seqs) (y ∷ ys) [] = []
  samples_of (s ∷ seqs) (y ∷ ys) (w ∷ ws) =
      record { window = s.0; target = y; weight = w } ∷ samples_of seqs ys ws

  -- the weights of the windows, ones where none are given
  abbrev pub window_weights : List (List (List F) × ℕ) → Option (List F) → Result (List F)
  window_weights seqs none = ok (map (λ s. unit) seqs)
  window_weights seqs (some w) = at_ends w seqs >>= (λ ws. ok (map (λ v. fmax v nought) ws))

  -- a row without a full window has a third for each class
  abbrev pub third : Proba F
  third = let t = unit ⊘ f.lit 3 0 in record { p_down = t; p_flat = t; p_up = t }

  -- `fillna`: a NaN, which does not equal itself, is a third
  abbrev pub or_third : F → F
  or_third v = if f.eq v v then v else unit ⊘ f.lit 3 0

  abbrev pub filled : Proba F → Proba F
  filled p = record {
    p_down = or_third p.p_down;
    p_flat = or_third p.p_flat;
    p_up = or_third p.p_up;
  }

module _ {ℓ} {F N : Type ℓ} ⦃f : Float F⦄ where
  -- an epoch's verdict: a better network is kept, another one counts against the patience
  unfoldable pub judge : F → N → Best F N → Best F N
  judge val_loss net b =
      if f.lt val_loss (b.best_val ⊖ f.lit 1 5)
      then record { best_val = val_loss; best_state = some net; bad = 0 }
      else record b { bad = suc b.bad }

module _ {ℓ} {F N : Type ℓ} ⦃f : Float F⦄ (torch : Network F N) where
  -- the epochs that are left; the loop ends when the patience is used up
  unfoldable pub train_loop :
      ℕ → List (Sample F) → List (Sample F) → ℕ → N → Best F N → N × Best F N
  train_loop patience train val zero net b = (net, b)
  train_loop patience train val (suc n) net b =
      let next = torch.train_epoch train net in
      let judged = judge (torch.mean_loss val next) next b in
      let rest = train_loop patience train val n next judged in
      if ltb 0 judged.bad then if leb patience judged.bad then (next, judged) else rest else rest

  -- the best network, or the last one
  abbrev pub restored : N × Best F N → N
  restored (net, b) = elim b.best_state [ none ↦ net | some best ↦ best ]

  -- `fit`
  unfoldable pub sequence_fit :
      Matrices F
      → SequenceConfig F
      → ℕ
      → List (List F)
      → List ℤ
      → Option (List F)
      → Result (SequenceModel F N)
  sequence_fit np cfg width xs y sample_weight =
      let xv = map (map np.nan_to_num) xs in
      let mean = np.column_means xv in
      let std = map (λ s. s ⊕ f.lit 1 9) (np.column_stds xv) in
      let seqs = standardize_windows np mean std cfg.lookback xs in
      raise_if (ltb (length seqs) 10) Error.value_error
      >> (at_ends y seqs >>= (λ ends. encode_labels ends >>= (λ labels.
          window_weights seqs sample_weight >>= (λ ws.
            let classes = classes_of labels in
            let samples = samples_of seqs (map (class_index classes) labels) ws in
            let n_val = max 1 (pos_part (f.floor (f.of_int (pos (length seqs)) ⊗ cfg.val_frac))) in
            let cut = length seqs - n_val in
            let start : Best F N = record {
              best_val = nought ⊖ f.neg_inf;
              best_state = none;
              bad = 0;
            } in
            let trained =
              train_loop cfg.patience (take cut samples) (drop cut samples) cfg.epochs
                (torch.build width (length classes)) start in
            ok (record { mean = mean; std = std; classes = classes; net = restored trained })))))

  -- a row of the windows
  abbrev pub window_proba : SequenceModel F N → List (List F) → Result (Proba F)
  window_proba m window =
      align_row (beside m.classes (torch.probabilities m.net window))
        (record { p_down = nought; p_flat = nought; p_up = nought })
      >>= (λ p. ok (filled p))

  -- the rows from `i` on, `n` of them, with the windows that are left
  abbrev pub spread_windows :
      SequenceModel F N → ℕ → ℕ → List (List (List F) × ℕ) → Result (List (Proba F))
  spread_windows m i zero seqs = ok []
  spread_windows m i (suc n) [] = spread_windows m (suc i) n [] >>= (λ rest. ok (third ∷ rest))
  spread_windows m i (suc n) ((window, at) ∷ seqs) =
      let here =
        window_proba m window
        >>= (λ p. spread_windows m (suc i) n seqs >>= (λ rest. ok (p ∷ rest))) in
      let before =
        spread_windows m (suc i) n ((window, at) ∷ seqs) >>= (λ rest. ok (third ∷ rest)) in
      if ltb i at then before else here

  unfoldable pub sequence_predict_proba :
      Matrices F → SequenceConfig F → SequenceModel F N → List (List F) → Result (List (Proba F))
  sequence_predict_proba np cfg m xs =
      spread_windows m 0 (length xs) (standardize_windows np m.mean m.std cfg.lookback xs)
