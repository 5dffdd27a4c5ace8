-- ===== src/Risk/Allocation/Session.antt =====
-- A session of allocations leaves no trace after a reset.
use aura_x.Prelude.{
  ℕ, ◌≡◌, refl, ap, ◌∙◌, true, Option, none, some, List, [], ◌∷◌, length, Result, Float, Bool-cases,
  inl, inr,
}
use aura_x.Risk.Allocation.{
  AllocationConfig, Vectors, Step, Policy, Allocator, fit, same_count, allocate_with, allocate,
  reset_with, reset,
}

module _ {ℓ κ μ} {F : Type ℓ} {P : Type κ} {G : Type μ} ⦃f : Float F⦄ (np : Vectors F)
    (policy : Policy F P G) (cfg : AllocationConfig F) where
  -- a session of calls of `allocate`: their answers, errors included, and the allocator
  pub session :
      List (List F × List (List F)) → Allocator F P → List (Result (List F)) × Allocator F P
  session [] a = ([], a)
  session ((expected, covariance) ∷ calls) a =
      let (answer, b) = allocate np policy cfg expected covariance a in
      let (answers, c) = session calls b in (answer ∷ answers, c)

  -- a fit allocator's count of instruments decides whether it takes a call
  reset_with-counted :
      (k : ℕ) (o : Option ℕ) (a : Allocator F P) (weights : List F)
      → same_count np policy cfg k o ≡ true
      → reset_with o (record a { prev_weights = some weights }) ≡ reset_with o a
  reset_with-counted k none a weights h = absurd cc
  reset_with-counted k (some n) a weights h = refl

  reset-allocate_with :
      (model : Option P) (expected : List F) (covariance : List (List F)) (a : Allocator F P)
      → reset (allocate_with np policy cfg model expected covariance a).1 ≡ reset a
  unfolding reset
  reset-allocate_with none expected covariance a = refl
  reset-allocate_with (some model) expected covariance a =
      elim (Bool-cases (same_count np policy cfg (length expected) a.n_instruments)) [
        | inr e ↦ rw e refl
        | inl e ↦ rw e (reset_with-counted (length expected) a.n_instruments a _ e)
      ]

  reset-allocate :
      (expected : List F) (covariance : List (List F)) (a : Allocator F P)
      → reset (allocate np policy cfg expected covariance a).1 ≡ reset a
  unfolding allocate
  reset-allocate expected covariance a = reset-allocate_with a.actor expected covariance a

  reset-fit :
      (k n_updates : ℕ) (steps : List (Step F)) (g : G)
      → let fitted = (fit np policy cfg k steps n_updates g).0 in reset fitted ≡ fitted
  unfolding reset fit
  reset-fit k n_updates steps g = refl

  reset-session :
      (calls : List (List F × List (List F))) (a : Allocator F P)
      → reset (session calls a).1 ≡ reset a
  unfolding session
  reset-session [] a = refl
  reset-session ((expected, covariance) ∷ calls) a =
      reset-session calls (allocate np policy cfg expected covariance a).1
      ∙ reset-allocate expected covariance a

  -- After `fit`, whatever the policy and its update are, any session of `allocate` calls and then a
  -- `reset` leaves the allocator that `fit` returned: the session that follows, answers and errors,
  -- is the one that a freshly fitted allocator would give.
  pub session_forgotten :
      (k n_updates : ℕ) (steps : List (Step F)) (g : G) (calls next : List (List F × List (List F)))
      → let fitted = (fit np policy cfg k steps n_updates g).0 in
        (reset (session calls fitted).1 ≡ fitted)
        × (session next (reset (session calls fitted).1) ≡ session next fitted)
  session_forgotten k n_updates steps g calls next =
      let fitted = (fit np policy cfg k steps n_updates g).0 in
      let same = reset-session calls fitted ∙ reset-fit k n_updates steps g in
      (same, ap (session next) same)
