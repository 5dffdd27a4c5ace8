-- ===== src/Regimes/Hmm/Optimal.antt =====
-- The path that `decode` returns against every path through the states.
use aura_x.Prelude.{
  ℕ, ◌≡◌, refl, sym, ap, ◌∙◌, subst, true, false, Option, none, some, List, [], ◌∷◌, map, get_elem?,
  zip_with, is_empty, All, Float, IsOrdered, ◌⊕◌, arith,
}
use aura_x.Regimes.Hmm.{Arrays}
use aura_x.Regimes.Hmm.Viterbi.{arrivals, viterbi_loop, backtrack, viterbi}
use aura_x.Regimes.Hmm.Paths.{
  AddsMonotone, IsNumber, IsFinite, IsFiniteRow, FindsGreatest, score_from, score, score_from_step,
  score_from-some, score_start, score-some, get_elem?-map, map-get_elem?, get_elem?-zip_with,
  zip_with-get_elem?, All-get_elem?,
}

module _ {ℓ} {F : Type ℓ} ⦃f : Float F⦄ (np : Arrays F) (o : IsOrdered F) (m : AddsMonotone F)
    (g : FindsGreatest np) (cols : List (List F)) (finite_cols : All IsFiniteRow cols)
    (some_state : is_empty cols ≡ false) where
  abbrev next_delta : List F → List F → List F
  next_delta em delta = zip_with ◌⊕◌ em (map np.amax (arrivals cols delta))

  arrival-Numbers :
      (delta col : List F)
      → All IsNumber delta
      → All IsFinite col
      → All IsNumber (zip_with ◌⊕◌ delta col)
  arrival-Numbers [] col n h = tt
  arrival-Numbers (d ∷ delta) [] n h = tt
  arrival-Numbers (d ∷ delta) (w ∷ col) (n, ns) (h, hs) =
      (m.add_right w d d h n, arrival-Numbers delta col ns hs)

  arrival_some :
      (delta col : List F)
      → is_empty delta ≡ false
      → is_empty col ≡ false
      → is_empty (zip_with ◌⊕◌ delta col) ≡ false
  arrival_some [] col h k = absurd cc
  arrival_some (d ∷ delta) [] h k = absurd cc
  arrival_some (d ∷ delta) (w ∷ col) h k = refl

  -- the greatest arrival is one, and a number
  amax-Number :
      (delta col : List F)
      → is_empty delta ≡ false
      → All IsNumber delta
      → IsFiniteRow col
      → IsNumber (np.amax (zip_with ◌⊕◌ delta col))
  amax-Number delta col h n (k, fs) =
      let numbers = arrival-Numbers delta col n fs in
      All-get_elem? IsNumber (zip_with ◌⊕◌ delta col) _ _ numbers
        (g.argmax-amax (zip_with ◌⊕◌ delta col) (arrival_some delta col h k) numbers)

  next-Numbers :
      (em delta : List F) (rest : List (List F))
      → All IsFinite em
      → is_empty delta ≡ false
      → All IsNumber delta
      → All IsFiniteRow rest
      → All IsNumber (zip_with ◌⊕◌ em (map np.amax (arrivals rest delta)))
  next-Numbers [] delta rest fe h n fr = tt
  next-Numbers (e ∷ em) delta [] fe h n fr = tt
  next-Numbers (e ∷ em) delta (col ∷ rest) (fe, fes) h n (fr, frs) =
      let best = np.amax (zip_with ◌⊕◌ delta col) in
      (
        m.add_left e best best fe (amax-Number delta col h n fr),
        next-Numbers em delta rest fes h n frs,
      )

  next_some :
      (em delta : List F) (rest : List (List F))
      → is_empty em ≡ false
      → is_empty rest ≡ false
      → is_empty (zip_with ◌⊕◌ em (map np.amax (arrivals rest delta))) ≡ false
  next_some [] delta rest h k = absurd cc
  next_some (e ∷ em) delta [] h k = absurd cc
  next_some (e ∷ em) delta (col ∷ rest) h k = refl

  -- No path scores more than the loop's values say, from where a state's value bounds its own.
  viterbi_loop_bounds :
      (log_em : List (List F)) (delta : List F) (psis : List (List ℕ)) (v d : F) (s : ℕ)
      (path : List ℕ) (u : F)
      → All IsFiniteRow log_em
      → is_empty delta ≡ false
      → All IsNumber delta
      → get_elem? delta s ≡ some d
      → f.le v d ≡ true
      → score_from cols v s log_em path ≡ some u
      → (s' : ℕ) × (d' : F) × (get_elem? (viterbi_loop np cols delta psis log_em).0 s' ≡ some d')
        × (f.le u d' ≡ true)
  unfolding viterbi_loop
  viterbi_loop_bounds [] delta psis v d s [] u fe h n at l e =
      (s, d, at, subst (λ x. f.le x d ≡ true) (ground (arith, e)) l)
  viterbi_loop_bounds [] delta psis v d s (s' ∷ path) u fe h n at l e = absurd cc
  viterbi_loop_bounds (em ∷ log_em) delta psis v d s [] u fe h n at l e = absurd cc
  viterbi_loop_bounds (em ∷ log_em) delta psis v d s (s' ∷ path) u ((some_em, fe), fes) h n at l e =
      let (col, w, x, c, cw, ex, rest) = score_from-some cols v s s' em log_em path u e in
      let arr = zip_with ◌⊕◌ delta col in
      let (some_col, fc) = All-get_elem? IsFiniteRow cols s' col finite_cols c in
      let fw = All-get_elem? IsFinite col s w fc cw in
      let fx = All-get_elem? IsFinite em s' x fe ex in
      let within = o.le_trans (v ⊕ w) (d ⊕ w) (np.amax arr) (m.add_right w v d fw l) (
        g.amax_greatest arr s (d ⊕ w) (arrival-Numbers delta col n fc)
          (get_elem?-zip_with ◌⊕◌ delta col s d w at cw)) in
      let there =
        get_elem?-map np.amax (arrivals cols delta) s' arr
          (get_elem?-map (zip_with ◌⊕◌ delta) cols s' col c) in
      viterbi_loop_bounds log_em (next_delta em delta) _ (x ⊕ (v ⊕ w)) (x ⊕ np.amax arr) s' path u
        fes (next_some em delta cols some_em some_state)
        (next-Numbers em delta cols fe h n finite_cols)
        (get_elem?-zip_with ◌⊕◌ em _ s' x (np.amax arr) ex there)
        (m.add_left x (v ⊕ w) (np.amax arr) fx within) rest

  -- Tracing back from a state of the loop's values gives a path that scores that value.
  viterbi_loop_traces :
      (whole log_em : List (List F)) (start delta : List F) (psis : List (List ℕ))
      → All IsFiniteRow log_em
      → is_empty delta ≡ false
      → All IsNumber delta
      → ((s : ℕ) (d : F)
          → get_elem? delta s ≡ some d
          → (path : List ℕ)
          → score cols start whole (backtrack s psis path) ≡ score_from cols d s log_em path)
      → (s : ℕ) (d : F) → get_elem? (viterbi_loop np cols delta psis log_em).0 s ≡ some d
      → score cols start whole (backtrack s (viterbi_loop np cols delta psis log_em).1 []) ≡ some d
  unfolding viterbi_loop backtrack
  viterbi_loop_traces whole [] start delta psis fe h n traces s d at = traces s d at []
  viterbi_loop_traces whole (em ∷ log_em) start delta psis ((some_em, fe), fes) h n traces last v
        end =
      viterbi_loop_traces whole log_em start (next_delta em delta) _ fes
        (next_some em delta cols some_em some_state) (next-Numbers em delta cols fe h n finite_cols)
        (λ s' d' at path.
          let (x, best, ex, there, value) =
            zip_with-get_elem? ◌⊕◌ em (map np.amax (arrivals cols delta)) s' d' at in
          let (arr, here, top) = map-get_elem? np.amax (arrivals cols delta) s' best there in
          let (col, c, made) = map-get_elem? (zip_with ◌⊕◌ delta) cols s' arr here in
          let (some_col, fc) = All-get_elem? IsFiniteRow cols s' col finite_cols c in
          let moved = zip_with ◌⊕◌ delta col in
          let r = np.argmax moved in
          let found =
            g.argmax-amax moved (arrival_some delta col h some_col)
              (arrival-Numbers delta col n fc) in
          let (d, w, dr, cw, sum) = zip_with-get_elem? ◌⊕◌ delta col r (np.amax moved) found in
          let back : get_elem? (map np.argmax (arrivals cols delta)) s' ≡ some r =
            get_elem?-map np.argmax (arrivals cols delta) s' moved
              (get_elem?-map (zip_with ◌⊕◌ delta) cols s' col c) in
          let same : x ⊕ (d ⊕ w) ≡ d' =
            ap (λ v. x ⊕ v) (sym sum ∙ ap np.amax (sym made) ∙ sym top) ∙ sym value in
          ap
            (λ (i : Option ℕ).
              score cols start whole
                (backtrack (elim i [ none ↦ 0 | some k ↦ k ]) psis (s' ∷ path)))
            back
          ∙ traces r d dr (s' ∷ path)
          ∙ score_from_step cols d r s' em log_em path col w x c cw ex
          ∙ ap (λ v. score_from cols v s' log_em path) same)
        last v end

  viterbi_loop-Numbers :
      (log_em : List (List F)) (delta : List F) (psis : List (List ℕ))
      → All IsFiniteRow log_em
      → is_empty delta ≡ false
      → All IsNumber delta
      → (is_empty (viterbi_loop np cols delta psis log_em).0 ≡ false)
        × All IsNumber (viterbi_loop np cols delta psis log_em).0
  unfolding viterbi_loop
  viterbi_loop-Numbers [] delta psis fe h n = (h, n)
  viterbi_loop-Numbers (em ∷ log_em) delta psis ((some_em, fe), fes) h n =
      viterbi_loop-Numbers log_em (next_delta em delta) _ fes
        (next_some em delta cols some_em some_state) (next-Numbers em delta cols fe h n finite_cols)

  start-Numbers :
      (start em : List F)
      → All IsFinite start
      → All IsFinite em
      → All IsNumber (zip_with ◌⊕◌ start em)
  start-Numbers [] em fs fe = tt
  start-Numbers (a ∷ start) [] fs fe = tt
  start-Numbers (a ∷ start) (e ∷ em) (fa, fs) (fe, fes) =
      (m.add_left a e e fa (m.finite_number e fe), start-Numbers start em fs fes)

  -- With finite emissions, transitions and start, and a state at least, the decoded path has a score,
  -- and no path through the states has a greater one.
  pub viterbi_optimal :
      (start em : List F) (log_em : List (List F)) (path : List ℕ) (u : F)
      → IsFiniteRow start
      → All IsFiniteRow (em ∷ log_em)
      → score cols start (em ∷ log_em) path ≡ some u
      → (best : F) × (score cols start (em ∷ log_em) (viterbi np cols start (em ∷ log_em))
          ≡ some best)
        × (f.le u best ≡ true)
  unfolding viterbi backtrack
  viterbi_optimal start em log_em [] u fs fe h = absurd cc
  viterbi_optimal start em log_em (s ∷ path) u (some_start, fs) ((some_em, fem), fes) h =
      let delta = zip_with ◌⊕◌ start em in
      let some_delta = arrival_some start em some_start some_em in
      let numbers = start-Numbers start em fs fem in
      let (a, e, c, d) = score-some cols start em log_em s path u h in
      let at = get_elem?-zip_with ◌⊕◌ start em s a e c d in
      let rest = sym (score_start cols start em log_em s path a e c d) ∙ h in
      let (s', v, reached, above) =
        viterbi_loop_bounds log_em delta [] (a ⊕ e) (a ⊕ e) s path u fes some_delta numbers at
          (All-get_elem? IsNumber delta s (a ⊕ e) numbers at) rest in
      let last = (viterbi_loop np cols delta [] log_em).0 in
      let (some_last, ns) = viterbi_loop-Numbers log_em delta [] fes some_delta numbers in
      (
        np.amax last,
        viterbi_loop_traces (em ∷ log_em) log_em start delta [] fes some_delta numbers
            (λ s d at path.
              let (x, y, cx, cy, sum) = zip_with-get_elem? ◌⊕◌ start em s d at in
              score_start cols start em log_em s path x y cx cy
              ∙ ap (λ v. score_from cols v s log_em path) (sym sum))
            (np.argmax last) (np.amax last) (g.argmax-amax last some_last ns),
        o.le_trans u v (np.amax last) above (g.amax_greatest last s' v ns reached),
      )
