-- ===== src/Emulator/Compare/Window.antt =====
-- What the windows of src/emulator/compare.cpp hold.
use linx_model.Base.{
  ℕ, zero, suc, ◌+◌, ◌-◌, ◌≤◌, ◌≡◌, Bool, true, false, none, some, List, [], ◌∷◌, ◌++◌, map, ltb,
  if◌then◌else◌, length, drop, length-append, length-drop, drop-drop, arith, refl, sym, ap, ◌∙◌,
  append-nil, append_assoc, Bool-cases, inl, inr,
}
use linx_model.Emulator.Compare.{
  CompareHarness, CompareMismatch, make_harness, pop_excess, push_window, push, pushes,
}

module _ {R : Type 0} where
  -- The last entries, as many as the window holds.
  abbrev pub last_of : ℕ → List R → List R
  last_of w xs = drop (length xs - w) xs

  drop-append : (n : ℕ) (xs ys : List R) → n ≤ length xs → drop n (xs ++ ys) ≡ drop n xs ++ ys
  drop-append zero xs ys h = refl
  drop-append (suc n) [] ys h = absurd (omega arith)
  drop-append (suc n) (x ∷ xs) ys h = drop-append n xs ys (omega arith)

  drop-nil : (n : ℕ) → drop {A = R} n [] ≡ []
  drop-nil zero = refl
  drop-nil (suc n) = refl

  pop_excess-last_of : (w : ℕ) (xs : List R) → pop_excess w xs ≡ last_of w xs
  unfolding pop_excess
  pop_excess-last_of w [] = sym (drop-nil (zero - w))
  pop_excess-last_of w (x ∷ xs) = elim (Bool-cases (ltb w (length (x ∷ xs)))) [
    | inl more ↦
        let one : suc (length xs) - w ≡ suc (length xs - w) = ground (arith, more) in
        ground (arith, more, pop_excess-last_of w xs, one)
    | inr fits ↦
        let none_left : suc (length xs) - w ≡ 0 = ground (arith, fits) in
        ground (arith, fits, none_left)
  ]

  -- A record pushed into a window of the last ones.
  push_window-last_of :
      (w : ℕ) (xs : List R) (x : R) → push_window w (last_of w xs) x ≡ last_of w (xs ++ x ∷ [])
  unfolding push_window
  push_window-last_of w xs x =
      let a : ℕ = length xs - w in
      let b : ℕ = length (drop a xs ++ x ∷ []) - w in
      let total : a + b ≡ length (xs ++ x ∷ []) - w =
        omega (
          arith,
          length-append (drop a xs) (x ∷ []),
          length-append xs (x ∷ []),
          length-drop a xs,
        ) in
      pop_excess-last_of w (drop a xs ++ x ∷ [])
      ∙ ap (drop b) (sym (drop-append a xs (x ∷ []) (omega arith)))
      ∙ drop-drop a b (xs ++ x ∷ [])
      ∙ ap (λ (n : ℕ). drop n (xs ++ x ∷ [])) total

module _ {R : Type 0} (equal_record : R → R → Bool) where
  -- The reference: the pairs up to the first that differs, it included, whether there is none, and
  -- what the calls return.
  abbrev pub compared : List (R × R) → List (R × R)
  compared [] = []
  compared ((ref, ca) ∷ rest) =
      if equal_record ref ca then (ref, ca) ∷ compared rest else (ref, ca) ∷ []

  abbrev pub all_agree : List (R × R) → Bool
  all_agree [] = true
  all_agree ((ref, ca) ∷ rest) = if equal_record ref ca then all_agree rest else false

  abbrev pub results_of : List (R × R) → List Bool
  results_of [] = []
  results_of ((ref, ca) ∷ rest) =
      if equal_record ref ca then true ∷ results_of rest else false ∷ map (λ p. false) rest

  -- A harness whose windows are the last of the records that it was pushed.
  abbrev pub harness_of : ℕ → List R → List R → Bool → CompareHarness R
  harness_of w refs cas agree = record {
    window_size = w;
    ref_window = last_of w refs;
    ca_window = last_of w cas;
    mismatch =
        if agree
        then none
        else some (record { ref_window = last_of w refs; ca_window = last_of w cas });
  }

  push-harness_of :
      (w : ℕ) (refs cas : List R) (ref ca : R)
      → push equal_record (harness_of w refs cas true) ref ca ≡ (
        equal_record ref ca,
        harness_of w (refs ++ ref ∷ []) (cas ++ ca ∷ []) (equal_record ref ca),
      )
  unfolding push
  push-harness_of w refs cas ref ca =
      rw (push_window-last_of w refs ref, push_window-last_of w cas ca) (both (equal_record ref ca))
    where
      both :
          (b : Bool)
          → let r : Bool × CompareHarness R =
              if b
              then (true, harness_of w (refs ++ ref ∷ []) (cas ++ ca ∷ []) true)
              else (false, harness_of w (refs ++ ref ∷ []) (cas ++ ca ∷ []) false) in
            r ≡ (b, harness_of w (refs ++ ref ∷ []) (cas ++ ca ∷ []) b)
      both true = refl
      both false = refl

  pushes-mismatch :
      (h : CompareHarness R) (m : CompareMismatch R) (ps : List (R × R))
      → h.mismatch ≡ some m
      → pushes equal_record h ps ≡ (map (λ p. false) ps, h)
  unfolding pushes push
  pushes-mismatch h m [] e = refl
  pushes-mismatch h m (p ∷ ps) e = ground (arith, e, pushes-mismatch h m ps e)

  -- What a comparison that starts at a harness of some records leaves.
  abbrev outcome_of : ℕ → List R → List R → List (R × R) → List Bool × CompareHarness R
  outcome_of w refs cas ps = (
    results_of ps,
    harness_of w (refs ++ map (λ p. p.0) (compared ps)) (cas ++ map (λ p. p.1) (compared ps))
        (all_agree ps),
  )

  pushes-step :
      (h h' : CompareHarness R) (ref ca : R) (b : Bool) (ps : List (R × R))
      → push equal_record h ref ca ≡ (b, h')
      → pushes equal_record h ((ref, ca) ∷ ps)
        ≡ (b ∷ (pushes equal_record h' ps).0, (pushes equal_record h' ps).1)
  unfolding pushes
  pushes-step h h' ref ca b ps e =
      λ k. ((e k).0 ∷ (pushes equal_record (e k).1 ps).0, (pushes equal_record (e k).1 ps).1)

  pushes-outcome_of :
      (w : ℕ) (refs cas : List R) (ps : List (R × R))
      → pushes equal_record (harness_of w refs cas true) ps ≡ outcome_of w refs cas ps
  unfolding pushes
  pushes-outcome_of w refs cas [] =
      λ k. ([], harness_of w (sym (append-nil refs) k) (sym (append-nil cas) k) true)
  pushes-outcome_of w refs cas ((ref, ca) ∷ ps) =
      pushes-step (harness_of w refs cas true) _ ref ca _ ps (push-harness_of w refs cas ref ca)
      ∙ go (pushes-outcome_of w (refs ++ ref ∷ []) (cas ++ ca ∷ []) ps) (equal_record ref ca)
    where
      refs' : List R
      refs' = refs ++ ref ∷ []

      cas' : List R
      cas' = cas ++ ca ∷ []

      go :
          (rest : pushes equal_record (harness_of w refs' cas' true) ps
            ≡ outcome_of w refs' cas' ps)
          (b : Bool)
          → let next = pushes equal_record (harness_of w refs' cas' b) ps in
            let pairs : List (R × R) = if b then (ref, ca) ∷ compared ps else (ref, ca) ∷ [] in
            let results : List Bool =
              if b then true ∷ results_of ps else false ∷ map (λ p. false) ps in
            let agree : Bool = if b then all_agree ps else false in
            let left : List Bool × CompareHarness R = (b ∷ next.0, next.1) in
            left ≡ (
              results,
              harness_of w (refs ++ map (λ p. p.0) pairs) (cas ++ map (λ p. p.1) pairs) agree,
            )
      go rest true = (λ k. (true ∷ (rest k).0, (rest k).1)) ∙ (λ k. (
        true ∷ results_of ps,
        harness_of w (append_assoc refs (ref ∷ []) (map (λ p. p.0) (compared ps)) k)
            (append_assoc cas (ca ∷ []) (map (λ p. p.1) (compared ps)) k) (all_agree ps),
      ))
      go rest false =
          let stuck = pushes-mismatch (harness_of w refs' cas' false) _ ps refl in
          λ k. (false ∷ (stuck k).0, (stuck k).1)

  -- A comparison of two traces from a fresh harness returns true up to the first pair of records
  -- that differ and false from there on; it reports a mismatch exactly if there is such a pair;
  -- and its windows, and those of the mismatch, are the last records up to that pair, as many as
  -- the window size.
  pub pushes-compared :
      (w : ℕ) (ps : List (R × R))
      → pushes equal_record (make_harness w) ps ≡ (
        results_of ps,
        harness_of w (map (λ p. p.0) (compared ps)) (map (λ p. p.1) (compared ps)) (all_agree ps),
      )
  unfolding make_harness
  pushes-compared w ps =
      (λ k.
        pushes equal_record
          (record {
            window_size = w;
            ref_window = sym (drop-nil (0 - w)) k;
            ca_window = sym (drop-nil (0 - w)) k;
            mismatch = none;
          })
          ps)
      ∙ pushes-outcome_of w [] [] ps
