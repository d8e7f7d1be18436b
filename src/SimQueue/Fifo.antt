-- ===== src/SimQueue/Fifo.antt =====
-- The queue as a FIFO: over any schedule of calls, what comes out is what went in, in order.
use linx_model.Base.{
  ℕ, ◌≡◌, refl, Bool, Option, none, some, List, [], ◌∷◌, ◌++◌, map, append-nil, append_assoc, arith,
  true, false, Bool-cases, inl, inr, Option-cases,
}
use linx_model.SimQueue.{
  SimQueue, Promotion, tick, promote, work, write, read, read_from, set_stall, set_latency, full,
}

-- Everything in flight, oldest first.
abbrev pub contents {ℓ} : {A : Type ℓ} → SimQueue A → List A
contents q = q.read_q ++ q.write_q

pub data Call {ℓ} (A : Type ℓ) : Type ℓ where
  writes : A → Call A
  reads works : Call A
  stalls : Bool → Call A
  latencies : ℕ → Call A

module _ {ℓ} {A : Type ℓ} where
  -- No value read.
  abbrev silent : Option (SimQueue A) → Option (List A × SimQueue A)
  silent none = none
  silent (some q) = some ([], q)

  abbrev one_read : Option (A × SimQueue A) → Option (List A × SimQueue A)
  one_read none = none
  one_read (some (a, q)) = some (a ∷ [], q)

  -- One call, with the value that it reads.
  unfoldable pub step : SimQueue A → Call A → Option (List A × SimQueue A)
  step q (writes a) = silent (write q a)
  step q reads = one_read (read q)
  step q works = silent (work q)
  step q (stalls s) = some ([], set_stall q s)
  step q (latencies n) = some ([], set_latency q n)

  abbrev prepend : List A → Option (List A × SimQueue A) → Option (List A × SimQueue A)
  prepend out none = none
  prepend out (some (more, q)) = some (out ++ more, q)

  unfoldable pub run : SimQueue A → List (Call A) → Option (List A × SimQueue A)
  run q [] = some ([], q)
  run q (c ∷ cs) = elim (step q c) [ none ↦ none | some (out, q') ↦ prepend out (run q' cs) ]

  abbrev pub written : List (Call A) → List A
  written [] = []
  written (writes a ∷ cs) = a ∷ written cs
  written (c ∷ cs) = written cs

  promote-contents :
      (ws : List A) (ds : List ℕ) (rs : List A) (p : Bool) (r : Promotion A)
      → promote ws ds rs p ≡ some r
      → r.reads ++ r.writes ≡ rs ++ ws
  unfolding promote
  promote-contents [] ds rs p r h = ground arith
  promote-contents (w ∷ ws) [] rs p r h = cc
  promote-contents (w ∷ ws) (d ∷ ds) rs p r h =
      ground (arith, promote-contents ws ds (rs ++ w ∷ []) true r, append_assoc rs (w ∷ []) ws)

  work-contents : (q q' : SimQueue A) → work q ≡ some q' → contents q' ≡ contents q
  unfolding work
  work-contents q q' h = elim (Bool-cases q.stalled) [
    | inl e ↦ ground arith
    | inr e ↦ elim (Option-cases (promote q.write_q (map tick q.delay_q) q.read_q false)) [
      | inl none_left ↦ ground arith
      | inr (r, moved) ↦
          ground (arith, promote-contents q.write_q (map tick q.delay_q) q.read_q false r moved)
    ]
  ]

  read-contents :
      (q : SimQueue A) (a : A) (q' : SimQueue A)
      → read q ≡ some (a, q')
      → a ∷ contents q' ≡ contents q
  unfolding read read_from
  read-contents q a q' h = ground arith

  -- The value that a call reads, and what is left, make up what was there and what it wrote.
  step-contents :
      (q : SimQueue A) (c : Call A) (out : List A) (q' : SimQueue A)
      → step q c ≡ some (out, q')
      → out ++ contents q' ≡ contents q ++ written (c ∷ [])
  unfolding step set_stall set_latency write full
  step-contents q (writes a) out q' h = ground (arith, append_assoc q.read_q q.write_q (a ∷ []))
  step-contents q reads out q' h = elim (Option-cases (read q)) [
    | inl e ↦ ground arith
    | inr ((a, p), e) ↦ ground (arith, read-contents q a p e, append-nil (contents q))
  ]
  step-contents q works out q' h = elim (Option-cases (work q)) [
    | inl e ↦ ground arith
    | inr (p, e) ↦ ground (arith, work-contents q p e, append-nil (contents q))
  ]
  step-contents q (stalls s) out q' h = ground (arith, append-nil (contents q))
  step-contents q (latencies n) out q' h = ground (arith, append-nil (contents q))

  written-cons :
      (c : Call A) (cs : List (Call A)) → written (c ∷ cs) ≡ written (c ∷ []) ++ written cs
  written-cons (writes a) cs = refl
  written-cons reads cs = refl
  written-cons works cs = refl
  written-cons (stalls s) cs = refl
  written-cons (latencies n) cs = refl

  -- Over any schedule of writes, reads, cycles, stalls and latency changes that completes, the
  -- values read followed by those still in flight are the values in flight at the start followed
  -- by those written, in order: nothing is lost, doubled, made up or overtaken.
  pub run-contents :
      (cs : List (Call A)) (q : SimQueue A) (out : List A) (q' : SimQueue A)
      → run q cs ≡ some (out, q')
      → out ++ contents q' ≡ contents q ++ written cs
  unfolding run
  run-contents [] q out q' h = ground (arith, append-nil (contents q))
  run-contents (c ∷ cs) q out q' h = elim (Option-cases (step q c)) [
    | inl e ↦ ground arith
    | inr ((o₁, q₁), e) ↦ elim (Option-cases (run q₁ cs)) [
      | inl e' ↦ ground arith
      | inr ((o₂, q₂), e') ↦ ground (
        arith,
        step-contents q c o₁ q₁ e,
        run-contents cs q₁ o₂ q₂ e',
        written-cons c cs,
        append_assoc o₁ o₂ (contents q₂),
        append_assoc o₁ (contents q₁) (written cs),
        append_assoc (contents q) (written (c ∷ [])) (written cs),
      )
    ]
  ]
