-- ===== src/SimQueue/Invariant.antt =====
-- The representation invariant of `SimQueue`: paired deques and a bounded occupancy, kept by
-- every operation. Under it no assertion inside `Work` fails.
use linx_model.Base.{
  ℕ, suc, ◌+◌, ◌≤◌, ◌<◌, ◌≡◌, Bool, true, false, ◌||◌, some, List, [], ◌∷◌, ◌++◌, map, ltb, ◌==◌,
  if◌then◌else◌, length, take, drop, length-append, length-take-drop, length-drop, length-map,
  append-nil, append_assoc, arith,
}
use linx_model.SimQueue.{
  SimQueue, Promotion, tick, settle, promote, work, write, read, read_from, full,
}

pub record IsValid {ℓ} {A : Type ℓ} (q : SimQueue A) : Type 0 where
  pub paired : length q.write_q ≡ length q.delay_q
  pub bounded : length q.read_q + length q.write_q ≤ q.max_q_size
  pub positive : 0 < q.max_q_size

-- How many entries at the front have no delay left.
abbrev pub due : List ℕ → ℕ
due [] = 0
due (d ∷ ds) = if d == 0 then suc (due ds) else 0

module _ {ℓ} {A : Type ℓ} where
  abbrev pub promotion : List A → List ℕ → List A → Bool → Promotion A
  promotion ws ds rs p = record {
    writes = drop (due ds) ws;
    delays = drop (due ds) ds;
    reads = rs ++ take (due ds) ws;
    promoted = p || ltb 0 (due ds);
  }

  -- The loop of `Work` in closed form: on paired queues it moves the due prefix.
  pub promote-promotion :
      (ws : List A) (ds : List ℕ) (rs : List A) (p : Bool)
      → length ws ≡ length ds
      → promote ws ds rs p ≡ some (promotion ws ds rs p)
  unfolding promote
  promote-promotion [] [] rs p h = ground (arith, append-nil rs)
  promote-promotion [] (d ∷ ds) rs p h = absurd (omega arith)
  promote-promotion (w ∷ ws) [] rs p h = absurd (omega arith)
  promote-promotion (w ∷ ws) (d ∷ ds) rs p h = ground (
    arith,
    promote-promotion ws ds (rs ++ w ∷ []) true,
    append_assoc rs (w ∷ []) (take (due ds) ws),
    append-nil rs,
  )

  -- One cycle of a queue that is not stalled.
  abbrev pub worked : SimQueue A → SimQueue A
  worked q = settle q (promotion q.write_q (map tick q.delay_q) q.read_q false)

  pub work-worked :
      (q : SimQueue A)
      → length q.write_q ≡ length q.delay_q
      → work q ≡ some (if q.stalled then q else worked q)
  unfolding work
  work-worked q h = ground (
    arith,
    promote-promotion q.write_q (map tick q.delay_q) q.read_q false,
    length-map tick q.delay_q,
  )

  pub worked-IsValid : {q : SimQueue A} → IsValid q → IsValid (worked q)
  worked-IsValid {q} v =
      let k = due (map tick q.delay_q) in
      record {
        paired = omega (
          arith,
          length-drop k q.write_q,
          length-drop k (map tick q.delay_q),
          length-map tick q.delay_q,
        );
        bounded =
            omega (arith, length-append q.read_q (take k q.write_q), length-take-drop k q.write_q);
        positive = v.positive;
      }

  -- `Work` never fails an assertion on a valid queue, and leaves it valid.
  pub work-IsValid :
      {q : SimQueue A} → IsValid q → (q' : SimQueue A) × (work q ≡ some q') × IsValid q'
  work-IsValid {q} v =
      (if q.stalled then q else worked q, work-worked q v.paired, ground (arith, worked-IsValid v))

  -- A successful `Write` keeps the invariant.
  pub write-IsValid :
      (q : SimQueue A) (a : A) (q' : SimQueue A) → IsValid q → write q a ≡ some q' → IsValid q'
  unfolding write full
  write-IsValid q a q' v h =
      ground (arith, length-append q.write_q (a ∷ []), length-append q.delay_q (q.latency ∷ []))

  -- A successful `Read` keeps the invariant.
  pub read-IsValid : {q q' : SimQueue A} {a : A} → IsValid q → read q ≡ some (a, q') → IsValid q'
  unfolding read
  read-IsValid {q} v h = read_from-IsValid q q.read_q v.paired v.bounded v.positive h
    where
      read_from-IsValid :
          (p : SimQueue A) (rs : List A) {a : A} {q' : SimQueue A}
          → length p.write_q ≡ length p.delay_q
          → length rs + length p.write_q ≤ p.max_q_size
          → 0 < p.max_q_size
          → read_from p rs ≡ some (a, q')
          → IsValid q'
      read_from-IsValid p [] x y z e = cc
      read_from-IsValid p (r ∷ rs) x y z e = ground arith
