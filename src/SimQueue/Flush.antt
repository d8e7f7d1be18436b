-- ===== src/SimQueue/Flush.antt =====
-- `FlushIf`: what it removes and keeps, and how the epoch tells readers of a change.
use linx_model.Base.{
  ℕ, ◌+◌, ◌-◌, ◌≤◌, ◌≡◌, refl, ◌↔◌, Bool, not, some, List, [], ◌∷◌, map, ltb, if◌then◌else◌, length,
  take, keep_if, length-keep_if-le, length-append, length-take-drop, length-drop, length-map, ap,
  arith, Bool-cases, inl, inr,
}
use linx_model.SimQueue.{
  SimQueue, Flushed, tick, next_epoch, flush_writes, flush_reads, flush_if, work,
}
use linx_model.SimQueue.Invariant.{IsValid, due, work-worked}

-- The write side: each entry with its delay.
abbrev pub pairs {ℓ} : {A : Type ℓ} → List A → List ℕ → List (A × ℕ)
pairs [] ds = []
pairs (w ∷ ws) [] = []
pairs (w ∷ ws) (d ∷ ds) = (w, d) ∷ pairs ws ds

module _ {ℓ} {A : Type ℓ} (matches : A → Bool) where
  abbrev pub kept : List A → List A
  kept = keep_if (λ a. not (matches a))

  -- The delays of the entries that are kept.
  abbrev pub kept_delays : List A → List ℕ → List ℕ
  kept_delays [] ds = ds
  kept_delays (w ∷ ws) [] = []
  kept_delays (w ∷ ws) (d ∷ ds) = if matches w then kept_delays ws ds else d ∷ kept_delays ws ds

  abbrev flushed : List A → List ℕ → Flushed A
  flushed ws ds = record {
    writes = kept ws;
    delays = kept_delays ws ds;
    removed = length ws - length (kept ws);
  }

  flush_writes-flushed :
      (ws : List A) (ds : List ℕ)
      → length ws ≡ length ds
      → flush_writes matches ws ds ≡ some (flushed ws ds)
  unfolding flush_writes
  flush_writes-flushed [] ds h = refl
  flush_writes-flushed (w ∷ ws) [] h = absurd (omega arith)
  flush_writes-flushed (w ∷ ws) (d ∷ ds) h =
      ground (arith, flush_writes-flushed ws ds, length-keep_if-le (λ a. not (matches a)) ws)

  flush_reads-kept :
      (rs : List A)
      → ((flush_reads matches rs).0 ≡ kept rs)
        × ((flush_reads matches rs).1 + length (kept rs) ≡ length rs)
  unfolding flush_reads
  flush_reads-kept [] = (refl, omega arith)
  flush_reads-kept (r ∷ rs) = ground (arith, flush_reads-kept rs)

  length-kept_delays :
      (ws : List A) (ds : List ℕ)
      → length ws ≡ length ds
      → length (kept ws) ≡ length (kept_delays ws ds)
  length-kept_delays [] ds h = h
  length-kept_delays (w ∷ ws) [] h = absurd (omega arith)
  length-kept_delays (w ∷ ws) (d ∷ ds) h = ground (arith, length-kept_delays ws ds)

  pairs-kept :
      (ws : List A) (ds : List ℕ)
      → length ws ≡ length ds
      → pairs (kept ws) (kept_delays ws ds) ≡ keep_if (λ p. not (matches p.0)) (pairs ws ds)
  pairs-kept [] ds h = refl
  pairs-kept (w ∷ ws) [] h = absurd (omega arith)
  pairs-kept (w ∷ ws) (d ∷ ds) h = elim (Bool-cases (matches w)) [
    | inl e ↦ rw e (pairs-kept ws ds (omega arith))
    | inr e ↦ rw e (ap (◌∷◌ (w, d)) (pairs-kept ws ds (omega arith)))
  ]

  abbrev flush_result : SimQueue A → SimQueue A
  flush_result q = record q {
    write_q = kept q.write_q;
    delay_q = kept_delays q.write_q q.delay_q;
    read_q = (flush_reads matches q.read_q).0;
    visible_epoch =
        if ltb 0 (flush_reads matches q.read_q).1
        then next_epoch q.visible_epoch
        else q.visible_epoch;
  }

  flush_if-result :
      (q : SimQueue A)
      → IsValid q
      → flush_if matches q
        ≡ some (
          length q.write_q - length (kept q.write_q) + (flush_reads matches q.read_q).1,
          flush_result q,
        )
  unfolding flush_if
  flush_if-result q v =
      rw (flush_writes-flushed q.write_q q.delay_q v.paired, flush_if)
        (ground (arith, length-kept_delays q.write_q q.delay_q v.paired))

  -- What `FlushIf` returns and leaves.
  pub record Flushes (q : SimQueue A) (removed : ℕ) (q' : SimQueue A) : Type ℓ where
    pub reads : q'.read_q ≡ kept q.read_q
    pub in_flight :
        pairs q'.write_q q'.delay_q ≡ keep_if (λ p. not (matches p.0)) (pairs q.write_q q.delay_q)
    pub count :
        removed + (length q'.read_q + length q'.write_q) ≡ length q.read_q + length q.write_q
    pub epoch : (q'.visible_epoch ≡ q.visible_epoch) ↔ (length q'.read_q ≡ length q.read_q)
    pub valid : IsValid q'

  -- On a valid queue `FlushIf` fails no assertion: it removes exactly the matching entries from
  -- both sides, each with its own delay, keeps the order of the others, returns the number
  -- removed, bumps the visible epoch exactly when the read side lost an entry, and keeps the
  -- invariant.
  pub flush_if-Flushes :
      (q : SimQueue A)
      → IsValid q
      → (removed : ℕ) × (q' : SimQueue A) × (flush_if matches q ≡ some (removed, q'))
        × Flushes q removed q'
  flush_if-Flushes q v =
      let reads = flush_reads-kept q.read_q in
      let fewer = length-keep_if-le (λ a. not (matches a)) q.write_q in
      (
        _,
        flush_result q,
        flush_if-result q v,
        record {
          reads = reads.0;
          in_flight = pairs-kept q.write_q q.delay_q v.paired;
          count = omega (arith, reads.1, ap length reads.0, fewer);
          epoch = ground (arith, reads.1, ap length reads.0);
          valid = record {
            paired = length-kept_delays q.write_q q.delay_q v.paired;
            bounded = omega (arith, reads.1, ap length reads.0, fewer);
            positive = v.positive;
          };
        },
      )

due-le-length : (ds : List ℕ) → due ds ≤ length ds
due-le-length [] = omega arith
due-le-length (d ∷ ds) = ground (arith, due-le-length ds)

module _ {ℓ} {A : Type ℓ} where
  -- `Work` on a valid queue bumps the visible epoch exactly when it makes an entry readable.
  pub work-epoch :
      (q q' : SimQueue A)
      → IsValid q
      → work q ≡ some q'
      → (q'.visible_epoch ≡ q.visible_epoch) ↔ (length q'.read_q ≡ length q.read_q)
  work-epoch q q' v h =
      let ds = map tick q.delay_q in
      ground (
        arith,
        work-worked q v.paired,
        due-le-length ds,
        length-map tick q.delay_q,
        length-drop (due ds) q.write_q,
        length-take-drop (due ds) q.write_q,
        length-append q.read_q (take (due ds) q.write_q),
      )
