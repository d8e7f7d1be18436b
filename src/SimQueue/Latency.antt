-- ===== src/SimQueue/Latency.antt =====
-- When an entry becomes readable: what any number of `Work` calls moves to the read side.
use linx_model.Base.{
  ℕ, zero, suc, ◌+◌, max, ◌≡◌, refl, Bool, true, false, Option, none, some, List, [], ◌∷◌, ◌++◌,
  map, leb, if◌then◌else◌, length, take, drop, take-add, drop-drop, append-nil, append_assoc, ◌∙◌,
  sym, ap, subst, arith,
}
use linx_model.SimQueue.{SimQueue, tick, work, write, full}
use linx_model.SimQueue.Invariant.{IsValid, due, worked, work-worked, worked-IsValid, write-IsValid}

-- `n` cycles.
pub works {ℓ} : {A : Type ℓ} → ℕ → SimQueue A → Option (SimQueue A)
works zero q = some q
works (suc n) q = elim (work q) [ none ↦ none | some q' ↦ works n q' ]

-- How many entries at the front have a delay of at most `n`.
abbrev pub due_by : ℕ → List ℕ → ℕ
due_by n [] = 0
due_by n (d ∷ ds) = if leb d n then suc (due_by n ds) else 0

due-map-tick : (ds : List ℕ) → due (map tick ds) ≡ due_by 1 ds
due-map-tick [] = refl
due-map-tick (d ∷ ds) = ground (arith, due-map-tick ds)

due_by-map-tick : (n : ℕ) (ds : List ℕ) → due_by n (map tick ds) ≡ due_by (suc n) ds
due_by-map-tick n [] = refl
due_by-map-tick n (d ∷ ds) = ground (arith, due_by-map-tick n ds)

-- One cycle, and then `n` more.
due_by-suc :
    (n : ℕ) (ds : List ℕ)
    → due_by (suc n) ds ≡ due_by 1 ds + due_by n (drop (due_by 1 ds) (map tick ds))
due_by-suc n [] = refl
due_by-suc n (d ∷ ds) = ground (arith, due_by-suc n ds, due_by-map-tick n ds)

-- The entries that `n` cycles move: none without a cycle, also where a delay is 0.
abbrev pub due_after : ℕ → List ℕ → ℕ
due_after zero ds = 0
due_after (suc n) ds = due_by (suc n) ds

due_after-suc :
    (n : ℕ) (ds : List ℕ)
    → due (map tick ds) + due_after n (drop (due (map tick ds)) (map tick ds))
      ≡ due_after (suc n) ds
due_after-suc zero ds = omega (arith, due-map-tick ds)
due_after-suc (suc n) ds = rw due-map-tick (sym (due_by-suc (suc n) ds))

nil_of_length : (xs : List ℕ) → 0 ≡ length xs → xs ≡ []
nil_of_length [] h = refl
nil_of_length (x ∷ xs) h = absurd (omega arith)

module _ {ℓ} {A : Type ℓ} where
  -- The queue `q'` is `q` with the first `k` entries of its write side readable.
  pub record Moved (k : ℕ) (q q' : SimQueue A) : Type ℓ where
    pub reads : q'.read_q ≡ q.read_q ++ take k q.write_q
    pub writes : q'.write_q ≡ drop k q.write_q
    pub running : q'.stalled ≡ false
    pub valid : IsValid q'

  worked-Moved :
      {q : SimQueue A}
      → IsValid q
      → q.stalled ≡ false
      → Moved (due (map tick q.delay_q)) q (worked q)
  worked-Moved v h = record { reads = refl; writes = refl; running = h; valid = worked-IsValid v }

  Moved-trans : (j k : ℕ) {p q r : SimQueue A} → Moved j p q → Moved k q r → Moved (j + k) p r
  Moved-trans j k {p} {q} {r} a b = record {
    reads =
        b.reads
        ∙ rw (a.reads, a.writes)
            (append_assoc p.read_q (take j p.write_q) (take k (drop j p.write_q))
              ∙ ap (◌++◌ p.read_q) (sym (take-add j k p.write_q)));
    writes = b.writes ∙ rw a.writes (drop-drop j k p.write_q);
    running = b.running;
    valid = b.valid;
  }

  -- A running valid queue after any number of cycles: `Work` never fails, and exactly the entries
  -- whose delay, and that of every entry before them, is at most the number of cycles have moved,
  -- in order, to the back of the read side.
  pub works-Moved :
      (n : ℕ) {q : SimQueue A}
      → IsValid q
      → q.stalled ≡ false
      → (q' : SimQueue A) × (works n q ≡ some q') × Moved (due_after n q.delay_q) q q'
  unfolding works
  works-Moved zero {q} v h =
      (q, refl, record { reads = sym (append-nil q.read_q); writes = refl; running = h; valid = v })
  works-Moved (suc n) {q} v h =
      let first = worked-Moved v h in
      let (q', e, rest) = works-Moved n first.valid first.running in
      let once : work q ≡ some (worked q) = ground (arith, work-worked q v.paired) in
      (
        q',
        rw (once, works) e,
        subst (λ k. Moved k q q') (due_after-suc n q.delay_q) (Moved-trans _ _ first rest),
      )

  -- What `write` makes of the fields that `Work` reads.
  write_fields :
      (q : SimQueue A) (x : A) {q₁ : SimQueue A}
      → write q x ≡ some q₁
      → (q₁.read_q ≡ q.read_q)
        × (q₁.write_q ≡ q.write_q ++ x ∷ [])
        × (q₁.delay_q ≡ q.delay_q ++ q.latency ∷ [])
        × (q₁.stalled ≡ q.stalled)
        × (full q ≡ false)
  unfolding write full
  write_fields q x h = ground arith

  take-single : (b : Bool) (x : A) → take (if b then 1 else 0) (x ∷ []) ≡ (if b then x ∷ [] else [])
  take-single true x = refl
  take-single false x = refl

  take-due_after-single :
      (n lat : ℕ) (x : A)
      → take (due_after n (lat ∷ [])) (x ∷ []) ≡ (if leb (max 1 lat) n then x ∷ [] else [])
  take-due_after-single zero lat x = let late : leb (max 1 lat) 0 ≡ false = ground arith in rw late
  take-due_after-single (suc n) lat x =
      let same : leb lat (suc n) ≡ leb (max 1 lat) (suc n) = ground arith in
      rw same (take-single (leb (max 1 lat) (suc n)) x)

  -- An entry written with latency N into an idle write side of a running queue is readable after
  -- exactly N cycles, and after 1 where N is 0: after `n` cycles it is at the back of the read
  -- side if `max 1 N ≤ n`, and not there before.
  pub write-latency :
      (n : ℕ) (x : A) {q q₁ : SimQueue A}
      → IsValid q
      → q.stalled ≡ false
      → q.write_q ≡ []
      → write q x ≡ some q₁
      → (q₂ : SimQueue A) × (works n q₁ ≡ some q₂)
        × (q₂.read_q ≡ q.read_q ++ (if leb (max 1 q.latency) n then x ∷ [] else []))
  write-latency n x {q} {q₁} v run idle e =
      let (reads, writes, delays, stall, room) = write_fields q x e in
      let (q₂, done, moved) = works-Moved n (write-IsValid q x q₁ v e) (stall ∙ run) in
      let no_delays : q.delay_q ≡ [] = nil_of_length q.delay_q (ap length (sym idle) ∙ v.paired) in
      (
        q₂,
        done,
        moved.reads
            ∙ rw (reads, writes, delays, idle, no_delays)
                (ap (◌++◌ q.read_q) (take-due_after-single n q.latency x)),
      )
