-- ===== src/SimQueue.antt =====
-- include/linx/model/sim_queue.hpp: the latency-aware FIFO between modules.
pub mod Invariant
pub mod Fifo
pub mod Latency
pub mod Flush
pub mod Reserve
mod Tests
use linx_model.Base.{
  ℕ, ◌+◌, ◌-◌, ◌%◌, ◌^◌, Bool, true, false, Option, none, some, List, [], ◌∷◌, ◌++◌, map, ltb, leb,
  ◌==◌, if◌then◌else◌, length,
}

-- `delay_q` runs beside `write_q`. `none` is a failed LINX_MODEL_ASSERT (an exception).
pub record SimQueue {ℓ} (A : Type ℓ) : Type ℓ where
  pub max_q_size : ℕ
  pub write_q : List A
  pub read_q : List A
  pub delay_q : List ℕ
  pub latency : ℕ
  pub stalled : Bool
  pub visible_epoch : ℕ

-- `++visible_epoch_` on a `uint64_t`.
abbrev pub next_epoch : ℕ → ℕ
next_epoch e = (e + 1) % 2 ^ 64

-- One round of the delay loop of `Work`: `if (delay > 0) --delay`.
abbrev pub tick : ℕ → ℕ
tick d = if ltb 0 d then d - 1 else d

-- What the promotion loop of `Work` carries.
pub record Promotion {ℓ} (A : Type ℓ) : Type ℓ where
  pub writes : List A
  pub delays : List ℕ
  pub reads : List A
  pub promoted : Bool

module _ {ℓ} {A : Type ℓ} where
  unfoldable pub make : ℕ → ℕ → Option (SimQueue A)
  make max_size lat =
      if ltb 0 max_size
      then some (record {
        max_q_size = max_size;
        write_q = [];
        read_q = [];
        delay_q = [];
        latency = lat;
        stalled = false;
        visible_epoch = 0;
      })
      else none

  -- The `while` loop of `Work`, which asserts that the two queues keep their lengths.
  unfoldable pub promote : List A → List ℕ → List A → Bool → Option (Promotion A)
  promote [] ds rs p = some (record { writes = []; delays = ds; reads = rs; promoted = p })
  promote (w ∷ ws) [] rs p = none
  promote (w ∷ ws) (d ∷ ds) rs p =
      let rest = promote ws ds (rs ++ w ∷ []) true in
      if length (w ∷ ws) == length (d ∷ ds)
      then if d == 0
        then rest
        else some (record { writes = w ∷ ws; delays = d ∷ ds; reads = rs; promoted = p })
      else none

  -- The state after the loop.
  abbrev pub settle : SimQueue A → Promotion A → SimQueue A
  settle q p = record q {
    write_q = p.writes;
    delay_q = p.delays;
    read_q = p.reads;
    visible_epoch = if p.promoted then next_epoch q.visible_epoch else q.visible_epoch;
  }

  unfoldable pub work : SimQueue A → Option (SimQueue A)
  work q =
      if q.stalled then some q else elim (promote q.write_q (map tick q.delay_q) q.read_q false) [
        | none ↦ none
        | some p ↦ some (settle q p)
      ]

  unfoldable pub reset : SimQueue A → SimQueue A
  reset q = record q { write_q = []; read_q = []; delay_q = []; stalled = false; visible_epoch = 0 }

  pub set_latency : SimQueue A → ℕ → SimQueue A
  set_latency q lat = record q { latency = lat }

  pub set_stall : SimQueue A → Bool → SimQueue A
  set_stall q s = record q { stalled = s }

  pub occupancy : SimQueue A → ℕ
  occupancy q = length q.read_q + length q.write_q

  pub full : SimQueue A → Bool
  unfolding occupancy
  full q = leb q.max_q_size (occupancy q)

  -- `Full(reserve)` is the same call. A `size_type` of 64 bits wraps below 0.
  pub will_be_full : SimQueue A → ℕ → Bool
  unfolding occupancy
  will_be_full q reserve =
      if ltb q.max_q_size reserve
      then true
      else leb ((q.max_q_size + 2 ^ 64 - reserve) % 2 ^ 64) (occupancy q)

  pub write : SimQueue A → A → Option (SimQueue A)
  unfolding full
  write q a =
      if full q
      then none
      else some (record q { write_q = q.write_q ++ a ∷ []; delay_q = q.delay_q ++ q.latency ∷ [] })

  read_from : SimQueue A → List A → Option (A × SimQueue A)
  read_from q [] = none
  read_from q (a ∷ rest) =
      some (a, record q { read_q = rest; visible_epoch = next_epoch q.visible_epoch })

  pub read : SimQueue A → Option (A × SimQueue A)
  unfolding read_from
  read q = read_from q q.read_q

  pub front : SimQueue A → Option A
  front q = elim q.read_q [ [] ↦ none | a ∷ rest ↦ some a ]

  pub pop : SimQueue A → Option (SimQueue A)
  pop q = elim q.read_q [
    | [] ↦ none
    | a ∷ rest ↦ some (record q { read_q = rest; visible_epoch = next_epoch q.visible_epoch })
  ]

  pub is_empty : SimQueue A → Bool
  is_empty q = elim q.read_q [ [] ↦ true | a ∷ rest ↦ false ]

  pub init_max_size : SimQueue A → ℕ → Option (SimQueue A)
  unfolding occupancy
  init_max_size q max_size =
      if ltb 0 max_size
      then if leb (occupancy q) max_size then some (record q { max_q_size = max_size }) else none
      else none

-- What the write side of `FlushIf` leaves, with the number of entries removed.
pub record Flushed {ℓ} (A : Type ℓ) : Type ℓ where
  pub writes : List A
  pub delays : List ℕ
  pub removed : ℕ

module _ {ℓ} {A : Type ℓ} (matches : A → Bool) where
  abbrev keep_pair : A → ℕ → Option (Flushed A) → Option (Flushed A)
  keep_pair w d none = none
  keep_pair w d (some f) = some (record f { writes = w ∷ f.writes; delays = d ∷ f.delays })

  abbrev drop_pair : Option (Flushed A) → Option (Flushed A)
  drop_pair none = none
  drop_pair (some f) = some (record f { removed = f.removed + 1 })

  -- Both deques are erased at the same index; `none` where the delay deque ends too soon.
  pub flush_writes : List A → List ℕ → Option (Flushed A)
  flush_writes [] ds = some (record { writes = []; delays = ds; removed = 0 })
  flush_writes (w ∷ ws) [] = none
  flush_writes (w ∷ ws) (d ∷ ds) =
      let rest = flush_writes ws ds in if matches w then drop_pair rest else keep_pair w d rest

  -- The read side: what is left, and how many entries were removed.
  pub flush_reads : List A → List A × ℕ
  flush_reads [] = ([], 0)
  flush_reads (r ∷ rs) =
      let (kept, removed) = flush_reads rs in
      if matches r then (kept, removed + 1) else (r ∷ kept, removed)

  pub flush_if : SimQueue A → Option (ℕ × SimQueue A)
  unfolding flush_writes flush_reads
  flush_if q = elim (flush_writes q.write_q q.delay_q) [
    | none ↦ none
    | some f ↦
        if length f.writes == length f.delays
        then some (
          f.removed + (flush_reads q.read_q).1,
          record q {
            write_q = f.writes;
            delay_q = f.delays;
            read_q = (flush_reads q.read_q).0;
            visible_epoch =
                if ltb 0 (flush_reads q.read_q).1
                then next_epoch q.visible_epoch
                else q.visible_epoch;
          },
        )
        else none
  ]
