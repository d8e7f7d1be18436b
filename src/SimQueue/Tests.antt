-- ===== src/SimQueue/Tests.antt =====
-- Concrete runs of the queue, and the theorems on them.
use linx_model.Base.{ℕ, ◌≡◌, ◌↔◌, refl, true, false, some, none, [], ◌∷◌, ◌++◌, ltb, arith}
use linx_model.SimQueue.{SimQueue, promote, work, flush_if, write, read, will_be_full}
use linx_model.SimQueue.Invariant.{IsValid}
use linx_model.SimQueue.Reserve.{write_all, will_be_full-write_all}
use linx_model.SimQueue.Fifo.{writes, reads, works, contents, run, step, run-contents}
use linx_model.SimQueue.Latency
use linx_model.SimQueue.Latency.{Moved, due_after, works-Moved, write-latency}
use linx_model.SimQueue.Flush.{Flushes, flush_if-Flushes, work-epoch}

abbrev pipe : SimQueue ℕ
pipe = record {
  max_q_size = 4;
  write_q = 20 ∷ 30 ∷ [];
  read_q = 10 ∷ [];
  delay_q = 1 ∷ 3 ∷ [];
  latency = 3;
  stalled = false;
  visible_epoch = 5;
}

work-pipe :
    work pipe
    ≡ some (record pipe {
      write_q = 30 ∷ [];
      read_q = 10 ∷ 20 ∷ [];
      delay_q = 2 ∷ [];
      visible_epoch = 6;
    })
unfolding work promote
work-pipe = refl

pipe-IsValid : IsValid pipe
pipe-IsValid = omega arith

-- 10 is read, 40 goes in, and after three cycles everything is readable.
run-pipe :
    run pipe (reads ∷ writes 40 ∷ works ∷ reads ∷ works ∷ works ∷ [])
    ≡ some (
      10 ∷ 20 ∷ [],
      record pipe { write_q = []; read_q = 30 ∷ 40 ∷ []; delay_q = []; visible_epoch = 9 },
    )
unfolding run step work promote write read
run-pipe = refl

run-contents_example : 10 ∷ 20 ∷ [] ++ 30 ∷ 40 ∷ [] ≡ contents pipe ++ 40 ∷ []
unfolding run step work promote write read
run-contents_example =
    run-contents (reads ∷ writes 40 ∷ works ∷ reads ∷ works ∷ works ∷ []) pipe (10 ∷ 20 ∷ [])
      (record pipe { write_q = []; read_q = 30 ∷ 40 ∷ []; delay_q = []; visible_epoch = 9 }) refl

works-Moved_example : (q : SimQueue ℕ) × (Latency.works 2 pipe ≡ some q) × Moved 1 pipe q
works-Moved_example = works-Moved 2 pipe-IsValid refl

-- An idle queue of latency 3.
abbrev idle : SimQueue ℕ
idle = record pipe { write_q = []; delay_q = [] }

write-latency_example :
    (q : SimQueue ℕ) × (Latency.works 3 (record idle { write_q = 40 ∷ []; delay_q = 3 ∷ [] })
      ≡ some q)
    × (q.read_q ≡ 10 ∷ 40 ∷ [])
unfolding write
write-latency_example = write-latency 3 40 {q = idle} (omega arith) refl refl refl

flush_if-Flushes_example :
    (removed : ℕ) × (q : SimQueue ℕ) × (flush_if (λ x. ltb x 25) pipe ≡ some (removed, q))
    × Flushes (λ x. ltb x 25) pipe removed q
flush_if-Flushes_example = flush_if-Flushes (λ x. ltb x 25) pipe pipe-IsValid

work-epoch_example : (◌≡◌ {A = ℕ} 6 5) ↔ (◌≡◌ {A = ℕ} 2 1)
unfolding work promote
work-epoch_example = work-epoch pipe _ pipe-IsValid refl

-- A reserve of the whole capacity and more, which the subtraction alone would wrap.
will_be_full-over : will_be_full pipe 5 ≡ true
unfolding will_be_full
will_be_full-over = refl

will_be_full-write_all_example :
    (will_be_full pipe 1 ≡ true) ↔ (write_all pipe (40 ∷ 50 ∷ []) ≡ none)
will_be_full-write_all_example = will_be_full-write_all pipe (40 ∷ 50 ∷ []) 1 (omega arith) refl
