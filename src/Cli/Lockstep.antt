-- ===== src/Cli/Lockstep.antt =====
-- The comparison loop of src/linx_model_cli.cpp runs the reference executor against itself: the two
-- sides step together.
use linx_model.Base.{
  ℕ, zero, suc, ◌+◌, ◌%◌, ◌^◌, ◌≡◌, refl, sym, ap, subst, ◌⊎◌, inl, inr, Bool, true, false, Option,
  none, some, [], arith, Bool-cases, Option-cases,
}
use linx_model.Isa.Desc.{Tables}
use linx_model.Emulator.Context.{
  ProgramImage, load_program, reset_context, request_terminate, advance_cycle,
}
use linx_model.Emulator.Record.{MinstRecord}
use linx_model.Emulator.Executor.{is_implemented, fetch_decode}
use linx_model.Emulator.Executor.Execute.{Context}
use linx_model.Emulator.Executor.Steps.{step, stops_at, run, over}
use linx_model.Emulator.Executor.Totality.{execute-commits, step-cycle}
use linx_model.Emulator.Compare.{CompareHarness, push}
use linx_model.System
use linx_model.Main.{SimMainArgs}
use linx_model.Cli.Engine.{
  ExecutorBackedSim, new_context, on_program_loaded, reset_system, run_reference, start_sim,
}
use linx_model.Cli.Run.{
  CompareTurn, leaves, differs, stuck, goes_on, compare_commits, step_both, compare_turn,
  compare_loop,
}

-- A running system whose context is the given one.
abbrev pub mirror : ProgramImage → ℕ → Context → ExecutorBackedSim
mirror image cycle ctx = record {
  modules = [];
  shared = ctx;
  program_image = some image;
  cycle = cycle;
  built = true;
  terminate_requested = false;
}

-- Two contexts with the outcome of one run.
pub record SameResult (x c : Context) : Type 0 where
  pub exit_code : x.exit_code ≡ c.exit_code
  pub memory : x.memory ≡ c.memory
  pub committed : x.committed ≡ c.committed

pub SameResult-≡ : {x c : Context} → x ≡ c → SameResult x c
SameResult-≡ e = record {
  exit_code = ap (λ (x : Context). x.exit_code) e;
  memory = ap (λ (x : Context). x.memory) e;
  committed = ap (λ (x : Context). x.committed) e;
}

-- A new system that loads a program, builds and resets has the context of one that only loads it.
pub start_sim-mirror :
    (image : ProgramImage)
    → start_sim image ≡ some (mirror image 0 (load_program new_context image))
unfolding start_sim System.load_program_image System.build System.reset on_program_loaded
    reset_system load_program reset_context
start_sim-mirror image = refl

-- A step that lets the run go on has committed a record.
step-commits :
    (t : Tables) (stop_pc : Option ℕ) (ctx : Context)
    → (step t stop_pc ctx).0 ≡ true
    → (r : MinstRecord) × ((step t stop_pc ctx).1.last_committed ≡ some r)
unfolding step advance_cycle
step-commits t stop_pc ctx goes = elim (Bool-cases ctx.terminated) [
  | inl ended ↦ absurd (ground (arith, goes, ended))
  | inr runs ↦ elim (Bool-cases (stops_at stop_pc ctx.state.pc)) [
    | inl stop ↦ absurd (ground (arith, goes, runs, stop))
    | inr on ↦ elim (Option-cases (fetch_decode t ctx)) [
      | inl bad ↦ absurd (ground (arith, goes, runs, on, bad))
      | inr (inst, good) ↦ elim (Bool-cases (is_implemented inst)) [
        | inl known ↦
            let (r, _, last, _) = (execute-commits inst ctx).0 known in
            (r, ground (arith, runs, on, good, last))
        | inr not_yet ↦
            let (_, ended, _) = (execute-commits inst ctx).1 not_yet in
            absurd (ground (arith, goes, runs, on, good, ended))
      ]
    ]
  ]
]

module _ (t : Tables) (equal_record : MinstRecord → MinstRecord → Bool)
    (reflexive : (r : MinstRecord) → equal_record r r ≡ true) where
  push-same :
      (h : CompareHarness MinstRecord) (r : MinstRecord)
      → h.mismatch ≡ none
      → (h' : CompareHarness MinstRecord) × (push equal_record h r r ≡ (true, h'))
        × (h'.mismatch ≡ none)
  unfolding push
  push-same h r clean = rw (clean, reflexive r) (_, refl, refl)

  module _ (args : SimMainArgs) (image : ProgramImage) where
    abbrev next : Context → Context
    next ref = (step t args.stop_pc ref).1

    abbrev next_cycle : ℕ → ℕ
    next_cycle cycle = (cycle + 1) % 2 ^ 64

    -- The turn of a run that is not over: the two sides take the same step, and either it was the
    -- last one, with nothing committed, or the comparison goes on.
    data Turned (ref : Context) (cycle : ℕ) : CompareTurn → Type 0 where
      uncommitted :
          (next ref).last_committed ≡ none
          → Turned ref cycle (leaves (next ref) (mirror image (next_cycle cycle) (next ref)))
      compared :
          (h : CompareHarness MinstRecord)
          → h.mismatch ≡ none
          → Turned ref cycle (goes_on (next ref) (mirror image (next_cycle cycle) (next ref)) h)

    step_both-Turned :
        (ref : Context) (cycle : ℕ) (h : CompareHarness MinstRecord)
        → h.mismatch ≡ none
        → Turned ref cycle (step_both t equal_record args ref (mirror image cycle ref) h)
    unfolding step_both System.step run_reference
    step_both-Turned ref cycle h clean = go (next ref).last_committed refl
      where
        go :
            (o : Option MinstRecord)
            → (next ref).last_committed ≡ o
            → Turned ref cycle (
                compare_commits t equal_record h
                  (next ref)
                  (mirror image (next_cycle cycle) (next ref))
                  o
                  o)
        go none e = uncommitted e
        go (some r) e = let (h', same, clean') = push-same h r clean in rw same (compared h' clean')

    abbrev pub LeavesAt : CompareTurn → Context → Type 0
    LeavesAt turn c =
        (ref : Context) × (cycle : ℕ) × (turn ≡ leaves ref (mirror image cycle ref))
        × SameResult ref c

    compare_turn-over :
        (ref : Context) (cycle : ℕ) (h : CompareHarness MinstRecord)
        → (ref.terminated ≡ true) ⊎ (over args.max_cycles ref.cycle ≡ true)
        → compare_turn t equal_record args ref (mirror image cycle ref) h
          ≡ leaves ref (mirror image cycle ref)
    unfolding compare_turn
    compare_turn-over ref cycle h (inl ended) = ground (arith, ended)
    compare_turn-over ref cycle h (inr late) = ground (arith, late)

    compare_turn-step :
        (ref : Context) (cycle : ℕ) (h : CompareHarness MinstRecord)
        → ref.terminated ≡ false
        → over args.max_cycles ref.cycle ≡ false
        → compare_turn t equal_record args ref (mirror image cycle ref) h
          ≡ step_both t equal_record args ref (mirror image cycle ref) h
    unfolding compare_turn
    compare_turn-step ref cycle h runs left = ground (arith, runs, left)

    -- What a turn leaves to the loop.
    abbrev after : ℕ → CompareTurn → CompareTurn
    after fuel turn = elim turn [
      | leaves ref' ca' ↦ leaves ref' ca'
      | differs mismatch ↦ differs mismatch
      | stuck ↦ stuck
      | goes_on ref' ca' harness' ↦ compare_loop t equal_record fuel args ref' ca' harness'
    ]

    compare_loop-turn :
        (fuel : ℕ) (ref : Context) (cycle : ℕ) (h : CompareHarness MinstRecord) (turn : CompareTurn)
        → compare_turn t equal_record args ref (mirror image cycle ref) h ≡ turn
        → compare_loop t equal_record (suc fuel) args ref (mirror image cycle ref) h
          ≡ after fuel turn
    unfolding compare_loop
    compare_loop-turn fuel ref cycle h turn e = ap (after fuel) e

    LeavesAt-over :
        (fuel : ℕ) (ref : Context) (cycle : ℕ) (h : CompareHarness MinstRecord) (c : Context)
        → (ref.terminated ≡ true) ⊎ (over args.max_cycles ref.cycle ≡ true)
        → SameResult ref c
        → LeavesAt (compare_loop t equal_record (suc fuel) args ref (mirror image cycle ref) h) c
    LeavesAt-over fuel ref cycle h c over_now same = (
      ref,
      cycle,
      compare_loop-turn fuel ref cycle h _ (compare_turn-over ref cycle h over_now),
      same,
    )

    -- The loop where a turn is taken.
    LeavesAt-step :
        (fuel : ℕ) (ref : Context) (cycle : ℕ) (h : CompareHarness MinstRecord) (c : Context)
        → ref.terminated ≡ false
        → over args.max_cycles ref.cycle ≡ false
        → h.mismatch ≡ none
        → ((next ref).last_committed ≡ none → next ref ≡ c)
        → ((cycle' : ℕ) (h' : CompareHarness MinstRecord)
            → h'.mismatch ≡ none
            → LeavesAt
                (compare_loop t equal_record fuel args
                  (next ref)
                  (mirror image cycle' (next ref))
                  h')
                c)
        → LeavesAt (compare_loop t equal_record (suc fuel) args ref (mirror image cycle ref) h) c
    LeavesAt-step fuel ref cycle h c runs left clean last again =
        let first =
          compare_loop-turn fuel ref cycle h _ (compare_turn-step ref cycle h runs left) in
        subst (λ (turn : CompareTurn). LeavesAt turn c) (sym first)
          (go _ (step_both-Turned ref cycle h clean))
      where
        go : (turn : CompareTurn) → Turned ref cycle turn → LeavesAt (after fuel turn) c
        go _ (uncommitted e) = (next ref, next_cycle cycle, refl, SameResult-≡ (last e))
        go _ (compared h' clean') = again (next_cycle cycle) h' clean'

    -- Where `Run` returns, the comparison of the executor with itself leaves its loop by the turn
    -- after, with no mismatch: both sides have the exit code, the memory and the records of the run.
    pub compare_loop-run :
        (fuel : ℕ) (ref : Context) (cycle : ℕ) (h : CompareHarness MinstRecord) (c : Context)
        → h.mismatch ≡ none
        → run fuel t args.stop_pc args.max_cycles ref ≡ some c
        → LeavesAt (compare_loop t equal_record (suc fuel) args ref (mirror image cycle ref) h) c
    unfolding run request_terminate
    compare_loop-run zero ref cycle h c clean done = absurd (ground (arith, done))
    compare_loop-run (suc fuel) ref cycle h c clean done = elim (Bool-cases ref.terminated) [
      | inl ended ↦ LeavesAt-over (suc fuel) ref cycle h c (inl ended) (record {
        exit_code = ground (arith, done, ended);
        memory = ground (arith, done, ended);
        committed = ground (arith, done, ended);
      })
      | inr runs ↦ elim (Bool-cases (over args.max_cycles ref.cycle)) [
        | inl late ↦ LeavesAt-over (suc fuel) ref cycle h c (inr late) (record {
          exit_code = ground (arith, done, runs, late);
          memory = ground (arith, done, runs, late);
          committed = ground (arith, done, runs, late);
        })
        | inr left ↦ elim (Bool-cases (step t args.stop_pc ref).0) [
          | inl goes ↦
              let (r, last) = step-commits t args.stop_pc ref goes in
              LeavesAt-step (suc fuel) ref cycle h c runs left clean
                (λ nothing. absurd (ground (arith, last, nothing)))
                λ cycle' h' clean'.
                  compare_loop-run fuel (next ref) cycle' h' c clean'
                    (ground (arith, done, runs, left, goes))
          | inr stops ↦
              let same : next ref ≡ c = ground (arith, done, runs, left, stops) in
              let ended = (step-cycle t args.stop_pc ref).1 stops in
              LeavesAt-step (suc fuel) ref cycle h c runs left clean (λ nothing. same)
                λ cycle' h' clean'.
                  LeavesAt-over fuel (next ref) cycle' h' c (inl ended) (SameResult-≡ same)
        ]
      ]
    ]
