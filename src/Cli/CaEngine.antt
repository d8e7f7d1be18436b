-- ===== src/Cli/CaEngine.antt =====
-- The `ca` engine of src/linx_model_cli.cpp against the reference engine.
use Prim.Native.String.{String}
use linx_model.Base.{
  ℕ, zero, suc, ◌+◌, ◌%◌, ◌^◌, ◌≡◌, ◌≢◌, ◌∙◌, refl, ap, Bool, true, false, Option, none, some, List,
  [], if◌then◌else◌, arith, Option-cases, Bool-cases, inl, inr,
}
use linx_model.Isa.Desc.{Tables}
use linx_model.Emulator.Context.{ProgramImage, load_program, reset_context, request_terminate}
use linx_model.Emulator.Executor.{fetch_decode}
use linx_model.Emulator.Executor.Execute.{Context}
use linx_model.Emulator.Executor.Steps.{stops_at, run, step, over}
use linx_model.Emulator.Executor.Totality.{step-cycle}
use linx_model.Elf.{Outcome, returns}
use linx_model.System
use linx_model.Main.{SimMainArgs}
use linx_model.Main.Loop.{
  RunResult, finished, asserts, is_past, finish_turn, take_turn, run_loop, run_sim_main,
}
use linx_model.Cli.Engine.{
  ExecutorBackedSim, new_context, new_sim, no_object, on_program_loaded, reset_system, system_hooks,
  run_hooks, run_reference,
}
use linx_model.Cli.{Disk, Exit, aborts, exhausted, on_outcome, write_result_dump, finish}
use linx_model.Cli.Run.{
  load_file, finish_sim, list_sim, run_and_finish, run_reference_engine, run_ca_engine,
}
use linx_model.Cli.Lockstep.{SameResult, SameResult-≡, mirror}
use linx_model.Cli.Engines.{TraceOpens, run_reference_engine-file, write_result_dump-memory}

step-terminated :
    (t : Tables) (stop_pc : Option ℕ) (ctx : Context)
    → (step t stop_pc ctx).0 ≡ true
    → (step t stop_pc ctx).1.terminated ≡ false
unfolding step
step-terminated t stop_pc ctx goes = elim (Bool-cases ctx.terminated) [
  | inl ended ↦ absurd (ground (arith, goes, ended))
  | inr runs ↦ elim (Bool-cases (stops_at stop_pc ctx.state.pc)) [
    | inl stop ↦ absurd (ground (arith, goes, runs, stop))
    | inr on ↦ elim (Option-cases (fetch_decode t ctx)) [
      | inl bad ↦ absurd (ground (arith, goes, runs, on, bad))
      | inr (inst, good) ↦ ground (arith, goes, runs, on, good)
    ]
  ]
]

is_past-over : (bound : Option ℕ) (cycle : ℕ) → is_past bound cycle ≡ over bound cycle
is_past-over none cycle = refl
is_past-over (some n) cycle = refl

module _ (t : Tables) (args : SimMainArgs) (image : ProgramImage)
    (checked : args.enable_reference ≡ true) where
  abbrev next : Context → Context
  next ctx = (step t args.stop_pc ctx).1

  abbrev loop : ℕ → Bool → ExecutorBackedSim → RunResult Unit Context
  loop = run_loop no_object (run_hooks t) args

  -- A turn takes the executor's step.
  take_turn-next :
      (cycle : ℕ) (ctx : Context)
      → take_turn no_object (run_hooks t) args (mirror image cycle ctx)
        ≡ some (
            finish_turn no_object
              (run_hooks t)
              args
              (mirror image ((cycle + 1) % 2 ^ 64) (next ctx)))
  unfolding take_turn run_reference System.step
  take_turn-next cycle ctx = rw checked refl

  loop-turn :
      (fuel cycle : ℕ) (ctx : Context) (s : ExecutorBackedSim) (b : Bool)
      → finish_turn no_object (run_hooks t) args (mirror image ((cycle + 1) % 2 ^ 64) (next ctx))
        ≡ (s, b)
      → loop (suc fuel) false (mirror image cycle ctx) ≡ loop fuel b s
  unfolding run_loop
  loop-turn fuel cycle ctx s b e =
      ap
        (λ (o : Option (ExecutorBackedSim × Bool)). elim o [
          | none ↦ asserts
          | some (s', terminate) ↦ loop fuel terminate s'
        ])
        (take_turn-next cycle ctx ∙ ap some e)

  loop-true : (fuel : ℕ) (s : ExecutorBackedSim) → loop fuel true s ≡ finished s
  unfolding run_loop
  loop-true zero s = refl
  loop-true (suc fuel) s = refl

  abbrev Agrees : RunResult Unit Context → Context → Type 0
  Agrees r c = (s : ExecutorBackedSim) × (r ≡ finished s) × SameResult s.shared c

  Agrees-end :
      (fuel cycle : ℕ) (ctx c : Context) (s : ExecutorBackedSim)
      → finish_turn no_object (run_hooks t) args (mirror image ((cycle + 1) % 2 ^ 64) (next ctx))
        ≡ (s, true)
      → SameResult s.shared c
      → Agrees (loop (suc fuel) false (mirror image cycle ctx)) c
  Agrees-end fuel cycle ctx c s e same =
      (s, loop-turn fuel cycle ctx s true e ∙ loop-true fuel s, same)

  -- The run from a context that is over the bound.
  run-late :
      (fuel : ℕ) (ctx c : Context)
      → ctx.terminated ≡ false
      → over args.max_cycles ctx.cycle ≡ true
      → run fuel t args.stop_pc args.max_cycles ctx ≡ some c
      → SameResult ctx c
  unfolding run request_terminate
  run-late zero ctx c runs late done = absurd (ground (arith, done))
  run-late (suc fuel) ctx c runs late done = record {
    exit_code = ground (arith, done, runs, late);
    memory = ground (arith, done, runs, late);
    committed = ground (arith, done, runs, late);
  }

  -- The main loop takes the steps of `Run`.
  loop-run :
      (fuel cycle : ℕ) (ctx c : Context)
      → cycle ≡ ctx.cycle
      → ctx.terminated ≡ false
      → over args.max_cycles ctx.cycle ≡ false
      → run fuel t args.stop_pc args.max_cycles ctx ≡ some c
      → Agrees (loop fuel false (mirror image cycle ctx)) c
  unfolding run finish_turn System.request_terminate
  loop-run zero cycle ctx c at runs left done = absurd (ground (arith, done))
  loop-run (suc fuel) cycle ctx c at runs left done =
      let moved : ExecutorBackedSim = mirror image ((cycle + 1) % 2 ^ 64) (next ctx) in
      elim (Bool-cases (step t args.stop_pc ctx).0) [
        | inr stops ↦
            let ended = (step-cycle t args.stop_pc ctx).1 stops in
            Agrees-end fuel cycle ctx c moved (ground (arith, ended))
              (SameResult-≡ (ground (arith, done, runs, left, stops)))
        | inl goes ↦
            let on = step-terminated t args.stop_pc ctx goes in
            let rest : run fuel t args.stop_pc args.max_cycles (next ctx) ≡ some c =
              ground (arith, done, runs, left, goes) in
            let same : (cycle + 1) % 2 ^ 64 ≡ (next ctx).cycle =
              omega (arith, at, (step-cycle t args.stop_pc ctx).0 goes) in
            let past =
              is_past-over args.max_cycles ((cycle + 1) % 2 ^ 64)
              ∙ ap (over args.max_cycles) same in
            elim (Bool-cases (over args.max_cycles (next ctx).cycle)) [
              | inl late ↦
                  Agrees-end fuel cycle ctx c (record moved { terminate_requested = true })
                    (ground (arith, on, past, late)) (run-late fuel (next ctx) c on late rest)
              | inr early ↦
                  let first =
                    loop-turn fuel cycle ctx moved false (ground (arith, on, past, early)) in
                  let (s, done', agrees) =
                    loop-run fuel ((cycle + 1) % 2 ^ 64) (next ctx) c same on early rest in
                  (s, first ∙ done', agrees)
            ]
      ]

over-first : (bound : Option ℕ) → bound ≢ some 0 → over bound 0 ≡ false
over-first none some_cycle = refl
over-first (some zero) some_cycle = absurd (some_cycle refl)
over-first (some (suc n)) some_cycle = ground arith

-- The `ca` engine on the program, from its loading to the main loop.
ca-file :
    (t : Tables) (to_string : ℕ → String) (files : String → List ℕ) (disk : Disk) (fuel : ℕ)
    (args : SimMainArgs) (path : String) (image : ProgramImage)
    → args.program_path ≡ some path
    → args.enable_disassembly ≡ false
    → args.disassembly_only ≡ false
    → load_file to_string files path args.raw_base_address ≡ returns image
    → run_ca_engine t to_string files disk fuel args
      ≡ finish_sim disk args [] (
          run_loop no_object
            (run_hooks t)
            args
            fuel
            false
            (mirror image 0 (load_program new_context image)))
unfolding run_ca_engine System.load_program_file load_file on_program_loaded run_sim_main
    System.build System.reset reset_system load_program reset_context
ca-file t to_string files disk fuel args path image given no_disasm no_only loads =
    let k : ExecutorBackedSim → Exit = λ s. list_sim t args s λ listing.
      if args.disassembly_only
      then write_result_dump disk args s.shared listing
      else finish_sim disk args listing
          (run_sim_main no_object (run_hooks t) args system_hooks fuel s) in
    let s : ExecutorBackedSim = record new_sim {
      shared = load_program new_context image;
      program_image = some image;
    } in
    ap
      (λ (o : Option String). elim o [
        | none ↦ k new_sim
        | some p ↦
            on_outcome
              (System.load_program_file no_object system_hooks to_string (files p) p
                args.raw_base_address new_sim)
              λ loaded. elim loaded [ none ↦ aborts | some s' ↦ k s' ]
      ])
      given
    ∙ ap
        (λ (o : Outcome ProgramImage).
          on_outcome (System.load_outcome no_object system_hooks o new_sim)
            λ loaded. elim loaded [ none ↦ aborts | some s' ↦ k s' ])
        loads
    ∙ ground (arith, no_disasm, no_only)

-- The reference engine and the `ca` engine on a program that loads and whose run on the executor
-- returns: both leave the result file of that run's memory, but the `ca` engine does so, and exits
-- with 0 where the file is written, also where the run's exit code is not 0, which the reference
-- engine exits with. No disassembly is asked for, the reference executor is not switched off, the
-- bound on the cycles is not 0, and the trace files open where a trace is asked for.
pub ca-reference :
    (t : Tables) (to_string : ℕ → String) (files : String → List ℕ) (disk : Disk) (fuel : ℕ)
    (args : SimMainArgs) (path : String) (image : ProgramImage) (c : Context)
    → args.program_path ≡ some path
    → args.enable_disassembly ≡ false
    → args.disassembly_only ≡ false
    → args.enable_reference ≡ true
    → args.max_cycles ≢ some 0
    → TraceOpens disk args
    → load_file to_string files path args.raw_base_address ≡ returns image
    → run fuel t args.stop_pc args.max_cycles (load_program new_context image) ≡ some c
    → (run_reference_engine t to_string files disk fuel args ≡ finish disk args c.exit_code c [])
      × (run_ca_engine t to_string files disk fuel args ≡ write_result_dump disk args c [])
unfolding load_program
ca-reference t to_string files disk fuel args path image c given no_disasm no_only checked
      some_cycle opens loads done =
    let ref =
      run_reference_engine-file t to_string files disk fuel args path given no_disasm no_only
        opens in
    let left = over-first args.max_cycles some_cycle in
    let (s, ends, same) =
      loop-run t args image checked fuel 0 (load_program new_context image) c refl refl left done in
    (
      ref
          ∙ ap
              (λ (o : Outcome ProgramImage).
                on_outcome o λ i. run_and_finish t disk fuel args (load_program new_context i) [])
              loads
          ∙ ap
              (λ (o : Option Context). elim o [
                | none ↦ exhausted
                | some ended ↦ finish disk args ended.exit_code ended []
              ])
              done,
      ca-file t to_string files disk fuel args path image given no_disasm no_only loads
          ∙ ap (finish_sim disk args []) ends
          ∙ write_result_dump-memory disk args s.shared c [] same.memory,
    )
