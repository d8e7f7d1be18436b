-- ===== src/Cli/Run.antt =====
-- The engines of src/linx_model_cli.cpp and its `main`.
use Prim.Native.String.{String}
use text.Mathlib.Text.{◌==◌ as str_eq}
use linx_model.Base.{
  ℕ, zero, suc, Bool, true, false, not, ◌||◌, Option, none, some, List, [], ◌>>=◌, ◌==◌,
  if◌then◌else◌, length,
}
use linx_model.Base.Int.{pos}
use linx_model.Isa.Desc.{Tables}
use linx_model.Isa.Disasm.{MinstDisassemblyLine, disassemble_program}
use linx_model.Emulator.Context.{ProgramImage, load_program}
use linx_model.Emulator.Record.{MinstRecord}
use linx_model.Emulator.Executor.Execute.{Context}
use linx_model.Emulator.Executor.Steps.{step, run, over}
use linx_model.Emulator.Compare.{CompareMismatch, CompareHarness, make_harness, push}
use linx_model.Emulator.Record.Paths.{beside}
use linx_model.Elf.{Outcome}
use linx_model.Elf.Load.{load_program_image}
use linx_model.System
use linx_model.Main.{SimMainArgs, parsed, usage, fails, parse_sim_main_args}
use linx_model.Main.Loop.{RunResult, finished, asserts, out_of_fuel, run_sim_main}
use linx_model.Cli.Engine.{
  ExecutorBackedSim, new_context, new_sim, no_object, system_hooks, run_hooks, run_reference,
  start_sim,
}
use linx_model.Cli.{
  Exit, aborts, exhausted, exits_with, on_outcome, on_value, max_ℤ, write_result_dump, finish, Disk,
  opens_trace, trace_if, trace_both,
}

-- What a turn of the comparison, or the whole loop, comes to.
pub data CompareTurn : Type 0 where
  leaves : Context → ExecutorBackedSim → CompareTurn
  differs : Option (CompareMismatch MinstRecord) → CompareTurn
  stuck : CompareTurn
  goes_on : Context → ExecutorBackedSim → CompareHarness MinstRecord → CompareTurn

module _ (disk : Disk) where
  -- What follows the loop of the comparison.
  unfoldable pub finish_compare : SimMainArgs → CompareTurn → Exit
  unfolding finish
  finish_compare args (leaves ref ca) =
      if not (length ref.committed == length ca.shared.committed)
      then exits_with (pos 3) []
      else finish disk args (max_ℤ ref.exit_code ca.shared.exit_code) ca.shared []
  finish_compare args (differs mismatch) = exits_with (pos 2) []
  finish_compare args stuck = aborts
  finish_compare args (goes_on ref ca harness) = exhausted

  abbrev pub finish_sim : SimMainArgs → List MinstDisassemblyLine → RunResult Unit Context → Exit
  finish_sim args listing (finished s) = write_result_dump disk args s.shared listing
  finish_sim args listing asserts = aborts
  finish_sim args listing out_of_fuel = exhausted

module _ (t : Tables) (equal_record : MinstRecord → MinstRecord → Bool) where
  -- `Push`, and what follows it.
  abbrev pub pushed : Context → ExecutorBackedSim → Bool × CompareHarness MinstRecord → CompareTurn
  pushed ref ca (true, harness) = goes_on ref ca harness
  pushed ref ca (false, harness) = differs harness.mismatch

  abbrev pub compare_commits :
      CompareHarness MinstRecord
      → Context
      → ExecutorBackedSim
      → Option MinstRecord
      → Option MinstRecord
      → CompareTurn
  compare_commits harness ref ca none committed = leaves ref ca
  compare_commits harness ref ca (some r) none = leaves ref ca
  compare_commits harness ref ca (some r) (some c) = pushed ref ca (push equal_record harness r c)

  -- The two sides' steps, and the comparison.
  unfoldable pub step_both :
      SimMainArgs → Context → ExecutorBackedSim → CompareHarness MinstRecord → CompareTurn
  unfolding step run_reference System.step push
  step_both args ref ca harness =
      let ref' = (step t args.stop_pc ref).1 in
      elim (run_reference t args.stop_pc ca >>= λ s. System.step no_object s) [
        | none ↦ stuck
        | some ca' ↦ compare_commits harness ref' ca' ref'.last_committed ca'.shared.last_committed
      ]

  -- A turn of the loop, its condition included.
  unfoldable pub compare_turn :
      SimMainArgs → Context → ExecutorBackedSim → CompareHarness MinstRecord → CompareTurn
  unfolding step_both
  compare_turn args ref ca harness =
      if ref.terminated || ca.shared.terminated
      then leaves ref ca
      else if over args.max_cycles ref.cycle
      then leaves ref ca
      else step_both args ref ca harness

  -- The loop, on fuel; it does not end in `goes_on` but where the fuel runs out.
  unfoldable pub compare_loop :
      ℕ → SimMainArgs → Context → ExecutorBackedSim → CompareHarness MinstRecord → CompareTurn
  unfolding compare_turn
  compare_loop zero args ref ca harness = goes_on ref ca harness
  compare_loop (suc fuel) args ref ca harness = elim (compare_turn args ref ca harness) [
    | leaves ref' ca' ↦ leaves ref' ca'
    | differs mismatch ↦ differs mismatch
    | stuck ↦ stuck
    | goes_on ref' ca' harness' ↦ compare_loop fuel args ref' ca' harness'
  ]

module _ (to_string : ℕ → String) (files : String → List ℕ) where
  -- `LoadProgramImageFromFile`.
  unfoldable pub load_file : String → ℕ → Outcome ProgramImage
  unfolding load_program_image
  load_file path base = load_program_image to_string (files path) path base

  -- The first `if` of the reference engine.
  abbrev pub load_if : SimMainArgs → (Context → Exit) → Exit
  load_if args k = elim args.program_path [
    | none ↦ k new_context
    | some path ↦
        on_outcome (load_file path args.raw_base_address)
          λ image. k (load_program new_context image)
  ]

  -- `RunSimMain` on a new `ExecutorBackedSim`: loading, disassembly, and the run.
  abbrev pub load_sim : SimMainArgs → (ExecutorBackedSim → Exit) → Exit
  load_sim args k = elim args.program_path [
    | none ↦ k new_sim
    | some path ↦
        on_outcome
          (System.load_program_file no_object system_hooks to_string (files path) path
            args.raw_base_address new_sim)
          λ loaded. elim loaded [ none ↦ aborts | some s ↦ k s ]
  ]

module _ (t : Tables) (disk : Disk) where
  abbrev pub run_and_finish : ℕ → SimMainArgs → Context → List MinstDisassemblyLine → Exit
  run_and_finish fuel args ctx listing = elim (run fuel t args.stop_pc args.max_cycles ctx) [
    | none ↦ exhausted
    | some ended ↦ finish disk args ended.exit_code ended listing
  ]

abbrev pub list_sim :
    Tables → SimMainArgs → ExecutorBackedSim → (List MinstDisassemblyLine → Exit) → Exit
list_sim t args s k =
    if args.enable_disassembly
    then elim s.program_image [ none ↦ aborts | some image ↦ k (disassemble_program t image) ]
    else k []

module _ (t : Tables) (to_string : ℕ → String) (files : String → List ℕ) (disk : Disk) where
  -- The second `if` of the reference engine.
  abbrev pub list_if : SimMainArgs → (List MinstDisassemblyLine → Exit) → Exit
  list_if args k =
      if args.enable_disassembly
      then on_value args.program_path (λ path.
        on_outcome (load_file to_string files path args.raw_base_address)
          λ image. k (disassemble_program t image))
      else k []

  unfoldable pub run_reference_engine : ℕ → SimMainArgs → Exit
  unfolding load_file run finish load_program disassemble_program opens_trace
  run_reference_engine fuel args = load_if to_string files args λ ctx. list_if args λ listing.
      if args.disassembly_only
      then exits_with (pos 0) listing
      else trace_if disk args (run_and_finish t disk fuel args ctx listing)

  unfoldable pub run_ca_engine : ℕ → SimMainArgs → Exit
  unfolding System.load_program_file run_sim_main write_result_dump disassemble_program
  run_ca_engine fuel args = load_sim to_string files args λ s. list_sim t args s λ listing.
      if args.disassembly_only
      then write_result_dump disk args s.shared listing
      else finish_sim disk args listing
          (run_sim_main no_object (run_hooks t) args system_hooks fuel s)

module _ (t : Tables) (equal_record : MinstRecord → MinstRecord → Bool) (disk : Disk) where
  abbrev pub compare_image : ℕ → SimMainArgs → ProgramImage → Exit
  compare_image fuel args image = elim (start_sim image) [
    | none ↦ aborts
    | some ca ↦ finish_compare disk args (
        compare_loop t equal_record fuel args (load_program new_context image) ca
          (make_harness args.compare_window))
  ]

module _ (t : Tables) (equal_record : MinstRecord → MinstRecord → Bool) (to_string : ℕ → String)
    (files : String → List ℕ) (disk : Disk) where
  unfoldable pub run_compare_engine : ℕ → SimMainArgs → Exit
  unfolding load_file start_sim compare_loop finish_compare load_program make_harness opens_trace
      beside
  run_compare_engine fuel args = elim args.program_path [
    | none ↦ exits_with (pos 1) []
    | some path ↦
        on_outcome (load_file to_string files path args.raw_base_address)
          λ image. trace_both disk args (compare_image t equal_record disk fuel args image)
  ]

  unfoldable pub run_engine : ℕ → SimMainArgs → Exit
  unfolding run_reference_engine run_compare_engine run_ca_engine
  run_engine fuel args =
      if str_eq args.engine "ref"
      then run_reference_engine t to_string files disk fuel args
      else if str_eq args.engine "compare"
      then run_compare_engine fuel args
      else run_ca_engine t to_string files disk fuel args

  -- `main` on the arguments after the program's name.
  unfoldable pub main : (String → Option (ℕ × ℕ)) → ℕ → List String → Exit
  unfolding parse_sim_main_args run_engine
  main stoull fuel argv = elim (parse_sim_main_args stoull argv) [
    | parsed args ↦ run_engine fuel args
    | usage ↦ exits_with (pos 0) []
    | fails err ↦ exits_with (pos 1) []
  ]
