-- ===== src/Cli.antt =====
-- src/linx_model_cli.cpp: how the program ends, the traces that it opens, and the dump of the
-- result. What the file system allows is given, as the bytes of a file, the digits of an index and
-- the test of `std::memcmp` on two records are in the engines; the files of `WriteMismatchDump`
-- and what is written to the traces stand on their own, in Cli/Mismatch.antt and
-- Emulator/Record/Trace.antt.
pub mod Engine
pub mod Run
pub mod Lockstep
pub mod Engines
pub mod Clean
pub mod Total
pub mod CaEngine
pub mod Mismatch
mod Tests
use Prim.Native.String.{String}
use text.Mathlib.Text.{◌==◌ as str_eq}
use linx_model.Base.{
  ℕ, zero, suc, ◌-◌, ◌^◌, Bool, true, false, not, ◌&&◌, ◌||◌, Option, none, some, List, [], ◌>>=◌,
  ◌==◌, ltb, if◌then◌else◌, length,
}
use linx_model.Base.Int.{ℤ, pos, negsuc, ltb_ℤ}
use linx_model.Isa.Desc.{Tables}
use linx_model.Isa.Disasm.{MinstDisassemblyLine, disassemble_program}
use linx_model.Base.Text.{Bytes, codes}
use linx_model.Emulator.Context.{
  ProgramImage, load_program, unmapped, length_error, mapped, read_memory_range,
}
use linx_model.Emulator.Record.Paths.{beside}
use linx_model.Emulator.Record.Trace.{set_trace_path}
use linx_model.Emulator.Record.{MinstRecord}
use linx_model.Emulator.Executor.Execute.{Context}
use linx_model.Emulator.Executor.Steps.{step, run, over}
use linx_model.Emulator.Compare.{CompareMismatch, CompareHarness, make_harness, push}
use linx_model.Elf.{LoadError, Outcome, returns, throws, undefined}
use linx_model.Elf.Load.{load_program_image}
use linx_model.System
use linx_model.Main.{SimMainArgs, ParseResult, parsed, usage, fails, parse_sim_main_args}
use linx_model.Main.Loop.{RunResult, finished, asserts, out_of_fuel, run_sim_main}
use linx_model.Cli.Engine.{
  ExecutorBackedSim, new_context, new_sim, no_object, system_hooks, run_hooks, run_reference,
  start_sim,
}

-- What the file system allows: whether the file at a path opens, and whether the result file is
-- written.
pub record Disk : Type 0 where
  pub opens : Bytes → Bool
  pub writes : String → List ℕ → Bool

-- What a call of the program leaves: its exit code, the disassembly that it prints, and the bytes of
-- the result file. What it disk to `err` is left out.
pub record Ending : Type 0 where
  pub code : ℤ
  pub listing : List MinstDisassemblyLine
  pub result_file : Option (String × List ℕ)

-- How it ends: `aborts` is a failed assertion, `bad_access` the value of an empty `std::optional` or
-- an access out of range, `too_long` the exception of a vector that cannot be so long, `exhausted` a
-- run that the fuel does not finish.
pub data Exit : Type 0 where
  exits : Ending → Exit
  uncaught : LoadError → Exit
  bad_access aborts too_long exhausted : Exit

abbrev pub exits_with : ℤ → List MinstDisassemblyLine → Exit
exits_with code listing = exits (record { code = code; listing = listing; result_file = none })

abbrev pub on_outcome {ℓ} : {A : Type ℓ} → Outcome A → (A → Exit) → Exit
on_outcome (returns a) k = k a
on_outcome (throws e) k = uncaught e
on_outcome undefined k = bad_access

abbrev pub on_value {ℓ} : {A : Type ℓ} → Option A → (A → Exit) → Exit
on_value none k = bad_access
on_value (some a) k = k a

abbrev pub is_pass : ℤ → Bool
is_pass (pos n) = n == 0
is_pass (negsuc n) = false

-- `std::max` on the exit codes.
abbrev pub max_ℤ : ℤ → ℤ → ℤ
max_ℤ a b = if ltb_ℤ a b then b else a

module _ (disk : Disk) where
  abbrev pub write_file : List MinstDisassemblyLine → String → List ℕ → Exit
  write_file listing path bytes =
      if disk.writes path bytes
      then exits (record { code = pos 0; listing = listing; result_file = some (path, bytes) })
      else exits_with (pos 1) listing

  abbrev pub dump_range : SimMainArgs → Context → List MinstDisassemblyLine → String → ℕ → ℕ → Exit
  dump_range args ctx listing path address size = elim (read_memory_range ctx address size) [
    | unmapped ↦ exits_with (pos 1) listing
    | length_error ↦ too_long
    | mapped bytes ↦ write_file listing path bytes
  ]

  unfoldable pub write_result_dump : SimMainArgs → Context → List MinstDisassemblyLine → Exit
  unfolding read_memory_range
  write_result_dump args ctx listing = elim args.result_dump_path [
    | none ↦ exits_with (pos 0) listing
    | some path ↦ on_value args.result_size λ size.
        if ltb (2 ^ 64 - 1) size
        then exits_with (pos 1) listing
        else on_value args.result_address λ address. dump_range args ctx listing path address size
  ]

  -- The end of the two engines that look at the program's exit code.
  unfoldable pub finish : SimMainArgs → ℤ → Context → List MinstDisassemblyLine → Exit
  unfolding write_result_dump
  finish args code ctx listing =
      if is_pass code then write_result_dump args ctx listing else exits_with code listing

module _ (disk : Disk) where
  -- `SetTracePath`: whether no assertion fails.
  unfoldable pub opens_trace : Bytes → Bool
  unfolding set_trace_path
  opens_trace path = elim (set_trace_path disk.opens path) [ none ↦ false | some files ↦ true ]

  -- The trace of the reference engine, where one is asked for, and what follows.
  abbrev pub trace_if : SimMainArgs → Exit → Exit
  trace_if args end = elim args.emit_trace_path [
    | none ↦ end
    | some path ↦ if opens_trace (codes path) then end else aborts
  ]

  -- The two traces of the compare engine, beside the path that is asked for.
  abbrev pub trace_both : SimMainArgs → Exit → Exit
  trace_both args end = elim args.emit_trace_path [
    | none ↦ end
    | some path ↦
        if opens_trace (beside (codes path) (codes "ref.jsonl"))
          && opens_trace (beside (codes path) (codes "ca.jsonl"))
        then end
        else aborts
  ]
