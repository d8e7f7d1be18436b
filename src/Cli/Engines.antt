-- ===== src/Cli/Engines.antt =====
-- The reference engine and the compare engine of src/linx_model_cli.cpp against each other.
use Prim.Native.String.{String}
use linx_model.Base.{
  ℕ, suc, ◌≡◌, ◌≢◌, ◌∙◌, refl, sym, ap, Bool, true, false, Option, none, some, List, [], arith,
  Option-cases, inl, inr,
}
use linx_model.Base.Int.{ℤ, pos, negsuc}
use linx_model.Isa.Desc.{Tables}
use linx_model.Isa.Disasm.{MinstDisassemblyLine}
use linx_model.Emulator.Context.{ProgramImage, load_program, read_memory_range}
use linx_model.Emulator.Record.{MinstRecord}
use linx_model.Emulator.Executor.Execute.{Context}
use linx_model.Emulator.Executor.Steps.{run}
use linx_model.Emulator.Compare.{make_harness}
use linx_model.Elf.{Outcome, returns, throws, undefined}
use linx_model.Main.{SimMainArgs}
use linx_model.Cli.Engine.{ExecutorBackedSim, new_context}
use linx_model.Base.Text.{codes}
use linx_model.Emulator.Record.Paths.{beside}
use linx_model.Cli.{
  Disk, Exit, opens_trace, trace_if, trace_both, aborts, exhausted, on_outcome, max_ℤ,
  write_result_dump, finish,
}
use linx_model.Cli.Run.{
  leaves, compare_loop, load_file, run_and_finish, run_reference_engine, finish_compare,
  compare_image, run_compare_engine,
}
use linx_model.Cli.Lockstep.{SameResult, mirror, start_sim-mirror, compare_loop-run}

max_ℤ-same : (a : ℤ) → max_ℤ a a ≡ a
max_ℤ-same (pos n) = ground arith
max_ℤ-same (negsuc n) = ground arith

-- The trace files of the reference engine open, where a trace is asked for.
abbrev pub TraceOpens : Disk → SimMainArgs → Type 0
TraceOpens disk args =
    (path : String) → args.emit_trace_path ≡ some path → opens_trace disk (codes path) ≡ true

-- So do those of the two sides of the compare engine.
abbrev pub SideTracesOpen : Disk → SimMainArgs → Type 0
SideTracesOpen disk args =
    (path : String)
    → args.emit_trace_path ≡ some path
    → (opens_trace disk (beside (codes path) (codes "ref.jsonl")) ≡ true)
      × (opens_trace disk (beside (codes path) (codes "ca.jsonl")) ≡ true)

module _ (disk : Disk) (args : SimMainArgs) where
  pub trace_if-open : TraceOpens disk args → (end : Exit) → trace_if disk args end ≡ end
  trace_if-open opens end = elim (Option-cases args.emit_trace_path) [
    | inl absent ↦ ground (arith, absent)
    | inr (path, asked) ↦ ground (arith, asked, opens path asked)
  ]

  trace_both-open : SideTracesOpen disk args → (end : Exit) → trace_both disk args end ≡ end
  trace_both-open opens end = elim (Option-cases args.emit_trace_path) [
    | inl absent ↦ ground (arith, absent)
    | inr (path, asked) ↦ let (ref, ca) = opens path asked in ground (arith, asked, ref, ca)
  ]

  -- The result dump reads the memory only.
  pub write_result_dump-memory :
      (c d : Context) (listing : List MinstDisassemblyLine)
      → c.memory ≡ d.memory
      → write_result_dump disk args c listing ≡ write_result_dump disk args d listing
  unfolding write_result_dump read_memory_range
  write_result_dump-memory c d listing same = rw same refl

  finish-same :
      (a b : ℤ) (c d : Context)
      → a ≡ b
      → c.memory ≡ d.memory
      → finish disk args a c [] ≡ finish disk args b d []
  unfolding finish
  finish-same a b c d e same = rw (e, write_result_dump-memory c d [] same) refl

  finish_compare-leaves :
      (x c : Context) (image : ProgramImage) (cycle : ℕ)
      → SameResult x c
      → finish_compare disk args (leaves x (mirror image cycle x))
        ≡ finish disk args c.exit_code c []
  unfolding finish_compare
  finish_compare-leaves x c image cycle same =
      let code = max_ℤ-same x.exit_code ∙ same.exit_code in
      let end = finish-same (max_ℤ x.exit_code x.exit_code) c.exit_code x c code same.memory in
      ground (arith, end)

module _ (t : Tables) (to_string : ℕ → String) (files : String → List ℕ) (disk : Disk) where
  pub run_reference_engine-file :
      (fuel : ℕ) (args : SimMainArgs) (path : String)
      → args.program_path ≡ some path
      → args.enable_disassembly ≡ false
      → args.disassembly_only ≡ false
      → TraceOpens disk args
      → run_reference_engine t to_string files disk fuel args
        ≡ on_outcome
            (load_file to_string files path args.raw_base_address)
            λ image. run_and_finish t disk fuel args (load_program new_context image) []
  unfolding run_reference_engine
  run_reference_engine-file fuel args path given no_disasm no_only opens =
      let loaded = load_file to_string files path args.raw_base_address in
      let run = λ (image : ProgramImage).
        run_and_finish t disk fuel args (load_program new_context image) [] in
      let traced : run_reference_engine t to_string files disk fuel args
          ≡ on_outcome loaded (λ image. trace_if disk args (run image)) =
        rw (given, no_disasm, no_only) refl in
      traced ∙ λ k. on_outcome loaded λ image. trace_if-open disk args opens (run image) k

module _ (t : Tables) (equal_record : MinstRecord → MinstRecord → Bool) (to_string : ℕ → String)
    (files : String → List ℕ) (disk : Disk) where
  pub run_compare_engine-file :
      (fuel : ℕ) (args : SimMainArgs) (path : String)
      → args.program_path ≡ some path
      → SideTracesOpen disk args
      → run_compare_engine t equal_record to_string files disk fuel args
        ≡ on_outcome
            (load_file to_string files path args.raw_base_address)
            λ image. compare_image t equal_record disk fuel args image
  unfolding run_compare_engine
  run_compare_engine-file fuel args path given opens =
      let loaded = load_file to_string files path args.raw_base_address in
      let run = λ (image : ProgramImage). compare_image t equal_record disk fuel args image in
      let traced : run_compare_engine t equal_record to_string files disk fuel args
          ≡ on_outcome loaded (λ image. trace_both disk args (run image)) =
        rw given refl in
      traced ∙ λ k. on_outcome loaded λ image. trace_both-open disk args opens (run image) k

module _ (t : Tables) (equal_record : MinstRecord → MinstRecord → Bool) (disk : Disk)
    (reflexive : (r : MinstRecord) → equal_record r r ≡ true) where
  pub compare_image-run :
      (fuel : ℕ) (args : SimMainArgs) (image : ProgramImage) (c : Context)
      → run fuel t args.stop_pc args.max_cycles (load_program new_context image) ≡ some c
      → compare_image t equal_record disk (suc fuel) args image ≡ finish disk args c.exit_code c []
  unfolding make_harness
  compare_image-run fuel args image c done =
      let (x, cycle, at, same) =
        compare_loop-run t equal_record reflexive args image fuel (load_program new_context image) 0
          (make_harness args.compare_window) c refl done in
      ap
        (λ (o : Option ExecutorBackedSim). elim o [
          | none ↦ aborts
          | some ca ↦ finish_compare disk args (
              compare_loop t equal_record (suc fuel) args (load_program new_context image) ca
                (make_harness args.compare_window))
        ])
        (start_sim-mirror image)
      ∙ ap (finish_compare disk args) at
      ∙ finish_compare-leaves disk args x c image cycle same

  compare_image-reference :
      (fuel : ℕ) (args : SimMainArgs) (loaded : Outcome ProgramImage)
      → on_outcome loaded
          (λ image. run_and_finish t disk fuel args (load_program new_context image) [])
        ≢ exhausted
      → on_outcome loaded (λ image. compare_image t equal_record disk (suc fuel) args image)
        ≡ on_outcome loaded
            λ image. run_and_finish t disk fuel args (load_program new_context image) []
  compare_image-reference fuel args (throws e) ends = refl
  compare_image-reference fuel args undefined ends = refl
  compare_image-reference fuel args (returns image) ends =
      go (run fuel t args.stop_pc args.max_cycles (load_program new_context image)) refl ends
    where
      go :
          (o : Option Context)
          → run fuel t args.stop_pc args.max_cycles (load_program new_context image) ≡ o
          → (elim o [ none ↦ exhausted | some ended ↦ finish disk args ended.exit_code ended [] ])
            ≢ exhausted
          → compare_image t equal_record disk (suc fuel) args image
            ≡ elim o [ none ↦ exhausted | some ended ↦ finish disk args ended.exit_code ended [] ]
      go none e out = absurd (out refl)
      go (some c) e out = compare_image-run fuel args image c e

  module _ (to_string : ℕ → String) (files : String → List ℕ) where
    -- Where records are compared by a reflexive test, the compare engine ends as the reference engine
    -- does, one turn of its loop later at most: with the same exit code and result file, or the same
    -- error. So it never reports a mismatch. The program is given, no disassembly is asked for, the
    -- trace files open where a trace is asked for, and the run of the reference engine ends.
    pub compare-reference :
        (fuel : ℕ) (args : SimMainArgs) (path : String)
        → args.program_path ≡ some path
        → args.enable_disassembly ≡ false
        → args.disassembly_only ≡ false
        → TraceOpens disk args
        → SideTracesOpen disk args
        → run_reference_engine t to_string files disk fuel args ≢ exhausted
        → run_compare_engine t equal_record to_string files disk (suc fuel) args
          ≡ run_reference_engine t to_string files disk fuel args
    compare-reference fuel args path given no_disasm no_only opens opens_sides ends =
        let ref =
          run_reference_engine-file t to_string files disk fuel args path given no_disasm no_only
            opens in
        let cmp =
          run_compare_engine-file t equal_record to_string files disk (suc fuel) args path given
            opens_sides in
        let loaded = load_file to_string files path args.raw_base_address in
        cmp ∙ compare_image-reference fuel args loaded (λ e. ends (ref ∙ e)) ∙ sym ref
