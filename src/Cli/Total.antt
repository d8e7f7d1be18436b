-- ===== src/Cli/Total.antt =====
-- How a call of the program of src/linx_model_cli.cpp ends where its cycles are bounded.
use Prim.Native.String.{String}
use text.Mathlib.Text.{◌==◌ as str_eq}
use linx_model.Base.{
  ℕ, suc, ◌+◌, ◌^◌, ◌≤◌, ◌<◌, ◌≡◌, ◌≢◌, refl, sym, subst, Bool, true, false, Option, none, some,
  List, [], arith, Option-cases, inl, inr, if◌then◌else◌,
}
use linx_model.Base.Int.{pos}
use linx_model.Isa.Desc.{Tables}
use linx_model.Isa.Disasm.{MinstDisassemblyLine, disassemble_program}
use linx_model.Emulator.Context.{ProgramImage, load_program, reset_context}
use linx_model.Emulator.Record.{MinstRecord}
use linx_model.Emulator.Executor.Execute.{Context}
use linx_model.Emulator.Executor.Steps.{run, step}
use linx_model.Emulator.Executor.Totality.{run-Returns}
use linx_model.Elf.{Outcome, returns, throws, undefined}
use linx_model.System
use linx_model.System.Run.{SoundObject, IsRunning}
use linx_model.Main.{SimMainArgs, ParseResult, parsed, usage, fails, parse_sim_main_args}
use linx_model.Main.Accept.{AreTogether, Explains, parse_sim_main_args-Explains}
use linx_model.Main.Loop.{RunResult, run_loop, run_loop-finishes, run_sim_main}
use linx_model.Cli.Engine.{
  ExecutorBackedSim, new_context, new_sim, no_object, on_program_loaded, reset_system, system_hooks,
  run_hooks, run_reference,
}
use linx_model.Cli.{
  Disk, Exit, aborts, exhausted, exits_with, on_outcome, on_value, write_result_dump, finish,
}
use linx_model.Cli.Run.{
  finish_sim, load_file, load_if, list_if, load_sim, list_sim, run_and_finish, run_reference_engine,
  run_compare_engine, run_ca_engine, run_engine, main,
}
use linx_model.Cli.Engines.{
  TraceOpens, SideTracesOpen, trace_if-open, compare_image-run, run_compare_engine-file,
}
use linx_model.Cli.Clean.{
  IsShort, IsClean, exiting, throwing, IsClean-if, IsClean-outcome, write_result_dump-IsClean,
  finish-IsClean,
}

-- The systems that the main loop of `RunSimMain` starts from.
abbrev loaded_sim : Option ProgramImage → Context → ExecutorBackedSim
loaded_sim image ctx = record new_sim { shared = ctx; program_image = image }

abbrev no_object_sound : SoundObject no_object
no_object_sound = record {
  IsReady = λ x. Unit;
  IsShared = λ h. Unit;
  work_returns = λ x h r v. (x, h, refl, tt, tt);
  xfer_returns = λ x h r v. (x, h, refl, tt, tt);
}

module _ (t : Tables) (to_string : ℕ → String) (files : String → List ℕ) (disk : Disk)
    (args : SimMainArgs) (n : ℕ) (bound : args.max_cycles ≡ some n) (small : n + 2 < 2 ^ 64)
    (together : AreTogether args) (short : IsShort args) (untraced : args.emit_trace_path ≡ none)
    (defined : (path : String)
      → args.program_path ≡ some path
      → load_file to_string files path args.raw_base_address ≢ undefined)
    (given : args.program_path ≡ none → args.enable_disassembly ≡ false) where
  run-some :
      (fuel : ℕ) (ctx : Context)
      → n ≤ fuel
      → (c : Context) × (run (suc fuel) t args.stop_pc args.max_cycles ctx ≡ some c)
  run-some fuel ctx enough =
      let (c, done, _) =
        run-Returns fuel t args.stop_pc n ctx (omega (arith, small)) (omega (arith, enough)) in
      (c, subst (λ (o : Option ℕ). run (suc fuel) t args.stop_pc o ctx ≡ some c) (sym bound) done)

  run_and_finish-IsClean :
      (ctx : Context) (listing : List MinstDisassemblyLine)
      → IsClean (run_and_finish t disk (suc (suc n)) args ctx listing)
  run_and_finish-IsClean ctx listing =
      let (c, done) = run-some (suc n) ctx (omega arith) in
      subst
        (λ (o : Option Context). IsClean (elim o [
          | none ↦ exhausted
          | some ended ↦ finish disk args ended.exit_code ended listing
        ]))
        (sym done) (finish-IsClean disk args c listing c.exit_code together short)

  load_if-IsClean :
      (k : Context → Exit)
      → ((ctx : Context) → IsClean (k ctx))
      → IsClean (load_if to_string files args k)
  load_if-IsClean k clean = go args.program_path defined
    where
      go :
          (p : Option String)
          → ((path : String)
              → p ≡ some path
              → load_file to_string files path args.raw_base_address ≢ undefined)
          → IsClean (elim p [
            | none ↦ k new_context
            | some path ↦
                on_outcome
                  (load_file to_string files path args.raw_base_address)
                  λ image. k (load_program new_context image)
          ])
      go none known = clean new_context
      go (some path) known = IsClean-outcome _ _ (known path refl) λ image e. clean _

  list_if-IsClean :
      (k : List MinstDisassemblyLine → Exit)
      → ((listing : List MinstDisassemblyLine) → IsClean (k listing))
      → IsClean (list_if t to_string files disk args k)
  list_if-IsClean k clean = go args.enable_disassembly args.program_path given defined
    where
      go :
          (b : Bool) (p : Option String)
          → (p ≡ none → b ≡ false)
          → ((path : String)
              → p ≡ some path
              → load_file to_string files path args.raw_base_address ≢ undefined)
          → IsClean (
              if b
              then on_value p (λ path.
                on_outcome
                  (load_file to_string files path args.raw_base_address)
                  λ image. k (disassemble_program t image))
              else k [])
      go false p asked known = clean []
      go true none asked known = absurd (ground (arith, asked refl))
      go true (some path) asked known = IsClean-outcome _ _ (known path refl) λ image e. clean _

  untraced-TraceOpens : TraceOpens disk args
  untraced-TraceOpens path asked = absurd (ground (arith, asked, untraced))

  untraced-SideTracesOpen : SideTracesOpen disk args
  untraced-SideTracesOpen path asked = absurd (ground (arith, asked, untraced))

  run_reference_engine-IsClean :
      IsClean (run_reference_engine t to_string files disk (suc (suc n)) args)
  unfolding run_reference_engine
  run_reference_engine-IsClean = load_if-IsClean _ λ ctx. list_if-IsClean _ λ listing.
      IsClean-if args.disassembly_only
        (exiting (record { code = pos 0; listing = listing; result_file = none }))
        (subst IsClean (sym (trace_if-open disk args untraced-TraceOpens _))
          (run_and_finish-IsClean ctx listing))

  run_compare_engine-IsClean :
      (equal_record : MinstRecord → MinstRecord → Bool)
      → ((r : MinstRecord) → equal_record r r ≡ true)
      → IsClean (run_compare_engine t equal_record to_string files disk (suc (suc n)) args)
  unfolding run_compare_engine
  run_compare_engine-IsClean equal_record reflexive = elim (Option-cases args.program_path) [
    | inl absent ↦ subst IsClean (sym (no_program absent)) (exiting _)
    | inr (path, present) ↦
        subst IsClean
          (sym (
            run_compare_engine-file t equal_record to_string files disk (suc (suc n)) args path
              present untraced-SideTracesOpen))
          (IsClean-outcome _ _ (defined path present) λ image e.
            let (c, done) = run-some n (load_program new_context image) (omega arith) in
            subst IsClean
              (sym (compare_image-run t equal_record disk reflexive (suc n) args image c done))
              (finish-IsClean disk args c [] c.exit_code together short))
  ]
    where
      no_program :
          args.program_path ≡ none
          → run_compare_engine t equal_record to_string files disk (suc (suc n)) args
            ≡ exits_with (pos 1) []
      no_program absent = rw absent refl

  run_loop-IsClean :
      (s : ExecutorBackedSim) (listing : List MinstDisassemblyLine) (b : Bool)
      → IsRunning no_object no_object_sound s
      → s.cycle ≡ 0
      → IsClean
          (finish_sim disk args listing (run_loop no_object (run_hooks t) args (suc (suc n)) b s))
  unfolding run_loop run_reference
  run_loop-IsClean s listing true running at =
      write_result_dump-IsClean disk args s.shared listing together short
  run_loop-IsClean s listing false running at =
      let (u, ends, _, _, _) =
        run_loop-finishes no_object (run_hooks t) args no_object_sound
          (λ pc s' v. (
            record s' { shared = (step t pc s'.shared).1 },
            refl,
            record { ready = v.ready; shared_ok = tt },
            refl,
          ))
          (suc (suc n)) n s bound running (omega (arith, at, small)) (omega (arith, at))
          (omega arith) in
      subst (λ (r : RunResult Unit Context). IsClean (finish_sim disk args listing r)) (sym ends)
        (write_result_dump-IsClean disk args u.shared listing together short)

  -- The main loop on the context that `ResetSystem` leaves.
  run_sim_main-IsClean :
      (image : Option ProgramImage) (ctx : Context) (listing : List MinstDisassemblyLine)
      → IsClean (
          finish_sim disk args listing (
            run_sim_main no_object
              (run_hooks t)
              args
              system_hooks
              (suc (suc n))
              (loaded_sim image ctx)))
  unfolding run_sim_main System.build System.reset reset_system
  run_sim_main-IsClean image ctx listing =
      run_loop-IsClean
        (record new_sim { shared = reset_context ctx; program_image = image; built = true }) listing
        (reset_context ctx).terminated (record { ready = tt; shared_ok = tt }) refl

  load_sim-IsClean :
      (k : ExecutorBackedSim → Exit)
      → (args.program_path ≡ none → IsClean (k new_sim))
      → ((image : ProgramImage) (ctx : Context) → IsClean (k (loaded_sim (some image) ctx)))
      → IsClean (load_sim to_string files args k)
  unfolding System.load_program_file on_program_loaded load_file
  load_sim-IsClean k bare clean = go args.program_path bare defined
    where
      of_outcome :
          (o : Outcome ProgramImage)
          → o ≢ undefined
          → IsClean (
              on_outcome
                (System.load_outcome no_object system_hooks o new_sim)
                λ loaded. elim loaded [ none ↦ aborts | some s ↦ k s ])
      of_outcome (returns image) known = clean image _
      of_outcome (throws e) known = throwing e
      of_outcome undefined known = absurd (known refl)

      go :
          (p : Option String)
          → (p ≡ none → IsClean (k new_sim))
          → ((path : String)
              → p ≡ some path
              → load_file to_string files path args.raw_base_address ≢ undefined)
          → IsClean (elim p [
            | none ↦ k new_sim
            | some path ↦
                on_outcome
                  (System.load_program_file no_object system_hooks to_string
                    (files path)
                    path
                    args.raw_base_address
                    new_sim)
                  λ loaded. elim loaded [ none ↦ aborts | some s ↦ k s ]
          ])
      go none bare known = bare refl
      go (some path) bare known = of_outcome _ (known path refl)

  list_sim-IsClean :
      (image : Option ProgramImage) (ctx : Context) (k : List MinstDisassemblyLine → Exit)
      → (image ≡ none → args.enable_disassembly ≡ false)
      → ((listing : List MinstDisassemblyLine) → IsClean (k listing))
      → IsClean (list_sim t args (loaded_sim image ctx) k)
  list_sim-IsClean image ctx k asked clean = go args.enable_disassembly image asked
    where
      go :
          (b : Bool) (o : Option ProgramImage)
          → (o ≡ none → b ≡ false)
          → IsClean
              (if b then elim o [ none ↦ aborts | some i ↦ k (disassemble_program t i) ] else k [])
      go false o asked = clean []
      go true none asked = absurd (ground (arith, asked refl))
      go true (some i) asked = clean _

  run_ca_engine-IsClean : IsClean (run_ca_engine t to_string files disk (suc (suc n)) args)
  unfolding run_ca_engine
  run_ca_engine-IsClean =
      load_sim-IsClean
        (λ s. list_sim t args s λ listing.
          if args.disassembly_only
          then write_result_dump disk args s.shared listing
          else finish_sim disk args listing
              (run_sim_main no_object (run_hooks t) args system_hooks (suc (suc n)) s))
        (λ absent.
          list_sim-IsClean none new_context _ (λ e. given absent)
            λ listing. from none new_context listing)
        λ image ctx.
          list_sim-IsClean (some image) ctx _ (λ e. absurd (ground (arith, e)))
            λ listing. from (some image) ctx listing
    where
      from :
          (image : Option ProgramImage) (ctx : Context) (listing : List MinstDisassemblyLine)
          → IsClean (
              if args.disassembly_only
              then write_result_dump disk args ctx listing
              else finish_sim disk args listing (
                  run_sim_main no_object
                    (run_hooks t)
                    args
                    system_hooks
                    (suc (suc n))
                    (loaded_sim image ctx)))
      from image ctx listing =
          IsClean-if args.disassembly_only
            (write_result_dump-IsClean disk args ctx listing together short)
            (run_sim_main-IsClean image ctx listing)

  module _ (equal_record : MinstRecord → MinstRecord → Bool)
      (reflexive : (r : MinstRecord) → equal_record r r ≡ true) where
    run_engine-IsClean : IsClean (run_engine t equal_record to_string files disk (suc (suc n)) args)
    unfolding run_engine
    run_engine-IsClean = IsClean-if (str_eq args.engine "ref") run_reference_engine-IsClean (
        IsClean-if (str_eq args.engine "compare")
          (run_compare_engine-IsClean equal_record reflexive) run_ca_engine-IsClean)

-- A call of the program whose arguments are accepted with a bound of `n` cycles ends, with an exit
-- code or with an error of the loader, within `n` turns of its loop and two more: whatever the
-- engine, no run goes on, no assertion fails and no absent value is used. The test of two records is
-- reflexive, the loader stays inside the program's file, a program is given if its disassembly is
-- asked for, the bytes of the result are fewer than 2^63, and no trace is asked for.
pub main-IsClean :
    (t : Tables) (equal_record : MinstRecord → MinstRecord → Bool) (to_string : ℕ → String)
    (files : String → List ℕ) (disk : Disk) (stoull : String → Option (ℕ × ℕ)) (argv : List String)
    (args : SimMainArgs) (n : ℕ)
    → ((r : MinstRecord) → equal_record r r ≡ true)
    → parse_sim_main_args stoull argv ≡ parsed args
    → args.max_cycles ≡ some n
    → n + 2 < 2 ^ 64
    → ((path : String)
        → args.program_path ≡ some path
        → load_file to_string files path args.raw_base_address ≢ undefined)
    → (args.program_path ≡ none → args.enable_disassembly ≡ false)
    → IsShort args
    → args.emit_trace_path ≡ none
    → IsClean (main t equal_record to_string files disk stoull (suc (suc n)) argv)
unfolding main
main-IsClean t equal_record to_string files disk stoull argv args n reflexive accepted bound small
      defined given short untraced =
    let explained =
      subst (Explains stoull argv) accepted (parse_sim_main_args-Explains stoull argv) in
    subst
      (λ (r : ParseResult). IsClean (elim r [
        | parsed a ↦ run_engine t equal_record to_string files disk (suc (suc n)) a
        | usage ↦ exits_with (pos 0) []
        | fails err ↦ exits_with (pos 1) []
      ]))
      (sym accepted)
      (run_engine-IsClean t to_string files disk args n bound small explained.1 short untraced
        defined given equal_record reflexive)
