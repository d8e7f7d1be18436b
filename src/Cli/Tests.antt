-- ===== src/Cli/Tests.antt =====
-- Calls of the program on a file of two bytes that decode to nothing, and the theorems on them.
use Prim.Native.String.{String}
use linx_model.Base.{
  Bool-cases, inl, inr, ◌^◌, false, ◌++◌, ℕ, ◌≡◌, refl, Bool, true, Option, none, some, List, [],
  ◌∷◌, arith,
}
use linx_model.Base.Int.{pos}
use linx_model.Isa.Desc.{Tables}
use linx_model.Emulator.Context.{ProgramImage, load_program}
use linx_model.Emulator.Record.{MinstRecord}
use linx_model.Emulator.Executor.Execute.{Context}
use linx_model.Emulator.Executor.Steps.{run}
use linx_model.Elf.{returns}
use linx_model.Elf.Load.{load_program_image}
use linx_model.System
use linx_model.Main.{SimMainArgs, parsed, default_args, parse_sim_main_args}
use linx_model.Cli.Engine.{new_context, on_program_loaded, reset_system, run_reference}
use linx_model.Isa.Asm.{same_bytes}
use linx_model.Emulator.Record.Paths.{dump_path}
use linx_model.Emulator.Record.Trace.{set_trace_path}
use linx_model.Cli.{
  Disk, opens_trace, aborts, too_long, exits, bad_access, exits_with, finish, write_result_dump,
}
use linx_model.Cli.Run.{load_file, run_reference_engine, run_compare_engine, run_ca_engine, main}
use linx_model.Cli.Engines.{compare-reference}
use linx_model.Cli.Clean.{IsClean}
use linx_model.Cli.Total.{main-IsClean}
use linx_model.Cli.Mismatch.{dump_state_summary}
use linx_model.Base.Text.{Bytes, codes}
use linx_model.Emulator.State.{initial_state}
use linx_model.Cli.CaEngine.{ca-reference}

abbrev no_tables : Tables
no_tables = record { field_pieces = []; fields = []; constraints = []; forms = [] }

abbrev to_string : ℕ → String
to_string n = "0"

abbrev files : String → List ℕ
files path = 1 ∷ 2 ∷ []

abbrev disk : Disk
disk = record { opens = λ path. true; writes = λ path bytes. true }

abbrev always : MinstRecord → MinstRecord → Bool
always r c = true

abbrev stoull : String → Option (ℕ × ℕ)
stoull text = some (3, 1)

abbrev args : SimMainArgs
args = record default_args { program_path = some "a.bin"; max_cycles = some 3 }

parse-args : parse_sim_main_args stoull ("a.bin" ∷ "--max-cycles" ∷ "3" ∷ []) ≡ parsed args
unfolding parse_sim_main_args
parse-args = refl

abbrev image : ProgramImage
image = record {
  source_path = "a.bin";
  entry_point = 0;
  sections = record { name = ".text"; address = 0; bytes = 1 ∷ 2 ∷ []; executable = true } ∷ [];
}

load-image : load_file to_string files "a.bin" 0 ≡ returns image
unfolding load_file
load-image = refl

-- The executor stops on the first word.
abbrev stopped : Context
stopped = record (load_program new_context image) {
  terminated = true;
  exit_code = pos 1;
  last_error = "fetch_decode_failed";
}

run-image : run 3 no_tables none (some 3) (load_program new_context image) ≡ some stopped
unfolding load_program run
run-image = refl

reference-image : run_reference_engine no_tables to_string files disk 3 args ≡ exits_with (pos 1) []
unfolding run_reference_engine
reference-image = refl

-- The `ca` engine on the same file.
ca-image : run_ca_engine no_tables to_string files disk 3 args ≡ exits_with (pos 0) []
unfolding run_ca_engine load_program_image on_program_loaded System.build System.reset reset_system
    run_reference System.step
ca-image = refl

-- The reference engine takes the path of the program to disassemble, which is not there.
main-disasm : main no_tables always to_string files disk stoull 3 ("--disasm" ∷ []) ≡ bad_access
unfolding main
main-disasm = refl

-- A run that stops at its first word, and the file that it leaves.
abbrev dump_args : SimMainArgs
dump_args = record args {
  stop_pc = some 0;
  emit_trace_path = some "out/t.jsonl";
  result_dump_path = some "out.bin";
  result_address = some 1;
  result_size = some 1;
}

reference-dump :
    run_reference_engine no_tables to_string files disk 3 dump_args
    ≡ exits (record { code = pos 0; listing = []; result_file = some ("out.bin", 2 ∷ []) })
unfolding run_reference_engine
reference-dump = refl

-- On a file system where every file opens, every trace does.
opens-any : (path : Bytes) → opens_trace disk path ≡ true
unfolding opens_trace set_trace_path
opens-any [] = refl
opens-any (c ∷ cs) = elim (Bool-cases (same_bytes (c ∷ cs) (dump_path (c ∷ cs)))) [
  | inl same ↦ ground (arith, same)
  | inr differ ↦ ground (arith, differ)
]

-- A trace whose file does not open, and a result that no vector can hold.
reference-closed :
    run_reference_engine no_tables to_string files
      (record disk { opens = λ path. false })
      3
      (record args { emit_trace_path = some "out/t.jsonl" })
    ≡ aborts
unfolding run_reference_engine
reference-closed = refl

reference-long :
    run_reference_engine no_tables to_string files disk 3
      (record dump_args { result_address = some 0; result_size = some (2 ^ 63) })
    ≡ too_long
unfolding run_reference_engine
reference-long = refl

compare-reference_example :
    run_compare_engine no_tables always to_string files disk 4 dump_args
    ≡ run_reference_engine no_tables to_string files disk 3 dump_args
compare-reference_example =
    compare-reference no_tables always disk (λ r. refl) to_string files 3 dump_args "a.bin" refl
      refl refl (λ path e. opens-any (codes path)) (λ path e. (opens-any _, opens-any _))
      (λ e. absurd (cc (e, reference-dump)))

ca-reference_example :
    (run_reference_engine no_tables to_string files disk 3 args
      ≡ finish disk args (pos 1) stopped [])
    × (run_ca_engine no_tables to_string files disk 3 args ≡ write_result_dump disk args stopped [])
ca-reference_example =
    ca-reference no_tables to_string files disk 3 args "a.bin" image stopped refl refl refl refl
      (λ e. absurd (ground (arith, e))) (λ path e. opens-any (codes path)) load-image run-image

main-IsClean_example :
    IsClean
      (main no_tables always to_string files disk stoull 5 ("a.bin" ∷ "--max-cycles" ∷ "3" ∷ []))
main-IsClean_example =
    main-IsClean no_tables always to_string files disk stoull ("a.bin" ∷ "--max-cycles" ∷ "3" ∷ [])
      args 3 (λ r. refl) parse-args refl (omega arith) (λ path e d. absurd (cc (e, d, load-image)))
      (λ e. absurd (ground (arith, e))) (λ size e. absurd (ground (arith, e))) refl

summary-initial :
    dump_state_summary (record initial_state { pc = 0x1000 })
    ≡ codes "{pc=4096,acr=0,bpc=0,tgt=0,cond=0,carg=0,brtype=0,block_kind=scalar,lane_id=-1,"
      ++ codes "a0=0,a1=0,sp=0,ra=0,insn_count=0}"
unfolding dump_state_summary initial_state
summary-initial = refl
