-- ===== src/Emulator/Executor/Tests.antt =====
-- A run on an empty table and a packet by hand, and the theorems on them.
use linx_model.Base.{◌≡◌, true, false, none, some, [], ◌∷◌, ◌++◌, arith}
use linx_model.Base.Int.{pos}
use linx_model.Isa.Desc.{Tables}
use linx_model.Isa.Minst.{Minst, fresh}
use linx_model.Emulator.State.{initial_state}
use linx_model.Emulator.Record.{MinstRecord}
use linx_model.Emulator.Executor.{is_implemented}
use linx_model.Emulator.Executor.Execute.{Context}
use linx_model.Emulator.Executor.Steps.{execute, run}
use linx_model.Emulator.Executor.Totality.{execute-commits, run-Returns}

abbrev start : Context
start = record {
  program = record { source_path = ""; entry_point = 0; sections = [] };
  state = initial_state;
  memory = λ b. none;
  committed = [];
  last_committed = none;
  cycle = 7;
  exit_code = pos 0;
  has_program = false;
  terminated = false;
  last_error = "";
}

abbrev stop : Minst
stop = record fresh { mnemonic = "C.BSTOP"; next_pc = 2 }

abbrev no_tables : Tables
no_tables = record { field_pieces = []; fields = []; constraints = []; forms = [] }

execute-commits_example :
    (is_implemented stop ≡ true
      → (r : MinstRecord) × ((execute stop start).committed ≡ [] ++ r ∷ [])
        × ((execute stop start).last_committed ≡ some r)
        × (r.lifecycle ≡ "retired"))
    × (is_implemented stop ≡ false
        → ((execute stop start).committed ≡ [])
          × ((execute stop start).terminated ≡ true)
          × ((execute stop start).exit_code ≡ pos 1))
execute-commits_example = execute-commits stop start

run-Returns_example :
    (c : Context) × (run 4 no_tables none (some 10) start ≡ some c) × (c.terminated ≡ true)
run-Returns_example = run-Returns 3 no_tables none 10 start (omega arith) (omega arith)
