-- ===== src/Cli/Engine.antt =====
-- `ExecutorBackedSim` of src/emulator/reference_executor.cpp: a system without modules, whose shared
-- part is the context that its executor steps. What `ReportSystem` logs is left out.
use linx_model.Base.{ℕ, Bool, false, Option, none, some, [], ◌>>=◌}
use linx_model.Base.Int.{pos}
use linx_model.Isa.Desc.{Tables}
use linx_model.Emulator.State.{initial_state}
use linx_model.Emulator.Context.{ProgramImage, load_program, reset_context}
use linx_model.Emulator.Executor.Execute.{Context}
use linx_model.Emulator.Executor.Steps.{step}
use linx_model.System.{SimObject, SimSystem, SystemHooks, build, reset, load_program_image}
use linx_model.Main.Loop.{RunHooks}

-- A context as it is constructed.
abbrev pub new_context : Context
new_context = record {
  program = record { source_path = ""; entry_point = 0; sections = [] };
  state = initial_state;
  memory = λ b. none;
  committed = [];
  last_committed = none;
  cycle = 0;
  exit_code = pos 0;
  has_program = false;
  terminated = false;
  last_error = "";
}

abbrev pub ExecutorBackedSim : Type 0
ExecutorBackedSim = SimSystem Unit Context

-- There are no modules, so this is never called.
abbrev pub no_object : SimObject Unit Context
no_object = record {
  build = λ x h. some (x, h);
  reset = λ x h. some (x, h);
  work = λ x h. some (x, h);
  xfer = λ x h. some (x, h);
}

abbrev pub new_sim : ExecutorBackedSim
new_sim = record {
  modules = [];
  shared = new_context;
  program_image = none;
  cycle = 0;
  built = false;
  terminate_requested = false;
}

unfoldable pub on_program_loaded : ProgramImage → ExecutorBackedSim → Option ExecutorBackedSim
unfolding load_program
on_program_loaded image s = some (record s { shared = load_program s.shared image })

unfoldable pub reset_system : ExecutorBackedSim → Option ExecutorBackedSim
unfolding reset_context
reset_system s = some (record s { shared = reset_context s.shared })

abbrev pub need_terminate : ExecutorBackedSim → Bool
need_terminate s = s.shared.terminated

abbrev pub system_hooks : SystemHooks Unit Context
system_hooks = record {
  build_system = λ s. some s;
  reset_system = reset_system;
  on_program_loaded = on_program_loaded;
}

module _ (t : Tables) where
  unfoldable pub run_reference : Option ℕ → ExecutorBackedSim → Option ExecutorBackedSim
  unfolding step
  run_reference stop_pc s = some (record s { shared = (step t stop_pc s.shared).1 })

  abbrev pub run_hooks : RunHooks Unit Context
  run_hooks = record { run_reference = run_reference; need_terminate = need_terminate }

-- `LoadProgramImage`, `Build` and `Reset` of a new system.
unfoldable pub start_sim : ProgramImage → Option ExecutorBackedSim
unfolding load_program_image build reset on_program_loaded reset_system
start_sim image =
    load_program_image no_object system_hooks image new_sim
    >>= (λ s. build no_object system_hooks s)
    >>= (λ s. reset no_object system_hooks s)
