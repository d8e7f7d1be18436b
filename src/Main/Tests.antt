-- ===== src/Main/Tests.antt =====
-- Command lines, and the theorems on them.
use Prim.Native.String.{String}
use text.Mathlib.Text.{◌==◌ as str_eq}
use linx_model.System.{SimObject, SimSystem, step}
use linx_model.System.Run.{SoundObject, IsRunning}
use linx_model.Main.Loop.{RunHooks, finished, run_loop, run_loop-finishes}
use linx_model.Base.{
  ℕ, ◌+◌, ◌≤◌, ◌<◌, arith, true, false, ◌≡◌, refl, Option, none, some, [], ◌∷◌, if◌then◌else◌,
}
use linx_model.Main.{
  exit_code, SimMainArgs, parsed, usage, fails, default_args, parse_sim_main_args, LogLevel,
}
use linx_model.Main.Accept.{Explains, parse_sim_main_args-Explains}

abbrev stoull : String → Option (ℕ × ℕ)
stoull text =
    if str_eq text "64" then some (64, 2) else if str_eq text "0" then some (0, 1) else none

parse-some :
    parse_sim_main_args stoull ("--max-cycles" ∷ "64" ∷ "a.elf" ∷ "--log-level" ∷ "warn" ∷ [])
    ≡ parsed (record default_args {
      max_cycles = some 64;
      program_path = some "a.elf";
      log_level = LogLevel.warning;
    })
unfolding parse_sim_main_args
parse-some = refl

parse-window :
    parse_sim_main_args stoull ("--compare-window" ∷ "0" ∷ [])
    ≡ fails "--compare-window must be > 0\n"
unfolding parse_sim_main_args
parse-window = refl

parse-missing : parse_sim_main_args stoull ("--bin" ∷ []) ≡ fails "missing value for --bin\n"
unfolding parse_sim_main_args
parse-missing = refl

exit-missing : exit_code (parse_sim_main_args stoull ("--bin" ∷ [])) ≡ 1
unfolding parse_sim_main_args
exit-missing = refl

parse-help : parse_sim_main_args stoull ("a.elf" ∷ "-h" ∷ []) ≡ usage
unfolding parse_sim_main_args
parse-help = refl

parse_sim_main_args-Explains_example :
    Explains stoull
      ("a.elf" ∷ "--max-cycles" ∷ "64" ∷ [])
      (parsed (record default_args { program_path = some "a.elf"; max_cycles = some 64 }))
unfolding parse_sim_main_args
parse_sim_main_args-Explains_example =
    parse_sim_main_args-Explains stoull ("a.elf" ∷ "--max-cycles" ∷ "64" ∷ [])

-- An object that counts its calls of `Work`.
abbrev counter : SimObject ℕ ℕ
counter = record {
  build = λ x h. some (x, h);
  reset = λ x h. some (0, h);
  work = λ x h. some (x + 1, h);
  xfer = λ x h. some (x, h + x);
}

abbrev counter_sound : SoundObject counter
counter_sound = record {
  IsReady = λ x. Unit;
  IsShared = λ h. Unit;
  work_returns = λ x h r v. (x + 1, h, refl, tt, tt);
  xfer_returns = λ x h r v. (x, h + x, refl, tt, tt);
}

abbrev plain : RunHooks ℕ ℕ
plain = record { run_reference = λ pc s. some s; need_terminate = λ s. s.terminate_requested }

abbrev system : SimSystem ℕ ℕ
system = record {
  modules = 0 ∷ [];
  shared = 0;
  program_image = none;
  cycle = 0;
  built = true;
  terminate_requested = false;
}

abbrev three_cycles : SimMainArgs
three_cycles = record default_args { max_cycles = some 3 }

run-system :
    run_loop counter plain three_cycles 3 false system
    ≡ finished
        (record system { modules = 3 ∷ []; shared = 6; cycle = 3; terminate_requested = true })
unfolding run_loop step
run-system = refl

run_loop-finishes_example :
    (u : SimSystem ℕ ℕ) × (run_loop counter plain three_cycles 3 false system ≡ finished u)
    × IsRunning counter counter_sound u
    × (0 < u.cycle)
    × (u.cycle ≤ 3)
run_loop-finishes_example =
    run_loop-finishes counter plain three_cycles counter_sound (λ pc s v. (s, refl, v, refl)) 3 3
      system refl (record { ready = (tt, tt); shared_ok = tt }) (omega arith) (omega arith)
      (omega arith)
