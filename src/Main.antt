-- ===== src/Main.antt =====
-- The command line of src/sim_main.cpp: `ParseSimMainArgs`. `std::stoull` is given: the value of a
-- text and how many of its bytes it read, or `none` where it throws.
pub mod Accept
pub mod Loop
mod Tests
use Prim.Native.String.{String, len, ◌++◌ as append}
use text.Mathlib.Text.{◌==◌ as str_eq, starts_with}
use linx_model.Base.{
  ℕ, ◌+◌, Bool, true, false, not, ◌||◌, ◌&&◌, Option, none, some, List, [], ◌∷◌, ◌==◌,
  if◌then◌else◌,
}

pub data LogLevel : Type 0 where
  trace debug info warning error fatal : LogLevel

unfoldable pub parse_log_level : String → Option LogLevel
parse_log_level text =
    if str_eq text "trace"
    then some LogLevel.trace
    else if str_eq text "debug"
    then some LogLevel.debug
    else if str_eq text "info"
    then some LogLevel.info
    else if str_eq text "warn" || str_eq text "warning"
    then some LogLevel.warning
    else if str_eq text "error"
    then some LogLevel.error
    else if str_eq text "fatal"
    then some LogLevel.fatal
    else none

pub record SimMainArgs : Type 0 where
  pub engine : String
  pub emit_trace_path : Option String
  pub result_dump_path : Option String
  pub result_address : Option ℕ
  pub result_size : Option ℕ
  pub stop_pc : Option ℕ
  pub max_cycles : Option ℕ
  pub compare_window : ℕ
  pub program_path : Option String
  pub raw_base_address : ℕ
  pub log_level : LogLevel
  pub enable_reference : Bool
  pub enable_pipeview : Bool
  pub enable_report : Bool
  pub enable_disassembly : Bool
  pub disassembly_only : Bool

abbrev pub default_args : SimMainArgs
default_args = record {
  engine = "ref";
  emit_trace_path = none;
  result_dump_path = none;
  result_address = none;
  result_size = none;
  stop_pc = none;
  max_cycles = none;
  compare_window = 128;
  program_path = none;
  raw_base_address = 0;
  log_level = LogLevel.info;
  enable_reference = true;
  enable_pipeview = true;
  enable_report = true;
  enable_disassembly = false;
  disassembly_only = false;
}

-- What the parse ends in: the arguments, or the exit code and what is written to `err`; the usage
-- goes to `out`.
pub data ParseResult : Type 0 where
  parsed : SimMainArgs → ParseResult
  usage : ParseResult
  fails : String → ParseResult

-- One turn of the loop: it ends the parse, or reads the argument alone or with the next one.
pub data Turn : Type 0 where
  ends : ParseResult → Turn
  reads_one : SimMainArgs → Turn
  reads_two : SimMainArgs → Turn

abbrev pub exit_code : ParseResult → ℕ
exit_code (parsed args) = 0
exit_code usage = 0
exit_code (fails err) = 1

-- `argv[++i]`, where there is one.
abbrev pub with_value : String → Option String → (String → Turn) → Turn
with_value arg none f = ends (fails (append "missing value for " (append arg "\n")))
with_value arg (some value) f = f value

abbrev pub has_value {ℓ} : {A : Type ℓ} → Option A → ℕ
has_value none = 0
has_value (some a) = 1

-- `args.result_size == 0`, on an optional value.
abbrev pub is_zero : Option ℕ → Bool
is_zero none = false
is_zero (some n) = n == 0

-- The checks after the loop.
unfoldable pub check_args : SimMainArgs → ParseResult
check_args args =
    let count =
      has_value args.result_dump_path
      + has_value args.result_address
      + has_value args.result_size in
    if not (count == 0) && not (count == 3)
    then fails "--result-dump, --result-address, and --result-size must be specified together\n"
    else if is_zero args.result_size
    then fails "--result-size must be greater than zero\n"
    else parsed args

abbrev pub is_engine : String → Bool
is_engine engine = str_eq engine "ref" || str_eq engine "ca" || str_eq engine "compare"

abbrev pub set_engine : SimMainArgs → String → Turn
set_engine args engine =
    if is_engine engine
    then reads_two (record args { engine = engine })
    else ends (fails (append "invalid engine: " (append engine "\n")))

abbrev pub set_compare_window : SimMainArgs → ℕ → Turn
set_compare_window args value =
    if value == 0
    then ends (fails "--compare-window must be > 0\n")
    else reads_two (record args { compare_window = value })

abbrev pub set_log_level : SimMainArgs → String → Turn
set_log_level args text = elim (parse_log_level text) [
  | none ↦ ends (fails (append "invalid log level: " (append text "\n")))
  | some level ↦ reads_two (record args { log_level = level })
]

-- An argument that is no option: the program, once.
abbrev pub set_program : SimMainArgs → String → Turn
set_program args arg =
    if not (str_eq arg "") && not (starts_with arg "-")
    then elim args.program_path [
      | none ↦ reads_one (record args { program_path = some arg })
      | some path ↦ ends (fails "multiple input binaries provided\n")
    ]
    else ends (fails (append "unknown option: " (append arg "\n")))

-- The options without a value, and the last cases.
unfoldable pub parse_flag : SimMainArgs → String → Turn
parse_flag args arg =
    if str_eq arg "--disasm"
    then reads_one (record args { enable_disassembly = true })
    else if str_eq arg "--disasm-only"
    then reads_one (record args { enable_disassembly = true; disassembly_only = true })
    else if str_eq arg "--no-reference"
    then reads_one (record args { enable_reference = false })
    else if str_eq arg "--no-pipeview"
    then reads_one (record args { enable_pipeview = false })
    else if str_eq arg "--no-report"
    then reads_one (record args { enable_report = false })
    else set_program args arg

module _ (stoull : String → Option (ℕ × ℕ)) where
  unfoldable pub parse_unsigned_arg : String → Option ℕ
  parse_unsigned_arg text = elim (stoull text) [
    | none ↦ none
    | some (value, consumed) ↦ if consumed == len text then some value else none
  ]

  -- An option with a number; the parse fails where reading it throws.
  abbrev pub with_number : String → Option String → (ℕ → Turn) → Turn
  with_number arg next f = with_value arg next λ text. elim (parse_unsigned_arg text) [
    | none ↦
        ends (fails (append "invalid integer for " (append arg (append ": " (append text "\n")))))
    | some value ↦ f value
  ]

  -- The options with a value; no two options match one argument, so their order does not matter.
  unfoldable pub parse_option : SimMainArgs → String → Option String → Turn
  unfolding parse_unsigned_arg parse_log_level parse_flag
  parse_option args arg next =
      if str_eq arg "--stop-pc"
      then with_number arg next (λ v. reads_two (record args { stop_pc = some v }))
      else if str_eq arg "--engine"
      then with_value arg next (λ v. set_engine args v)
      else if str_eq arg "--bin"
      then with_value arg next (λ v. reads_two (record args { program_path = some v }))
      else if str_eq arg "--raw-base"
      then with_number arg next (λ v. reads_two (record args { raw_base_address = v }))
      else if str_eq arg "--emit-minst-trace"
      then with_value arg next (λ v. reads_two (record args { emit_trace_path = some v }))
      else if str_eq arg "--result-dump"
      then with_value arg next (λ v. reads_two (record args { result_dump_path = some v }))
      else if str_eq arg "--result-address"
      then with_number arg next (λ v. reads_two (record args { result_address = some v }))
      else if str_eq arg "--result-size"
      then with_number arg next (λ v. reads_two (record args { result_size = some v }))
      else if str_eq arg "--max-cycles"
      then with_number arg next (λ v. reads_two (record args { max_cycles = some v }))
      else if str_eq arg "--compare-window"
      then with_number arg next (λ v. set_compare_window args v)
      else if str_eq arg "--log-level"
      then with_value arg next (λ v. set_log_level args v)
      else parse_flag args arg

  -- The loop over the arguments that are left.
  unfoldable pub parse_args : SimMainArgs → List String → ParseResult
  unfolding parse_option check_args
  parse_args args [] = check_args args
  parse_args args (arg ∷ []) =
      if str_eq arg "-h" || str_eq arg "--help" then usage else elim (parse_option args arg none) [
        | ends result ↦ result
        | reads_one args' ↦ check_args args'
        | reads_two args' ↦ check_args args'
      ]
  parse_args args (arg ∷ value ∷ rest) =
      if str_eq arg "-h" || str_eq arg "--help"
      then usage
      else elim (parse_option args arg (some value)) [
        | ends result ↦ result
        | reads_one args' ↦ parse_args args' (value ∷ rest)
        | reads_two args' ↦ parse_args args' rest
      ]

  -- `ParseSimMainArgs` on the arguments after the program's name.
  unfoldable pub parse_sim_main_args : List String → ParseResult
  unfolding parse_args
  parse_sim_main_args argv = parse_args default_args argv
