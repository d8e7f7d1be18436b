-- ===== src/Main/Accept.antt =====
-- What `ParseSimMainArgs` of src/sim_main.cpp accepts.
use Prim.Native.String.{String}
use text.Mathlib.Text.{◌==◌ as str_eq, starts_with}
use linx_model.Base.{
  ℕ, ◌≡◌, ◌≢◌, ◌⊎◌, inl, inr, Bool, true, false, not, ◌||◌, ◌&&◌, Option, none, some, List, [], ◌∷◌,
  ◌==◌, if◌then◌else◌, arith, refl,
}
use linx_model.Main.{
  LogLevel, SimMainArgs, ParseResult, parsed, usage, fails, Turn, ends, reads_one, reads_two,
  default_args, has_value, is_engine, with_value, with_number, set_engine, set_compare_window,
  set_log_level, parse_unsigned_arg, parse_log_level, parse_flag, parse_option, check_args,
  parse_args, parse_sim_main_args,
}

-- An engine of the three, and a window that is not empty.
pub record IsSound (args : SimMainArgs) : Type 0 where
  pub engine : is_engine args.engine ≡ true
  pub window : args.compare_window ≢ 0

-- The three result options all given, with a size that is not 0, or none of them.
abbrev pub AreTogether : SimMainArgs → Type 0
AreTogether args =
    ((has_value args.result_dump_path ≡ has_value args.result_address)
      × (has_value args.result_address ≡ has_value args.result_size))
    × (args.result_size ≢ some 0)

-- A turn that goes on does so with sound arguments.
data GoesOn : Turn → Type 0 where
  failing : {err : String} → GoesOn (ends (fails err))
  one : {args : SimMainArgs} → IsSound args → GoesOn (reads_one args)
  two : {args : SimMainArgs} → IsSound args → GoesOn (reads_two args)

module _ (args : SimMainArgs) (s : IsSound args) where
  copy :
      (args' : SimMainArgs)
      → args'.engine ≡ args.engine
      → args'.compare_window ≡ args.compare_window
      → IsSound args'
  copy args' e w = record { engine = rw e s.engine; window = rw w s.window }

  GoesOn-if : (b : Bool) (m n : Turn) → GoesOn m → GoesOn n → GoesOn (if b then m else n)
  GoesOn-if true m n h k = h
  GoesOn-if false m n h k = k

  GoesOn-value :
      (arg : String) (next : Option String) (f : String → Turn)
      → ((v : String) → GoesOn (f v))
      → GoesOn (with_value arg next f)
  GoesOn-value arg none f h = failing
  GoesOn-value arg (some v) f h = h v

  GoesOn-engine : (v : String) → GoesOn (set_engine args v)
  GoesOn-engine v = go _ (is_engine v) refl
    where
      go :
          (err : String) (b : Bool)
          → is_engine v ≡ b
          → GoesOn (if b then reads_two (record args { engine = v }) else ends (fails err))
      go err true e = two (record { engine = e; window = s.window })
      go err false e = failing

  GoesOn-window : (v : ℕ) → GoesOn (set_compare_window args v)
  GoesOn-window v = go _ (v == 0) refl
    where
      go :
          (err : String) (b : Bool)
          → (v == 0) ≡ b
          → GoesOn (if b then ends (fails err) else reads_two (record args { compare_window = v }))
      go err true e = failing
      go err false e = two (record { engine = s.engine; window = ground arith })

  GoesOn-level : (v : String) → GoesOn (set_log_level args v)
  GoesOn-level v = go _ (parse_log_level v)
    where
      go :
          (err : String) (o : Option LogLevel)
          → GoesOn (elim o [
            | none ↦ ends (fails err)
            | some level ↦ reads_two (record args { log_level = level })
          ])
      go err none = failing
      go err (some level) = two (copy _ refl refl)

  GoesOn-flag : (arg : String) → GoesOn (parse_flag args arg)
  unfolding parse_flag
  GoesOn-flag arg = GoesOn-if (str_eq arg "--disasm") _ _ (one (copy _ refl refl)) (
      GoesOn-if (str_eq arg "--disasm-only") _ _ (one (copy _ refl refl)) (
        GoesOn-if (str_eq arg "--no-reference") _ _ (one (copy _ refl refl)) (
          GoesOn-if (str_eq arg "--no-pipeview") _ _ (one (copy _ refl refl)) (
            GoesOn-if (str_eq arg "--no-report") _ _ (one (copy _ refl refl)) (
              GoesOn-if (not (str_eq arg "") && not (starts_with arg "-")) _ _
                (once _ args.program_path) failing)))))
    where
      once :
          (err : String) (o : Option String)
          → GoesOn (elim o [
            | none ↦ reads_one (record args { program_path = some arg })
            | some path ↦ ends (fails err)
          ])
      once err none = one (copy _ refl refl)
      once err (some path) = failing

module _ (stoull : String → Option (ℕ × ℕ)) where
  GoesOn-number :
      (arg : String) (next : Option String) (f : ℕ → Turn)
      → ((v : ℕ) → GoesOn (f v))
      → GoesOn (with_number stoull arg next f)
  GoesOn-number arg none f h = failing
  GoesOn-number arg (some text) f h = go _ (parse_unsigned_arg stoull text)
    where
      go :
          (err : String) (o : Option ℕ) → GoesOn (elim o [ none ↦ ends (fails err) | some v ↦ f v ])
      go err none = failing
      go err (some v) = h v

  GoesOn-option :
      (args : SimMainArgs) (arg : String) (next : Option String)
      → IsSound args
      → GoesOn (parse_option stoull args arg next)
  unfolding parse_option
  GoesOn-option args arg next s =
      let c = λ (b : Bool) (m n : Turn). GoesOn-if args s b m n in
      c (str_eq arg "--stop-pc") _ _ (GoesOn-number arg next _ λ v. two (copy args s _ refl refl)) (
        c (str_eq arg "--engine") _ _ (GoesOn-value args s arg next _ (GoesOn-engine args s)) (
          c (str_eq arg "--bin") _ _
            (GoesOn-value args s arg next _ λ v. two (copy args s _ refl refl))
            (c (str_eq arg "--raw-base") _ _
              (GoesOn-number arg next _ λ v. two (copy args s _ refl refl))
              (c (str_eq arg "--emit-minst-trace") _ _
                (GoesOn-value args s arg next _ λ v. two (copy args s _ refl refl))
                (c (str_eq arg "--result-dump") _ _
                  (GoesOn-value args s arg next _ λ v. two (copy args s _ refl refl))
                  (c (str_eq arg "--result-address") _ _
                    (GoesOn-number arg next _ λ v. two (copy args s _ refl refl))
                    (c (str_eq arg "--result-size") _ _
                      (GoesOn-number arg next _ λ v. two (copy args s _ refl refl))
                      (c (str_eq arg "--max-cycles") _ _
                        (GoesOn-number arg next _ λ v. two (copy args s _ refl refl))
                        (c (str_eq arg "--compare-window") _ _
                          (GoesOn-number arg next _ (GoesOn-window args s))
                          (c (str_eq arg "--log-level") _ _
                            (GoesOn-value args s arg next _ (GoesOn-level args s))
                            (GoesOn-flag args s arg)))))))))))

  -- What a parse can end in: accepted arguments that are sound and whose result options go
  -- together, the usage, which some argument asks for, or an error.
  abbrev pub AsksForHelp : List String → Type 0
  AsksForHelp [] = ⊥
  AsksForHelp (arg ∷ argv) = ((str_eq arg "-h" || str_eq arg "--help") ≡ true) ⊎ AsksForHelp argv

  abbrev pub Explains : List String → ParseResult → Type 0
  Explains argv (parsed args) = IsSound args × AreTogether args
  Explains argv usage = AsksForHelp argv
  Explains argv (fails err) = Unit

  Explains-check :
      (argv : List String) (args : SimMainArgs) → IsSound args → Explains argv (check_args args)
  unfolding check_args
  Explains-check argv args s = ground (arith, s)

  Explains-later :
      (arg : String) (argv : List String) (r : ParseResult)
      → Explains argv r
      → Explains (arg ∷ argv) r
  Explains-later arg argv (parsed args) h = h
  Explains-later arg argv usage h = inr h
  Explains-later arg argv (fails err) h = tt

  -- The first argument asks for help, or its turn goes on.
  Explains-if :
      (b : Bool) (arg : String) (argv : List String) (r : ParseResult)
      → (str_eq arg "-h" || str_eq arg "--help") ≡ b
      → Explains (arg ∷ argv) r
      → Explains (arg ∷ argv) (if b then usage else r)
  Explains-if true arg argv r asks h = inl asks
  Explains-if false arg argv r asks h = h

  parse_args-last :
      (arg : String) (turn : Turn)
      → GoesOn turn
      → Explains (arg ∷ []) (elim turn [
        | ends result ↦ result
        | reads_one args' ↦ check_args args'
        | reads_two args' ↦ check_args args'
      ])
  parse_args-last arg _ failing = tt
  parse_args-last arg _ (one {args} s) = Explains-check (arg ∷ []) args s
  parse_args-last arg _ (two {args} s) = Explains-check (arg ∷ []) args s

  parse_args-next :
      (arg value : String) (rest : List String) (turn : Turn)
      → GoesOn turn
      → ((args : SimMainArgs)
          → IsSound args
          → Explains (value ∷ rest) (parse_args stoull args (value ∷ rest)))
      → ((args : SimMainArgs) → IsSound args → Explains rest (parse_args stoull args rest))
      → Explains (arg ∷ value ∷ rest) (elim turn [
        | ends result ↦ result
        | reads_one args' ↦ parse_args stoull args' (value ∷ rest)
        | reads_two args' ↦ parse_args stoull args' rest
      ])
  parse_args-next arg value rest _ failing h k = tt
  parse_args-next arg value rest _ (one {args} s) h k =
      Explains-later arg (value ∷ rest) (parse_args stoull args (value ∷ rest)) (h args s)
  parse_args-next arg value rest _ (two {args} s) h k =
      Explains-later arg (value ∷ rest) (parse_args stoull args rest)
        (Explains-later value rest (parse_args stoull args rest) (k args s))

  parse_args-Explains :
      (argv : List String) (args : SimMainArgs)
      → IsSound args
      → Explains argv (parse_args stoull args argv)
  unfolding parse_args
  parse_args-Explains [] args s = Explains-check [] args s
  parse_args-Explains (arg ∷ []) args s =
      Explains-if _ arg [] _ refl (parse_args-last arg _ (GoesOn-option args arg none s))
  parse_args-Explains (arg ∷ value ∷ rest) args s = Explains-if _ arg (value ∷ rest) _ refl (
      parse_args-next arg value rest _ (GoesOn-option args arg (some value) s)
        (parse_args-Explains (value ∷ rest)) (parse_args-Explains rest))

  -- Every command line is accepted with an engine of the three, a window that is not empty and
  -- the three result options given together or not at all, with a size that is not 0; or it shows
  -- the usage, and then some argument asks for help; or it is refused with an error.
  pub parse_sim_main_args-Explains :
      (argv : List String) → Explains argv (parse_sim_main_args stoull argv)
  unfolding parse_sim_main_args
  parse_sim_main_args-Explains argv =
      parse_args-Explains argv default_args (record { engine = refl; window = omega arith })
