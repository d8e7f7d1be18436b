-- ===== src/Cli/Clean.antt =====
-- Ends of the program of src/linx_model_cli.cpp that are no failure of its own.
use Prim.Native.String.{String}
use linx_model.Base.{
  ℕ, ◌<◌, [], ◌-◌, ◌^◌, ◌≡◌, ◌≢◌, refl, Bool, true, false, Option, none, some, List, ltb, arith,
  if◌then◌else◌,
}
use linx_model.Base.Int.{ℤ, pos}
use linx_model.Isa.Disasm.{MinstDisassemblyLine}
use linx_model.Emulator.Context.{
  RangeRead, unmapped, length_error, mapped, range_of, collect_bytes, read_memory_range,
}
use linx_model.Emulator.Executor.Execute.{Context}
use linx_model.Elf.{LoadError, Outcome, returns, throws, undefined}
use linx_model.Main.{SimMainArgs, has_value}
use linx_model.Main.Accept.{AreTogether}
use linx_model.Cli.{
  Disk, too_long, Ending, Exit, exits, uncaught, exits_with, on_outcome, on_value, is_pass,
  write_file, dump_range, write_result_dump, finish,
}

-- An exit code, or an error of the loader.
pub data IsClean : Exit → Type 0 where
  exiting : (e : Ending) → IsClean (exits e)
  throwing : (e : LoadError) → IsClean (uncaught e)

pub IsClean-if : (b : Bool) {m n : Exit} → IsClean m → IsClean n → IsClean (if b then m else n)
IsClean-if true h k = h
IsClean-if false h k = k

pub IsClean-outcome {ℓ} :
    {A : Type ℓ} (o : Outcome A) (k : A → Exit)
    → o ≢ undefined
    → ((a : A) → o ≡ returns a → IsClean (k a))
    → IsClean (on_outcome o k)
IsClean-outcome (returns a) k defined h = h a refl
IsClean-outcome (throws e) k defined h = throwing e
IsClean-outcome undefined k defined h = absurd (defined refl)

-- A vector can have the bytes that are asked for.
abbrev pub IsShort : SimMainArgs → Type 0
IsShort args = (size : ℕ) → args.result_size ≡ some size → size < 2 ^ 63

range_of-fits : (o : Option (List ℕ)) → range_of o ≢ length_error
range_of-fits none e = absurd (ground (arith, e))
range_of-fits (some bytes) e = absurd (ground (arith, e))

read_memory_range-short :
    (ctx : Context) (address size : ℕ)
    → size < 2 ^ 63
    → read_memory_range ctx address size ≢ length_error
unfolding read_memory_range
read_memory_range-short ctx address size short e =
    absurd (ground (arith, e, range_of-fits (collect_bytes ctx.memory address 0 size [])))

module _ (disk : Disk) (args : SimMainArgs) (ctx : Context)
    (listing : List MinstDisassemblyLine) where
  dump_range-IsClean :
      (path : String) (address size : ℕ)
      → size < 2 ^ 63
      → IsClean (dump_range disk args ctx listing path address size)
  dump_range-IsClean path address size short =
      go (read_memory_range ctx address size) (read_memory_range-short ctx address size short)
    where
      go :
          (o : RangeRead)
          → o ≢ length_error
          → IsClean (elim o [
            | unmapped ↦ exits_with (pos 1) listing
            | length_error ↦ too_long
            | mapped bytes ↦ write_file disk listing path bytes
          ])
      go unmapped fits = exiting _
      go length_error fits = absurd (fits refl)
      go (mapped bytes) fits = IsClean-if (disk.writes path bytes) (exiting _) (exiting _)

  -- With the three result options together, none is taken that is not there.
  pub write_result_dump-IsClean :
      AreTogether args → IsShort args → IsClean (write_result_dump disk args ctx listing)
  unfolding write_result_dump
  write_result_dump-IsClean together short =
      go args.result_dump_path args.result_size args.result_address short
        (omega (arith, together.0.0, together.0.1)) (omega (arith, together.0.0))
    where
      go :
          (path : Option String) (size address : Option ℕ)
          → ((n : ℕ) → size ≡ some n → n < 2 ^ 63)
          → has_value path ≡ has_value size
          → has_value path ≡ has_value address
          → IsClean (elim path [
            | none ↦ exits_with (pos 0) listing
            | some p ↦ on_value size λ n.
                if ltb (2 ^ 64 - 1) n
                then exits_with (pos 1) listing
                else on_value address λ a. dump_range disk args ctx listing p a n
          ])
      go none size address short e e' = exiting _
      go (some p) none address short e e' = absurd (omega (arith, e))
      go (some p) (some n) none short e e' = absurd (omega (arith, e'))
      go (some p) (some n) (some a) short e e' =
          IsClean-if (ltb (2 ^ 64 - 1) n) (exiting _) (dump_range-IsClean p a n (short n refl))

  pub finish-IsClean :
      (code : ℤ) → AreTogether args → IsShort args → IsClean (finish disk args code ctx listing)
  unfolding finish
  finish-IsClean code together short =
      IsClean-if (is_pass code) (write_result_dump-IsClean together short) (exiting _)
