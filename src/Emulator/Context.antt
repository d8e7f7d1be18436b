-- ===== src/Emulator/Context.antt =====
-- The execution context of src/emulator/execution_context.cpp, with the program image of
-- include/linx/model/program_image.hpp. Memory is a function of the address. The context does not
-- look into the committed records, whose type is a parameter; the two trace files, which no other
-- part of the state depends on, are in Emulator/Record/Trace.antt.
pub mod Words
pub mod Finisher
pub mod Program
mod Tests
use Prim.Native.Nat.{bit_or, bit_and}
use Prim.Native.String.{String}
use linx_model.Base.{
  ℕ, zero, suc, ◌+◌, ◌-◌, ◌*◌, ◌/◌, ◌%◌, ◌^◌, Bool, true, false, not, ◌&&◌, Option, none, some,
  List, [], ◌∷◌, ◌++◌, ◌==◌, ltb, if◌then◌else◌,
}
use linx_model.Base.Int.{ℤ, pos}
use linx_model.Emulator.State.{LinxState, initial_state}

pub record ProgramSection : Type 0 where
  pub name : String
  pub address : ℕ
  pub bytes : List ℕ
  pub executable : Bool

pub record ProgramImage : Type 0 where
  pub source_path : String
  pub entry_point : ℕ
  pub sections : List ProgramSection

abbrev pub Memory : Type 0
Memory = ℕ → Option ℕ

pub record ExecutionContext (R : Type 0) : Type 0 where
  pub program : ProgramImage
  pub state : LinxState
  pub memory : Memory
  pub committed : List R
  pub last_committed : Option R
  pub cycle : ℕ
  pub exit_code : ℤ
  pub has_program : Bool
  pub terminated : Bool
  pub last_error : String

-- An address is a 64-bit word.
abbrev pub address_at : ℕ → ℕ → ℕ
address_at addr idx = (addr + idx) % 2 ^ 64

-- `memory_[addr] = value`.
unfoldable pub store : Memory → ℕ → ℕ → Memory
store m addr value = λ b. if b == addr then some value else m b

-- The loops of `Write32` and `Write64`, for the `n` bytes from `idx` on.
unfoldable pub write_bytes : Memory → ℕ → ℕ → ℕ → ℕ → Memory
unfolding store
write_bytes m addr value idx zero = m
write_bytes m addr value idx (suc n) =
    write_bytes (store m (address_at addr idx) (value / 2 ^ (idx * 8) % 2 ^ 8)) addr value (suc idx)
      n

-- The loops of `Read32` and `Read64`; a byte shifted to its place fits the word.
unfoldable pub read_bytes : Memory → ℕ → ℕ → ℕ → ℕ → Option ℕ
read_bytes m addr value idx zero = some value
read_bytes m addr value idx (suc n) = elim (m (address_at addr idx)) [
  | none ↦ none
  | some byte ↦ read_bytes m addr (bit_or value (byte * 2 ^ (idx * 8))) (suc idx) n
]

-- The loop of `ReadMemoryRange`.
unfoldable pub collect_bytes : Memory → ℕ → ℕ → ℕ → List ℕ → Option (List ℕ)
collect_bytes m addr idx zero bytes = some bytes
collect_bytes m addr idx (suc n) bytes = elim (m (address_at addr idx)) [
  | none ↦ none
  | some byte ↦ collect_bytes m addr (suc idx) n (bytes ++ byte ∷ [])
]

-- What `ReadMemoryRange` returns, or the exception of `std::vector`.
pub data RangeRead : Type 0 where
  unmapped : RangeRead
  length_error : RangeRead
  mapped : List ℕ → RangeRead

abbrev pub range_of : Option (List ℕ) → RangeRead
range_of none = unmapped
range_of (some bytes) = mapped bytes

-- The inner loop of `LoadProgram`, and the loop over the sections.
unfoldable pub load_bytes : Memory → ℕ → ℕ → List ℕ → Memory
unfolding store
load_bytes m addr idx [] = m
load_bytes m addr idx (byte ∷ bytes) =
    load_bytes (store m (address_at addr idx) byte) addr (suc idx) bytes

unfoldable pub load_sections : Memory → List ProgramSection → Memory
unfolding load_bytes
load_sections m [] = m
load_sections m (s ∷ ss) = load_sections (load_bytes m s.address 0 s.bytes) ss

module _ {R : Type 0} where
  unfoldable pub read8 : ExecutionContext R → ℕ → Option ℕ
  read8 ctx addr = ctx.memory addr

  unfoldable pub read16 : ExecutionContext R → ℕ → Option ℕ
  unfolding read8
  read16 ctx addr = elim (read8 ctx addr) [
    | none ↦ none
    | some lo ↦ elim (read8 ctx (address_at addr 1)) [
      | none ↦ none
      | some hi ↦ some (bit_or lo (hi * 2 ^ 8))
    ]
  ]

  unfoldable pub read32 : ExecutionContext R → ℕ → Option ℕ
  unfolding read_bytes
  read32 ctx addr = read_bytes ctx.memory addr 0 0 4

  unfoldable pub read64 : ExecutionContext R → ℕ → Option ℕ
  unfolding read_bytes
  read64 ctx addr = read_bytes ctx.memory addr 0 0 8

  -- `reserve` throws on more bytes than a vector can have.
  unfoldable pub read_memory_range : ExecutionContext R → ℕ → ℕ → RangeRead
  unfolding collect_bytes
  read_memory_range ctx addr size =
      if ltb 0 size && ltb (2 ^ 64 - 1 - addr) (size - 1)
      then unmapped
      else if ltb (2 ^ 63 - 1) size
      then length_error
      else range_of (collect_bytes ctx.memory addr 0 size [])

  unfoldable pub request_terminate : ExecutionContext R → ℤ → String → ExecutionContext R
  request_terminate ctx code reason = record ctx {
    terminated = true;
    exit_code = code;
    last_error = reason;
  }

  -- The code is the upper half of a 32-bit value.
  unfoldable pub handle_test_finisher_write : ExecutionContext R → ℕ → ℕ → ExecutionContext R
  unfolding request_terminate
  handle_test_finisher_write ctx addr value =
      let status = bit_and value 0xffff in
      let code = value / 2 ^ 16 in
      let failure = if code == 0 then 1 else code in
      if not (addr == 0x10009000)
      then ctx
      else if status == 0x5555
      then request_terminate ctx (pos 0) "finisher_pass"
      else if status == 0x3333
      then request_terminate ctx (pos failure) "finisher_fail"
      else if status == 0x7777
      then request_terminate ctx (pos failure) "finisher_reset"
      else ctx

  unfoldable pub write8 : ExecutionContext R → ℕ → ℕ → ExecutionContext R
  unfolding store
  write8 ctx addr value = record ctx { memory = store ctx.memory addr value }

  unfoldable pub write32 : ExecutionContext R → ℕ → ℕ → ExecutionContext R
  unfolding write_bytes handle_test_finisher_write
  write32 ctx addr value =
      handle_test_finisher_write (record ctx { memory = write_bytes ctx.memory addr value 0 4 })
        addr value

  unfoldable pub write64 : ExecutionContext R → ℕ → ℕ → ExecutionContext R
  unfolding write_bytes
  write64 ctx addr value = record ctx { memory = write_bytes ctx.memory addr value 0 8 }

  unfoldable pub append_record : ExecutionContext R → R → ExecutionContext R
  append_record ctx r = record ctx { committed = ctx.committed ++ r ∷ []; last_committed = some r }

  unfoldable pub advance_cycle : ExecutionContext R → ExecutionContext R
  advance_cycle ctx = record ctx { cycle = (ctx.cycle + 1) % 2 ^ 64 }

  unfoldable pub load_program : ExecutionContext R → ProgramImage → ExecutionContext R
  unfolding load_sections initial_state
  load_program ctx image = record ctx {
    program = image;
    has_program = true;
    memory = load_sections (λ b. none) image.sections;
    committed = [];
    last_committed = none;
    state = record initial_state { pc = image.entry_point };
  }

  unfoldable pub reset_context : ExecutionContext R → ExecutionContext R
  unfolding load_program initial_state
  reset_context ctx =
      let clean = record ctx {
        state = initial_state;
        memory = λ b. none;
        committed = [];
        last_committed = none;
        cycle = 0;
        exit_code = pos 0;
        terminated = false;
        last_error = "";
      } in
      if ctx.has_program then load_program clean ctx.program else clean
