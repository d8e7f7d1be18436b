-- ===== src/Emulator/Context/Finisher.antt =====
-- The word accesses and the test finisher of src/emulator/execution_context.cpp on the context.
use Prim.Native.Nat.{bit_and}
use linx_model.Base.{
  ℕ, ◌%◌, ◌^◌, ◌≡◌, ◌≢◌, ◌∙◌, ap, Bool, true, false, ◌&&◌, ◌||◌, some, ◌==◌, arith,
}
use linx_model.Base.Int.{pos}
use linx_model.Emulator.Context.{
  ExecutionContext, Memory, write_bytes, read_bytes, read32, read64, write32, write64,
  request_terminate, handle_test_finisher_write,
}
use linx_model.Emulator.Context.Words.{read_bytes-write_bytes}

-- The statuses that the finisher knows.
abbrev pub ends_run : ℕ → Bool
ends_run value =
    bit_and value 0xffff == 0x5555
    || bit_and value 0xffff == 0x3333
    || bit_and value 0xffff == 0x7777

module _ {R : Type 0} where
  finisher-memory :
      (ctx : ExecutionContext R) (addr value : ℕ)
      → (handle_test_finisher_write ctx addr value).memory ≡ ctx.memory
  unfolding handle_test_finisher_write request_terminate
  finisher-memory ctx addr value = ground arith

  -- A 32-bit word that `Write32` writes at an address reads back from there with `Read32`, and a
  -- 64-bit word that `Write64` writes with `Read64`, also where the word wraps around the top of
  -- the address space, and whatever the finisher does with the word.
  pub read-write_word :
      (ctx : ExecutionContext R) (addr value : ℕ)
      → (read32 (write32 ctx addr value) addr ≡ some (value % 2 ^ 32))
        × (read64 (write64 ctx addr value) addr ≡ some (value % 2 ^ 64))
  unfolding read32 read64 write32 write64
  read-write_word ctx addr value =
      let stored = record ctx { memory = write_bytes ctx.memory addr value 0 4 } in
      let same = ap (λ (m : Memory). read_bytes m addr 0 0 4) (finisher-memory stored addr value) in
      (
        same ∙ read_bytes-write_bytes ctx.memory addr value 4 (omega arith),
        read_bytes-write_bytes ctx.memory addr value 8 (omega arith),
      )

  -- What a `Write32` does beside the memory.
  pub record RunEnds (ctx after : ExecutionContext R) (addr value : ℕ) : Type 0 where
    -- it ends the run only at the finisher's address and with a status that the finisher knows
    pub ends : after.terminated ≡ (ctx.terminated || (addr == 0x10009000 && ends_run value))
    -- a passing status exits with 0
    pub passes : addr ≡ 0x10009000 → bit_and value 0xffff ≡ 0x5555 → after.exit_code ≡ pos 0
    -- the other two never do
    pub fails :
        addr ≡ 0x10009000
        → (bit_and value 0xffff == 0x3333 || bit_and value 0xffff == 0x7777) ≡ true
        → after.exit_code ≢ pos 0
    -- any other write leaves the exit code and the reason
    pub quiet :
        (addr == 0x10009000 && ends_run value) ≡ false
        → (after.exit_code ≡ ctx.exit_code) × (after.last_error ≡ ctx.last_error)
    pub kept : (after.state ≡ ctx.state) × (after.cycle ≡ ctx.cycle)

  -- `Write32` ends the run exactly at the finisher's address with a status that the finisher knows;
  -- it then exits with 0 for the passing status and with another code for the two others, and any
  -- other write leaves the outcome of the run alone. The state and the cycle stay.
  pub write32-RunEnds :
      (ctx : ExecutionContext R) (addr value : ℕ) → RunEnds ctx (write32 ctx addr value) addr value
  unfolding write32 handle_test_finisher_write request_terminate
  write32-RunEnds ctx addr value = record {
    ends = ground arith;
    passes = λ a b. ground arith;
    fails = λ a b. ground arith;
    quiet = λ a. ground arith;
    kept = ground arith;
  }
