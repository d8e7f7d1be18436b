-- ===== src/Emulator/Context/Tests.antt =====
-- A context with a program of two sections, and the theorems on it.
use linx_model.Base.{ℕ, ◌<◌, ◌≢◌, ◌≡◌, refl, true, false, none, some, [], ◌∷◌, get_elem?, arith}
use linx_model.Base.Int.{pos}
use linx_model.Emulator.State.{initial_state}
use linx_model.Emulator.Context.{
  ExecutionContext, ProgramSection, ProgramImage, address_at, read32, read64, write32, write64,
  load_sections,
}
use linx_model.Emulator.Context.Finisher.{RunEnds, read-write_word, write32-RunEnds}
use linx_model.Emulator.Context.Program.{load_sections-last}

abbrev text_section : ProgramSection
text_section = record {
  name = ".text";
  address = 0x1000;
  bytes = 1 ∷ 2 ∷ 3 ∷ [];
  executable = true;
}

abbrev data_section : ProgramSection
data_section = record { name = ".data"; address = 0x1002; bytes = 9 ∷ 8 ∷ []; executable = false }

abbrev image : ProgramImage
image = record {
  source_path = "a.elf";
  entry_point = 0x1000;
  sections = text_section ∷ data_section ∷ [];
}

abbrev start : ExecutionContext ℕ
start = record {
  program = image;
  state = initial_state;
  memory = λ b. none;
  committed = [];
  last_committed = none;
  cycle = 0;
  exit_code = pos 0;
  has_program = true;
  terminated = false;
  last_error = "";
}

-- The second section covers the end of the first.
sections-bytes :
    (load_sections (λ b. none) image.sections 0x1001 ≡ some 2)
    × (load_sections (λ b. none) image.sections 0x1002 ≡ some 9)
unfolding load_sections
sections-bytes = (refl, refl)

-- The last byte of the word wraps to address 0.
read-write_word_example :
    (read32 (write32 start 0xfffffffffffffffd 0xdeadbeef) 0xfffffffffffffffd ≡ some 0xdeadbeef)
    × (read64 (write64 start 0xfffffffffffffffd 0xdeadbeef) 0xfffffffffffffffd ≡ some 0xdeadbeef)
read-write_word_example = read-write_word start 0xfffffffffffffffd 0xdeadbeef

write32-RunEnds_example : RunEnds start (write32 start 0x10009000 0x73333) 0x10009000 0x73333
write32-RunEnds_example = write32-RunEnds start 0x10009000 0x73333

load_sections-last_example :
    ((i : ℕ)
      → i < 2
      → load_sections (λ b. none) image.sections (address_at 0x1002 i) ≡ get_elem? (9 ∷ 8 ∷ []) i)
    × ((b : ℕ)
        → ((i : ℕ) → i < 2 → b ≢ address_at 0x1002 i)
        → load_sections (λ b. none) image.sections b
          ≡ load_sections (λ b. none) (text_section ∷ []) b)
load_sections-last_example =
    load_sections-last (λ b. none) (text_section ∷ []) data_section (omega arith)
