-- ===== src/Elf/Load.antt =====
-- The images of src/elf_loader.cpp: ELF files, relocatable or not, and raw binaries. The decimal
-- digits of an index, `std::to_string`, and the bytes of a file, `ReadBinaryFile`, are given.
use Prim.Native.Nat.{bit_and}
use Prim.Native.String.{String, ◌++◌ as append}
use linx_model.Base.{
  ℕ, zero, suc, ◌+◌, ◌%◌, ◌^◌, Bool, true, not, ◌||◌, Option, none, some, List, [], ◌∷◌, ◌==◌,
  if◌then◌else◌, max,
}
use linx_model.Emulator.Context.{ProgramSection, ProgramImage}
use linx_model.Elf.{
  no_section_headers, truncated_section_headers, section_exceeds_file, no_alloc_sections,
  no_program_headers, truncated_program_headers, segment_exceeds_file, no_load_segments, Outcome,
  returns, throws, ◌>>=◌, narrow_cast, payload, is_elf_image,
}
use linx_model.Elf.Headers.{
  ElfHeader, SectionHeader, ProgramHeader, read_header, table_entry, read_section_header,
  read_program_header,
}

-- `image.sections.push_back`, where the entry was not passed over.
abbrev pub push : Option ProgramSection → List ProgramSection → List ProgramSection
push none sections = sections
push (some s) sections = s ∷ sections

abbrev pub zeros : ℕ → List ℕ
zeros zero = []
zeros (suc n) = 0 ∷ zeros n

module _ (to_string : ℕ → String) where
  unfoldable pub segment_name : ℕ → Bool → String
  segment_name index executable =
      append (if executable then ".text[" else ".load[") (append (to_string index) "]")

  unfoldable pub section_name : ℕ → Bool → String
  section_name index executable =
      append (if executable then ".text.rel[" else ".alloc.rel[") (append (to_string index) "]")

  -- A program header's segment; `none` is a `continue`.
  unfoldable pub load_segment : List ℕ → ℕ → ProgramHeader → Outcome (Option ProgramSection)
  unfolding payload segment_name
  load_segment bytes index p =
      if not (p.type_value == 1) || p.file_size == 0 then returns none else do
        contents ← payload segment_exceeds_file bytes p.file_offset p.file_size
        let executable = not (bit_and p.flags 1 == 0)
        returns (
            some (record {
              name = segment_name index executable;
              address = p.virtual_address;
              bytes = contents;
              executable = executable;
            }))

  -- The loop over the program headers, from `index` on, with `n` of them left.
  unfoldable pub load_segments : List ℕ → ElfHeader → ℕ → ℕ → Outcome (List ProgramSection)
  unfolding table_entry read_program_header load_segment
  load_segments bytes h index zero = returns []
  load_segments bytes h index (suc n) = do
    offset ← table_entry truncated_program_headers bytes h.phoff h.phentsize index
    p ← read_program_header h.is_64 bytes offset
    segment ← load_segment bytes index p
    rest ← load_segments bytes h (suc index) n
    returns (push segment rest)

  abbrev pub section_bytes : List ℕ → SectionHeader → Outcome (List ℕ)
  section_bytes bytes s =
      if s.type_value == 8
      then (do size ← narrow_cast s.file_size; returns (zeros size))
      else payload section_exceeds_file bytes s.file_offset s.file_size

  -- The section's address, given the next free one.
  abbrev pub placed_at : ℕ → SectionHeader → ℕ
  placed_at next s = if s.address == 0 then next else s.address

  -- A section header's section, or `none` for a `continue`, with the next free address.
  unfoldable pub load_section : List ℕ → ℕ → ℕ → SectionHeader → Outcome (Option ProgramSection × ℕ)
  unfolding payload narrow_cast section_name
  load_section bytes index next s =
      if bit_and s.flags 2 == 0 || s.file_size == 0 then returns (none, next) else do
        let address = placed_at next s
        let next' = max next ((address + s.file_size + 0x10) % 2 ^ 64)
        let executable = not (bit_and s.flags 4 == 0)
        contents ← section_bytes bytes s
        returns (
          some (record {
            name = section_name index executable;
            address = address;
            bytes = contents;
            executable = executable;
          }),
          next',
        )

  unfoldable pub load_sections : List ℕ → ElfHeader → ℕ → ℕ → ℕ → Outcome (List ProgramSection)
  unfolding table_entry read_section_header load_section
  load_sections bytes h next index zero = returns []
  load_sections bytes h next index (suc n) = do
    offset ← table_entry truncated_section_headers bytes h.shoff h.shentsize index
    s ← read_section_header h.is_64 bytes offset
    (section, next') ← load_section bytes index next s
    rest ← load_sections bytes h next' (suc index) n
    returns (push section rest)

  -- The end of the two branches on the file's type.
  unfoldable pub load_relocatable : List ℕ → String → ElfHeader → Outcome ProgramImage
  unfolding load_sections
  load_relocatable bytes source_path h =
      if h.shentsize == 0 || h.shnum == 0 then throws no_section_headers else do
        sections ← load_sections bytes h 0 0 h.shnum
        elim sections [
          | [] ↦ throws no_alloc_sections
          | s ∷ ss ↦
              returns
                (record { source_path = source_path; entry_point = s.address; sections = s ∷ ss })
        ]

  unfoldable pub load_executable : List ℕ → String → ElfHeader → Outcome ProgramImage
  unfolding load_segments
  load_executable bytes source_path h =
      if h.phentsize == 0 || h.phnum == 0 then throws no_program_headers else do
        sections ← load_segments bytes h 0 h.phnum
        elim sections [
          | [] ↦ throws no_load_segments
          | s ∷ ss ↦
              returns (record {
                source_path = source_path;
                entry_point = h.entry_point;
                sections = s ∷ ss;
              })
        ]

  -- `LoadElfImageFromBytes`.
  unfoldable pub load_elf_image : List ℕ → String → Outcome ProgramImage
  unfolding read_header load_relocatable load_executable
  load_elf_image bytes source_path = do
    h ← read_header bytes source_path
    if h.type == 1
        then load_relocatable bytes source_path h
        else load_executable bytes source_path h

  -- `LoadRawBinaryImageFromBytes`.
  unfoldable pub load_raw_binary_image : List ℕ → String → ℕ → String → ProgramImage
  load_raw_binary_image bytes source_path base_address name = record {
    source_path = source_path;
    entry_point = base_address;
    sections =
        record { name = name; address = base_address; bytes = bytes; executable = true } ∷ [];
  }

  -- `LoadProgramImageFromFile` on the bytes it reads.
  unfoldable pub load_program_image : List ℕ → String → ℕ → Outcome ProgramImage
  unfolding is_elf_image load_elf_image load_raw_binary_image
  load_program_image bytes path raw_base_address =
      if is_elf_image bytes
      then load_elf_image bytes path
      else returns (load_raw_binary_image bytes path raw_base_address ".text")
