-- ===== src/Elf/Tests.antt =====
-- An ELF file with one segment, one whose segment wraps, and the theorems on them.
use Prim.Native.String.{String}
use linx_model.Base.{
  ℕ, zero, suc, ◌+◌, ◌*◌, ◌%◌, ◌^◌, ◌≤◌, ◌<◌, ◌≡◌, ◌≢◌, ◌↔◌, refl, sym, ◌∙◌, subst, true, false,
  none, some, List, [], ◌∷◌, ◌==◌, if◌then◌else◌, length, arith,
}
use linx_model.Emulator.Context.{ProgramSection}
use linx_model.Elf.{not_an_elf_image, segment_exceeds_file, returns, throws, undefined}
use linx_model.Elf.Headers.{
  ElfHeader, SectionHeader, ProgramHeader, read_header, read_program_header, read_section_header,
}
use linx_model.Elf.Load.{load_segment, load_segments, load_elf_image}
use linx_model.Elf.Safety.{IsTame, load_elf_image-inside}
use linx_model.Elf.Accept.{
  returns-inj, Table, segment_of, segments_of, load_segments-Table, load_segment-errors,
}

abbrev digits : ℕ → String
digits n = if n == 0 then "0" else "1"

abbrev header : ElfHeader
header = record {
  is_64 = true;
  type = 2;
  entry_point = 0x1000;
  phoff = 64;
  phentsize = 56;
  phnum = 1;
  shoff = 0;
  shentsize = 0;
  shnum = 0;
}

abbrev program : ProgramHeader
program = record {
  type_value = 1;
  flags = 5;
  file_offset = 120;
  virtual_address = 0x1000;
  file_size = 4;
}

abbrev text_section : ProgramSection
text_section = record {
  name = ".text[0]";
  address = 0x1000;
  bytes = 1 ∷ 2 ∷ 3 ∷ 4 ∷ [];
  executable = true;
}

abbrev file : List ℕ
file =
    127 ∷ 69 ∷ 76 ∷ 70 ∷ 2 ∷ 1 ∷ 1 ∷ 0 ∷ 0 ∷ 0 ∷ 0 ∷ 0 ∷ 0 ∷ 0 ∷ 0 ∷ 0 ∷ 2 ∷ 0 ∷ 243 ∷ 0 ∷ 1 ∷ 0 ∷ 0
    ∷ 0 ∷ 0 ∷ 16 ∷ 0 ∷ 0 ∷ 0 ∷ 0 ∷ 0 ∷ 0 ∷ 64 ∷ 0 ∷ 0 ∷ 0 ∷ 0 ∷ 0 ∷ 0 ∷ 0 ∷ 0 ∷ 0 ∷ 0 ∷ 0 ∷ 0 ∷ 0
    ∷ 0 ∷ 0 ∷ 0 ∷ 0 ∷ 0 ∷ 0 ∷ 64 ∷ 0 ∷ 56 ∷ 0 ∷ 1 ∷ 0 ∷ 0 ∷ 0 ∷ 0 ∷ 0 ∷ 0 ∷ 0 ∷ 1 ∷ 0 ∷ 0 ∷ 0 ∷ 5
    ∷ 0 ∷ 0 ∷ 0 ∷ 120 ∷ 0 ∷ 0 ∷ 0 ∷ 0 ∷ 0 ∷ 0 ∷ 0 ∷ 0 ∷ 16 ∷ 0 ∷ 0 ∷ 0 ∷ 0 ∷ 0 ∷ 0 ∷ 0 ∷ 16 ∷ 0 ∷ 0
    ∷ 0 ∷ 0 ∷ 0 ∷ 0 ∷ 4 ∷ 0 ∷ 0 ∷ 0 ∷ 0 ∷ 0 ∷ 0 ∷ 0 ∷ 4 ∷ 0 ∷ 0 ∷ 0 ∷ 0 ∷ 0 ∷ 0 ∷ 0 ∷ 0 ∷ 16 ∷ 0 ∷ 0
    ∷ 0 ∷ 0 ∷ 0 ∷ 0 ∷ 1 ∷ 2 ∷ 3 ∷ 4 ∷ []

load-file :
    load_elf_image digits file "a.elf"
    ≡ returns (record { source_path = "a.elf"; entry_point = 0x1000; sections = text_section ∷ [] })
unfolding load_elf_image
load-file = refl

-- A segment of two bytes at the last address passes the comparison with the file's size, since
-- the sum wraps, and the copy starts far past the end of the file.
abbrev wrapping : List ℕ
wrapping =
    127 ∷ 69 ∷ 76 ∷ 70 ∷ 2 ∷ 1 ∷ 1 ∷ 0 ∷ 0 ∷ 0 ∷ 0 ∷ 0 ∷ 0 ∷ 0 ∷ 0 ∷ 0 ∷ 2 ∷ 0 ∷ 243 ∷ 0 ∷ 1 ∷ 0 ∷ 0
    ∷ 0 ∷ 0 ∷ 16 ∷ 0 ∷ 0 ∷ 0 ∷ 0 ∷ 0 ∷ 0 ∷ 64 ∷ 0 ∷ 0 ∷ 0 ∷ 0 ∷ 0 ∷ 0 ∷ 0 ∷ 0 ∷ 0 ∷ 0 ∷ 0 ∷ 0 ∷ 0
    ∷ 0 ∷ 0 ∷ 0 ∷ 0 ∷ 0 ∷ 0 ∷ 64 ∷ 0 ∷ 56 ∷ 0 ∷ 1 ∷ 0 ∷ 0 ∷ 0 ∷ 0 ∷ 0 ∷ 0 ∷ 0 ∷ 1 ∷ 0 ∷ 0 ∷ 0 ∷ 5
    ∷ 0 ∷ 0 ∷ 0 ∷ 255 ∷ 255 ∷ 255 ∷ 255 ∷ 255 ∷ 255 ∷ 255 ∷ 255 ∷ 0 ∷ 16 ∷ 0 ∷ 0 ∷ 0 ∷ 0 ∷ 0 ∷ 0 ∷ 0
    ∷ 16 ∷ 0 ∷ 0 ∷ 0 ∷ 0 ∷ 0 ∷ 0 ∷ 2 ∷ 0 ∷ 0 ∷ 0 ∷ 0 ∷ 0 ∷ 0 ∷ 0 ∷ 2 ∷ 0 ∷ 0 ∷ 0 ∷ 0 ∷ 0 ∷ 0 ∷ 0 ∷ 0
    ∷ 16 ∷ 0 ∷ 0 ∷ 0 ∷ 0 ∷ 0 ∷ 0 ∷ []

load-wrapping : load_elf_image digits wrapping "b.elf" ≡ undefined
unfolding load_elf_image
load-wrapping = refl

load-text : load_elf_image digits (1 ∷ 2 ∷ []) "c.txt" ≡ throws (not_an_elf_image "c.txt")
unfolding load_elf_image
load-text = refl

read-header : read_header file "a.elf" ≡ returns header
unfolding read_header
read-header = refl

read-program : read_program_header true file 64 ≡ returns program
unfolding read_program_header
read-program = refl

file-IsTame : IsTame file "a.elf"
file-IsTame = record {
  small = omega arith;
  program_table = λ h index e. entry h (same h e) index;
  section_table = λ h index e. no_entry h (same h e) index;
  segments = λ h index p e. segment h (same h e) index p;
  sections = λ h index s e. no_section h (same h e) index s;
}
  where
    same : (h : ElfHeader) → read_header file "a.elf" ≡ returns h → header ≡ h
    same h e = returns-inj (sym read-header ∙ e)

    entry :
        (h : ElfHeader)
        → header ≡ h
        → (index : ℕ) → index < h.phnum
        → (h.phoff + index * h.phentsize) % 2 ^ 64 + h.phentsize < 2 ^ 64
    entry h e =
        subst
          (λ (h : ElfHeader).
            (index : ℕ)
            → index < h.phnum
            → (h.phoff + index * h.phentsize) % 2 ^ 64 + h.phentsize < 2 ^ 64)
          e λ index lt. omega arith

    no_entry :
        (h : ElfHeader)
        → header ≡ h
        → (index : ℕ) → index < h.shnum
        → (h.shoff + index * h.shentsize) % 2 ^ 64 + h.shentsize < 2 ^ 64
    no_entry h e =
        subst
          (λ (h : ElfHeader).
            (index : ℕ)
            → index < h.shnum
            → (h.shoff + index * h.shentsize) % 2 ^ 64 + h.shentsize < 2 ^ 64)
          e λ index lt. absurd (omega arith)

    only :
        (index : ℕ) (p : ProgramHeader)
        → index < 1
        → read_program_header true file ((64 + index * 56) % 2 ^ 64) ≡ returns p
        → p.file_offset + p.file_size < 2 ^ 64
    only zero p lt e =
        subst (λ (p : ProgramHeader). p.file_offset + p.file_size < 2 ^ 64)
          (returns-inj (sym read-program ∙ e)) (omega arith)
    only (suc index) p lt e = absurd (omega arith)

    segment :
        (h : ElfHeader)
        → header ≡ h
        → (index : ℕ) (p : ProgramHeader) → index < h.phnum
        → read_program_header h.is_64 file ((h.phoff + index * h.phentsize) % 2 ^ 64) ≡ returns p
        → p.file_offset + p.file_size < 2 ^ 64
    segment h e =
        subst
          (λ (h : ElfHeader).
            (index : ℕ) (p : ProgramHeader)
            → index < h.phnum
            → read_program_header h.is_64 file ((h.phoff + index * h.phentsize) % 2 ^ 64)
              ≡ returns p
            → p.file_offset + p.file_size < 2 ^ 64)
          e only

    no_section :
        (h : ElfHeader)
        → header ≡ h
        → (index : ℕ) (s : SectionHeader) → index < h.shnum
        → read_section_header h.is_64 file ((h.shoff + index * h.shentsize) % 2 ^ 64) ≡ returns s
        → s.file_offset + s.file_size < 2 ^ 64
    no_section h e =
        subst
          (λ (h : ElfHeader).
            (index : ℕ) (s : SectionHeader)
            → index < h.shnum
            → read_section_header h.is_64 file ((h.shoff + index * h.shentsize) % 2 ^ 64)
              ≡ returns s
            → s.file_offset + s.file_size < 2 ^ 64)
          e λ index s lt got. absurd (omega arith)

load_elf_image-inside_example : load_elf_image digits file "a.elf" ≢ undefined
load_elf_image-inside_example = load_elf_image-inside digits file "a.elf" file-IsTame

load_segments-Table_example :
    (ps : List ProgramHeader) × Table digits file header 0 ps
    × (length ps ≡ 1)
    × (text_section ∷ [] ≡ segments_of digits file 0 ps)
unfolding load_segments
load_segments-Table_example = load_segments-Table digits file header 0 1 (text_section ∷ []) refl

load_segment-errors_example :
    ((load_segment digits file 0 (record program { file_size = 5 }) ≡ throws segment_exceeds_file)
      ↔ ((true ≡ true) × (124 < 125)))
    × ((load_segment digits file 0 (record program { file_size = 5 }) ≡ returns none)
        ↔ (true ≡ false))
    × ((load_segment digits file 0 (record program { file_size = 5 })
          ≡ returns (some (segment_of digits file 0 (record program { file_size = 5 }))))
        ↔ ((true ≡ true) × (125 ≤ 124)))
load_segment-errors_example =
    load_segment-errors digits file 0 (record program { file_size = 5 }) (omega arith)
