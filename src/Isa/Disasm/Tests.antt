-- ===== src/Isa/Disasm/Tests.antt =====
-- A section of three lines, and the theorems on it.
use linx_model.Base.{ℕ, ◌≡◌, refl, true, List, [], ◌∷◌, ◌++◌}
use linx_model.Isa.Enums.{MinstCodecStatus}
use linx_model.Isa.Desc.{MinstFormDesc, Tables}
use linx_model.Isa.Codec.Decode.{decode_packed_word}
use linx_model.Isa.Disasm.{MinstDisassemblyLine, decode_best, disassemble_section}
use linx_model.Isa.Disasm.Best.{IsBest, decode_best-IsBest}
use linx_model.Isa.Disasm.Tiles.{Tiles, disassemble_section-Tiles}
use linx_model.Isa.Disasm.Print.{print_disassembly}
use linx_model.Base.Text.{codes}
use linx_model.Emulator.Context.{ProgramSection, ProgramImage}

abbrev short_form : MinstFormDesc
short_form = record {
  uid = "u1";
  mnemonic = "C.STOP";
  asm_template = "c.stop";
  encoding_kind = "C16";
  group = "BBD";
  uop_group = "BRU";
  uop_big_kind = "BRU";
  length_bits = 16;
  fixed_bits = 8;
  mask = 0xff;
  match = 0x01;
  field_start = 0;
  field_count = 0;
  constraint_start = 0;
  constraint_count = 0;
}

-- It has more fixed bits than the short one, and starts with the same byte.
abbrev long_form : MinstFormDesc
long_form = record short_form {
  uid = "u2";
  mnemonic = "STOP";
  length_bits = 32;
  fixed_bits = 16;
  mask = 0xff0000ff;
  match = 0x02000001;
}

abbrev tables : Tables
tables = record {
  field_pieces = [];
  fields = [];
  constraints = [];
  forms = short_form ∷ long_form ∷ [];
}

abbrev text_section : ProgramSection
text_section = record {
  name = ".text";
  address = 0x1000;
  bytes = 1 ∷ 0 ∷ 0 ∷ 2 ∷ 1 ∷ 7 ∷ 9 ∷ [];
  executable = true;
}

abbrev line : ℕ → ℕ → ℕ → ℕ → MinstDisassemblyLine
line pc bits length_bits size_bytes = record {
  section_name = ".text";
  pc = pc;
  bits = bits;
  length_bits = length_bits;
  size_bytes = size_bytes;
  status = MinstCodecStatus.ok;
  form_id = "";
}

abbrev lines : List MinstDisassemblyLine
lines =
    record (line 0x1000 0x02000001 32 4) { form_id = "u2" }
    ∷ record (line 0x1004 0x0701 16 2) { form_id = "u1" }
    ∷ record (line 0x1006 9 8 1) { status = MinstCodecStatus.no_match; form_id = "-" }
    ∷ []

disassemble-text : disassemble_section tables text_section ≡ lines
unfolding disassemble_section decode_packed_word
disassemble-text = refl

disassemble_section-Tiles_example : Tiles tables text_section 0 lines
unfolding disassemble_section decode_packed_word
disassemble_section-Tiles_example = disassemble_section-Tiles tables text_section refl

decode_best-IsBest_example :
    IsBest tables (1 ∷ 0 ∷ 0 ∷ 2 ∷ []) (decode_best tables (1 ∷ 0 ∷ 0 ∷ 2 ∷ []))
decode_best-IsBest_example = decode_best-IsBest tables (1 ∷ 0 ∷ 0 ∷ 2 ∷ [])

abbrev image : ProgramImage
image = record { source_path = "a.elf"; entry_point = 0x1000; sections = text_section ∷ [] }

print-text :
    print_disassembly (λ rs. rs) tables image
    ≡ codes "source: a.elf\nentry: 0x1000\n"
      ++ (codes ".text 0x1000 [01 00 00 02] c.stop ; form=u2\n"
          ++ (codes ".text 0x1004 [01 07] c.stop ; form=u1\n"
              ++ codes ".text 0x1006 [09] .byte 0x09\n"))
unfolding print_disassembly decode_packed_word
print-text = refl
