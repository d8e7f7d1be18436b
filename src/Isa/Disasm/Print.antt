-- ===== src/Isa/Disasm/Print.antt =====
-- The listing that `PrintDisassembly` of src/isa/disasm.cpp writes.
use text.Mathlib.Text.{◌==◌ as str_eq}
use linx_model.Base.{
  ℕ, ◌+◌, ◌≡◌, ◌&&◌, not, none, some, List, [], ◌∷◌, ◌++◌, if◌then◌else◌, drop, max, arith,
  Option-cases, inl, inr,
}
use linx_model.Base.Text.{Bytes, codes, hexadecimal}
use linx_model.Isa.Desc.{Tables}
use linx_model.Isa.Asm.{AsmReplacement}
use linx_model.Isa.Disasm.{
  MinstDisassemblyLine, is_ok, decode_best, decode_disassembly_line, disassemble_section,
}
use linx_model.Isa.Disasm.Text.{LineText, decoded_text, decode_line_text, hex_bytes, two_digits}
use linx_model.Isa.Disasm.Tiles.{Tiles, tile}
use Prim.Native.String.{String}
use linx_model.Emulator.Context.{ProgramSection, ProgramImage}

abbrev form_suffix : MinstDisassemblyLine → Bytes
form_suffix line =
    if is_ok line.status && not (str_eq line.form_id "-")
    then codes " ; form=" ++ codes line.form_id
    else []

-- The body of the loop over the lines.
unfoldable pub print_line : MinstDisassemblyLine → LineText → Bytes
unfolding hexadecimal
print_line line texts =
    codes line.section_name
    ++ (codes " 0x"
        ++ (hexadecimal line.pc
            ++ (codes " ["
                ++ (texts.bytes_hex
                    ++ (codes "] " ++ (texts.text ++ (form_suffix line ++ codes "\n")))))))

module _ (sort : List AsmReplacement → List AsmReplacement) (t : Tables) where
  decode_line_text-some :
      (bytes : List ℕ) (pc : ℕ) (name : String) (line : MinstDisassemblyLine)
      → decode_disassembly_line t bytes pc name ≡ some line
      → (texts : LineText) × (decode_line_text sort t bytes ≡ some texts)
  unfolding decode_disassembly_line decode_line_text
  decode_line_text-some bytes pc name line d = elim (Option-cases (decode_best t bytes)) [
    | inr (c, e) ↦ (decoded_text sort t bytes c, ground (arith, e))
    | inl e ↦ go bytes e d
  ]
    where
      go :
          (bytes : List ℕ)
          → decode_best t bytes ≡ none
          → decode_disassembly_line t bytes pc name ≡ some line
          → (texts : LineText) × (decode_line_text sort t bytes ≡ some texts)
      go [] e d = absurd (ground (arith, d, e))
      go (b ∷ bytes) e d = (
        record { bytes_hex = hex_bytes (b ∷ []); text = codes ".byte 0x" ++ two_digits b },
        ground (arith, e),
      )

  -- The texts of a line are those of the bytes that it stands at.
  unfoldable pub print_lines : List ℕ → ℕ → List MinstDisassemblyLine → Bytes
  unfolding print_line decode_line_text
  print_lines bytes offset [] = []
  print_lines bytes offset (line ∷ lines) = elim (decode_line_text sort t (drop offset bytes)) [
    | none ↦ []
    | some texts ↦ print_line line texts ++ print_lines bytes (offset + max line.size_bytes 1) lines
  ]

  -- No line of a section is left out: each is printed with the texts of its bytes.
  print_lines-tile :
      (s : ProgramSection) (offset : ℕ) (line : MinstDisassemblyLine)
      (lines : List MinstDisassemblyLine)
      → Tiles t s offset (line ∷ lines)
      → (texts : LineText) × (decode_line_text sort t (drop offset s.bytes) ≡ some texts)
        × (print_lines s.bytes offset (line ∷ lines)
            ≡ print_line line texts ++ print_lines s.bytes (offset + max line.size_bytes 1) lines)
  unfolding print_lines
  print_lines-tile s offset line lines (tile at positive decodes rest) =
      let (texts, e) = decode_line_text-some (drop offset s.bytes) line.pc s.name line decodes in
      (texts, e, ground (arith, e))

  abbrev print_sections : List ProgramSection → Bytes
  print_sections [] = []
  print_sections (s ∷ ss) = print_lines s.bytes 0 (disassemble_section t s) ++ print_sections ss

  -- The lines of the image, section by section: a section that is not executable has none.
  unfoldable pub print_disassembly : ProgramImage → Bytes
  unfolding hexadecimal print_lines disassemble_section
  print_disassembly image =
      codes "source: "
      ++ (codes image.source_path
          ++ (codes "\nentry: 0x"
              ++ (hexadecimal image.entry_point ++ (codes "\n" ++ print_sections image.sections))))
