-- ===== src/Isa/Disasm/Text.antt =====
-- The texts of a line of the disassembly in src/isa/disasm.cpp: its bytes, the assembler text of
-- what they decode to, and the line as it is printed.
use linx_model.Base.{ℕ, ◌/◌, Option, none, some, List, [], ◌∷◌, ◌++◌, take}
use linx_model.Base.Text.{Bytes, codes, hexadecimal, pad_left, pad_right}
use linx_model.Isa.Desc.{Tables}
use linx_model.Isa.Asm.{AsmReplacement, assemble}
use linx_model.Isa.Disasm.{DecodeCandidate, decode_best}

pub record LineText : Type 0 where
  pub bytes_hex : Bytes
  pub text : Bytes

abbrev pub two_digits : ℕ → Bytes
two_digits b = pad_left 2 b'0' (hexadecimal b)

abbrev pub more_hex_bytes : List ℕ → Bytes
more_hex_bytes [] = []
more_hex_bytes (b ∷ bytes) = b' ' ∷ (two_digits b ++ more_hex_bytes bytes)

unfoldable pub hex_bytes : List ℕ → Bytes
unfolding hexadecimal
hex_bytes [] = []
hex_bytes (b ∷ bytes) = two_digits b ++ more_hex_bytes bytes

-- `FormatDisassemblyDumpLine`.
unfoldable pub format_disassembly_dump_line : ℕ → LineText → Bytes
unfolding hexadecimal
format_disassembly_dump_line pc line =
    pad_left 16 b'0' (hexadecimal pc)
    ++ (codes ":  " ++ (pad_right 23 b' ' line.bytes_hex ++ (b' ' ∷ line.text)))

module _ (sort : List AsmReplacement → List AsmReplacement) (t : Tables) where
  abbrev pub decoded_text : List ℕ → DecodeCandidate → LineText
  decoded_text bytes decoded = record {
    bytes_hex = hex_bytes (take (decoded.length_bits / 8) bytes);
    text = assemble sort decoded.inst;
  }

  abbrev pub byte_text : List ℕ → Option LineText
  byte_text [] = none
  byte_text (b ∷ bytes) =
      some (record { bytes_hex = hex_bytes (b ∷ []); text = codes ".byte 0x" ++ two_digits b })

  -- The texts of the line that `DecodeDisassemblyLine` gives.
  unfoldable pub decode_line_text : List ℕ → Option LineText
  unfolding decode_best hex_bytes assemble
  decode_line_text bytes = elim (decode_best t bytes) [
    | none ↦ byte_text bytes
    | some decoded ↦ some (decoded_text bytes decoded)
  ]
