-- ===== src/Isa/Dump.antt =====
-- The printed form of a packet, `DumpFields` of src/isa/minst.cpp with the writer of
-- include/linx/model/packet_dump.hpp. A text is a list of its bytes.
mod Tests
use Prim.Native.String.{String}
use text.Mathlib.Text.{◌==◌ as str_eq}
use linx_model.Base.{
  ℕ, ◌+◌, ◌/◌, Bool, true, false, Option, none, some, List, [], ◌∷◌, ◌++◌, if◌then◌else◌, length,
}
use linx_model.Base.Int.{ℤ}
use linx_model.Base.Text.{Bytes, codes, decimal, decimal_ℤ, hexadecimal, pad_left}
use linx_model.Isa.Enums.{
  MinstCodecStatus, operand_kind_text, width_text, opcode_class_text, stage_text, lifecycle_text,
  codec_status_text,
}
use linx_model.Isa.Minst.{Minst, MinstDecodedField, MinstOperand, MinstMemoryInfo, unsigned_value}
use linx_model.Isa.Codec.Encode.{MinstEncodedWord}
use linx_model.Isa.Asm.{AsmReplacement, assemble}

-- A call of `PacketDumpWriter::Field`, its value printed.
abbrev pub DumpField : Type 0
DumpField = Bytes × Bytes

abbrev pub named : String → Bytes → DumpField
named name value = (codes name, value)

abbrev pub text_field : String → String → DumpField
text_field name value = (codes name, codes value)

abbrev pub word_field : String → ℕ → DumpField
word_field name value = (codes name, decimal value)

-- `std::boolalpha`.
abbrev pub flag_field : String → Bool → DumpField
flag_field name b = (codes name, if b then codes "true" else codes "false")

abbrev pub write_dump_field : DumpField → Bytes
write_dump_field (name, value) = name ++ b'=' ∷ value

abbrev pub more_dump_fields : List DumpField → Bytes
more_dump_fields [] = []
more_dump_fields (field ∷ fields) =
    codes ", " ++ (write_dump_field field ++ more_dump_fields fields)

-- `DumpValue` of a value with `DumpFields`: the writer's fields in braces.
unfoldable pub dump_fields : List DumpField → Bytes
dump_fields [] = codes "{}"
dump_fields (field ∷ fields) =
    b'{' ∷ (write_dump_field field ++ (more_dump_fields fields ++ b'}' ∷ []))

unfoldable pub dump_decoded_field : MinstDecodedField → Bytes
unfolding dump_fields decimal decimal_ℤ
dump_decoded_field f = dump_fields (
    text_field "name" f.name
    ∷ flag_field "signed" f.signed_hint
    ∷ word_field "bits" f.bit_width
    ∷ named "logical" (decimal_ℤ f.logical_value)
    ∷ word_field "raw" (unsigned_value f)
    ∷ [])

unfoldable pub dump_operand : MinstOperand → Bytes
unfolding dump_fields decimal operand_kind_text width_text
dump_operand o = dump_fields (
    flag_field "dst" o.is_dst
    ∷ flag_field "ready" o.ready
    ∷ text_field "kind" (operand_kind_text o.kind)
    ∷ text_field "logical_width" (width_text o.logical_width)
    ∷ word_field "encoded_bits" o.encoded_bits
    ∷ word_field "value" o.value
    ∷ word_field "data" o.operand_data
    ∷ text_field "field" o.field_name
    ∷ text_field "note" o.annotation
    ∷ [])

unfoldable pub dump_memory : MinstMemoryInfo → Bytes
unfolding dump_fields decimal width_text
dump_memory m = dump_fields (
    flag_field "valid" m.valid
    ∷ flag_field "load" m.is_load
    ∷ flag_field "store" m.is_store
    ∷ text_field "logical_width" (width_text m.logical_width)
    ∷ word_field "addr" m.addr
    ∷ word_field "size" m.size
    ∷ text_field "note" m.annotation
    ∷ [])

unfoldable pub hex_string : MinstEncodedWord → Bytes
unfolding hexadecimal
hex_string w = codes "0x" ++ pad_left ((w.length_bits + 3) / 4) b'0' (hexadecimal w.bits)

-- The length is a `uint8_t`, which the stream prints as one byte.
unfoldable pub dump_encoded_word : MinstEncodedWord → Bytes
unfolding dump_fields hex_string codec_status_text
dump_encoded_word w = dump_fields (
    flag_field "valid" w.valid
    ∷ text_field "status" (codec_status_text w.status)
    ∷ named "length_bits" (w.length_bits ∷ [])
    ∷ named "bits" (hex_string w)
    ∷ [])

-- The rest of `JoinFieldDump` and of `JoinOperandDump`.
abbrev pub more_joined : List Bytes → Bytes
more_joined [] = []
more_joined (text ∷ texts) = b';' ∷ (text ++ more_joined texts)

abbrev pub join : List Bytes → Bytes
join [] = []
join (text ∷ texts) = text ++ more_joined texts

abbrev pub field_dumps : List MinstDecodedField → List Bytes
field_dumps [] = []
field_dumps (f ∷ fields) = dump_decoded_field f ∷ field_dumps fields

unfoldable pub join_field_dump : List MinstDecodedField → Bytes
unfolding dump_decoded_field
join_field_dump fields = join (field_dumps fields)

abbrev pub operand_dumps : List MinstOperand → List Bytes
operand_dumps [] = []
operand_dumps (o ∷ operands) = dump_operand o ∷ operand_dumps operands

unfoldable pub join_operand_dump : List MinstOperand → Bytes
unfolding dump_operand
join_operand_dump operands = join (operand_dumps operands)

-- A dash for an empty text.
abbrev pub or_dash : String → String → DumpField
or_dash name value = text_field name (if str_eq value "" then "-" else value)

abbrev pub or_null {ℓ} : {A : Type ℓ} → String → (A → Bytes) → Option A → DumpField
or_null name dump none = named name (codes "null")
or_null name dump (some a) = named name (dump a)

abbrev pub raw_word : Minst → MinstEncodedWord
raw_word inst = record {
  bits = inst.raw_bits;
  length_bits = inst.length_bits;
  valid = true;
  status = MinstCodecStatus.invalid_form;
}

-- `Minst::ToString`; `sort` is that of the assembler text.
unfoldable pub dump_minst : (List AsmReplacement → List AsmReplacement) → Minst → Bytes
unfolding dump_fields dump_encoded_word dump_decoded_field dump_memory join_field_dump
    join_operand_dump assemble decimal opcode_class_text stage_text lifecycle_text codec_status_text
dump_minst sort inst = dump_fields (
    word_field "uid" inst.uid
    ∷ word_field "pc" inst.pc
    ∷ word_field "npc" inst.next_pc
    ∷ named "raw" (dump_encoded_word (raw_word inst))
    ∷ or_dash "form" inst.form_id
    ∷ or_dash "mnemonic" inst.mnemonic
    ∷ named "asm" (assemble sort inst)
    ∷ or_dash "asm_template" inst.asm_template
    ∷ or_dash "encoding_kind" inst.encoding_kind
    ∷ or_dash "group" inst.group
    ∷ or_dash "uop_group" inst.uop_group
    ∷ or_dash "uop_big_kind" inst.uop_big_kind
    ∷ text_field "class" (opcode_class_text inst.opcode_class)
    ∷ text_field "stage" (stage_text inst.stage)
    ∷ text_field "life" (lifecycle_text inst.lifecycle)
    ∷ text_field "decode" (codec_status_text inst.decode_status)
    ∷ text_field "encode" (codec_status_text inst.encode_status)
    ∷ flag_field "valid_form" inst.valid_form
    ∷ word_field "thread" inst.thread_id
    ∷ word_field "lane" inst.lane_id
    ∷ word_field "rob" inst.rob_id
    ∷ flag_field "valid" inst.valid
    ∷ flag_field "spec" inst.speculative
    ∷ flag_field "xcpt" inst.exception
    ∷ flag_field "poison" inst.poison
    ∷ flag_field "is_branch" inst.is_branch
    ∷ flag_field "is_control" inst.is_control
    ∷ word_field "srcs" (length inst.srcs)
    ∷ named "src_detail" (join_operand_dump inst.srcs)
    ∷ word_field "dsts" (length inst.dsts)
    ∷ named "dst_detail" (join_operand_dump inst.dsts)
    ∷ word_field "imms" (length inst.immediates)
    ∷ named "imm_detail" (join_field_dump inst.immediates)
    ∷ or_null "shift" dump_decoded_field inst.shift_amount
    ∷ or_null "mem" dump_memory inst.memory
    ∷ named "fields" (join_field_dump inst.decoded_fields)
    ∷ [])
