-- ===== src/Emulator/Record/Json.antt =====
-- The JSON line and the dump of a trace record in src/emulator/minst_record.cpp.
use Prim.Native.String.{String}
use linx_model.Base.{
  ℕ, zero, suc, ◌*◌, ◌/◌, ◌%◌, ◌^◌, Bool, true, false, not, ◌&&◌, Option, none, some, List, [], ◌∷◌,
  ◌++◌, ◌==◌, leb, if◌then◌else◌, max,
}
use linx_model.Base.Int.{ℤ, pos}
use linx_model.Base.Text.{Bytes, codes, decimal_ℤ, hexadecimal, pad_left}
use linx_model.Isa.Enums.{MinstOperandKind}
use linx_model.Isa.Desc.{Tables}
use linx_model.Isa.Asm.{AsmReplacement}
use linx_model.Isa.Disasm.Text.{LineText, decode_line_text, format_disassembly_dump_line}
use linx_model.Emulator.Record.{MinstRecord}

unfoldable pub hex_value : ℕ → ℕ → Bytes
unfolding hexadecimal
hex_value value digits = codes "0x" ++ pad_left digits b'0' (hexadecimal value)

-- `none` is a failed assertion.
unfoldable pub bytes_for_len : ℕ → Option ℕ
bytes_for_len len_bits =
    if not (len_bits % 8 == 0)
    then none
    else if leb 16 len_bits && leb len_bits 64
    then some (len_bits / 8)
    else none

-- The first `n` bytes of `UnpackBytes`, from the `idx`-th on.
unfoldable pub unpack_from : ℕ → ℕ → ℕ → List ℕ
unpack_from insn idx zero = []
unpack_from insn idx (suc n) = insn / 2 ^ (idx * 8) % 2 ^ 8 ∷ unpack_from insn (suc idx) n

unfoldable pub unpack_bytes : MinstRecord → Option (List ℕ)
unfolding bytes_for_len unpack_from
unpack_bytes r = elim (bytes_for_len r.len) [
  | none ↦ none
  | some size_bytes ↦ some (unpack_from r.insn 0 size_bytes)
]

unfoldable pub escape_char : ℕ → Bytes
escape_char ch =
    if ch == b'\\'
    then b'\\' ∷ b'\\' ∷ []
    else if ch == b'"'
    then b'\\' ∷ b'"' ∷ []
    else if ch == b'\n'
    then b'\\' ∷ b'n' ∷ []
    else ch ∷ []

unfoldable pub json_escape : Bytes → Bytes
unfolding escape_char
json_escape [] = []
json_escape (ch ∷ text) = escape_char ch ++ json_escape text

abbrev pub write_json_key : Bytes → Bytes
write_json_key key = b',' ∷ b'"' ∷ (key ++ (b'"' ∷ b':' ∷ []))

-- The value of a field, printed with `<<` or as an escaped text.
pub data JsonValue : Type 0 where
  number : ℤ → JsonValue
  text : Bytes → JsonValue

abbrev pub JsonField : Type 0
JsonField = Bytes × JsonValue

-- `WriteJsonUintField` and `WriteJsonStringField`.
unfoldable pub write_json_field : JsonField → Bytes
unfolding decimal_ℤ json_escape
write_json_field (key, number value) = write_json_key key ++ decimal_ℤ value
write_json_field (key, text value) =
    write_json_key key ++ (b'"' ∷ (json_escape value ++ (b'"' ∷ [])))

unfoldable pub write_json_fields : List JsonField → Bytes
unfolding write_json_field
write_json_fields [] = []
write_json_fields (field ∷ fields) = write_json_field field ++ write_json_fields fields

pub record MinstRecordDecoration : Type 0 where
  pub pc_hex : Bytes
  pub next_pc_hex : Bytes
  pub insn_hex : Bytes
  pub bytes_hex : Bytes
  pub asm_text : Bytes
  pub dump_line : Bytes

abbrev pub flag : Bool → ℕ
flag false = 0
flag true = 1

abbrev pub kind_value : MinstOperandKind → ℕ
kind_value MinstOperandKind.invalid = 0
kind_value MinstOperandKind.register = 1
kind_value MinstOperandKind.immediate = 2
kind_value MinstOperandKind.predicate = 3
kind_value MinstOperandKind.memory = 4
kind_value MinstOperandKind.control = 5
kind_value MinstOperandKind.metadata = 6

abbrev pub uint : String → ℕ → JsonField
uint key value = (codes key, number (pos value))

abbrev pub string : String → Bytes → JsonField
string key value = (codes key, text value)

-- The fields after the first one, in the order in which they are written.
unfoldable pub json_fields : MinstRecordDecoration → MinstRecord → List JsonField
json_fields d r =
    uint "cycle" r.cycle
    ∷ uint "pc" r.pc
    ∷ uint "next_pc" r.next_pc
    ∷ uint "insn" r.insn
    ∷ uint "len" r.len
    ∷ (codes "lane_id", number r.lane_id)
    ∷ string "pc_hex" d.pc_hex
    ∷ string "next_pc_hex" d.next_pc_hex
    ∷ string "insn_hex" d.insn_hex
    ∷ string "bytes_hex" d.bytes_hex
    ∷ string "asm" d.asm_text
    ∷ string "dump" d.dump_line
    ∷ string "mnemonic" (codes r.mnemonic)
    ∷ string "form_id" (codes r.form_id)
    ∷ string "opcode_class" (codes r.opcode_class)
    ∷ string "lifecycle" (codes r.lifecycle)
    ∷ string "block_kind" (codes r.block_kind)
    ∷ uint "src0_valid" (flag r.src0.valid)
    ∷ uint "src0_kind" (kind_value r.src0.kind)
    ∷ uint "src0_value" r.src0.value
    ∷ uint "src0_data" r.src0.operand_data
    ∷ uint "src1_valid" (flag r.src1.valid)
    ∷ uint "src1_kind" (kind_value r.src1.kind)
    ∷ uint "src1_value" r.src1.value
    ∷ uint "src1_data" r.src1.operand_data
    ∷ uint "dst0_valid" (flag r.dst0.valid)
    ∷ uint "dst0_kind" (kind_value r.dst0.kind)
    ∷ uint "dst0_value" r.dst0.value
    ∷ uint "dst0_data" r.dst0.operand_data
    ∷ uint "mem_valid" (flag r.memory.valid)
    ∷ uint "mem_is_load" (flag r.memory.is_load)
    ∷ uint "mem_is_store" (flag r.memory.is_store)
    ∷ uint "mem_addr" r.memory.addr
    ∷ uint "mem_size" r.memory.size
    ∷ uint "mem_wdata" r.memory.wdata
    ∷ uint "mem_rdata" r.memory.rdata
    ∷ uint "trap_valid" (flag r.trap.valid)
    ∷ uint "trap_cause" r.trap.cause
    ∷ uint "traparg0" r.trap.traparg0
    ∷ []

unfoldable pub write_record : MinstRecordDecoration → MinstRecord → Bytes
unfolding json_fields write_json_fields
write_record d r =
    codes "{\"schema_version\":\"1.0\"" ++ (write_json_fields (json_fields d r) ++ (b'}' ∷ []))

module _ (sort : List AsmReplacement → List AsmReplacement) (t : Tables) where
  unfoldable pub decode_record_line : MinstRecord → Option LineText
  unfolding unpack_bytes decode_line_text
  decode_record_line r = elim (unpack_bytes r) [
    | none ↦ none
    | some bytes ↦ decode_line_text sort t bytes
  ]

  abbrev pub decoration : MinstRecord → LineText → MinstRecordDecoration
  decoration r line = record {
    pc_hex = hex_value r.pc 16;
    next_pc_hex = hex_value r.next_pc 16;
    insn_hex = hex_value r.insn (max (r.len / 4) 1);
    bytes_hex = line.bytes_hex;
    asm_text = line.text;
    dump_line = format_disassembly_dump_line r.pc line;
  }

  unfoldable pub decorate_minst_record : MinstRecord → Option MinstRecordDecoration
  unfolding decode_record_line hex_value format_disassembly_dump_line
  decorate_minst_record r = elim (decode_record_line r) [
    | none ↦ none
    | some line ↦ some (decoration r line)
  ]

  unfoldable pub write_minst_record_json : MinstRecord → Option Bytes
  unfolding decorate_minst_record write_record
  write_minst_record_json r = elim (decorate_minst_record r) [
    | none ↦ none
    | some d ↦ some (write_record d r)
  ]

  unfoldable pub write_minst_record_dump : MinstRecord → Option Bytes
  unfolding decorate_minst_record
  write_minst_record_dump r = elim (decorate_minst_record r) [
    | none ↦ none
    | some d ↦ some d.dump_line
  ]
