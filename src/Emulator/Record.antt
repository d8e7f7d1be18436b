-- ===== src/Emulator/Record.antt =====
-- The trace record of include/linx/model/emulator/minst_record_c.h, and how
-- src/emulator/minst_record.cpp makes it. A flag is a Boolean, and a text of 32 bytes is a string of
-- at most 31: the padding and the reserved bytes are always zero.
pub mod Json
pub mod Read
pub mod RoundTrip
pub mod Paths
pub mod Trace
mod Tests
use Prim.Native.String.{String, slice}
use linx_model.Base.{ℕ, ◌%◌, ◌^◌, Bool, true, false, Option, none, some, get_elem?}
use linx_model.Base.Int.{ℤ}
use linx_model.Isa.Enums.{MinstOperandKind, opcode_class_text, lifecycle_text}
use linx_model.Isa.Minst.{Minst, MinstOperand, MinstMemoryInfo}

pub record OperandRecord : Type 0 where
  pub valid : Bool
  pub kind : MinstOperandKind
  pub is_dst : Bool
  pub ready : Bool
  pub encoded_bits : ℕ
  pub value : ℕ
  pub operand_data : ℕ
  pub field_name : String

pub record MemoryRecord : Type 0 where
  pub valid : Bool
  pub is_load : Bool
  pub is_store : Bool
  pub size : ℕ
  pub addr : ℕ
  pub wdata : ℕ
  pub rdata : ℕ

pub record TrapRecord : Type 0 where
  pub valid : Bool
  pub cause : ℕ
  pub traparg0 : ℕ

pub record MinstRecord : Type 0 where
  pub cycle : ℕ
  pub pc : ℕ
  pub next_pc : ℕ
  pub insn : ℕ
  pub len : ℕ
  pub lane_id : ℤ
  pub mnemonic : String
  pub form_id : String
  pub opcode_class : String
  pub lifecycle : String
  pub block_kind : String
  pub src0 : OperandRecord
  pub src1 : OperandRecord
  pub dst0 : OperandRecord
  pub memory : MemoryRecord
  pub trap : TrapRecord

-- `CopyText` into 32 bytes.
unfoldable pub copy_text : String → String
copy_text src = slice src 0 31

abbrev pub no_operand : OperandRecord
no_operand = record {
  valid = false;
  kind = MinstOperandKind.invalid;
  is_dst = false;
  ready = false;
  encoded_bits = 0;
  value = 0;
  operand_data = 0;
  field_name = "";
}

abbrev pub no_memory : MemoryRecord
no_memory = record {
  valid = false;
  is_load = false;
  is_store = false;
  size = 0;
  addr = 0;
  wdata = 0;
  rdata = 0;
}

-- `FillOperand`, `none` for the null pointer.
unfoldable pub fill_operand : Option MinstOperand → OperandRecord
unfolding copy_text
fill_operand none = no_operand
fill_operand (some src) = record {
  valid = true;
  kind = src.kind;
  is_dst = src.is_dst;
  ready = src.ready;
  encoded_bits = src.encoded_bits;
  value = src.value;
  operand_data = src.operand_data;
  field_name = copy_text src.field_name;
}

unfoldable pub fill_memory : Option MinstMemoryInfo → MemoryRecord
fill_memory none = no_memory
fill_memory (some m) = record no_memory {
  valid = m.valid;
  is_load = m.is_load;
  is_store = m.is_store;
  size = m.size % 2 ^ 32;
  addr = m.addr;
}

unfoldable pub fill_trap : Option ℕ → Option ℕ → TrapRecord
fill_trap none traparg0 = record { valid = false; cause = 0; traparg0 = 0 }
fill_trap (some cause) traparg0 = record {
  valid = true;
  cause = cause;
  traparg0 = elim traparg0 [ none ↦ 0 | some a ↦ a ];
}

unfoldable pub make_minst_record : Minst → ℕ → String → ℤ → Option ℕ → Option ℕ → MinstRecord
unfolding copy_text fill_operand fill_memory fill_trap opcode_class_text lifecycle_text
make_minst_record inst cycle block_kind lane_id trap_cause traparg0 = record {
  cycle = cycle;
  pc = inst.pc;
  next_pc = inst.next_pc;
  insn = inst.raw_bits;
  len = inst.length_bits;
  lane_id = lane_id;
  mnemonic = copy_text inst.mnemonic;
  form_id = copy_text inst.form_id;
  opcode_class = copy_text (opcode_class_text inst.opcode_class);
  lifecycle = copy_text (lifecycle_text inst.lifecycle);
  block_kind = copy_text block_kind;
  src0 = fill_operand (get_elem? inst.srcs 0);
  src1 = fill_operand (get_elem? inst.srcs 1);
  dst0 = fill_operand (get_elem? inst.dsts 0);
  memory = fill_memory inst.memory;
  trap = fill_trap trap_cause traparg0;
}
