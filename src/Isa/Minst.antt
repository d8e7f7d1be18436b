-- ===== src/Isa/Minst.antt =====
-- The packet `Minst` of include/linx/model/isa/minst.hpp and its operations in src/isa/minst.cpp.
-- `none` for `form` is the null pointer.
pub mod Fields
pub mod Lifecycle
pub mod Views
use Prim.Native.Nat.{bit_and}
use Prim.Native.String.{String}
use text.Mathlib.Text.{◌==◌ as str_eq, starts_with}
use linx_model.Base.{
  ℕ, ◌+◌, ◌-◌, ◌*◌, ◌/◌, ◌%◌, ◌^◌, Bool, true, false, not, ◌||◌, ◌&&◌, Option, none, some, List, [],
  ◌∷◌, ◌++◌, ◌==◌, leb, if◌then◌else◌,
}
use linx_model.Base.Int.{ℤ, to_u64}
use linx_model.Isa.Enums.{
  MinstOperandKind, MinstWidth, MinstOpcodeClass, MinstStage, MinstLifecycle, MinstCodecStatus,
}
use linx_model.Isa.Desc.{MinstFormDesc}
use linx_model.Isa.Names.{
  width_from_bits, is_source_field, is_destination_field, is_immediate_field, kind_from_field,
}

pub record MinstDecodedField : Type 0 where
  pub name : String
  pub signed_hint : Bool
  pub bit_width : ℕ
  pub logical_value : ℤ

pub record MinstOperand : Type 0 where
  pub is_dst : Bool
  pub ready : Bool
  pub kind : MinstOperandKind
  pub logical_width : MinstWidth
  pub encoded_bits : ℕ
  pub value : ℕ
  pub operand_data : ℕ
  pub field_name : String
  pub annotation : String

pub record MinstMemoryInfo : Type 0 where
  pub valid : Bool
  pub is_load : Bool
  pub is_store : Bool
  pub logical_width : MinstWidth
  pub addr : ℕ
  pub size : ℕ
  pub annotation : String

pub record Minst : Type 0 where
  pub uid : ℕ
  pub fetch_seq : ℕ
  pub pc : ℕ
  pub next_pc : ℕ
  pub thread_id : ℕ
  pub lane_id : ℕ
  pub rob_id : ℕ
  pub valid : Bool
  pub speculative : Bool
  pub exception : Bool
  pub poison : Bool
  pub raw_bits : ℕ
  pub length_bits : ℕ
  pub code_bytes : ℕ
  pub opcode_class : MinstOpcodeClass
  pub stage : MinstStage
  pub lifecycle : MinstLifecycle
  pub decode_status : MinstCodecStatus
  pub encode_status : MinstCodecStatus
  pub valid_form : Bool
  pub is_branch : Bool
  pub is_control : Bool
  pub form : Option MinstFormDesc
  pub form_id : String
  pub mnemonic : String
  pub asm_template : String
  pub encoding_kind : String
  pub group : String
  pub uop_group : String
  pub uop_big_kind : String
  pub annotation : String
  pub decoded_fields : List MinstDecodedField
  pub srcs : List MinstOperand
  pub dsts : List MinstOperand
  pub immediates : List MinstDecodedField
  pub shift_amount : Option MinstDecodedField
  pub memory : Option MinstMemoryInfo

-- `Minst()`: the defaults of the declaration.
abbrev pub fresh : Minst
fresh = record {
  uid = 0;
  fetch_seq = 0;
  pc = 0;
  next_pc = 0;
  thread_id = 0;
  lane_id = 0;
  rob_id = 0;
  valid = true;
  speculative = false;
  exception = false;
  poison = false;
  raw_bits = 0;
  length_bits = 0;
  code_bytes = 0;
  opcode_class = MinstOpcodeClass.invalid;
  stage = MinstStage.fetch;
  lifecycle = MinstLifecycle.allocated;
  decode_status = MinstCodecStatus.no_match;
  encode_status = MinstCodecStatus.invalid_form;
  valid_form = false;
  is_branch = false;
  is_control = false;
  form = none;
  form_id = "";
  mnemonic = "";
  asm_template = "";
  encoding_kind = "";
  group = "";
  uop_group = "";
  uop_big_kind = "";
  annotation = "";
  decoded_fields = [];
  srcs = [];
  dsts = [];
  immediates = [];
  shift_amount = none;
  memory = none;
}

-- `UnsignedValue`.
unfoldable pub unsigned_value : MinstDecodedField → ℕ
unsigned_value f =
    if f.bit_width == 0
    then 0
    else if leb 64 f.bit_width
    then to_u64 f.logical_value
    else bit_and (to_u64 f.logical_value) (2 ^ f.bit_width - 1)

-- `code_bytes` is `(length_bits + 7) / 8` cut to 8 bits.
unfoldable pub set_raw_encoding : Minst → ℕ → ℕ → Minst
set_raw_encoding m bits_value length_bits_value = record m {
  raw_bits = bits_value;
  length_bits = length_bits_value;
  code_bytes = (length_bits_value + 7) / 8 % 2 ^ 8;
}

unfoldable pub create_fetch : ℕ → ℕ → ℕ → ℕ → Minst
unfolding set_raw_encoding
create_fetch uid_value pc_value raw_value code_size =
    let packet = record fresh {
      uid = uid_value;
      fetch_seq = uid_value;
      pc = pc_value;
      next_pc = (pc_value + code_size) % 2 ^ 64;
    } in
    record (set_raw_encoding packet raw_value (code_size * 8 % 2 ^ 8)) {
      stage = MinstStage.fetch;
      lifecycle = MinstLifecycle.allocated;
    }

unfoldable pub clear_decoded_state : Minst → Minst
clear_decoded_state m = record m {
  form = none;
  form_id = "";
  mnemonic = "";
  asm_template = "";
  encoding_kind = "";
  group = "";
  uop_group = "";
  uop_big_kind = "";
  decode_status = MinstCodecStatus.no_match;
  encode_status = MinstCodecStatus.invalid_form;
  valid_form = false;
  opcode_class = MinstOpcodeClass.invalid;
  annotation = "";
  decoded_fields = [];
  srcs = [];
  dsts = [];
  immediates = [];
  shift_amount = none;
  memory = none;
  is_branch = false;
  is_control = false;
}

unfoldable pub set_form : Minst → Option MinstFormDesc → Minst
set_form m none = record m {
  form = none;
  valid_form = false;
  form_id = "";
  mnemonic = "";
  asm_template = "";
  encoding_kind = "";
  group = "";
  uop_group = "";
  uop_big_kind = "";
}
set_form m (some desc) = record m {
  form = some desc;
  valid_form = true;
  form_id = desc.uid;
  mnemonic = desc.mnemonic;
  asm_template = desc.asm_template;
  encoding_kind = desc.encoding_kind;
  group = desc.group;
  uop_group = desc.uop_group;
  uop_big_kind = desc.uop_big_kind;
  length_bits = desc.length_bits % 2 ^ 8;
  code_bytes = (desc.length_bits + 7) / 8 % 2 ^ 8;
}

-- The search and the update of `SetDecodedField` on the vector of fields.
unfoldable pub put_field : MinstDecodedField → List MinstDecodedField → List MinstDecodedField
put_field f [] = f ∷ []
put_field f (g ∷ gs) = if str_eq g.name f.name then f ∷ gs else g ∷ put_field f gs

unfoldable pub set_decoded_field : Minst → String → ℤ → Bool → ℕ → Minst
unfolding put_field
set_decoded_field m name logical_value signed_hint bit_width = record m {
  decoded_fields =
      put_field
        (record {
          name = name;
          signed_hint = signed_hint;
          bit_width = bit_width;
          logical_value = logical_value;
        })
        m.decoded_fields;
}

unfoldable pub find_field : String → List MinstDecodedField → Option MinstDecodedField
find_field name [] = none
find_field name (g ∷ gs) = if str_eq g.name name then some g else find_field name gs

unfoldable pub find_decoded_field : Minst → String → Option MinstDecodedField
unfolding find_field
find_decoded_field m name = find_field name m.decoded_fields

unfoldable pub get_field_signed : Minst → String → Option ℤ
unfolding find_decoded_field
get_field_signed m name = elim (find_decoded_field m name) [
  | none ↦ none
  | some f ↦ some f.logical_value
]

unfoldable pub get_field_unsigned : Minst → String → Option ℕ
unfolding find_decoded_field unsigned_value
get_field_unsigned m name = elim (find_decoded_field m name) [
  | none ↦ none
  | some f ↦ some (unsigned_value f)
]

-- The operand that `AddSrc` and `AddDst` push.
unfoldable pub make_operand : Bool → MinstOperandKind → ℕ → ℕ → String → String → MinstOperand
unfolding width_from_bits
make_operand is_dst kind value encoded_bits field_name annotation = record {
  is_dst = is_dst;
  ready = false;
  kind = kind;
  logical_width = width_from_bits encoded_bits;
  encoded_bits = encoded_bits;
  value = value;
  operand_data = 0;
  field_name = field_name;
  annotation = annotation;
}

unfoldable pub add_src : Minst → MinstOperandKind → ℕ → ℕ → String → String → Minst
unfolding make_operand
add_src m kind value encoded_bits field_name annotation = record m {
  srcs = m.srcs ++ make_operand false kind value encoded_bits field_name annotation ∷ [];
}

unfoldable pub add_dst : Minst → MinstOperandKind → ℕ → ℕ → String → String → Minst
unfolding make_operand
add_dst m kind value encoded_bits field_name annotation = record m {
  dsts = m.dsts ++ make_operand true kind value encoded_bits field_name annotation ∷ [];
}

unfoldable pub init_memory : Minst → Bool → Bool → MinstWidth → ℕ → String → Minst
init_memory m is_load is_store width_value size_value annotation = record m {
  memory = some (record {
    valid = true;
    is_load = is_load;
    is_store = is_store;
    logical_width = width_value;
    addr = 0;
    size = size_value;
    annotation = annotation;
  });
}

unfoldable pub mark_stage : Minst → MinstStage → Minst
mark_stage m new_stage = record m {
  stage = new_stage;
  lifecycle = elim m.lifecycle [
    | MinstLifecycle.allocated ↦ elim new_stage [
      | MinstStage.fetch ↦ MinstLifecycle.allocated
      | _ ↦ MinstLifecycle.in_flight
    ]
    | other ↦ other
  ];
}

unfoldable pub mark_retired : Minst → Minst
mark_retired m = record m { stage = MinstStage.retire; lifecycle = MinstLifecycle.retired }

unfoldable pub mark_flushed : Minst → Minst
mark_flushed m = record m { stage = MinstStage.flush; lifecycle = MinstLifecycle.flushed }

unfoldable pub mark_traced : Minst → Minst
mark_traced m = record m { stage = MinstStage.dfx; lifecycle = MinstLifecycle.traced }

unfoldable pub is_terminal : Minst → Bool
is_terminal m = elim m.lifecycle [
  | MinstLifecycle.retired ↦ true
  | MinstLifecycle.flushed ↦ true
  | MinstLifecycle.traced ↦ true
  | _ ↦ false
]
