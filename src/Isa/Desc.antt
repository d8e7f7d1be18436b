-- ===== src/Isa/Desc.antt =====
-- The descriptors of include/linx/model/isa/codec.hpp. The generated tables are a parameter: every
-- statement about the codec holds for whatever forms, fields, pieces and constraints they hold.
use Prim.Native.String.{String}
use linx_model.Base.{ℕ, Bool, List, drop, take}
use linx_model.Base.Int.{ℤ}
use linx_model.Isa.Enums.{MinstConstraintOp}

-- `width` bits from bit `insn_lsb` of the word are bits `value_lsb ..` of the field's value.
pub record MinstFieldPieceDesc : Type 0 where
  pub insn_lsb : ℕ
  pub width : ℕ
  pub value_lsb : ℕ

-- `is_signed` is the test `signed_hint > 0`, the only use that the code makes of the hint.
pub record MinstFieldDesc : Type 0 where
  pub name : String
  pub is_signed : Bool
  pub bit_width : ℕ
  pub piece_start : ℕ
  pub piece_count : ℕ

pub record MinstConstraintDesc : Type 0 where
  pub field_name : String
  pub op : MinstConstraintOp
  pub value : ℤ

pub record MinstFormDesc : Type 0 where
  pub uid : String
  pub mnemonic : String
  pub asm_template : String
  pub encoding_kind : String
  pub group : String
  pub uop_group : String
  pub uop_big_kind : String
  pub length_bits : ℕ
  pub fixed_bits : ℕ
  pub mask : ℕ
  pub match : ℕ
  pub field_start : ℕ
  pub field_count : ℕ
  pub constraint_start : ℕ
  pub constraint_count : ℕ

-- The four flat tables of the generated file.
pub record Tables : Type 0 where
  pub field_pieces : List MinstFieldPieceDesc
  pub fields : List MinstFieldDesc
  pub constraints : List MinstConstraintDesc
  pub forms : List MinstFormDesc

-- A span over a flat table.
abbrev pub span {ℓ} : {A : Type ℓ} → List A → ℕ → ℕ → List A
span xs start count = take count (drop start xs)

unfoldable pub fields_for : Tables → MinstFormDesc → List MinstFieldDesc
fields_for t form = span t.fields form.field_start form.field_count

unfoldable pub constraints_for : Tables → MinstFormDesc → List MinstConstraintDesc
constraints_for t form = span t.constraints form.constraint_start form.constraint_count

unfoldable pub pieces_for : Tables → MinstFieldDesc → List MinstFieldPieceDesc
pieces_for t field = span t.field_pieces field.piece_start field.piece_count
