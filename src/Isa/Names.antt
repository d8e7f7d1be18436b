-- ===== src/Isa/Names.antt =====
-- How src/isa/minst.cpp classifies a field by its name, and its names for registers.
use Prim.Native.String.{String}
use text.Mathlib.Text.{◌==◌ as str_eq, starts_with, find?}
use linx_model.Base.{
  ℕ, Bool, true, false, not, ◌||◌, List, [], ◌∷◌, none, some, if◌then◌else◌, get_elem?,
}
use linx_model.Isa.Enums.{MinstOperandKind, MinstWidth}
use linx_model.Base.{◌==◌}

unfoldable pub width_from_bits : ℕ → MinstWidth
width_from_bits bits =
    if bits == 8
    then MinstWidth.b8
    else if bits == 16
    then MinstWidth.b16
    else if bits == 32
    then MinstWidth.b32
    else if bits == 64
    then MinstWidth.b64
    else if bits == 128
    then MinstWidth.b128
    else MinstWidth.none

-- `Contains`.
abbrev pub contains : String → String → Bool
contains value needle = elim (find? value needle) [ none ↦ false | some i ↦ true ]

unfoldable pub is_destination_field : String → Bool
is_destination_field name = starts_with name "RegDst" || starts_with name "Dst" || str_eq name "rd"

unfoldable pub is_source_field : String → Bool
is_source_field name =
    starts_with name "Src"
    || starts_with name "RegSrc"
    || str_eq name "rs1"
    || str_eq name "rs2"
    || str_eq name "rs3"

unfoldable pub is_immediate_field : String → Bool
is_immediate_field name =
    contains name "imm"
    || str_eq name "shamt"
    || str_eq name "far"
    || str_eq name "Mode"
    || str_eq name "TileOpcode"

unfoldable pub kind_from_field : String → MinstOperandKind
unfolding is_immediate_field
kind_from_field name =
    if is_immediate_field name
    then MinstOperandKind.immediate
    else if contains name "Pred" || contains name "pred"
    then MinstOperandKind.predicate
    else if contains name "Tile" || str_eq name "DataType" || str_eq name "SSR_ID"
    then MinstOperandKind.metadata
    else if contains name "PC" || contains name "far" || contains name "Mode"
    then MinstOperandKind.control
    else MinstOperandKind.register

abbrev register_names : List String
register_names =
    "zero" ∷ "sp" ∷ "a0" ∷ "a1" ∷ "a2" ∷ "a3" ∷ "a4" ∷ "a5" ∷ "a6" ∷ "a7" ∷ "ra" ∷ "s0" ∷ "s1"
    ∷ "s2" ∷ "s3" ∷ "s4" ∷ "s5" ∷ "s6" ∷ "s7" ∷ "s8" ∷ "x0" ∷ "x1" ∷ "x2" ∷ "x3" ∷ "t#1" ∷ "t#2"
    ∷ "t#3" ∷ "t#4" ∷ "u#1" ∷ "u#2" ∷ "u#3" ∷ "u#4" ∷ []

unfoldable pub register_asm_name : ℕ → String
register_asm_name reg = elim (get_elem? register_names reg) [ none ↦ "invalid-reg" | some s ↦ s ]

unfoldable pub is_asm_register_field : String → Bool
is_asm_register_field name =
    if str_eq name "RegDst" || starts_with name "RegDst" || starts_with name "RegSrc"
    then true
    else if starts_with name "Src" || starts_with name "src"
    then not (contains name "Tile")
    else false
