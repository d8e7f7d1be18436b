-- ===== src/Isa/Asm.antt =====
-- The assembler text of a packet, `Minst::Assemble` of src/isa/minst.cpp. A text is a list of its
-- bytes. `std::sort`, which does not keep the order of needles of one length, is given.
pub mod Runs
pub mod Tokens
mod Tests
use Prim.Native.String.{String}
use text.Mathlib.Text.{◌==◌ as str_eq, starts_with}
use linx_model.Base.{
  ℕ, zero, suc, ◌+◌, Bool, true, false, not, ◌&&◌, ◌||◌, Option, none, some, List, [], ◌∷◌, ◌++◌,
  ◌==◌, leb, if◌then◌else◌, length, keep_if,
}
use linx_model.Base.Text.{Bytes, codes, decimal, decimal_ℤ, hexadecimal}
use linx_model.Isa.Names.{register_asm_name, is_asm_register_field, is_immediate_field}
use linx_model.Isa.Minst.{Minst, MinstDecodedField, unsigned_value}

unfoldable pub is_asm_token_char : ℕ → Bool
is_asm_token_char ch =
    leb b'a' ch && leb ch b'z'
    || leb b'A' ch && leb ch b'Z'
    || leb b'0' ch && leb ch b'9'
    || ch == b'_'
    || ch == b'#'

-- What follows a text at the front of another, where it stands there.
abbrev pub strip : Bytes → Bytes → Option Bytes
strip [] text = some text
strip (c ∷ cs) [] = none
strip (c ∷ cs) (d ∷ ds) = if c == d then strip cs ds else none

-- `text.find`: what stands before the first occurrence, and what after.
unfoldable pub find_split : Bytes → Bytes → Option (Bytes × Bytes)
find_split needle [] = elim (strip needle []) [ none ↦ none | some after ↦ some ([], after) ]
find_split needle (c ∷ cs) = elim (strip needle (c ∷ cs)) [
  | some after ↦ some ([], after)
  | none ↦ elim (find_split needle cs) [
    | none ↦ none
    | some (before, after) ↦ some (c ∷ before, after)
  ]
]

-- Whether the last byte, or the first one, is of no token.
abbrev pub ends_token : Bytes → Bool
ends_token [] = true
ends_token (c ∷ []) = not (is_asm_token_char c)
ends_token (c ∷ d ∷ cs) = ends_token (d ∷ cs)

abbrev pub starts_no_token : Bytes → Bool
starts_no_token [] = true
starts_no_token (c ∷ cs) = not (is_asm_token_char c)

module _ (needle replacement : Bytes) where
  -- The loop, on fuel; the text is the part before `pos` and the part from it on.
  unfoldable pub replace_from : ℕ → Bytes → Bytes → Bytes
  unfolding is_asm_token_char find_split
  replace_from zero done text = done ++ text
  replace_from (suc fuel) done text = elim (find_split needle text) [
    | none ↦ done ++ text
    | some (before, after) ↦
        replace_from fuel
          (if ends_token (done ++ before) && starts_no_token after
            then done ++ (before ++ replacement)
            else done ++ (before ++ needle))
          after
  ]

  -- Each turn takes a byte of the text at least.
  unfoldable pub replace_asm_token : Bytes → Bytes
  unfolding replace_from
  replace_asm_token text = elim needle [
    | [] ↦ text
    | c ∷ cs ↦ replace_from (suc (length text)) [] text
  ]

unfoldable pub format_asm_field_value : MinstDecodedField → Bytes
unfolding is_asm_register_field register_asm_name decimal_ℤ decimal
format_asm_field_value field =
    if is_asm_register_field field.name
    then codes (register_asm_name (unsigned_value field))
    else if field.signed_hint
    then decimal_ℤ field.logical_value
    else decimal (unsigned_value field)

pub record AsmReplacement : Type 0 where
  pub needle : Bytes
  pub replacement : Bytes

abbrev pub add_replacement : List AsmReplacement → Bytes → Bytes → List AsmReplacement
add_replacement replacements [] replacement = replacements
add_replacement replacements (c ∷ cs) replacement =
    replacements ++ record { needle = c ∷ cs; replacement = replacement } ∷ []

-- One call under a condition.
abbrev pub add_if : Bool → List AsmReplacement → String → Bytes → List AsmReplacement
add_if b replacements needle value =
    if b then add_replacement replacements (codes needle) value else replacements

unfoldable pub add_immediate_aliases :
    List AsmReplacement → MinstDecodedField → Bytes → ℕ → List AsmReplacement
add_immediate_aliases r field value immediate_field_count =
    let only = immediate_field_count == 1 in
    let r = add_if (starts_with field.name "uimm") r "uimm" value in
    let r = add_if (starts_with field.name "simm") r "simm" value in
    let r = add_if (starts_with field.name "imm") r "imm" value in
    let r = add_if only r "imm" value in
    let r = add_if only r "simm" value in add_if only r "uimm" value

-- What stands before the first `=`, if there is one.
unfoldable pub before_equals : Bytes → Option Bytes
before_equals [] = none
before_equals (c ∷ cs) =
    if c == b'='
    then some []
    else elim (before_equals cs) [ none ↦ none | some front ↦ some (c ∷ front) ]

abbrev pub add_front : List AsmReplacement → Option Bytes → Bytes → List AsmReplacement
add_front r none value = r
add_front r (some front) value = add_replacement r front value

unfoldable pub add_field_aliases :
    List AsmReplacement → MinstDecodedField → Bytes → ℕ → List AsmReplacement
unfolding add_immediate_aliases before_equals is_immediate_field
add_field_aliases r field value immediate_field_count =
    let is = str_eq field.name in
    let r = add_replacement r (codes field.name) value in
    let r = add_front r (before_equals (codes field.name)) value in
    let r = add_if (is "RegDst") r "Rd" value in
    let r = add_if (is "RegDst") r "Dst" value in
    let r = add_if (is "SrcL") r "srcL" value in
    let r = add_if (is "SrcR") r "srcR" value in
    let r = add_if (is "SrcP") r "srcP" value in
    let r = add_if (is "SrcD") r "srcD" value in
    if is_immediate_field field.name
    then add_immediate_aliases r field value immediate_field_count
    else r

unfoldable pub add_fields : List AsmReplacement → ℕ → List MinstDecodedField → List AsmReplacement
unfolding add_field_aliases format_asm_field_value
add_fields r immediate_field_count [] = r
add_fields r immediate_field_count (field ∷ fields) =
    add_fields (add_field_aliases r field (format_asm_field_value field) immediate_field_count)
      immediate_field_count fields

abbrev pub same_bytes : Bytes → Bytes → Bool
same_bytes [] [] = true
same_bytes [] (d ∷ ds) = false
same_bytes (c ∷ cs) [] = false
same_bytes (c ∷ cs) (d ∷ ds) = c == d && same_bytes cs ds

abbrev pub same_replacement : AsmReplacement → AsmReplacement → Bool
same_replacement lhs rhs =
    same_bytes lhs.needle rhs.needle && same_bytes lhs.replacement rhs.replacement

-- `std::unique` after an entry that is kept: a run of equal neighbours becomes its first one.
unfoldable pub unique_after : AsmReplacement → List AsmReplacement → List AsmReplacement
unique_after last [] = []
unique_after last (r ∷ rs) = elim (same_replacement last r) [
  | true ↦ unique_after last rs
  | false ↦ r ∷ unique_after r rs
]

unfoldable pub unique : List AsmReplacement → List AsmReplacement
unfolding unique_after
unique [] = []
unique (r ∷ rs) = r ∷ unique_after r rs

unfoldable pub replace_all : List AsmReplacement → Bytes → Bytes
unfolding replace_asm_token
replace_all [] text = text
replace_all (r ∷ rs) text = replace_all rs (replace_asm_token r.needle r.replacement text)

-- The text without a template.
abbrev pub field_text : MinstDecodedField → Bytes
field_text field =
    codes field.name
    ++ b'='
      ∷ (if field.signed_hint
          then decimal_ℤ field.logical_value
          else codes "0x" ++ hexadecimal (unsigned_value field))

abbrev pub more_fields : List MinstDecodedField → Bytes
more_fields [] = []
more_fields (field ∷ fields) = codes ", " ++ (field_text field ++ more_fields fields)

abbrev pub fields_text : List MinstDecodedField → Bytes
fields_text [] = []
fields_text (field ∷ fields) = b' ' ∷ (field_text field ++ more_fields fields)

module _ (sort : List AsmReplacement → List AsmReplacement) where
  unfoldable pub build_asm_replacements : List MinstDecodedField → List AsmReplacement
  unfolding add_fields unique is_immediate_field
  build_asm_replacements fields =
      let immediate_field_count =
        length (keep_if (λ (f : MinstDecodedField). is_immediate_field f.name) fields) in
      unique (sort (add_fields [] immediate_field_count fields))

  unfoldable pub assemble : Minst → Bytes
  unfolding build_asm_replacements replace_all decimal_ℤ hexadecimal
  assemble inst =
      if str_eq inst.asm_template ""
      then codes (if str_eq inst.mnemonic "" then "invalid" else inst.mnemonic)
        ++ fields_text inst.decoded_fields
      else replace_all (build_asm_replacements inst.decoded_fields) (codes inst.asm_template)
