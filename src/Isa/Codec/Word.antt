-- ===== src/Isa/Codec/Word.antt =====
-- The word arithmetic of src/isa/codec.cpp: masks, sign extension, constraints, and the value of
-- a field. Shift amounts are below 64, as the generated tables keep them.
use Prim.Native.Nat.{bit_and, bit_or}
use linx_model.Base.{
  ℕ, ◌-◌, ◌*◌, ◌/◌, ◌%◌, ◌^◌, Bool, true, false, not, ◌&&◌, Option, some, List, [], ◌∷◌, ◌==◌, leb,
  if◌then◌else◌,
}
use linx_model.Base.Int.{ℤ, pos, negsuc, to_u64, to_i64, ltb_ℤ, leb_ℤ}
use linx_model.Isa.Enums.{MinstConstraintOp}
use linx_model.Isa.Desc.{MinstFieldPieceDesc, MinstFieldDesc, Tables, pieces_for}

-- `~x` and `x << s` on `uint64_t`.
abbrev pub not64 : ℕ → ℕ
not64 x = 2 ^ 64 - 1 - x

abbrev pub shl64 : ℕ → ℕ → ℕ
shl64 x s = x * 2 ^ s % 2 ^ 64

unfoldable pub bit_mask : ℕ → ℕ
bit_mask width = if width == 0 then 0 else if leb 64 width then 2 ^ 64 - 1 else 2 ^ width - 1

unfoldable pub sign_extend : ℕ → ℕ → ℤ
unfolding bit_mask
sign_extend value width =
    if width == 0
    then pos 0
    else if leb 64 width
    then to_i64 value
    else if bit_and value (2 ^ (width - 1)) == 0
    then to_i64 value
    else to_i64 (bit_or value (not64 (bit_mask width)))

-- `lhs == rhs`, and the orders of `int64_t`.
abbrev pub eqb_ℤ : ℤ → ℤ → Bool
eqb_ℤ a b = leb_ℤ a b && leb_ℤ b a

unfoldable pub evaluate_constraint : MinstConstraintOp → ℤ → ℤ → Bool
evaluate_constraint MinstConstraintOp.eq lhs rhs = eqb_ℤ lhs rhs
evaluate_constraint MinstConstraintOp.ne lhs rhs = not (eqb_ℤ lhs rhs)
evaluate_constraint MinstConstraintOp.lt lhs rhs = ltb_ℤ lhs rhs
evaluate_constraint MinstConstraintOp.le lhs rhs = leb_ℤ lhs rhs
evaluate_constraint MinstConstraintOp.gt lhs rhs = ltb_ℤ rhs lhs
evaluate_constraint MinstConstraintOp.ge lhs rhs = leb_ℤ rhs lhs

-- What one piece adds to the value in the loop of `ExtractFieldValue`.
unfoldable pub piece_bits : ℕ → MinstFieldPieceDesc → ℕ
unfolding bit_mask
piece_bits packed_bits p =
    shl64 (bit_and (packed_bits / 2 ^ p.insn_lsb) (bit_mask p.width)) p.value_lsb

unfoldable pub gather : ℕ → List MinstFieldPieceDesc → ℕ → ℕ
unfolding piece_bits
gather packed_bits [] raw = raw
gather packed_bits (p ∷ ps) raw = gather packed_bits ps (bit_or raw (piece_bits packed_bits p))

unfoldable pub extract_field_value : Tables → MinstFieldDesc → ℕ → Option ℤ
unfolding gather sign_extend
extract_field_value t field packed_bits =
    let raw = gather packed_bits (pieces_for t field) 0 in
    if field.is_signed then some (sign_extend raw field.bit_width) else some (to_i64 raw)

unfoldable pub fits_field : MinstFieldDesc → ℤ → Bool
unfolding bit_mask
fits_field field v =
    if field.bit_width == 0
    then eqb_ℤ v (pos 0)
    else if field.is_signed
    then if leb 64 field.bit_width
      then true
      else leb_ℤ (negsuc (2 ^ (field.bit_width - 1) - 1)) v
        && leb_ℤ v (pos (2 ^ (field.bit_width - 1) - 1))
    else if ltb_ℤ v (pos 0)
    then false
    else leb (to_u64 v) (bit_mask field.bit_width)

unfoldable pub encode_field_bits : MinstFieldDesc → ℤ → ℕ
unfolding bit_mask
encode_field_bits field v = bit_and (to_u64 v) (bit_mask field.bit_width)
