-- ===== src/Isa/Minst/Fields.antt =====
-- The decoded fields of a packet as a map from names: `SetDecodedField` and `FindDecodedField`.
use Prim.Native.String.{String}
use text.Mathlib.Text.{◌==◌ as str_eq}
use text.Mathlib.TextEquality.{eq_iff}
use linx_model.Base.{ℕ, ◌≡◌, refl, Bool, some, List, [], ◌∷◌, if◌then◌else◌, arith}
use linx_model.Base.Int.{ℤ}
use linx_model.Isa.Minst.{
  Minst, MinstDecodedField, put_field, find_field, set_decoded_field, find_decoded_field,
}

pub find_field-put_field :
    (f : MinstDecodedField) (name : String) (gs : List MinstDecodedField)
    → find_field name (put_field f gs) ≡ (if str_eq f.name name then some f else find_field name gs)
unfolding find_field put_field
find_field-put_field f name [] = refl
find_field-put_field f name (g ∷ gs) = ground (
  arith,
  eq_iff g.name f.name,
  eq_iff g.name name,
  eq_iff f.name name,
  find_field-put_field f name gs,
)

-- After `SetDecodedField` a lookup by that name finds the new width, sign hint and value, and a
-- lookup by any other name finds what it found before.
pub find-set_decoded_field :
    (m : Minst) (name : String) (v : ℤ) (is_signed : Bool) (width : ℕ) (other : String)
    → find_decoded_field (set_decoded_field m name v is_signed width) other ≡ (
        if str_eq name other
        then some
            (record { name = name; signed_hint = is_signed; bit_width = width; logical_value = v })
        else find_decoded_field m other)
unfolding find_decoded_field set_decoded_field
find-set_decoded_field m name v is_signed width other =
    find_field-put_field _ other m.decoded_fields
