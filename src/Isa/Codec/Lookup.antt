-- ===== src/Isa/Codec/Lookup.antt =====
-- The lookups of a form in the tables, src/isa/codec.cpp, and the entry of a packed word.
use Prim.Native.String.{String}
use text.Mathlib.Text.{◌==◌ as str_eq}
use linx_model.Base.{ℕ, Bool, true, false, Option, none, some, List, [], ◌∷◌}
use linx_model.Isa.Desc.{Tables, MinstFormDesc}
use linx_model.Isa.Minst.{Minst}
use linx_model.Isa.Codec.Decode.{decode_packed_word}

-- `std::find_if`.
unfoldable pub find_form : (MinstFormDesc → Bool) → List MinstFormDesc → Option MinstFormDesc
find_form test [] = none
find_form test (form ∷ forms) = elim (test form) [ true ↦ some form | false ↦ find_form test forms ]

module _ (t : Tables) where
  unfoldable pub lookup_form_by_uid : String → Option MinstFormDesc
  unfolding find_form
  lookup_form_by_uid uid = find_form (λ form. str_eq form.uid uid) t.forms

  unfoldable pub lookup_form_by_mnemonic : String → Option MinstFormDesc
  unfolding find_form
  lookup_form_by_mnemonic mnemonic = find_form (λ form. str_eq form.mnemonic mnemonic) t.forms

  unfoldable pub decode_minst_packed : ℕ → ℕ → Minst → Minst
  unfolding decode_packed_word
  decode_minst_packed packed_bits length_bits out = decode_packed_word t packed_bits length_bits out
