-- ===== src/Isa/Dump/Tests.antt =====
-- Dumps of a field and of an encoded word.
use linx_model.Base.{◌≡◌, refl, true, ◌∷◌, ◌++◌}
use linx_model.Base.Int.{negsuc}
use linx_model.Base.Text.{codes}
use linx_model.Isa.Enums.{MinstCodecStatus}
use linx_model.Isa.Minst.{unsigned_value}
use linx_model.Isa.Dump.{dump_decoded_field, dump_encoded_word}

dump-field :
    dump_decoded_field
      (record { name = "simm"; signed_hint = true; bit_width = 4; logical_value = negsuc 2 })
    ≡ codes "{name=simm, signed=true, bits=4, logical=-3, raw=13}"
unfolding dump_decoded_field unsigned_value
dump-field = refl

-- A length of 16 is printed as the byte 16, which is no printable character.
dump-word :
    dump_encoded_word
      (record { bits = 0x2a; length_bits = 16; valid = true; status = MinstCodecStatus.ok })
    ≡ codes "{valid=true, status=ok, length_bits=" ++ (16 ∷ codes ", bits=0x002a}")
unfolding dump_encoded_word
dump-word = refl
