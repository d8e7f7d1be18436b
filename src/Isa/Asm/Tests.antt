-- ===== src/Isa/Asm/Tests.antt =====
-- Assembler texts, and the theorem on them.
use linx_model.Base.{◌≡◌, refl, true, false, [], ◌∷◌}
use linx_model.Base.Int.{pos, negsuc}
use linx_model.Base.Text.{codes}
use linx_model.Isa.Minst.{Minst, fresh, unsigned_value}
use linx_model.Isa.Asm.{is_asm_token_char, replace_asm_token, assemble}
use linx_model.Isa.Asm.Runs.{start, replace_tokens}
use linx_model.Isa.Asm.Tokens.{replace_asm_token-tokens}

-- Three tokens that hold the needle, one of which is the needle.
replace-rd :
    replace_asm_token (codes "Rd") (codes "a0") (codes "add RdRd, Rd, xRd->Rd")
    ≡ codes "add RdRd, a0, xRd->a0"
unfolding replace_asm_token
replace-rd = refl

replace_asm_token-tokens_example :
    replace_asm_token (codes "Rd") (codes "a0") (codes "add RdRd, Rd, xRd->Rd")
    ≡ replace_tokens 82 (100 ∷ []) (codes "a0") start (codes "add RdRd, Rd, xRd->Rd")
unfolding is_asm_token_char
replace_asm_token-tokens_example =
    replace_asm_token-tokens 82 (100 ∷ []) (codes "a0") refl (codes "add RdRd, Rd, xRd->Rd")

abbrev addi : Minst
addi = record fresh {
  mnemonic = "ADDI";
  asm_template = "addi SrcL, simm, ->RegDst";
  decoded_fields =
      record { name = "RegDst"; signed_hint = false; bit_width = 5; logical_value = pos 2 }
      ∷ record { name = "SrcL"; signed_hint = false; bit_width = 5; logical_value = pos 1 }
      ∷ record { name = "simm12"; signed_hint = true; bit_width = 12; logical_value = negsuc 6 }
      ∷ [];
}

assemble-addi : assemble (λ r. r) addi ≡ codes "addi sp, -7, ->a0"
unfolding assemble unsigned_value
assemble-addi = refl

assemble-plain :
    assemble (λ r. r) (record addi { asm_template = "" })
    ≡ codes "ADDI RegDst=0x2, SrcL=0x1, simm12=-7"
unfolding assemble unsigned_value
assemble-plain = refl
