-- ===== src/Isa/Codec/Digits.antt =====
-- The word operations of the codec, digit by digit.
use Prim.Native.Nat.{bit_and}
use linx_model.Base.{
  ℕ, ◌+◌, ◌-◌, ◌*◌, ◌/◌, ◌^◌, ◌≤◌, ◌<◌, max, Bool, ◌&&◌, ◌≡◌, ◌∙◌, ap₂, leb, ltb, if◌then◌else◌,
  arith,
}
use linx_model.Base.Bits.{
  bit, bit-and, bit-or, bit-zero, bit-shr, bit-shl, bit-mod, bit-low_mask, bit-complement,
  bit-le-one,
}
use linx_model.Isa.Desc.{MinstFieldPieceDesc}
use linx_model.Isa.Codec.Word.{shl64, not64, bit_mask, piece_bits}
use linx_model.Isa.Codec.Encode.{place_piece}

bit-mask : (w k : ℕ) → bit (bit_mask w) k ≡ (if ltb k w && ltb k 64 then 1 else 0)
unfolding bit_mask
bit-mask w k = ground (arith, bit-low_mask w k, bit-low_mask 64 k, bit-zero k)

pub bit-masked :
    (x w k : ℕ) → bit (bit_and x (bit_mask w)) k ≡ (if ltb k w && ltb k 64 then bit x k else 0)
bit-masked x w k = ground (arith, bit-and x (bit_mask w) k, bit-mask w k, bit-le-one x k)

bit-shl64 :
    (x s k : ℕ) → bit (shl64 x s) k ≡ (if ltb k 64 then if ltb k s then 0 else bit x (k - s) else 0)
bit-shl64 x s k = bit-mod (x * 2 ^ s) 64 k ∙ ground (arith, bit-shl x s k)

-- The places of a piece, in the value of its field and in the word.
abbrev pub in_value : MinstFieldPieceDesc → ℕ → Bool
in_value p k = leb p.value_lsb k && ltb k (p.value_lsb + p.width)

abbrev pub in_insn : MinstFieldPieceDesc → ℕ → Bool
in_insn p k = leb p.insn_lsb k && ltb k (p.insn_lsb + p.width)

pub bit-piece_bits :
    (w : ℕ) (p : MinstFieldPieceDesc) (k : ℕ)
    → p.value_lsb + p.width ≤ 64
    → bit (piece_bits w p) k ≡ (if in_value p k then bit w (p.insn_lsb + (k - p.value_lsb)) else 0)
unfolding piece_bits
bit-piece_bits w p k h =
    bit-shl64 _ p.value_lsb k
    ∙ ground (
      arith,
      bit-masked (w / 2 ^ p.insn_lsb) p.width (k - p.value_lsb),
      bit-shr w p.insn_lsb (k - p.value_lsb),
    )

-- The two halves of a placed piece: the cleared window, and the value moved into it.
bit-cleared :
    (bits w s k : ℕ)
    → s + w ≤ 64
    → k < 64
    → bit (bit_and bits (not64 (shl64 (bit_mask w) s))) k
      ≡ (if leb s k && ltb k (s + w) then 0 else bit bits k)
bit-cleared bits w s k h small = ground (
  arith,
  bit-and bits (not64 (shl64 (bit_mask w) s)) k,
  bit-complement 64 (shl64 (bit_mask w) s) k (omega arith),
  bit-shl64 (bit_mask w) s k,
  bit-mask w (k - s),
  bit-le-one bits k,
)

bit-moved :
    (raw v w s k : ℕ)
    → s + w ≤ 64
    → bit (shl64 (bit_and (raw / 2 ^ v) (bit_mask w)) s) k
      ≡ (if leb s k && ltb k (s + w) then bit raw (v + (k - s)) else 0)
bit-moved raw v w s k h =
    bit-shl64 _ s k ∙ ground (arith, bit-masked (raw / 2 ^ v) w (k - s), bit-shr raw v (k - s))

pub bit-place_piece :
    (raw : ℕ) (p : MinstFieldPieceDesc) (bits k : ℕ)
    → p.insn_lsb + p.width ≤ 64
    → k < 64
    → bit (place_piece raw p bits) k
      ≡ (if in_insn p k then bit raw (p.value_lsb + (k - p.insn_lsb)) else bit bits k)
unfolding place_piece
bit-place_piece raw p bits k h small =
    bit-or _ _ k
    ∙ ap₂ max (bit-cleared bits p.width p.insn_lsb k h small)
        (bit-moved raw p.value_lsb p.width p.insn_lsb k h)
    ∙ grind arith
