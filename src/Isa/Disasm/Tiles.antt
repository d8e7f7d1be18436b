-- ===== src/Isa/Disasm/Tiles.antt =====
-- How the lines of `DisassembleSection` of src/isa/disasm.cpp cover a section.
use Prim.Native.String.{String}
use linx_model.Base.{
  ℕ, zero, suc, ◌+◌, ◌-◌, ◌%◌, ◌^◌, ◌≤◌, ◌<◌, ◌≡◌, ◌⊎◌, inl, inr, refl, sym, ◌∙◌, true, false, some,
  List, [], ◌∷◌, ltb, if◌then◌else◌, length, drop, length-drop, max, arith, Option-cases, ap, subst,
}
use linx_model.Isa.Desc.{Tables}
use linx_model.Isa.Disasm.{
  MinstDisassemblyLine, decode_best, decoded_line, single_byte_line, decode_disassembly_line,
  disassemble_from, disassemble_section,
}
use linx_model.Isa.Disasm.Best.{decode_best-size}
use linx_model.Emulator.Context.{ProgramSection}

module _ (t : Tables) where
  -- The lines cover the section from an offset to its end with no gap and no overlap, each at its
  -- address and decoded from its own bytes.
  pub data Tiles (s : ProgramSection) : ℕ → List MinstDisassemblyLine → Type 0 where
    done : {offset : ℕ} → offset ≡ length s.bytes → Tiles s offset []
    tile :
        {offset : ℕ} {line : MinstDisassemblyLine} {lines : List MinstDisassemblyLine}
        → line.pc ≡ (s.address + offset) % 2 ^ 64
        → 0 < line.size_bytes
        → decode_disassembly_line t (drop offset s.bytes) line.pc s.name ≡ some line
        → Tiles s (offset + line.size_bytes) lines
        → Tiles s offset (line ∷ lines)

  line-size :
      (bytes : List ℕ) (pc : ℕ) (name : String)
      → 0 < length bytes
      → (line : MinstDisassemblyLine) × (decode_disassembly_line t bytes pc name ≡ some line)
        × (line.pc ≡ pc)
        × (0 < line.size_bytes)
        × (line.size_bytes ≤ length bytes)
  unfolding decode_disassembly_line
  line-size [] pc name h = absurd (omega arith)
  line-size (b ∷ bytes) pc name h = elim (Option-cases (decode_best t (b ∷ bytes))) [
    | inl e ↦ (single_byte_line t b pc name, ground (arith, e), refl, omega arith, omega arith)
    | inr (c, e) ↦
        let (big, inside) = decode_best-size t (b ∷ bytes) c e in
        (decoded_line t c pc name, ground (arith, e), refl, omega (arith, big), inside)
  ]

  disassemble_from-step :
      (s : ProgramSection) (fuel offset : ℕ) (line : MinstDisassemblyLine)
      → offset < length s.bytes
      → decode_disassembly_line t (drop offset s.bytes) ((s.address + offset) % 2 ^ 64) s.name
        ≡ some line
      → disassemble_from t s (suc fuel) offset
        ≡ line ∷ disassemble_from t s fuel (offset + max line.size_bytes 1)
  unfolding disassemble_from
  disassemble_from-step s fuel offset line inside e = ground (arith, e)

  disassemble_from-end :
      (s : ProgramSection) (fuel offset : ℕ)
      → ltb offset (length s.bytes) ≡ false
      → disassemble_from t s fuel offset ≡ []
  unfolding disassemble_from
  disassemble_from-end s zero offset e = refl
  disassemble_from-end s (suc fuel) offset e = ground (arith, e)

  disassemble_from-Tiles :
      (s : ProgramSection) (fuel offset : ℕ)
      → offset ≤ length s.bytes
      → length s.bytes - offset ≤ fuel
      → Tiles s offset (disassemble_from t s fuel offset)
  unfolding disassemble_from
  disassemble_from-Tiles s zero offset le enough = done (omega arith)
  disassemble_from-Tiles s (suc fuel) offset le enough = elim (split offset (length s.bytes)) [
    | inr out ↦ rw (disassemble_from-end s (suc fuel) offset out) (done (ground (arith, out)))
    | inl inside ↦
        let rest = length-drop offset s.bytes in
        let (line, e, at, positive, fits) =
          line-size (drop offset s.bytes) ((s.address + offset) % 2 ^ 64) s.name
            (omega (arith, rest)) in
        let next : offset + max line.size_bytes 1 ≡ offset + line.size_bytes =
          ground (arith, positive) in
        rw (disassemble_from-step s fuel offset line inside e, next)
          (tile at positive
            (ap (λ pc. decode_disassembly_line t (drop offset s.bytes) pc s.name) at ∙ e)
            (disassemble_from-Tiles s fuel (offset + line.size_bytes) (omega (arith, rest, fits))
              (omega (arith, rest, fits, positive))))
  ]
    where
      split : (a b : ℕ) → (a < b) ⊎ (ltb a b ≡ false)
      split a b = ground arith

  -- The lines of an executable section tile it: in order, with no gap and no overlap, from its
  -- first byte to its last, each at the address of its first byte and decoded from the bytes
  -- there; a section that is not executable has none.
  pub disassemble_section-Tiles :
      (s : ProgramSection) → s.executable ≡ true → Tiles s 0 (disassemble_section t s)
  unfolding disassemble_section
  disassemble_section-Tiles s e =
      subst (Tiles s 0) (sym λ k. if e k then disassemble_from t s (length s.bytes) 0 else [])
        (disassemble_from-Tiles s (length s.bytes) 0 (omega arith) (omega arith))
