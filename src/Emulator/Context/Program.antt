-- ===== src/Emulator/Context/Program.antt =====
-- Loading and resetting in src/emulator/execution_context.cpp.
use linx_model.Base.{
  ℕ, zero, suc, ◌+◌, ◌^◌, ◌≤◌, ◌<◌, ◌≡◌, ◌≢◌, ◌∙◌, refl, sym, ap, List, [], ◌∷◌, ◌++◌, length,
  get_elem?, arith,
}
use linx_model.Emulator.Context.{
  ExecutionContext, ProgramSection, Memory, address_at, store, load_bytes, load_sections,
  reset_context,
}

load_bytes-frame :
    (m : Memory) (addr idx : ℕ) (bytes : List ℕ) (b : ℕ)
    → ((i : ℕ) → idx ≤ i → i < idx + length bytes → b ≢ address_at addr i)
    → load_bytes m addr idx bytes b ≡ m b
unfolding load_bytes store
load_bytes-frame m addr idx [] b other = refl
load_bytes-frame m addr idx (v ∷ vs) b other =
    let next = store m (address_at addr idx) v in
    let rest =
      load_bytes-frame next addr (suc idx) vs b λ i le lt. other i (omega arith) (omega arith) in
    ground (arith, rest, other idx (omega arith) (omega arith))

load_bytes-byte :
    (m : Memory) (addr idx i : ℕ) (bytes : List ℕ)
    → i < length bytes
    → idx + length bytes ≤ 2 ^ 64
    → load_bytes m addr idx bytes (address_at addr (idx + i)) ≡ get_elem? bytes i
unfolding load_bytes store
load_bytes-byte m addr idx i [] lt fits = absurd (omega arith)
load_bytes-byte m addr idx zero (v ∷ vs) lt fits =
    let next = store m (address_at addr idx) v in
    let same : idx + 0 ≡ idx = omega arith in
    let kept =
      load_bytes-frame next addr (suc idx) vs (address_at addr idx)
        λ j p q e. absurd (omega arith) in
    rw same (ground (arith, kept))
load_bytes-byte m addr idx (suc i) (v ∷ vs) lt fits =
    let next = store m (address_at addr idx) v in
    let same : idx + suc i ≡ suc idx + i = omega arith in
    rw same (load_bytes-byte next addr (suc idx) i vs (omega arith) (omega arith))

load_sections-append :
    (m : Memory) (ss : List ProgramSection) (s : ProgramSection)
    → load_sections m (ss ++ s ∷ []) ≡ load_bytes (load_sections m ss) s.address 0 s.bytes
unfolding load_sections
load_sections-append m [] s = refl
load_sections-append m (r ∷ rs) s = load_sections-append (load_bytes m r.address 0 r.bytes) rs s

-- The loading loop over a list of sections leaves the last section whole: its byte `i` stands `i`
-- past its address, which wraps at 64 bits, where the section is not longer than the address space.
-- At every other address the memory is as the sections before it leave it.
pub load_sections-last :
    (m : Memory) (ss : List ProgramSection) (s : ProgramSection)
    → length s.bytes ≤ 2 ^ 64
    → ((i : ℕ)
        → i < length s.bytes
        → load_sections m (ss ++ s ∷ []) (address_at s.address i) ≡ get_elem? s.bytes i)
      × ((b : ℕ)
          → ((i : ℕ) → i < length s.bytes → b ≢ address_at s.address i)
          → load_sections m (ss ++ s ∷ []) b ≡ load_sections m ss b)
load_sections-last m ss s fits =
    let all = load_sections-append m ss s in
    (
      λ i lt.
          let same : 0 + i ≡ i = omega arith in
          ap (λ (n : Memory). n (address_at s.address i)) all
          ∙ ap
              (λ (j : ℕ).
                load_bytes (load_sections m ss) s.address 0 s.bytes (address_at s.address j))
              (sym same)
          ∙ load_bytes-byte (load_sections m ss) s.address 0 i s.bytes lt (omega arith),
      λ b other.
          ap (λ (n : Memory). n b) all
          ∙ load_bytes-frame (load_sections m ss) s.address 0 s.bytes b
              λ i le lt. other i (omega arith),
    )

module _ {R : Type 0} where
  -- `Reset` forgets everything but the program: two contexts with the same program, or both without
  -- one, are the same after a reset, whatever ran before.
  pub reset_context-forgets :
      (c d : ExecutionContext R)
      → c.has_program ≡ d.has_program
      → c.program ≡ d.program
      → reset_context c ≡ reset_context d
  unfolding reset_context
  reset_context-forgets c d has same = rw (has, same) refl
