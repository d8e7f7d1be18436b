-- ===== src/Elf/Accept.antt =====
-- What the images that src/elf_loader.cpp returns hold.
use Prim.Native.Nat.{bit_and}
use Prim.Native.String.{String}
use linx_model.Base.{
  ℕ, zero, suc, ◌+◌, ◌*◌, ◌%◌, ◌^◌, ◌≤◌, ◌<◌, ◌≡◌, ◌↔◌, ◌⊎◌, refl, sym, ap, ◌∙◌, Bool, true, false,
  not, ◌||◌, ◌&&◌, Option, none, some, List, [], ◌∷◌, ◌==◌, if◌then◌else◌, length, take, drop,
  arith, inl, inr, Bool-cases,
}
use linx_model.Emulator.Context.{ProgramSection}
use linx_model.Elf.{
  LoadError, truncated_program_headers, segment_exceeds_file, returns, throws, ◌>>=◌,
  >>=-eq-returns, exceeds, narrow_cast, copy_range, payload,
}
use linx_model.Elf.Headers.{ElfHeader, ProgramHeader, table_entry, read_program_header}
use linx_model.Elf.Reads.{table_entry-at}
use linx_model.Elf.Load.{segment_name, load_segment, load_segments}

-- A range of the file that is returned lies in the file.
pub payload-Range :
    (error : LoadError) (bytes : List ℕ) (offset size : ℕ) (contents : List ℕ)
    → payload error bytes offset size ≡ returns contents
    → (contents ≡ take size (drop offset bytes)) × (offset + size ≤ length bytes)
unfolding payload narrow_cast exceeds copy_range
payload-Range error bytes offset size contents e = ground arith

pub returns-inj {ℓ} : {A : Type ℓ} {a b : A} → returns a ≡ returns b → a ≡ b
returns-inj e = cc

module _ (to_string : ℕ → String) (bytes : List ℕ) where
  -- Whether a program header asks for a segment, and that segment.
  abbrev pub is_wanted : ProgramHeader → Bool
  is_wanted p = p.type_value == 1 && not (p.file_size == 0)

  abbrev pub segment_of : ℕ → ProgramHeader → ProgramSection
  segment_of index p = record {
    name = segment_name to_string index (not (bit_and p.flags 1 == 0));
    address = p.virtual_address;
    bytes = take p.file_size (drop p.file_offset bytes);
    executable = not (bit_and p.flags 1 == 0);
  }

  -- The reference: the loadable headers' segments, in the order of the table.
  abbrev pub segments_of : ℕ → List ProgramHeader → List ProgramSection
  segments_of index [] = []
  segments_of index (p ∷ ps) =
      if is_wanted p
      then segment_of index p ∷ segments_of (suc index) ps
      else segments_of (suc index) ps

  -- The headers of the table from `index` on, each one read from its place in the file, and each
  -- range they ask for a range of the file.
  pub data Table (h : ElfHeader) : ℕ → List ProgramHeader → Type 0 where
    done : {index : ℕ} → Table h index []
    next :
        {index : ℕ} {p : ProgramHeader} {ps : List ProgramHeader}
        → read_program_header h.is_64 bytes ((h.phoff + index * h.phentsize) % 2 ^ 64) ≡ returns p
        → (is_wanted p ≡ false) ⊎ (p.file_offset + p.file_size ≤ length bytes)
        → Table h (suc index) ps
        → Table h index (p ∷ ps)

  abbrev segment_with : ℕ → ProgramHeader → List ℕ → Option ProgramSection
  segment_with index p contents = some (record (segment_of index p) { bytes = contents })

  load_segment-wanted :
      (index : ℕ) (p : ProgramHeader)
      → is_wanted p ≡ true
      → load_segment to_string bytes index p ≡ (
          payload segment_exceeds_file bytes p.file_offset p.file_size >>= λ c.
          returns (segment_with index p c))
  unfolding load_segment
  load_segment-wanted index p wanted =
      let kept : (not (p.type_value == 1) || p.file_size == 0) ≡ false = ground (arith, wanted) in
      rw kept refl

  load_segment-skipped :
      (index : ℕ) (p : ProgramHeader)
      → is_wanted p ≡ false
      → load_segment to_string bytes index p ≡ returns none
  unfolding load_segment
  load_segment-skipped index p skipped =
      let passed : (not (p.type_value == 1) || p.file_size == 0) ≡ true = ground (arith, skipped) in
      rw passed refl

  load_segment-eq :
      (index : ℕ) (p : ProgramHeader) (o : Option ProgramSection)
      → load_segment to_string bytes index p ≡ returns o
      → ((is_wanted p ≡ false) × (o ≡ none))
        ⊎ ((is_wanted p ≡ true)
            × (o ≡ some (segment_of index p))
            × (p.file_offset + p.file_size ≤ length bytes))
  load_segment-eq index p o e = elim (Bool-cases (is_wanted p)) [
    | inr skipped ↦ inl (skipped, returns-inj (sym e ∙ load_segment-skipped index p skipped))
    | inl wanted ↦
        let (c, got, last) = >>=-eq-returns _ _ (sym (load_segment-wanted index p wanted) ∙ e) in
        let (eq, inside) = payload-Range _ bytes p.file_offset p.file_size c got in
        inr (wanted, sym (returns-inj last) ∙ ap (segment_with index p) eq, inside)
  ]

  -- Where the loop over the program headers returns, the sections are exactly the non-empty
  -- loadable segments of the table, in its order, each with its address, its bytes of the file
  -- and its execute flag, and none of them reaches past the end of the file.
  pub load_segments-Table :
      (h : ElfHeader) (index n : ℕ) (sections : List ProgramSection)
      → load_segments to_string bytes h index n ≡ returns sections
      → (ps : List ProgramHeader) × Table h index ps
        × (length ps ≡ n)
        × (sections ≡ segments_of index ps)
  unfolding load_segments
  load_segments-Table h index zero sections e = ([], done, refl, sym (returns-inj e))
  load_segments-Table h index (suc n) sections e =
      let (offset, at, e) =
        >>=-eq-returns (table_entry truncated_program_headers bytes h.phoff h.phentsize index) _
          e in
      let (p, got, e) = >>=-eq-returns (read_program_header h.is_64 bytes offset) _ e in
      let (o, loaded, e) = >>=-eq-returns (load_segment to_string bytes index p) _ e in
      let (rest, more, e) = >>=-eq-returns (load_segments to_string bytes h (suc index) n) _ e in
      let (ps, table, count, same) = load_segments-Table h (suc index) n rest more in
      let place : ℕ = (h.phoff + index * h.phentsize) % 2 ^ 64 in
      let here : read_program_header h.is_64 bytes place ≡ returns p =
        ap (read_program_header h.is_64 bytes)
          (sym (table_entry-at bytes _ h.phoff h.phentsize index offset at))
        ∙ got in
      elim (load_segment-eq index p o loaded) [
        | inl (skipped, eq) ↦ (
          p ∷ ps,
          next here (inl skipped) table,
          ap suc count,
          ground (arith, skipped, eq, sym (returns-inj e), same),
        )
        | inr (wanted, eq, inside) ↦ (
          p ∷ ps,
          next here (inr inside) table,
          ap suc count,
          ground (arith, wanted, eq, sym (returns-inj e), same),
        )
      ]

  -- With the file's bytes and its range below 2^64, a program header's segment throws exactly
  -- where it is loadable, not empty and reaches past the end of the file; otherwise it is passed
  -- over or loaded.
  pub load_segment-errors :
      (index : ℕ) (p : ProgramHeader)
      → p.file_offset + p.file_size < 2 ^ 64
      → ((load_segment to_string bytes index p ≡ throws segment_exceeds_file)
          ↔ ((is_wanted p ≡ true) × (length bytes < p.file_offset + p.file_size)))
        × ((load_segment to_string bytes index p ≡ returns none) ↔ (is_wanted p ≡ false))
        × ((load_segment to_string bytes index p ≡ returns (some (segment_of index p)))
            ↔ ((is_wanted p ≡ true) × (p.file_offset + p.file_size ≤ length bytes)))
  unfolding payload narrow_cast exceeds copy_range
  load_segment-errors index p h = elim (Bool-cases (is_wanted p)) [
    | inr skipped ↦ ground (arith, load_segment-skipped index p skipped, skipped)
    | inl wanted ↦ ground (arith, load_segment-wanted index p wanted, wanted)
  ]
