-- ===== src/Elf/Safety.antt =====
-- When the loader of src/elf_loader.cpp stays inside the file's bytes.
use Prim.Native.Nat.{bit_and}
use Prim.Native.String.{String}
use linx_model.Base.{
  ℕ, zero, suc, ◌+◌, ◌*◌, ◌%◌, ◌^◌, ◌≤◌, ◌<◌, ◌≡◌, ◌≢◌, not, ◌||◌, List, [], ◌∷◌, ◌==◌, length,
  arith, subst, sym,
}
use linx_model.Elf.{returns, undefined, payload, narrow_cast}
use linx_model.Elf.Headers.{
  ElfHeader, SectionHeader, ProgramHeader, read_header, table_entry, read_section_header,
  read_program_header,
}
use linx_model.Elf.Load.{
  section_bytes, load_segment, load_segments, load_section, load_sections, load_relocatable,
  load_executable, load_elf_image,
}
use linx_model.Elf.Reads.{
  Defined, Defined->>=, Defined-if, payload-Defined, read_header-Defined, table_entry-Defined,
  table_entry-Inside, table_entry-at, read_program_header-Defined, read_section_header-Defined,
}

-- No table entry and no range that the file's headers name wraps around the 64-bit `size_t`.
pub record IsTame (bytes : List ℕ) (path : String) : Type 0 where
  pub small : length bytes + 64 < 2 ^ 64
  pub program_table :
      (h : ElfHeader) (index : ℕ)
      → read_header bytes path ≡ returns h
      → index < h.phnum
      → (h.phoff + index * h.phentsize) % 2 ^ 64 + h.phentsize < 2 ^ 64
  pub section_table :
      (h : ElfHeader) (index : ℕ)
      → read_header bytes path ≡ returns h
      → index < h.shnum
      → (h.shoff + index * h.shentsize) % 2 ^ 64 + h.shentsize < 2 ^ 64
  pub segments :
      (h : ElfHeader) (index : ℕ) (p : ProgramHeader)
      → read_header bytes path ≡ returns h
      → index < h.phnum
      → read_program_header h.is_64 bytes ((h.phoff + index * h.phentsize) % 2 ^ 64) ≡ returns p
      → p.file_offset + p.file_size < 2 ^ 64
  pub sections :
      (h : ElfHeader) (index : ℕ) (s : SectionHeader)
      → read_header bytes path ≡ returns h
      → index < h.shnum
      → read_section_header h.is_64 bytes ((h.shoff + index * h.shentsize) % 2 ^ 64) ≡ returns s
      → s.file_offset + s.file_size < 2 ^ 64

module _ (to_string : ℕ → String) (bytes : List ℕ) (path : String) (tame : IsTame bytes path) where
  fits : length bytes < 2 ^ 64
  fits = omega (arith, tame.small)

  load_segment-Defined :
      (index : ℕ) (p : ProgramHeader)
      → p.file_offset + p.file_size < 2 ^ 64
      → Defined (load_segment to_string bytes index p)
  unfolding load_segment
  load_segment-Defined index p h =
      Defined-if (not (p.type_value == 1) || p.file_size == 0) _ _ (λ e. tt)
        λ e.
          Defined->>= (payload _ bytes p.file_offset p.file_size) _
            (payload-Defined bytes fits _ p.file_offset p.file_size h) λ c e. tt

  load_segments-Defined :
      (h : ElfHeader) (index n : ℕ)
      → read_header bytes path ≡ returns h
      → index + n ≤ h.phnum
      → Defined (load_segments to_string bytes h index n)
  unfolding load_segments
  load_segments-Defined h index zero e le = tt
  load_segments-Defined h index (suc n) e le =
      Defined->>= (table_entry _ bytes h.phoff h.phentsize index) _
        (table_entry-Defined bytes fits _ h.phoff h.phentsize index)
        λ offset at.
          let inside =
            table_entry-Inside bytes fits _ h.phoff h.phentsize index offset
              (tame.program_table h index e (omega arith)) at in
          let offset_at = table_entry-at bytes _ h.phoff h.phentsize index offset at in
          Defined->>= (read_program_header h.is_64 bytes offset) _
            (read_program_header-Defined bytes fits h.is_64 offset
              (omega (arith, inside, tame.small)))
            λ p got.
              Defined->>= (load_segment to_string bytes index p) _
                (load_segment-Defined index p
                  (tame.segments h index p e (omega arith) (rw (sym offset_at) got)))
                λ segment e'.
                  Defined->>= (load_segments to_string bytes h (suc index) n) _
                    (load_segments-Defined h (suc index) n e (omega arith)) λ rest e'. tt

  section_bytes-Defined :
      (s : SectionHeader)
      → s.file_offset + s.file_size < 2 ^ 64
      → Defined (section_bytes to_string bytes s)
  unfolding narrow_cast
  section_bytes-Defined s h =
      Defined-if (s.type_value == 8) _ _ (λ e. ground arith)
        λ e. payload-Defined bytes fits _ s.file_offset s.file_size h

  load_section-Defined :
      (index next : ℕ) (s : SectionHeader)
      → s.file_offset + s.file_size < 2 ^ 64
      → Defined (load_section to_string bytes index next s)
  unfolding load_section
  load_section-Defined index next s h =
      Defined-if (bit_and s.flags 2 == 0 || s.file_size == 0) _ _ (λ e. tt)
        λ e. Defined->>= (section_bytes to_string bytes s) _ (section_bytes-Defined s h) λ c e. tt

  load_sections-Defined :
      (h : ElfHeader) (next index n : ℕ)
      → read_header bytes path ≡ returns h
      → index + n ≤ h.shnum
      → Defined (load_sections to_string bytes h next index n)
  unfolding load_sections
  load_sections-Defined h next index zero e le = tt
  load_sections-Defined h next index (suc n) e le =
      Defined->>= (table_entry _ bytes h.shoff h.shentsize index) _
        (table_entry-Defined bytes fits _ h.shoff h.shentsize index)
        λ offset at.
          let inside =
            table_entry-Inside bytes fits _ h.shoff h.shentsize index offset
              (tame.section_table h index e (omega arith)) at in
          let offset_at = table_entry-at bytes _ h.shoff h.shentsize index offset at in
          Defined->>= (read_section_header h.is_64 bytes offset) _
            (read_section_header-Defined bytes fits h.is_64 offset
              (omega (arith, inside, tame.small)))
            λ s got.
              Defined->>= (load_section to_string bytes index next s) _
                (load_section-Defined index next s
                  (tame.sections h index s e (omega arith) (rw (sym offset_at) got)))
                λ r e'.
                  Defined->>= (load_sections to_string bytes h r.1 (suc index) n) _
                    (load_sections-Defined h r.1 (suc index) n e (omega arith)) λ rest e'. tt

  load_image-Defined : Defined (load_elf_image to_string bytes path)
  unfolding load_elf_image load_relocatable load_executable
  load_image-Defined =
      Defined->>= (read_header bytes path) _ (read_header-Defined bytes fits path) λ h e.
        Defined-if (h.type == 1) _ _
          (λ rel.
            Defined-if (h.shentsize == 0 || h.shnum == 0) _ _ (λ e'. tt)
              λ e'.
                Defined->>= (load_sections to_string bytes h 0 0 h.shnum) _
                  (load_sections-Defined h 0 0 h.shnum e (omega arith))
                  elim [ [] ↦ λ e'. tt | s ∷ ss ↦ λ e'. tt ])
          (λ exec.
            Defined-if (h.phentsize == 0 || h.phnum == 0) _ _ (λ e'. tt)
              λ e'.
                Defined->>= (load_segments to_string bytes h 0 h.phnum) _
                  (load_segments-Defined h 0 h.phnum e (omega arith))
                  elim [ [] ↦ λ e'. tt | s ∷ ss ↦ λ e'. tt ])

  -- On a file none of whose table entries, segments and sections wraps around the 64-bit
  -- `size_t`, the loader never reads past the end of the file: it returns an image or throws.
  pub load_elf_image-inside : load_elf_image to_string bytes path ≢ undefined
  load_elf_image-inside e = subst Defined e load_image-Defined
