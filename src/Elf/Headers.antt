-- ===== src/Elf/Headers.antt =====
-- The headers of src/elf_loader.cpp: the file's, the sections' and the segments'.
use Prim.Native.String.{String}
use linx_model.Base.{
  ℕ, ◌+◌, ◌*◌, ◌%◌, ◌^◌, Bool, true, false, not, ◌&&◌, List, ◌==◌, ltb, if◌then◌else◌, length,
}
use linx_model.Elf.{
  LoadError, truncated_ident, unsupported_class, not_little_endian, unsupported_type,
  truncated_elf64_header, truncated_elf32_header, not_an_elf_image, Outcome, returns, throws, ◌>>=◌,
  byte_at, exceeds, read_le16, read_le32, read_le64, narrow_cast, is_elf_image,
}

-- What the two branches on `is_64` read from the file's header.
pub record ElfHeader : Type 0 where
  pub is_64 : Bool
  pub type : ℕ
  pub entry_point : ℕ
  pub phoff : ℕ
  pub phentsize : ℕ
  pub phnum : ℕ
  pub shoff : ℕ
  pub shentsize : ℕ
  pub shnum : ℕ

pub record SectionHeader : Type 0 where
  pub type_value : ℕ
  pub flags : ℕ
  pub address : ℕ
  pub file_offset : ℕ
  pub file_size : ℕ

pub record ProgramHeader : Type 0 where
  pub type_value : ℕ
  pub flags : ℕ
  pub file_offset : ℕ
  pub virtual_address : ℕ
  pub file_size : ℕ

unfoldable pub read_header64 : List ℕ → ℕ → Outcome ElfHeader
unfolding read_le16 read_le64
read_header64 bytes type = if ltb (length bytes) 64 then throws truncated_elf64_header else do
  entry_point ← read_le64 bytes 24
  phoff ← read_le64 bytes 32
  shoff ← read_le64 bytes 40
  phentsize ← read_le16 bytes 54
  phnum ← read_le16 bytes 56
  shentsize ← read_le16 bytes 58
  shnum ← read_le16 bytes 60
  returns (record {
    is_64 = true;
    type = type;
    entry_point = entry_point;
    phoff = phoff;
    phentsize = phentsize;
    phnum = phnum;
    shoff = shoff;
    shentsize = shentsize;
    shnum = shnum;
  })

unfoldable pub read_header32 : List ℕ → ℕ → Outcome ElfHeader
unfolding read_le16 read_le32
read_header32 bytes type = if ltb (length bytes) 52 then throws truncated_elf32_header else do
  entry_point ← read_le32 bytes 24
  phoff ← read_le32 bytes 28
  shoff ← read_le32 bytes 32
  phentsize ← read_le16 bytes 42
  phnum ← read_le16 bytes 44
  shentsize ← read_le16 bytes 46
  shnum ← read_le16 bytes 48
  returns (record {
    is_64 = false;
    type = type;
    entry_point = entry_point;
    phoff = phoff;
    phentsize = phentsize;
    phnum = phnum;
    shoff = shoff;
    shentsize = shentsize;
    shnum = shnum;
  })

-- `LoadElfImageFromBytes` up to the tables.
unfoldable pub read_header : List ℕ → String → Outcome ElfHeader
unfolding is_elf_image byte_at read_le16 read_header64 read_header32
read_header bytes source_path =
    if not (is_elf_image bytes)
    then throws (not_an_elf_image source_path)
    else if ltb (length bytes) 16
    then throws truncated_ident
    else do
      class ← byte_at bytes 4
      if not (class == 1) && not (class == 2) then throws unsupported_class else do
        encoding ← byte_at bytes 5
        if not (encoding == 1) then throws not_little_endian else do
          type ← read_le16 bytes 16
          if not (type == 1) && not (type == 2) && not (type == 3)
              then throws unsupported_type
              else if class == 2
              then read_header64 bytes type
              else read_header32 bytes type

-- The offset of the entry at `index` of a table, compared to the file's size.
unfoldable pub table_entry : LoadError → List ℕ → ℕ → ℕ → ℕ → Outcome ℕ
unfolding narrow_cast exceeds
table_entry error bytes off entsize index = do
  offset ← narrow_cast ((off + index * entsize) % 2 ^ 64)
  if exceeds bytes offset entsize then throws error else returns offset

unfoldable pub read_section_header : Bool → List ℕ → ℕ → Outcome SectionHeader
unfolding read_le32 read_le64
read_section_header is_64 bytes offset =
    if is_64
    then (do
      type_value ← read_le32 bytes ((offset + 4) % 2 ^ 64)
      flags ← read_le64 bytes ((offset + 8) % 2 ^ 64)
      address ← read_le64 bytes ((offset + 16) % 2 ^ 64)
      file_offset ← read_le64 bytes ((offset + 24) % 2 ^ 64)
      file_size ← read_le64 bytes ((offset + 32) % 2 ^ 64)
      returns (record {
        type_value = type_value;
        flags = flags;
        address = address;
        file_offset = file_offset;
        file_size = file_size;
      }))
    else do
      type_value ← read_le32 bytes ((offset + 4) % 2 ^ 64)
      flags ← read_le32 bytes ((offset + 8) % 2 ^ 64)
      address ← read_le32 bytes ((offset + 12) % 2 ^ 64)
      file_offset ← read_le32 bytes ((offset + 16) % 2 ^ 64)
      file_size ← read_le32 bytes ((offset + 20) % 2 ^ 64)
      returns (record {
        type_value = type_value;
        flags = flags;
        address = address;
        file_offset = file_offset;
        file_size = file_size;
      })

unfoldable pub read_program_header : Bool → List ℕ → ℕ → Outcome ProgramHeader
unfolding read_le32 read_le64
read_program_header is_64 bytes offset =
    if is_64
    then (do
      type_value ← read_le32 bytes offset
      flags ← read_le32 bytes ((offset + 4) % 2 ^ 64)
      file_offset ← read_le64 bytes ((offset + 8) % 2 ^ 64)
      virtual_address ← read_le64 bytes ((offset + 16) % 2 ^ 64)
      file_size ← read_le64 bytes ((offset + 32) % 2 ^ 64)
      returns (record {
        type_value = type_value;
        flags = flags;
        file_offset = file_offset;
        virtual_address = virtual_address;
        file_size = file_size;
      }))
    else do
      type_value ← read_le32 bytes offset
      file_offset ← read_le32 bytes ((offset + 4) % 2 ^ 64)
      virtual_address ← read_le32 bytes ((offset + 8) % 2 ^ 64)
      file_size ← read_le32 bytes ((offset + 16) % 2 ^ 64)
      flags ← read_le32 bytes ((offset + 24) % 2 ^ 64)
      returns (record {
        type_value = type_value;
        flags = flags;
        file_offset = file_offset;
        virtual_address = virtual_address;
        file_size = file_size;
      })
