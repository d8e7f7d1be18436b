-- ===== src/Emulator/Record/RoundTrip.antt =====
-- The JSON line of a whole trace record (src/emulator/minst_record.cpp), read back.
use linx_model.Base.{
  ℕ, suc, ◌-◌, ◌*◌, ◌^◌, ◌%◌, ◌/◌, ◌≤◌, ◌≡◌, ◌∙◌, refl, ap, true, Option, none, some, List, [], ◌∷◌,
  ◌++◌, append_assoc, drop, arith,
}
use linx_model.Base.Text.{Bytes, codes}
use linx_model.Isa.Desc.{Tables}
use linx_model.Isa.Asm.{AsmReplacement}
use linx_model.Isa.Disasm.{DecodeCandidate, decode_best}
use linx_model.Isa.Disasm.Text.{
  LineText, two_digits, hex_bytes, decoded_text, byte_text, decode_line_text,
}
use linx_model.Emulator.Record.{MinstRecord}
use linx_model.Emulator.Record.Json.{
  JsonField, text, write_json_field, write_json_fields, MinstRecordDecoration, json_fields,
  write_record, bytes_for_len, unpack_from, unpack_bytes, decode_record_line, decorate_minst_record,
  write_minst_record_json, decoration,
}
use linx_model.Emulator.Record.Read.{are_plain, read_object, read_object-braced}

abbrev pub schema : JsonField
schema = (codes "schema_version", text (codes "1.0"))

json_fields-plain :
    (d : MinstRecordDecoration) (r : MinstRecord) → are_plain (schema ∷ json_fields d r) ≡ true
unfolding json_fields
json_fields-plain d r = refl

-- The line after its brace, which reads as if it were a comma.
abbrev opening : Bytes
opening = drop 1 (codes "{\"schema_version\":\"1.0\"")

-- The line of a record reads back as its fields, before any text.
pub read_object-write_record :
    (d : MinstRecordDecoration) (r : MinstRecord) (end : Bytes)
    → read_object (write_record d r ++ end) ≡ some (schema ∷ json_fields d r, end)
unfolding write_record write_json_fields write_json_field
read_object-write_record d r end =
    read_object-braced (drop 1 (write_record d r ++ end)) end (schema ∷ json_fields d r)
      (ap (λ (x : Bytes). b',' ∷ (opening ++ x))
        (append_assoc (write_json_fields (json_fields d r)) (b'}' ∷ []) end))
      (json_fields-plain d r)

bytes_for_len-some :
    (len : ℕ) → len % 8 ≡ 0 → 16 ≤ len → len ≤ 64 → bytes_for_len len ≡ some (len / 8)
unfolding bytes_for_len
bytes_for_len-some len whole low high = ground (arith, whole, low, high)

module _ (sort : List AsmReplacement → List AsmReplacement) (t : Tables) where
  decode_line_text-some :
      (b : ℕ) (bytes : List ℕ)
      → (line : LineText) × (decode_line_text sort t (b ∷ bytes) ≡ some line)
  unfolding decode_line_text
  decode_line_text-some b bytes = go (decode_best t (b ∷ bytes))
    where
      go :
          (o : Option DecodeCandidate)
          → (line : LineText) × ((elim o [
            | none ↦ byte_text sort t (b ∷ bytes)
            | some decoded ↦ some (decoded_text sort t (b ∷ bytes) decoded)
          ])
              ≡ some line)
      go none =
          (record { bytes_hex = hex_bytes (b ∷ []); text = codes ".byte 0x" ++ two_digits b }, refl)
      go (some decoded) = (decoded_text sort t (b ∷ bytes) decoded, refl)

  unpack_bytes-some :
      (r : MinstRecord)
      → r.len % 8 ≡ 0
      → 16 ≤ r.len
      → r.len ≤ 64
      → (b : ℕ) × (bytes : List ℕ) × (unpack_bytes r ≡ some (b ∷ bytes))
  unfolding unpack_bytes unpack_from
  unpack_bytes-some r whole low high =
      let size : r.len / 8 ≡ suc (r.len / 8 - 1) = omega (arith, low) in
      let first = bytes_for_len-some r.len whole low high ∙ ap some size in
      (
        r.insn / 2 ^ (0 * 8) % 2 ^ 8,
        unpack_from r.insn 1 (r.len / 8 - 1),
        ap
            (λ (o : Option ℕ). elim o as (λ x. Option (List ℕ)) [
              | none ↦ none
              | some size_bytes ↦ some (unpack_from r.insn 0 size_bytes)
            ])
            first,
      )

  -- A record whose length is a number of bytes from 2 to 8 decodes to a line.
  pub decorate-some :
      (r : MinstRecord)
      → r.len % 8 ≡ 0
      → 16 ≤ r.len
      → r.len ≤ 64
      → (d : MinstRecordDecoration) × (decorate_minst_record sort t r ≡ some d)
  unfolding decorate_minst_record decode_record_line
  decorate-some r whole low high =
      let (b, bytes, unpacked) = unpack_bytes-some r whole low high in
      let (line, decoded) = decode_line_text-some b bytes in
      let of_line : decode_record_line sort t r ≡ some line =
        ap
          (λ (o : Option (List ℕ)). elim o as (λ x. Option LineText) [
            | none ↦ none
            | some bs ↦ decode_line_text sort t bs
          ])
          unpacked
        ∙ decoded in
      (
        decoration sort t r line,
        ap
            (λ (o : Option LineText). elim o as (λ x. Option MinstRecordDecoration) [
              | none ↦ none
              | some l ↦ some (decoration sort t r l)
            ])
            of_line,
      )

  pub write_minst_record_json-some :
      (r : MinstRecord) (d : MinstRecordDecoration)
      → decorate_minst_record sort t r ≡ some d
      → write_minst_record_json sort t r ≡ some (write_record d r)
  unfolding write_minst_record_json
  write_minst_record_json-some r d decorated =
      ap
        (λ (o : Option MinstRecordDecoration). elim o as (λ x. Option Bytes) [
          | none ↦ none
          | some e ↦ some (write_record e r)
        ])
        decorated

  -- The JSON line of a record whose length is a number of bytes from 2 to 8 is written, and reads
  -- back, before any text, as the fields of the record, in order, with every text unescaped.
  pub read_object-write :
      (r : MinstRecord)
      → r.len % 8 ≡ 0
      → 16 ≤ r.len
      → r.len ≤ 64
      → (d : MinstRecordDecoration) × (bytes : Bytes) × (decorate_minst_record sort t r ≡ some d)
        × (write_minst_record_json sort t r ≡ some bytes)
        × ((end : Bytes) → read_object (bytes ++ end) ≡ some (schema ∷ json_fields d r, end))
  read_object-write r whole low high =
      let (d, decorated) = decorate-some r whole low high in
      (
        d,
        write_record d r,
        decorated,
        write_minst_record_json-some r d decorated,
        λ end. read_object-write_record d r end,
      )
