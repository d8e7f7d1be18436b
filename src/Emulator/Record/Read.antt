-- ===== src/Emulator/Record/Read.antt =====
-- The JSON line of a trace record (src/emulator/minst_record.cpp), read back.
use linx_model.Base.{
  ℕ, zero, suc, ◌≤◌, ◌<◌, ◌≡◌, ◌∙◌, refl, ap, sym, Bool, true, false, not, ◌||◌, ◌&&◌, Option, none,
  some, List, [], ◌∷◌, ◌++◌, ◌==◌, ◌>>=◌, append_assoc, append-nil, arith, length, length-append,
  if◌then◌else◌,
}
use linx_model.Base.Int.{ℤ, pos, negsuc}
use linx_model.Base.Text.{
  Bytes, is_digit, decimal, decimal_ℤ, read_digits, read_digits-decimal, decimal-head,
}
use linx_model.Emulator.Record.Json.{
  JsonValue, JsonField, number, text, escape_char, json_escape, write_json_field, write_json_fields,
}

-- The byte that an escaped one stands for.
abbrev unescape : ℕ → ℕ
unescape c = if c == b'n' then b'\n' else c

-- A text up to its closing quote, after the bytes read so far.
unfoldable pub read_text : Bytes → Bool → Bytes → Option (Bytes × Bytes)
read_text done escaped [] = none
read_text done true (c ∷ cs) = read_text (done ++ unescape c ∷ []) false cs
read_text done false (c ∷ cs) = elim (c == b'"') [
  | true ↦ some (done, cs)
  | false ↦ elim (c == b'\\') [
    | true ↦ read_text done true cs
    | false ↦ read_text (done ++ c ∷ []) false cs
  ]
]

abbrev negate : ℕ → ℤ
negate zero = pos 0
negate (suc n) = negsuc n

abbrev as_number : (ℕ → ℤ) → ℕ × Bytes → JsonValue × Bytes
as_number f (n, rest) = (number (f n), rest)

abbrev as_text : Bytes × Bytes → JsonValue × Bytes
as_text (value, rest) = (text value, rest)

unfoldable pub read_value : Bytes → Option (JsonValue × Bytes)
unfolding read_text read_digits
read_value [] = none
read_value (c ∷ cs) = elim (c == b'"') [
  | true ↦ do t ← read_text [] false cs; some (as_text t)
  | false ↦ elim (c == b'-') [
    | true ↦ some (as_number negate (read_digits 0 cs))
    | false ↦ some (as_number (λ n. pos n) (read_digits 0 (c ∷ cs)))
  ]
]

abbrev pub skip : ℕ → Bytes → Option Bytes
skip d [] = none
skip d (c ∷ cs) = if c == d then some cs else none

-- A key and its value, after the comma.
unfoldable pub read_field : Bytes → Option (JsonField × Bytes)
unfolding read_value read_text
read_field cs = do
  opened ← skip b'"' cs
  (key, rest) ← read_text [] false opened
  value_at ← skip b':' rest
  (value, rest') ← read_value value_at
  some ((key, value), rest')

-- The fields up to the closing brace, each after a comma, on fuel.
unfoldable pub read_fields : ℕ → Bytes → Option (List JsonField × Bytes)
unfolding read_field
read_fields zero cs = none
read_fields (suc fuel) [] = none
read_fields (suc fuel) (c ∷ cs) = elim (c == b'}') [
  | true ↦ some ([], cs)
  | false ↦ do
    comma ← skip b',' (c ∷ cs)
    (field, rest) ← read_field comma
    (fields, rest') ← read_fields fuel rest
    some (field ∷ fields, rest')
]

-- An object; each of its fields takes a byte at least.
unfoldable pub read_object : Bytes → Option (List JsonField × Bytes)
unfolding read_fields
read_object cs = do opened ← skip b'{' cs; read_fields (suc (length cs)) (b',' ∷ opened)

read_text-char :
    (done : Bytes) (c : ℕ) (rest : Bytes)
    → read_text done false (escape_char c ++ rest) ≡ read_text (done ++ c ∷ []) false rest
unfolding read_text escape_char
read_text-char done c rest = ground arith

-- An escaped text reads back, up to the quote that follows it.
read_text-json_escape :
    (done value rest : Bytes)
    → read_text done false (json_escape value ++ b'"' ∷ rest) ≡ some (done ++ value, rest)
unfolding json_escape read_text
read_text-json_escape done [] rest = rw (append-nil done) refl
read_text-json_escape done (c ∷ value) rest =
    rw (append_assoc (escape_char c) (json_escape value) (b'"' ∷ rest)) (
      read_text-char done c (json_escape value ++ b'"' ∷ rest)
      ∙ read_text-json_escape (done ++ c ∷ []) value rest
      ∙ rw (append_assoc done (c ∷ []) value) refl)

abbrev pub is_plain : Bytes → Bool
is_plain [] = true
is_plain (c ∷ cs) = not (c == b'"' || c == b'\\') && is_plain cs

read_text-one :
    (done : Bytes) (c : ℕ) (rest : Bytes)
    → (c == b'"' || c == b'\\') ≡ false
    → read_text done false (c ∷ rest) ≡ read_text (done ++ c ∷ []) false rest
unfolding read_text
read_text-one done c rest plain = ground (arith, plain)

read_text-plain :
    (done key rest : Bytes)
    → is_plain key ≡ true
    → read_text done false (key ++ b'"' ∷ rest) ≡ some (done ++ key, rest)
unfolding read_text
read_text-plain done [] rest plain = rw (append-nil done) refl
read_text-plain done (c ∷ key) rest plain =
    read_text-one done c (key ++ b'"' ∷ rest) (ground (arith, plain))
    ∙ read_text-plain (done ++ c ∷ []) key rest (ground (arith, plain))
    ∙ rw (append_assoc done (c ∷ []) key) refl

-- What follows the key.
abbrev value_bytes : JsonValue → Bytes
value_bytes (number value) = decimal_ℤ value
value_bytes (text value) = b'"' ∷ (json_escape value ++ (b'"' ∷ []))

read_value-digit :
    (d : ℕ) (ds : Bytes)
    → is_digit d ≡ true
    → read_value (d ∷ ds) ≡ some (as_number (λ n. pos n) (read_digits 0 (d ∷ ds)))
unfolding read_value
read_value-digit d ds is = ground (arith, is)

read_value-decimal :
    (n c : ℕ) (rest : Bytes)
    → is_digit c ≡ false
    → read_value (decimal n ++ c ∷ rest) ≡ some (number (pos n), c ∷ rest)
read_value-decimal n c rest stop =
    let (d, ds, e, is) = decimal-head n in
    let front : decimal n ++ c ∷ rest ≡ d ∷ (ds ++ c ∷ rest) =
      ap (λ (x : Bytes). x ++ c ∷ rest) e in
    ap read_value front
    ∙ read_value-digit d (ds ++ c ∷ rest) is
    ∙ ap (λ (x : Bytes). some (as_number (λ n. pos n) (read_digits 0 x))) (sym front)
    ∙ ap (λ (x : ℕ × Bytes). some (as_number (λ n. pos n) x)) (read_digits-decimal n c rest stop)

read_value-value_bytes :
    (v : JsonValue) (c : ℕ) (rest : Bytes)
    → is_digit c ≡ false
    → read_value (value_bytes v ++ c ∷ rest) ≡ some (v, c ∷ rest)
unfolding decimal_ℤ read_value
read_value-value_bytes (number (pos n)) c rest stop = read_value-decimal n c rest stop
read_value-value_bytes (number (negsuc n)) c rest stop =
    ap (λ (x : ℕ × Bytes). some (as_number negate x)) (read_digits-decimal (suc n) c rest stop)
read_value-value_bytes (text value) c rest stop =
    rw (append_assoc (json_escape value) (b'"' ∷ []) (c ∷ rest)) (
      ap (λ (o : Option (Bytes × Bytes)). o >>= λ t. some (as_text t))
        (read_text-json_escape [] value (c ∷ rest)))

write_json_field-bytes :
    (key : Bytes) (v : JsonValue) (rest : Bytes)
    → write_json_field (key, v) ++ rest
      ≡ b',' ∷ b'"' ∷ (key ++ (b'"' ∷ b':' ∷ (value_bytes v ++ rest)))
unfolding write_json_field
write_json_field-bytes key (number value) rest =
    rw (append_assoc key (b'"' ∷ b':' ∷ []) (decimal_ℤ value))
      (rw (append_assoc key (b'"' ∷ b':' ∷ decimal_ℤ value) rest) refl)
write_json_field-bytes key (text value) rest =
    let v : Bytes = b'"' ∷ (json_escape value ++ (b'"' ∷ [])) in
    rw (append_assoc key (b'"' ∷ b':' ∷ []) v) (rw (append_assoc key (b'"' ∷ b':' ∷ v) rest) refl)

-- A field that was written reads back, before a comma or a brace.
read_field-write :
    (key : Bytes) (v : JsonValue) (c : ℕ) (rest : Bytes)
    → is_plain key ≡ true
    → is_digit c ≡ false
    → read_field (b'"' ∷ (key ++ (b'"' ∷ b':' ∷ (value_bytes v ++ c ∷ rest))))
      ≡ some ((key, v), c ∷ rest)
unfolding read_field
read_field-write key v c rest plain stop =
    rw
      (
        read_text-plain [] key (b':' ∷ (value_bytes v ++ c ∷ rest)) plain,
        read_value-value_bytes v c rest stop,
      )
      refl

abbrev pub are_plain : List JsonField → Bool
are_plain [] = true
are_plain ((key, v) ∷ fields) = is_plain key && are_plain fields

-- What stands after a field is no digit.
write_json_fields-head :
    (fields : List JsonField) (end : Bytes)
    → (c : ℕ) × (rest : Bytes) × (write_json_fields fields ++ b'}' ∷ end ≡ c ∷ rest)
      × (is_digit c ≡ false)
unfolding write_json_fields
write_json_fields-head [] end = (b'}', end, refl, refl)
write_json_fields-head ((key, v) ∷ fields) end = (
  b',',
  _,
  append_assoc (write_json_field (key, v)) (write_json_fields fields) (b'}' ∷ end)
      ∙ write_json_field-bytes key v (write_json_fields fields ++ b'}' ∷ end),
  refl,
)

read_fields-comma :
    (fuel : ℕ) (cs : Bytes) (field : JsonField) (rest rest' : Bytes) (fields : List JsonField)
    → read_field cs ≡ some (field, rest)
    → read_fields fuel rest ≡ some (fields, rest')
    → read_fields (suc fuel) (b',' ∷ cs) ≡ some (field ∷ fields, rest')
unfolding read_fields
read_fields-comma fuel cs field rest rest' fields first more = rw (first, more) refl

read_fields-write :
    (fields : List JsonField) (fuel : ℕ) (end : Bytes)
    → are_plain fields ≡ true
    → length fields < fuel
    → read_fields fuel (write_json_fields fields ++ b'}' ∷ end) ≡ some (fields, end)
unfolding read_fields write_json_fields
read_fields-write fields zero end plain enough = absurd (omega arith)
read_fields-write [] (suc fuel) end plain enough = refl
read_fields-write ((key, v) ∷ fields) (suc fuel) end plain enough =
    let (c, rest, tail, stop) = write_json_fields-head fields end in
    let more = read_fields-write fields fuel end (ground (arith, plain)) (omega (arith, enough)) in
    let first = read_field-write key v c rest (ground (arith, plain)) stop in
    let whole =
      append_assoc (write_json_field (key, v)) (write_json_fields fields) (b'}' ∷ end)
      ∙ write_json_field-bytes key v (write_json_fields fields ++ b'}' ∷ end)
      ∙ ap (λ (x : Bytes). b',' ∷ b'"' ∷ (key ++ (b'"' ∷ b':' ∷ (value_bytes v ++ x)))) tail in
    ap (read_fields (suc fuel)) whole
    ∙ read_fields-comma fuel (b'"' ∷ (key ++ (b'"' ∷ b':' ∷ (value_bytes v ++ c ∷ rest)))) (key, v)
        (c ∷ rest) end fields first (ap (read_fields fuel) (sym tail) ∙ more)

length-write_json_fields :
    (fields : List JsonField) → length fields ≤ length (write_json_fields fields)
unfolding write_json_fields
length-write_json_fields [] = omega arith
length-write_json_fields ((key, v) ∷ fields) =
    let rest = length-write_json_fields fields in
    let whole = ap length (write_json_field-bytes key v (write_json_fields fields)) in
    omega (
      arith,
      rest,
      whole,
      length-append {0} key (b'"' ∷ b':' ∷ (value_bytes v ++ write_json_fields fields)),
      length-append {0} (value_bytes v) (write_json_fields fields),
    )

-- An object of written fields reads back; it starts with a brace where a field starts with a comma.
pub read_object-braced :
    (tail end : Bytes) (fields : List JsonField)
    → b',' ∷ tail ≡ write_json_fields fields ++ b'}' ∷ end
    → are_plain fields ≡ true
    → read_object (b'{' ∷ tail) ≡ some (fields, end)
unfolding read_object
read_object-braced tail end fields e plain =
    let fits = length-write_json_fields fields in
    let size = ap length e in
    ap (read_fields (suc (length (b'{' ∷ tail)))) e
    ∙ read_fields-write fields (suc (length (b'{' ∷ tail))) end plain
        (omega (arith, fits, size, length-append {0} (write_json_fields fields) (b'}' ∷ end)))
