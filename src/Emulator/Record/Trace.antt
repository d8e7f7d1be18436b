-- ===== src/Emulator/Record/Trace.antt =====
-- The two trace files of src/emulator/execution_context.cpp, `SetTracePath` and what `AppendRecord`
-- writes to them: the JSON lines and the dumps. Whether a file opens is given, and a stream that is
-- open stays good. Two paths are two files. The directory that is made for them is left out.
use linx_model.Base.{
  ℕ, zero, suc, ◌+◌, ◌<◌, true, not, ◌||◌, take, drop, arith, ◌%◌, ◌≤◌, ◌≡◌, ◌∙◌, refl, ap, ap₂,
  Bool, false, Option, none, some, List, [], ◌∷◌, ◌++◌, ◌>>=◌, append_assoc, append-nil, length,
  if◌then◌else◌,
}
use linx_model.Base.Text.{Bytes}
use linx_model.Isa.Desc.{Tables}
use linx_model.Isa.Asm.{AsmReplacement, same_bytes}
use linx_model.Emulator.Record.Paths.{dump_path}
use linx_model.Emulator.Record.{MinstRecord}
use linx_model.Emulator.Record.Json.{
  JsonField, MinstRecordDecoration, json_fields, write_record, decorate_minst_record,
  write_minst_record_json, write_minst_record_dump,
}
use linx_model.Emulator.Record.Read.{read_object, skip}
use linx_model.Emulator.Record.RoundTrip.{
  schema, decorate-some, write_minst_record_json-some, read_object-write_record,
}

-- The contents of the files. Where both streams have one file, each writes at an offset of its own.
pub data TraceFiles : Type 0 where
  no_trace : TraceFiles
  separate : Bytes → Bytes → TraceFiles
  shared : Bytes → ℕ → ℕ → TraceFiles

-- `none` is a failed assertion that a file is open; opening a file empties it.
unfoldable pub set_trace_path : (Bytes → Bool) → Bytes → Option TraceFiles
unfolding dump_path
set_trace_path opens [] = some no_trace
set_trace_path opens (c ∷ cs) =
    let path : Bytes = c ∷ cs in
    if not (opens path) || not (opens (dump_path path))
    then none
    else if same_bytes path (dump_path path)
    then some (shared [] 0 0)
    else some (separate [] [])

abbrev pub append_line : Bytes → Bytes → Bytes
append_line line file = file ++ (line ++ b'\n' ∷ [])

-- A line at an offset, over what stands there.
abbrev pub write_line : ℕ → Bytes → Bytes → Bytes
write_line offset line file =
    take offset file ++ (line ++ b'\n' ∷ drop (offset + (length line + 1)) file)

module _ (sort : List AsmReplacement → List AsmReplacement) (t : Tables) where
  -- The text of a record is `none` where an assertion fails.
  unfoldable pub append_trace : MinstRecord → TraceFiles → Option TraceFiles
  unfolding write_minst_record_json write_minst_record_dump
  append_trace r no_trace = some no_trace
  append_trace r (separate jsonl dump) = do
    line ← write_minst_record_json sort t r
    text ← write_minst_record_dump sort t r
    some (separate (append_line line jsonl) (append_line text dump))
  append_trace r (shared file at_jsonl at_dump) = do
    line ← write_minst_record_json sort t r
    text ← write_minst_record_dump sort t r
    some (
        shared (write_line at_dump text (write_line at_jsonl line file))
          (at_jsonl + (length line + 1)) (at_dump + (length text + 1)))

  -- The calls of `AppendRecord` of a run, in order.
  unfoldable pub append_traces : List MinstRecord → TraceFiles → Option TraceFiles
  unfolding append_trace
  append_traces [] files = some files
  append_traces (r ∷ rs) files = do files' ← append_trace r files; append_traces rs files'

  -- The fields of each record.
  unfoldable pub fields_of : List MinstRecord → Option (List (List JsonField))
  fields_of [] = some []
  fields_of (r ∷ rs) = do
    d ← decorate_minst_record sort t r
    rest ← fields_of rs
    some ((schema ∷ json_fields d r) ∷ rest)

-- The objects of a file, one in each line, on fuel.
unfoldable pub read_lines : ℕ → Bytes → Option (List (List JsonField))
unfolding read_object
read_lines zero text = none
read_lines (suc fuel) [] = some []
read_lines (suc fuel) (c ∷ cs) = do
  (fields, rest) ← read_object (c ∷ cs)
  next ← skip b'\n' rest
  more ← read_lines fuel next
  some (fields ∷ more)

-- A record of an instruction that was fetched.
pub record IsTraced (r : MinstRecord) : Type 0 where
  pub whole : r.len % 8 ≡ 0
  pub low : 16 ≤ r.len
  pub high : r.len ≤ 64

abbrev pub AllTraced : List MinstRecord → Type 0
AllTraced [] = Unit
AllTraced (r ∷ rs) = IsTraced r × AllTraced rs

pub append-line :
    (file line text : Bytes)
    → (file ++ (line ++ b'\n' ∷ [])) ++ text ≡ file ++ (line ++ b'\n' ∷ text)
append-line file line text =
    append_assoc file (line ++ b'\n' ∷ []) text
    ∙ ap (λ (x : Bytes). file ++ x) (append_assoc line (b'\n' ∷ []) text)

read_lines-line :
    (fuel : ℕ) (r : MinstRecord) (d : MinstRecordDecoration) (text : Bytes)
    (more : List (List JsonField))
    → read_lines fuel text ≡ some more
    → read_lines (suc fuel) (write_record d r ++ b'\n' ∷ text)
      ≡ some ((schema ∷ json_fields d r) ∷ more)
unfolding read_lines write_record
read_lines-line fuel r d text more rest =
    let first = read_object-write_record d r (b'\n' ∷ text) in
    ap
      (λ (o : Option (List JsonField × Bytes)).
        o >>= λ x. skip b'\n' x.1 >>= λ next. read_lines fuel next >>= λ m. some (x.0 ∷ m))
      first
    ∙ ap (λ (o : Option (List (List JsonField))). o >>= λ m. some ((schema ∷ json_fields d r) ∷ m))
        rest

set_trace_path-separate :
    (opens : Bytes → Bool) (path : Bytes)
    → 0 < length path
    → opens path ≡ true
    → opens (dump_path path) ≡ true
    → same_bytes path (dump_path path) ≡ false
    → set_trace_path opens path ≡ some (separate [] [])
unfolding set_trace_path
set_trace_path-separate opens [] given a b c = absurd (omega arith)
set_trace_path-separate opens (x ∷ xs) given a b c = ground (arith, a, b, c)

module _ (sort : List AsmReplacement → List AsmReplacement) (t : Tables) where
  write_minst_record_dump-some :
      (r : MinstRecord) (d : MinstRecordDecoration)
      → decorate_minst_record sort t r ≡ some d
      → write_minst_record_dump sort t r ≡ some d.dump_line
  unfolding write_minst_record_dump
  write_minst_record_dump-some r d decorated =
      ap
        (λ (o : Option MinstRecordDecoration). elim o as (λ x. Option Bytes) [
          | none ↦ none
          | some e ↦ some e.dump_line
        ])
        decorated

  append_trace-some :
      (r : MinstRecord) (d : MinstRecordDecoration) (j k : Bytes)
      → decorate_minst_record sort t r ≡ some d
      → append_trace sort t r (separate j k)
        ≡ some (separate (append_line (write_record d r) j) (append_line d.dump_line k))
  unfolding append_trace
  append_trace-some r d j k decorated =
      rw
        (
          write_minst_record_json-some sort t r d decorated,
          write_minst_record_dump-some r d decorated,
        )
        refl

  append_traces-lines :
      (rs : List MinstRecord) (j k : Bytes)
      → AllTraced rs
      → (text : Bytes) × (dumps : Bytes) × (fields : List (List JsonField)) × (append_traces sort t
            rs
            (separate j k)
          ≡ some (separate (j ++ text) (k ++ dumps)))
        × (fields_of sort t rs ≡ some fields)
        × (read_lines (suc (length rs)) text ≡ some fields)
  unfolding append_traces fields_of read_lines
  append_traces-lines [] j k v = ([], [], [], rw (append-nil j, append-nil k) refl, refl, refl)
  append_traces-lines (r ∷ rs) j k (v, vs) =
      let (d, decorated) = decorate-some sort t r v.whole v.low v.high in
      let j' : Bytes = j ++ (write_record d r ++ b'\n' ∷ []) in
      let k' : Bytes = k ++ (d.dump_line ++ b'\n' ∷ []) in
      let (text, dumps, fields, appended, listed, reads) = append_traces-lines rs j' k' vs in
      let first = append_trace-some r d j k decorated in
      (
        write_record d r ++ b'\n' ∷ text,
        d.dump_line ++ b'\n' ∷ dumps,
        (schema ∷ json_fields d r) ∷ fields,
        ap (λ (o : Option TraceFiles). o >>= λ files. append_traces sort t rs files) first
            ∙ appended
            ∙ ap₂ (λ (x y : Bytes). some (separate x y)) (append-line j (write_record d r) text)
                (append-line k d.dump_line dumps),
        rw (decorated, listed) refl,
        read_lines-line (suc (length rs)) r d text fields reads,
      )

  -- The trace of a run, to a path that is not empty, whose two files open and are different ones: no
  -- assertion fails, and the file of JSON lines reads back as the fields of every record that was
  -- committed, one object a line, in order. The records have a length of 2 to 8 whole bytes.
  pub append_traces-read :
      (opens : Bytes → Bool) (path : Bytes) (rs : List MinstRecord)
      → 0 < length path
      → opens path ≡ true
      → opens (dump_path path) ≡ true
      → same_bytes path (dump_path path) ≡ false
      → AllTraced rs
      → (text : Bytes) × (dumps : Bytes) × (fields : List (List JsonField)) × ((set_trace_path opens
              path
            >>= λ files. append_traces sort t rs files)
          ≡ some (separate text dumps))
        × (fields_of sort t rs ≡ some fields)
        × (read_lines (suc (length rs)) text ≡ some fields)
  append_traces-read opens path rs given opened opened_dump differ v =
      let (text, dumps, fields, appended, listed, reads) = append_traces-lines rs [] [] v in
      (
        text,
        dumps,
        fields,
        ap (λ (o : Option TraceFiles). o >>= λ files. append_traces sort t rs files)
              (set_trace_path-separate opens path given opened opened_dump differ)
            ∙ appended,
        listed,
        reads,
      )
