-- ===== src/Emulator/Record/Tests.antt =====
-- A trace record on an empty table, and the theorem on its JSON line.
use linx_model.Base.{◌≡◌, refl, true, none, some, ◌>>=◌, List, [], ◌∷◌, arith}
use linx_model.Base.Int.{pos}
use linx_model.Base.Text.{Bytes, codes}
use linx_model.Isa.Desc.{Tables}
use linx_model.Isa.Minst.{fresh}
use linx_model.Isa.Codec.Decode.{decode_packed_word}
use linx_model.Emulator.Record.{MinstRecord, make_minst_record}
use linx_model.Emulator.Record.Json.{JsonField, json_escape, hex_value, write_minst_record_dump}
use linx_model.Emulator.Record.Paths.{dump_path}
use linx_model.Emulator.Record.Trace.{
  separate, shared, set_trace_path, append_traces, fields_of, read_lines, IsTraced,
  append_traces-read,
}

abbrev no_tables : Tables
no_tables = record { field_pieces = []; fields = []; constraints = []; forms = [] }

abbrev sample : MinstRecord
sample = record (make_minst_record fresh 7 "scalar" (pos 0) none none) { len = 16; insn = 0x1234 }

escape-quotes : json_escape (codes "a\"b\\c") ≡ codes "a\\\"b\\\\c"
unfolding json_escape
escape-quotes = refl

hex-short : hex_value 0x1f 4 ≡ codes "0x001f"
unfolding hex_value
hex-short = refl

dump-sample :
    write_minst_record_dump (λ r. r) no_tables sample
    ≡ some (codes "0000000000000000:  34                      .byte 0x34")
unfolding write_minst_record_dump make_minst_record decode_packed_word
dump-sample = refl

sample-IsTraced : IsTraced sample
sample-IsTraced = record { whole = refl; low = omega arith; high = omega arith }

-- The name of the second file.
dump-extension : dump_path (codes "out.d/t.jsonl") ≡ codes "out.d/t.dump"
unfolding dump_path
dump-extension = refl

dump-bare : dump_path (codes "out.d/t") ≡ codes "out.d/t.dump"
unfolding dump_path
dump-bare = refl

dump-hidden : dump_path (codes "out/.t") ≡ codes "out/.t.dump"
unfolding dump_path
dump-hidden = refl

-- A path that ends in .dump has one file under both streams.
trace-dump : set_trace_path (λ p. true) (codes "t.dump") ≡ some (shared [] 0 0)
unfolding set_trace_path
trace-dump = refl

append_traces-read_example :
    (text : Bytes) × (dumps : Bytes) × (fields : List (List JsonField)) × ((set_trace_path
          (λ p. true)
          (codes "t.jsonl")
        >>= λ files. append_traces (λ r. r) no_tables (sample ∷ sample ∷ []) files)
      ≡ some (separate text dumps))
    × (fields_of (λ r. r) no_tables (sample ∷ sample ∷ []) ≡ some fields)
    × (read_lines 3 text ≡ some fields)
unfolding dump_path
append_traces-read_example =
    append_traces-read (λ r. r) no_tables (λ p. true) (codes "t.jsonl") (sample ∷ sample ∷ [])
      (omega arith) refl refl refl (sample-IsTraced, (sample-IsTraced, tt))
