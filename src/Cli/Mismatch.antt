-- ===== src/Cli/Mismatch.antt =====
-- What src/linx_model_cli.cpp leaves of two traces that differ: the files of `WriteMismatchDump`,
-- the reason of `EqualMinstRecord` in src/emulator/minst_record.cpp, and the state's summary of
-- src/emulator/state.cpp. The files open, and stay good. Where they stand is left out.
use linx_model.Base.{
  ◌≡◌, refl, ◌∙◌, sym, Option, none, some, List, [], ◌∷◌, ◌++◌, ◌>>=◌, append-nil,
}
use linx_model.Base.Text.{Bytes, codes, decimal, decimal_ℤ}
use linx_model.Isa.Desc.{Tables}
use linx_model.Isa.Asm.{AsmReplacement}
use linx_model.Emulator.State.{LinxState}
use linx_model.Emulator.Record.{MinstRecord}
use linx_model.Emulator.Record.Json.{write_minst_record_json, write_minst_record_dump}
use linx_model.Emulator.Record.Trace.{
  TraceFiles, separate, append_line, append-line, append_trace, append_traces,
}
use linx_model.Emulator.Compare.{CompareMismatch}

unfoldable pub dump_state_summary : LinxState → Bytes
unfolding decimal decimal_ℤ
dump_state_summary state =
    codes "{pc="
    ++ (decimal state.pc
        ++ (codes ",acr="
            ++ (decimal state.acr
                ++ (codes ",bpc="
                    ++ (decimal state.bpc
                        ++ (codes ",tgt="
                            ++ (decimal state.tgt
                                ++ (codes ",cond="
                                    ++ (decimal state.cond
                                        ++ (codes ",carg="
                                            ++ (decimal state.carg
                                                ++ (codes ",brtype="
                                                    ++ (decimal state.brtype
                                                        ++ (codes ",block_kind="
                                                            ++ (codes state.block_kind
                                                            ++ (codes ",lane_id="
                                                            ++ (decimal_ℤ state.lane_id
                                                            ++ (codes ",a0="
                                                            ++ (decimal (state.gpr 2)
                                                            ++ (codes ",a1="
                                                            ++ (decimal (state.gpr 3)
                                                            ++ (codes ",sp="
                                                            ++ (decimal (state.gpr 1)
                                                            ++ (codes ",ra="
                                                            ++ (decimal (state.gpr 10)
                                                            ++ (codes ",insn_count="
                                                            ++ (decimal state.insn_count
                                                            ++ codes "}")))))))))))))))))))))))))))

pub record MismatchFiles : Type 0 where
  pub mismatch_txt : Bytes
  pub ref_window_jsonl : Bytes
  pub ca_window_jsonl : Bytes
  pub ref_window_dump : Bytes
  pub ca_window_dump : Bytes

-- The loop that writes a record in each line; `none` is a failed assertion.
unfoldable pub window_file : (MinstRecord → Option Bytes) → List MinstRecord → Option Bytes
window_file write [] = some []
window_file write (r ∷ rs) = do
  line ← write r
  rest ← window_file write rs
  some (line ++ b'\n' ∷ rest)

module _ (sort : List AsmReplacement → List AsmReplacement) (t : Tables) where
  -- What `EqualMinstRecord` says of two records that differ.
  unfoldable pub mismatch_reason : MinstRecord → MinstRecord → Option Bytes
  unfolding write_minst_record_json
  mismatch_reason lhs rhs = do
    ref ← write_minst_record_json sort t lhs
    ca ← write_minst_record_json sort t rhs
    some (codes "record mismatch: ref=" ++ (ref ++ (codes " ca=" ++ ca)))

  abbrev mismatch_txt : Bytes → Bytes → Bytes → Bytes
  mismatch_txt reason ref_state ca_state =
      reason
      ++ (codes "\nref_state=" ++ (ref_state ++ (codes "\nca_state=" ++ (ca_state ++ codes "\n"))))

  unfoldable pub write_mismatch_dump :
      Bytes → Bytes → Bytes → CompareMismatch MinstRecord → Option MismatchFiles
  unfolding window_file write_minst_record_json write_minst_record_dump
  write_mismatch_dump reason ref_state ca_state mismatch = do
    ref_jsonl ← window_file (write_minst_record_json sort t) mismatch.ref_window
    ca_jsonl ← window_file (write_minst_record_json sort t) mismatch.ca_window
    ref_dump ← window_file (write_minst_record_dump sort t) mismatch.ref_window
    ca_dump ← window_file (write_minst_record_dump sort t) mismatch.ca_window
    some (record {
      mismatch_txt = mismatch_txt reason ref_state ca_state;
      ref_window_jsonl = ref_jsonl;
      ca_window_jsonl = ca_jsonl;
      ref_window_dump = ref_dump;
      ca_window_dump = ca_dump;
    })

  abbrev whole_files : Bytes → Bytes → Option Bytes → Option Bytes → Option TraceFiles
  whole_files a b none dump = none
  whole_files a b (some jsonl) none = none
  whole_files a b (some jsonl) (some dump) = some (separate (a ++ jsonl) (b ++ dump))

  -- The two files of a window are the trace files of a run with its records, after what the files
  -- held before.
  window_file-append_traces :
      (rs : List MinstRecord) (a b : Bytes)
      → append_traces sort t rs (separate a b)
        ≡ whole_files a b
            (window_file (write_minst_record_json sort t) rs)
            (window_file (write_minst_record_dump sort t) rs)
  unfolding append_traces append_trace window_file
  window_file-append_traces [] a b =
      λ k. some (separate (sym (append-nil a) k) (sym (append-nil b) k))
  window_file-append_traces (r ∷ rs) a b =
      go (λ a' b'. window_file-append_traces rs a' b') (write_minst_record_json sort t r)
        (write_minst_record_dump sort t r)
    where
      rest :
          (l d : Bytes) (o p : Option Bytes)
          → whole_files (a ++ (l ++ b'\n' ∷ [])) (b ++ (d ++ b'\n' ∷ [])) o p
            ≡ whole_files a b (o >>= λ x. some (l ++ b'\n' ∷ x)) (p >>= λ x. some (d ++ b'\n' ∷ x))
      rest l d none p = refl
      rest l d (some x) none = refl
      rest l d (some x) (some y) = λ k. some (separate (append-line a l x k) (append-line b d y k))

      none_left :
          (l : Bytes) (o : Option Bytes)
          → none ≡ whole_files a b (o >>= λ x. some (l ++ b'\n' ∷ x)) none
      none_left l none = refl
      none_left l (some x) = refl

      go :
          ((a' b' : Bytes)
            → append_traces sort t rs (separate a' b')
              ≡ whole_files a' b'
                  (window_file (write_minst_record_json sort t) rs)
                  (window_file (write_minst_record_dump sort t) rs))
          → (o p : Option Bytes)
          → ((o >>= λ l. p >>= λ d. some (separate (append_line l a) (append_line d b)))
              >>= λ files. append_traces sort t rs files)
            ≡ whole_files a b
                (o >>= λ l.
                  window_file (write_minst_record_json sort t) rs >>= λ x. some (l ++ b'\n' ∷ x))
                (p >>= λ l.
                  window_file (write_minst_record_dump sort t) rs >>= λ x. some (l ++ b'\n' ∷ x))
      go ih none p = refl
      go ih (some l) none = none_left l (window_file (write_minst_record_json sort t) rs)
      go ih (some l) (some d) =
          ih (a ++ (l ++ b'\n' ∷ [])) (b ++ (d ++ b'\n' ∷ []))
          ∙ rest l d (window_file (write_minst_record_json sort t) rs)
              (window_file (write_minst_record_dump sort t) rs)
