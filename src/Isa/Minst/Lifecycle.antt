-- ===== src/Isa/Minst/Lifecycle.antt =====
-- The life of a packet under `MarkStage`, `MarkRetired`, `MarkFlushed` and `MarkTraced` of
-- src/isa/minst.cpp.
use native.Mathlib.Omega.{arith}
use linx_model.Base.{Bool, true, false, ◌||◌, List, [], ◌∷◌, ◌≡◌}
use linx_model.Isa.Enums.{MinstStage}
use linx_model.Isa.Minst.{Minst, mark_stage, mark_retired, mark_flushed, mark_traced, is_terminal}

-- A call of one of the four mark functions.
pub data Mark : Type 0 where
  mark_as : MinstStage → Mark
  retire_mark : Mark
  flush_mark : Mark
  trace_mark : Mark

unfoldable pub apply_mark : Mark → Minst → Minst
unfolding mark_stage mark_retired mark_flushed mark_traced
apply_mark (mark_as s) m = mark_stage m s
apply_mark retire_mark m = mark_retired m
apply_mark flush_mark m = mark_flushed m
apply_mark trace_mark m = mark_traced m

unfoldable pub apply_marks : List Mark → Minst → Minst
unfolding apply_mark
apply_marks [] m = m
apply_marks (k ∷ ks) m = apply_marks ks (apply_mark k m)

unfoldable pub is_final : Mark → Bool
is_final (mark_as s) = false
is_final retire_mark = true
is_final flush_mark = true
is_final trace_mark = true

unfoldable pub has_final : List Mark → Bool
unfolding is_final
has_final [] = false
has_final (k ∷ ks) = is_final k || has_final ks

-- `MarkStage` leaves it open or closed as it was: the last case of the lifecycle is kept.
is_terminal-mark_stage : (m : Minst) (s : MinstStage) → is_terminal (mark_stage m s) ≡ is_terminal m
unfolding mark_stage is_terminal
is_terminal-mark_stage m s = ground arith

is_terminal-apply_mark :
    (k : Mark) (m : Minst) → is_terminal (apply_mark k m) ≡ is_terminal m || is_final k
unfolding apply_mark is_terminal is_final mark_retired mark_flushed mark_traced
is_terminal-apply_mark k m = ground arith

-- After any sequence of calls of the mark functions, a packet is terminal exactly when it was
-- terminal before or one of the calls was `MarkRetired`, `MarkFlushed` or `MarkTraced`: no
-- call of `MarkStage` ends a packet or revives one.
pub is_terminal-apply_marks :
    (ks : List Mark) (m : Minst) → is_terminal (apply_marks ks m) ≡ is_terminal m || has_final ks
unfolding apply_marks has_final
is_terminal-apply_marks [] m = ground arith
is_terminal-apply_marks (k ∷ ks) m =
    ground (arith, is_terminal-apply_marks ks (apply_mark k m), is_terminal-apply_mark k m)
