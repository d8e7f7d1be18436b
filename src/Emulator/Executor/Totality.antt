-- ===== src/Emulator/Executor/Totality.antt =====
-- What a call of `Execute` commits, and that `Run` with a bound on the cycles returns
-- (src/emulator/reference_executor.cpp).
use linx_model.Base.{
  ℕ, zero, suc, ◌+◌, ◌%◌, ◌^◌, ◌≤◌, ◌<◌, ◌≡◌, refl, true, false, Option, some, [], ◌∷◌, ◌++◌, leb,
  arith, Bool-cases, Option-cases, inl, inr,
}
use linx_model.Base.Int.{pos}
use linx_model.Isa.Desc.{Tables}
use linx_model.Isa.Minst.{Minst}
use linx_model.Emulator.Context.{request_terminate, append_record, advance_cycle}
use linx_model.Emulator.Record.{MinstRecord}
use linx_model.Emulator.Executor.{is_implemented, resolve_block_kind, fetch_decode}
use linx_model.Emulator.Executor.Execute.{Context, Effect}
use linx_model.Emulator.Executor.Steps.{
  dispatch, begin_execute, finish_execute, execute, stops_at, step, run,
}
use linx_model.Emulator.Executor.Frame.{SameFrame, dispatch-SameFrame}

-- The context after the mnemonic's code.
abbrev dispatched : Minst → Context → Effect
dispatched inst ctx =
    dispatch inst (resolve_block_kind inst ctx.state) ctx.state.pc (begin_execute inst ctx)

dispatched-SameFrame : (inst : Minst) (ctx : Context) → SameFrame (dispatched inst ctx).ctx ctx
unfolding begin_execute
dispatched-SameFrame inst ctx =
    let f =
      dispatch-SameFrame inst (resolve_block_kind inst ctx.state) ctx.state.pc
        (begin_execute inst ctx) in
    record {
      same_cycle = f.same_cycle;
      same_committed = f.same_committed;
      same_program = f.same_program;
    }

finish-record :
    (e : Effect)
    → (r : MinstRecord) × ((finish_execute e).committed ≡ e.ctx.committed ++ r ∷ [])
      × ((finish_execute e).last_committed ≡ some r)
      × (r.lifecycle ≡ "retired")
unfolding finish_execute append_record
finish-record e = elim (Bool-cases e.ctx.terminated) [
  | inl t ↦ (_, refl, refl, ground (arith, t))
  | inr f ↦ (_, refl, refl, ground (arith, f))
]

-- A packet whose mnemonic the executor implements commits exactly one record, of a retired packet,
-- behind the others. Any other packet commits none and ends the run with exit code 1.
pub execute-commits :
    (inst : Minst) (ctx : Context)
    → (is_implemented inst ≡ true
        → (r : MinstRecord) × ((execute inst ctx).committed ≡ ctx.committed ++ r ∷ [])
          × ((execute inst ctx).last_committed ≡ some r)
          × (r.lifecycle ≡ "retired"))
      × (is_implemented inst ≡ false
          → ((execute inst ctx).committed ≡ ctx.committed)
            × ((execute inst ctx).terminated ≡ true)
            × ((execute inst ctx).exit_code ≡ pos 1))
unfolding execute request_terminate
execute-commits inst ctx = (
  λ known.
      let (r, all, last, life) = finish-record (dispatched inst ctx) in
      let f = dispatched-SameFrame inst ctx in
      (r, ground (arith, known, all, f.same_committed), ground (arith, known, last), life),
  λ not_yet. (ground (arith, not_yet), ground (arith, not_yet), ground (arith, not_yet)),
)

execute-cycle : (inst : Minst) (ctx : Context) → (execute inst ctx).cycle ≡ ctx.cycle
unfolding execute finish_execute append_record request_terminate
execute-cycle inst ctx =
    let f = dispatched-SameFrame inst ctx in
    elim (Bool-cases (is_implemented inst)) [
      | inl known ↦ ground (arith, known, f.same_cycle)
      | inr not_yet ↦ ground (arith, not_yet)
    ]

-- A step that goes on took one cycle, and one that does not left the run terminated.
pub step-cycle :
    (t : Tables) (stop_pc : Option ℕ) (ctx : Context)
    → ((step t stop_pc ctx).0 ≡ true → (step t stop_pc ctx).1.cycle ≡ (ctx.cycle + 1) % 2 ^ 64)
      × ((step t stop_pc ctx).0 ≡ false → (step t stop_pc ctx).1.terminated ≡ true)
unfolding step request_terminate advance_cycle
step-cycle t stop_pc ctx = elim (Bool-cases ctx.terminated) [
  | inl ended ↦ ground (arith, ended)
  | inr runs ↦ elim (Bool-cases (stops_at stop_pc ctx.state.pc)) [
    | inl stop ↦ ground (arith, runs, stop)
    | inr on ↦ elim (Option-cases (fetch_decode t ctx)) [
      | inl bad ↦ ground (arith, runs, on, bad)
      | inr (inst, good) ↦ ground (arith, runs, on, good, execute-cycle inst ctx)
    ]
  ]
]

-- The run from `ctx` returns within `fuel`, with the run terminated.
abbrev Returns : ℕ → Tables → Option ℕ → ℕ → Context → Type 0
Returns fuel t stop_pc max_cycles ctx =
    (c : Context) × (run fuel t stop_pc (some max_cycles) ctx ≡ some c) × (c.terminated ≡ true)

-- One turn of the loop returns if what it leaves to do does.
turn-Returns :
    (fuel : ℕ) (t : Tables) (stop_pc : Option ℕ) (max_cycles : ℕ) (ctx : Context)
    → (leb max_cycles ctx.cycle ≡ false
        → (step t stop_pc ctx).0 ≡ true
        → Returns fuel t stop_pc max_cycles (step t stop_pc ctx).1)
    → Returns (suc fuel) t stop_pc max_cycles ctx
unfolding run request_terminate
turn-Returns fuel t stop_pc max_cycles ctx again = elim (Bool-cases ctx.terminated) [
  | inl ended ↦ (ctx, ground (arith, ended), ended)
  | inr runs ↦ elim (Bool-cases (leb max_cycles ctx.cycle)) [
    | inl late ↦
        (request_terminate ctx ctx.exit_code "max_cycles", ground (arith, runs, late), refl)
    | inr left ↦ elim (Bool-cases (step t stop_pc ctx).0) [
      | inr stops ↦
          let ended = (step-cycle t stop_pc ctx).1 stops in
          ((step t stop_pc ctx).1, ground (arith, runs, left, stops), ended)
      | inl goes ↦
          let (c, done, ended) = again left goes in
          (c, ground (arith, runs, left, goes, done), ended)
    ]
  ]
]

-- `Run` with a bound on the cycles returns, with the run terminated, whatever the program does: as
-- many turns as the cycles that are left, and one more, are enough.
pub run-Returns :
    (fuel : ℕ) (t : Tables) (stop_pc : Option ℕ) (max_cycles : ℕ) (ctx : Context)
    → max_cycles < 2 ^ 64
    → max_cycles ≤ ctx.cycle + fuel
    → (c : Context) × (run (suc fuel) t stop_pc (some max_cycles) ctx ≡ some c)
      × (c.terminated ≡ true)
run-Returns zero t stop_pc max_cycles ctx word enough =
    turn-Returns zero t stop_pc max_cycles ctx λ left goes. absurd (ground arith)
run-Returns (suc fuel) t stop_pc max_cycles ctx word enough =
    turn-Returns (suc fuel) t stop_pc max_cycles ctx λ left goes.
      let cycle = (step-cycle t stop_pc ctx).0 goes in
      run-Returns fuel t stop_pc max_cycles (step t stop_pc ctx).1 word (ground arith)
