-- ===== src/Module/Cycle.antt =====
-- `Work`, `AdvanceQueuesOnly` and `Xfer` of include/linx/model/module.hpp.
use linx_model.Base.{
  ℕ, zero, suc, Bool, false, ◌||◌, Option, some, List, [], ◌∷◌, ◌==◌, ◌>>=◌, if◌then◌else◌,
}
use linx_model.Module.{
  Module, node, Modules, nil, cons, ModuleState, Heap, Hooks, has_input_event,
  has_pending_work_recursive, capture_observed_input_epochs, work_queues,
}

-- What the loop over the submodules leaves: they, the heap, and the active ones.
pub record Ran (P S : Type 0) : Type 0 where
  pub modules : Modules S
  pub heap : Heap P
  pub active : List ℕ

module _ {P S : Type 0} (hooks : Hooks P S) where
  -- `WorkSelf` and what follows it in its branch.
  unfoldable pub run_self : ModuleState S → Heap P → Option (ModuleState S × Heap P)
  unfolding capture_observed_input_epochs
  run_self s h = do
    (s', h') ← hooks.work_self s h
    some (capture_observed_input_epochs h' (record s' { force_activate_self = false }), h')

  -- `Work` up to the loop over the submodules.
  unfoldable pub work_own : ModuleState S → Heap P → Option (ModuleState S × Heap P)
  unfolding has_input_event run_self
  work_own s h =
      let event = has_input_event h s in
      let cleared = record s { active_submodules = []; ran_work_self_last_cycle = event } in
      if event then run_self cleared h else some (cleared, h)

  unfoldable pub advance_own : ModuleState S → ModuleState S
  advance_own s = record s { active_submodules = []; ran_work_self_last_cycle = false }

  -- The end of both: the active submodules are known, and the owned queues take their cycle.
  unfoldable pub finish_cycle : ModuleState S → Ran P S → Option (Module S × Heap P)
  unfolding work_queues
  finish_cycle s r = do
    h ← work_queues s.owned_queues r.heap
    some (node (record s { active_submodules = r.active }) r.modules, h)

  abbrev pub push_active : ℕ → Ran P S → Ran P S
  push_active i r = record r { active = i ∷ r.active }

  abbrev pub push_module : Module S → Ran P S → Ran P S
  push_module m r = record r { modules = cons m r.modules }

  -- The body of the loop at place `i`, and the loop from there on.
  unfoldable pub visit :
      Bool
      → ℕ
      → Option (Module S × Heap P)
      → Option (Module S × Heap P)
      → (Heap P → Option (Ran P S))
      → Option (Ran P S)
  visit pending i busy idle rest =
      if pending
      then (do (m, h) ← busy; r ← rest h; some (push_active i (push_module m r)))
      else (do (m, h) ← idle; r ← rest h; some (push_module m r))

  -- The loop over the submodules from place `i` on, the same in both functions.
  unfoldable mutual
    unfolding work_own advance_own finish_cycle has_pending_work_recursive visit

    pub work : Module S → Heap P → Option (Module S × Heap P)
    work (node s ms) h = do
      (s', h') ← work_own s h
      r ← work_submodules ms zero h'
      finish_cycle s' r

    pub advance_queues_only : Module S → Heap P → Option (Module S × Heap P)
    advance_queues_only (node s ms) h = do
      r ← work_submodules ms zero h
      finish_cycle (advance_own s) r

    pub work_submodules : Modules S → ℕ → Heap P → Option (Ran P S)
    work_submodules nil i h = some (record { modules = nil; heap = h; active = [] })
    work_submodules (cons m ms) i h =
        let busy = work m h in
        let idle = advance_queues_only m h in
        visit (has_pending_work_recursive h m) i busy idle (work_submodules ms (suc i))

  abbrev pub is_active : ℕ → List ℕ → Bool
  is_active i [] = false
  is_active i (j ∷ js) = i == j || is_active i js

  -- The active submodules stand in `active` in the order of their places. The queues' `Xfer` is
  -- the empty one of `SimObject`.
  unfoldable mutual
    pub xfer : Module S → Heap P → Option (Module S × Heap P)
    xfer (node s ms) h = do
      (s', h') ← (if s.ran_work_self_last_cycle then hooks.xfer_self s h else some (s, h))
      (ms', h'') ← xfer_submodules ms zero s'.active_submodules h'
      some (node s' ms', h'')

    pub xfer_submodules : Modules S → ℕ → List ℕ → Heap P → Option (Modules S × Heap P)
    xfer_submodules nil i active h = some (nil, h)
    xfer_submodules (cons m ms) i active h = do
      (m', h') ← (if is_active i active then xfer m h else some (m, h))
      (ms', h'') ← xfer_submodules ms (suc i) active h'
      some (cons m' ms', h'')
