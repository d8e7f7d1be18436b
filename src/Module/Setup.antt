-- ===== src/Module/Setup.antt =====
-- `Build`, `Reset` and `ResetEventState` of include/linx/model/module.hpp.
use linx_model.Base.{
  ℕ, true, false, Option, none, some, List, [], ◌∷◌, ◌>>=◌, if◌then◌else◌, get_elem?, set,
}
use linx_model.SimQueue
use linx_model.Module.{Module, node, Modules, nil, cons, Heap, Hooks, capture_observed_input_epochs}

module _ {P : Type 0} where
  -- The loop over the owned queues in `Reset`.
  unfoldable pub reset_queues : List ℕ → Heap P → Option (Heap P)
  reset_queues [] h = some h
  reset_queues (q ∷ qs) h = elim (get_elem? h q) [
    | none ↦ none
    | some c ↦ reset_queues qs (set h q (SimQueue.reset c))
  ]

module _ {P S : Type 0} where
  unfoldable mutual
    unfolding capture_observed_input_epochs

    pub reset_event_state : Heap P → Module S → Module S
    reset_event_state h (node s ms) =
        let cleared = record s {
          force_activate_self = false;
          ran_work_self_last_cycle = false;
          active_submodules = [];
        } in
        node (capture_observed_input_epochs h cleared) (reset_event_states h ms)

    pub reset_event_states : Heap P → Modules S → Modules S
    reset_event_states h nil = nil
    reset_event_states h (cons m ms) = cons (reset_event_state h m) (reset_event_states h ms)

-- `built_ = true`.
abbrev mark_built : {S : Type 0} → Module S → Module S
mark_built (node s ms) = node (record s { built = true }) ms

module _ {P S : Type 0} (hooks : Hooks P S) where
  unfoldable mutual
    unfolding reset_event_state reset_queues

    pub reset : Module S → Heap P → Option (Module S × Heap P)
    reset (node s ms) h = do
      (s', h₁) ← hooks.reset_self s h
      (ms', h₂) ← reset_submodules ms h₁
      h₃ ← reset_queues s'.owned_queues h₂
      some (reset_event_state h₃ (node s' ms'), h₃)

    pub reset_submodules : Modules S → Heap P → Option (Modules S × Heap P)
    reset_submodules nil h = some (nil, h)
    reset_submodules (cons m ms) h = do
      (m', h₁) ← reset m h
      (ms', h₂) ← reset_submodules ms h₁
      some (cons m' ms', h₂)

  unfoldable mutual
    unfolding reset_event_state

    pub build : Module S → Heap P → Option (Module S × Heap P)
    build (node s ms) h = if s.built then none else do
      (s', h₁) ← hooks.build_self s h
      (ms', h₂) ← build_submodules ms h₁
      some (mark_built (reset_event_state h₂ (node s' ms')), h₂)

    pub build_submodules : Modules S → Heap P → Option (Modules S × Heap P)
    build_submodules nil h = some (nil, h)
    build_submodules (cons m ms) h = do
      (m', h₁) ← build m h
      (ms', h₂) ← build_submodules ms h₁
      some (cons m' ms', h₂)
