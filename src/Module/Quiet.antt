-- ===== src/Module/Quiet.antt =====
-- What `Build`, `Reset` and `ResetEventState` of include/linx/model/module.hpp leave to do.
use linx_model.Base.{
  ℕ, false, Option, some, List, [], ◌∷◌, map, ◌≡◌, refl, length-map, arith, >>=-eq-some,
}
use linx_model.Module.{
  Module, node, Modules, nil, cons, ModuleState, Heap, Hooks, epoch_of, any_changed, queues_changed,
  capture_queue_epochs, capture_observed_input_epochs, has_input_event, has_pending_work_recursive,
  any_pending,
}
use linx_model.Module.Setup.{
  reset_event_state, reset_event_states, reset_queues, reset, reset_submodules,
}

module _ {P : Type 0} (h : Heap P) where
  any_changed-captured : (qs : List (Option ℕ)) → any_changed h qs (map (epoch_of h) qs) ≡ false
  unfolding any_changed
  any_changed-captured [] = refl
  any_changed-captured (q ∷ qs) = ground (arith, any_changed-captured qs)

  queues_changed-captured :
      (qs : List (Option ℕ)) → queues_changed h qs (capture_queue_epochs h qs) ≡ false
  unfolding queues_changed capture_queue_epochs
  queues_changed-captured qs = ground (arith, length-map (epoch_of h) qs, any_changed-captured qs)

module _ {P S : Type 0} (h : Heap P) where
  -- A module that has just captured its epochs, and is not forced, has no event.
  pub has_input_event-captured :
      (s : ModuleState S)
      → s.force_activate_self ≡ false
      → has_input_event h (capture_observed_input_epochs h s) ≡ false
  unfolding has_input_event capture_observed_input_epochs
  has_input_event-captured s calm =
      ground (arith, queues_changed-captured h s.inputs, queues_changed-captured h s.inners)

  mutual
    unfolding has_pending_work_recursive reset_event_state

    quiet : (m : Module S) → has_pending_work_recursive h (reset_event_state h m) ≡ false
    quiet (node s ms) = ground (
      arith,
      has_input_event-captured
          (record s {
            force_activate_self = false;
            ran_work_self_last_cycle = false;
            active_submodules = [];
          })
          refl,
      quiet_all ms,
    )

    quiet_all : (ms : Modules S) → any_pending h (reset_event_states h ms) ≡ false
    quiet_all nil = refl
    quiet_all (cons m ms) = ground (arith, quiet m, quiet_all ms)

module _ {P S : Type 0} (hooks : Hooks P S) where
  -- A `Reset` that fails no assertion leaves no module of the tree with pending work, whatever
  -- epochs the modules had seen and whatever the overrides of `ResetSelf` request.
  pub reset-quiet :
      (m m' : Module S) (h h' : Heap P)
      → reset hooks m h ≡ some (m', h')
      → has_pending_work_recursive h' m' ≡ false
  unfolding reset
  reset-quiet (node s ms) m' h h' e =
      let (own, _, e) = >>=-eq-some (hooks.reset_self s h) _ e in
      let (subs, _, e) = >>=-eq-some (reset_submodules hooks ms own.1) _ e in
      let (last, _, e) = >>=-eq-some (reset_queues own.0.owned_queues subs.1) _ e in
      ground (arith, e, quiet last (node own.0 subs.0))
