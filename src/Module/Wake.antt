-- ===== src/Module/Wake.antt =====
-- When a module of include/linx/model/module.hpp has an event, and that its cycle fails no
-- assertion on valid queues.
use linx_model.Base.{
  ℕ, zero, suc, ◌<◌, true, Option, some, List, [], ◌∷◌, map, ◌≡◌, ◌≢◌, ◌⊎◌, length, get_elem?, set,
  get_elem?-set_self, arith, refl, inl, inr, ◌>>=◌,
}
use linx_model.SimQueue
use linx_model.SimQueue.{SimQueue}
use linx_model.SimQueue.Flush.{work-epoch}
use linx_model.SimQueue.Invariant.{IsValid}
use linx_model.Module.{
  node, Modules, ModuleState, Heap, Hooks, epoch_of, any_changed, queues_changed,
  capture_queue_epochs, capture_observed_input_epochs, has_input_event, has_pending_work_recursive,
}
use linx_model.Module.Cycle.{run_self, work_own, finish_cycle, work, work_submodules}

-- The queue stands in one of the slots.
abbrev pub Bound : ℕ → List (Option ℕ) → Type 0
Bound q [] = ⊥
Bound q (x ∷ xs) = (x ≡ some q) ⊎ Bound q xs

module _ {P : Type 0} where
  any_changed-Bound :
      (h h' : Heap P) (q : ℕ) (qs : List (Option ℕ))
      → Bound q qs
      → epoch_of h' (some q) ≢ epoch_of h (some q)
      → any_changed h' qs (map (epoch_of h) qs) ≡ true
  unfolding any_changed
  any_changed-Bound h h' q [] b ne = absurd b
  any_changed-Bound h h' q (x ∷ xs) (inl e) ne = rw e (ground (arith, ne))
  any_changed-Bound h h' q (x ∷ xs) (inr b) ne = ground (arith, any_changed-Bound h h' q xs b ne)

  queues_changed-Bound :
      (h h' : Heap P) (q : ℕ) (qs : List (Option ℕ))
      → Bound q qs
      → epoch_of h' (some q) ≢ epoch_of h (some q)
      → queues_changed h' qs (capture_queue_epochs h qs) ≡ true
  unfolding queues_changed capture_queue_epochs
  queues_changed-Bound h h' q qs b ne = ground (arith, any_changed-Bound h h' q qs b ne)

  get_elem?-bound : (h : Heap P) (q : ℕ) (c : SimQueue P) → get_elem? h q ≡ some c → q < length h
  get_elem?-bound [] q c e = cc
  get_elem?-bound (x ∷ xs) zero c e = omega arith
  get_elem?-bound (x ∷ xs) (suc q) c e = omega (arith, get_elem?-bound xs q c e)

  -- A cycle of a queue that makes an entry readable moves the epoch its readers see.
  epoch_of-promoted :
      (h : Heap P) (q : ℕ) (c c' : SimQueue P)
      → get_elem? h q ≡ some c
      → IsValid c
      → SimQueue.work c ≡ some c'
      → length c'.read_q ≢ length c.read_q
      → epoch_of (set h q c') (some q) ≢ epoch_of h (some q)
  unfolding epoch_of
  epoch_of-promoted h q c c' at v worked moved same =
      let stored = get_elem?-set_self h q c' (get_elem?-bound h q c at) in
      moved ((work-epoch c c' v worked).0 (ground (arith, at, stored, same)))

module _ {P S : Type 0} where
  has_input_event-Bound :
      (h h' : Heap P) (s : ModuleState S) (q : ℕ)
      → Bound q s.inputs ⊎ Bound q s.inners
      → epoch_of h' (some q) ≢ epoch_of h (some q)
      → has_input_event h' (capture_observed_input_epochs h s) ≡ true
  unfolding has_input_event capture_observed_input_epochs
  has_input_event-Bound h h' s q (inl b) ne =
      ground (arith, queues_changed-Bound h h' q s.inputs b ne)
  has_input_event-Bound h h' s q (inr b) ne =
      ground (arith, queues_changed-Bound h h' q s.inners b ne)

module _ {P S : Type 0} (hooks : Hooks P S) where
  work_own-event :
      (s : ModuleState S) (h : Heap P)
      → has_input_event h s ≡ true
      → work_own hooks s h
        ≡ run_self hooks (record s { active_submodules = []; ran_work_self_last_cycle = true }) h
  unfolding work_own
  work_own-event s h e = rw e refl

  -- A module that has captured its epochs, and one of whose input or inner queues, a valid one,
  -- then makes an entry readable in its own `Work`, has pending work, and its next `Work` runs
  -- `WorkSelf`.
  pub work-wakes :
      (h : Heap P) (s : ModuleState S) (ms : Modules S) (q : ℕ) (c c' : SimQueue P)
      → Bound q s.inputs ⊎ Bound q s.inners
      → get_elem? h q ≡ some c
      → IsValid c
      → SimQueue.work c ≡ some c'
      → length c'.read_q ≢ length c.read_q
      → let seen = capture_observed_input_epochs h s in
        let h' = set h q c' in
        (has_pending_work_recursive h' (node seen ms) ≡ true)
        × (work hooks (node seen ms) h' ≡ (
            run_self hooks
              (record seen { active_submodules = []; ran_work_self_last_cycle = true })
              h'
            >>= λ x. work_submodules hooks ms zero x.1 >>= λ r. finish_cycle hooks x.0 r))
  unfolding work has_pending_work_recursive
  work-wakes h s ms q c c' b at v worked moved =
      let event =
        has_input_event-Bound h (set h q c') s q b (epoch_of-promoted h q c c' at v worked moved) in
      (
        ground (arith, event),
        rw (work_own-event (capture_observed_input_epochs h s) (set h q c') event) refl,
      )
