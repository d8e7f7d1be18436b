-- ===== src/Module/Skip.antt =====
-- Skipping the submodules without an event (`AdvanceQueuesOnly` of include/linx/model/module.hpp)
-- against calling `Work` on every submodule.
use linx_model.Base.{
  ℕ, zero, suc, Bool, true, false, Option, some, [], ◌≡◌, refl, sym, ◌∙◌, ◌>>=◌, if◌then◌else◌,
  arith, Bool-cases, inl, inr,
}
use linx_model.Module.{
  Module, node, Modules, nil, cons, ModuleState, Heap, Hooks, has_input_event,
  has_pending_work_recursive,
}
use linx_model.Module.Cycle.{
  Ran, work_own, advance_own, finish_cycle, push_active, push_module, work, advance_queues_only,
  visit, work_submodules,
}

module _ {P S : Type 0} (hooks : Hooks P S) where
  -- The reference: every submodule takes its `Work`. Only the list of the active ones asks for
  -- pending work.
  unfoldable mutual
    unfolding work_own finish_cycle has_pending_work_recursive

    pub work_all : Module S → Heap P → Option (Module S × Heap P)
    work_all (node s ms) h = do
      (s', h') ← work_own hooks s h
      r ← work_all_submodules ms zero h'
      finish_cycle hooks s' r

    pub work_all_submodules : Modules S → ℕ → Heap P → Option (Ran P S)
    work_all_submodules nil i h = some (record { modules = nil; heap = h; active = [] })
    work_all_submodules (cons m ms) i h = do
      (m', h') ← work_all m h
      r ← work_all_submodules ms (suc i) h'
      some (
          if has_pending_work_recursive h m
          then push_active hooks i (push_module hooks m' r)
          else push_module hooks m' r)

  -- Without an event of its own, a module's `Work` is its `AdvanceQueuesOnly`.
  work_own-quiet :
      (s : ModuleState S) (h : Heap P)
      → has_input_event h s ≡ false
      → work_own hooks s h ≡ some (advance_own hooks s, h)
  unfolding work_own advance_own
  work_own-quiet s h e = rw e refl

  advance-eq-work :
      (m : Module S) (h : Heap P)
      → has_pending_work_recursive h m ≡ false
      → advance_queues_only hooks m h ≡ work hooks m h
  unfolding work has_pending_work_recursive
  advance-eq-work (node s ms) h e = rw (work_own-quiet s h (ground (arith, e))) refl

  -- The loops at their first submodule.
  add_submodule : Bool → ℕ → Module S → Ran P S → Ran P S
  add_submodule b i m r =
      if b then push_active hooks i (push_module hooks m r) else push_module hooks m r

  pending-step :
      (m : Module S) (ms : Modules S) (i : ℕ) (h : Heap P)
      → has_pending_work_recursive h m ≡ true
      → work_submodules hooks (cons m ms) i h ≡ (
          work hooks m h >>= λ x.
          work_submodules hooks ms (suc i) x.1 >>= λ r. some (add_submodule true i x.0 r))
  unfolding work add_submodule visit
  pending-step m ms i h e = λ k.
      visit hooks (e k) i (work hooks m h) (advance_queues_only hooks m h)
        (work_submodules hooks ms (suc i))

  idle-step :
      (m : Module S) (ms : Modules S) (i : ℕ) (h : Heap P)
      → has_pending_work_recursive h m ≡ false
      → work_submodules hooks (cons m ms) i h ≡ (
          work hooks m h >>= λ x.
          work_submodules hooks ms (suc i) x.1 >>= λ r. some (add_submodule false i x.0 r))
  unfolding work add_submodule visit
  idle-step m ms i h e = λ k.
      visit hooks (e k) i (work hooks m h) (advance-eq-work m h e k)
        (work_submodules hooks ms (suc i))

  all-step :
      (m : Module S) (ms : Modules S) (i : ℕ) (h : Heap P) {b : Bool}
      → has_pending_work_recursive h m ≡ b
      → work_all_submodules (cons m ms) i h ≡ (
          work_all m h >>= λ x.
          work_all_submodules ms (suc i) x.1 >>= λ r. some (add_submodule b i x.0 r))
  unfolding work_all add_submodule
  all-step m ms i h e = λ k. work_all m h >>= λ x.
      work_all_submodules ms (suc i) x.1 >>= λ r. some (add_submodule (e k) i x.0 r)

  mutual
    unfolding work work_all

    work-eq-all : (m : Module S) (h : Heap P) → work hooks m h ≡ work_all m h
    work-eq-all (node s ms) h = λ k. work_own hooks s h >>= λ x.
        submodules-eq-all ms zero x.1 k >>= λ r. finish_cycle hooks x.0 r

    submodules-eq-all :
        (ms : Modules S) (i : ℕ) (h : Heap P)
        → work_submodules hooks ms i h ≡ work_all_submodules ms i h
    submodules-eq-all nil i h = refl
    submodules-eq-all (cons m ms) i h = elim (Bool-cases (has_pending_work_recursive h m)) [
      | inl e ↦
          pending-step m ms i h e
          ∙ (λ k. work-eq-all m h k >>= λ x.
              submodules-eq-all ms (suc i) x.1 k >>= λ r. some (add_submodule true i x.0 r))
          ∙ sym (all-step m ms i h e)
      | inr e ↦
          idle-step m ms i h e
          ∙ (λ k. work-eq-all m h k >>= λ x.
              submodules-eq-all ms (suc i) x.1 k >>= λ r. some (add_submodule false i x.0 r))
          ∙ sym (all-step m ms i h e)
    ]

  -- Asking for pending work changes nothing but the work: a cycle of the event-driven dispatch,
  -- which lets a submodule without an event in its subtree only advance its queues, is a cycle in
  -- which every submodule takes its `Work`, failures included.
  pub work-eq-work_all : (m : Module S) (h : Heap P) → work hooks m h ≡ work_all m h
  work-eq-work_all m h = work-eq-all m h
