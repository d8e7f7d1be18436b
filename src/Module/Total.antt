-- ===== src/Module/Total.antt =====
-- That a cycle of include/linx/model/module.hpp fails no assertion of a queue.
use linx_model.Base.{
  ℕ, zero, suc, ◌<◌, Bool, true, false, some, List, [], ◌∷◌, ◌≡◌, ◌≢◌, ◌⊎◌, if◌then◌else◌, length,
  length-set, get_elem?, set, get_elem?-set_self, get_elem?-set_ne, arith, refl, sym, subst, ◌∙◌,
  inl, inr, Bool-cases,
}
use linx_model.SimQueue
use linx_model.SimQueue.{SimQueue}
use linx_model.SimQueue.Invariant.{IsValid, work-IsValid}
use linx_model.Module.{
  Module, node, Modules, nil, cons, ModuleState, Heap, Hooks, capture_observed_input_epochs,
  has_input_event, has_pending_work_recursive, work_queues,
}
use linx_model.Module.Cycle.{Ran, run_self, work_own, finish_cycle, push_active, push_module, work}
use linx_model.Module.Skip.{work_all, work_all_submodules, work-eq-work_all}

-- A heap of `n` queues, each of which keeps the invariant of `SimQueue`.
pub record IsHeap {P : Type 0} (n : ℕ) (h : Heap P) : Type 0 where
  pub size : length h ≡ n
  pub valid : (q : ℕ) (c : SimQueue P) → get_elem? h q ≡ some c → IsValid c

-- Each of the queues stands on a heap of `n` queues.
abbrev pub Within : ℕ → List ℕ → Type 0
Within n [] = Unit
Within n (q ∷ qs) = (q < n) × Within n qs

-- Every module of the tree owns queues of the heap.
unfoldable mutual
  pub OwnsWithin : {S : Type 0} → ℕ → Module S → Type 0
  OwnsWithin n (node s ms) = Within n s.owned_queues × AllOwnWithin n ms

  pub AllOwnWithin : {S : Type 0} → ℕ → Modules S → Type 0
  AllOwnWithin n nil = Unit
  AllOwnWithin n (cons m ms) = OwnsWithin n m × AllOwnWithin n ms

-- What the cycle asks of the overrides of `WorkSelf`: that they return, leave the owned queues as
-- they are, and leave a heap of valid queues.
pub record SoundWork {P S : Type 0} (n : ℕ) (hooks : Hooks P S) : Type 0 where
  pub returns :
      (s : ModuleState S) (h : Heap P)
      → IsHeap n h
      → (s' : ModuleState S) × (h' : Heap P) × (hooks.work_self s h ≡ some (s', h'))
        × (s'.owned_queues ≡ s.owned_queues)
        × IsHeap n h'

module _ {P : Type 0} where
  get_elem?-Within :
      (h : Heap P) (q : ℕ) → q < length h → (c : SimQueue P) × (get_elem? h q ≡ some c)
  get_elem?-Within [] q inside = absurd (omega arith)
  get_elem?-Within (x ∷ xs) zero inside = (x, refl)
  get_elem?-Within (x ∷ xs) (suc q) inside = get_elem?-Within xs q (omega arith)

  work_queues-step :
      (q : ℕ) (qs : List ℕ) (h : Heap P) (c c' : SimQueue P)
      → get_elem? h q ≡ some c
      → SimQueue.work c ≡ some c'
      → work_queues (q ∷ qs) h ≡ work_queues qs (set h q c')
  unfolding work_queues
  work_queues-step q qs h c c' at worked = ground (arith, at, worked)

module _ {P : Type 0} {n : ℕ} where
  IsHeap-set :
      (h : Heap P) (q : ℕ) (c : SimQueue P) → q < n → IsHeap n h → IsValid c → IsHeap n (set h q c)
  IsHeap-set h q c inside v ok = record {
    size = length-set h q c ∙ v.size;
    valid = λ p d at. elim (decide p) [
      | inl same ↦ subst IsValid (some-inj (sym (stored p same) ∙ at)) ok
      | inr other ↦ v.valid p d (sym (get_elem?-set_ne h q p c other) ∙ at)
    ];
  }
    where
      decide : (p : ℕ) → (q ≡ p) ⊎ (q ≢ p)
      decide p = omega arith

      some-inj : {a b : SimQueue P} → some a ≡ some b → a ≡ b
      some-inj e = cc

      stored : (p : ℕ) → q ≡ p → get_elem? (set h q c) p ≡ some c
      stored p same = rw (sym same) (get_elem?-set_self h q c (omega (arith, v.size)))

  work_queues-IsHeap :
      (qs : List ℕ) (h : Heap P)
      → Within n qs
      → IsHeap n h
      → (h' : Heap P) × (work_queues qs h ≡ some h') × IsHeap n h'
  unfolding work_queues
  work_queues-IsHeap [] h w v = (h, refl, v)
  work_queues-IsHeap (q ∷ qs) h w v =
      let (c, at) = get_elem?-Within h q (omega (arith, w.0, v.size)) in
      let (c', worked, ok) = work-IsValid (v.valid q c at) in
      let (h', ran, v') = work_queues-IsHeap qs (set h q c') w.1 (IsHeap-set h q c' w.0 v ok) in
      (h', work_queues-step q qs h c c' at worked ∙ ran, v')

module _ {P S : Type 0} (hooks : Hooks P S) {n : ℕ} (sound : SoundWork n hooks) where
  work_own-IsHeap :
      (s : ModuleState S) (h : Heap P)
      → IsHeap n h
      → (s' : ModuleState S) × (h' : Heap P) × (work_own hooks s h ≡ some (s', h'))
        × (s'.owned_queues ≡ s.owned_queues)
        × IsHeap n h'
  unfolding work_own run_self capture_observed_input_epochs
  work_own-IsHeap s h v = elim (Bool-cases (has_input_event h s)) [
    | inl event ↦
        let cleared : ModuleState S = record s {
          active_submodules = [];
          ran_work_self_last_cycle = true;
        } in
        let (s', h', ran, owned, v') = sound.returns cleared h v in
        (
          capture_observed_input_epochs h' (record s' { force_activate_self = false }),
          h',
          rw (event, ran) refl,
          owned,
          v',
        )
    | inr quiet ↦ (
      record s { active_submodules = []; ran_work_self_last_cycle = false },
      h,
      rw quiet refl,
      refl,
      v,
    )
  ]

  finish_cycle-IsHeap :
      (s : ModuleState S) (r : Ran P S)
      → Within n s.owned_queues
      → AllOwnWithin n r.modules
      → IsHeap n r.heap
      → (m' : Module S) × (h' : Heap P) × (finish_cycle hooks s r ≡ some (m', h'))
        × OwnsWithin n m'
        × IsHeap n h'
  unfolding finish_cycle OwnsWithin
  finish_cycle-IsHeap s r w ws v =
      let (h', ran, v') = work_queues-IsHeap s.owned_queues r.heap w v in
      (node (record s { active_submodules = r.active }) r.modules, h', rw ran refl, (w, ws), v')

  abbrev with_module : Bool → ℕ → Module S → Ran P S → Ran P S
  with_module b i m r =
      if b then push_active hooks i (push_module hooks m r) else push_module hooks m r

  with_module-Owns :
      (b : Bool) (i : ℕ) (m : Module S) (r : Ran P S)
      → OwnsWithin n m
      → AllOwnWithin n r.modules
      → AllOwnWithin n (with_module b i m r).modules
  unfolding OwnsWithin
  with_module-Owns true i m r w ws = (w, ws)
  with_module-Owns false i m r w ws = (w, ws)

  with_module-heap :
      (b : Bool) (i : ℕ) (m : Module S) (r : Ran P S) → (with_module b i m r).heap ≡ r.heap
  with_module-heap true i m r = refl
  with_module-heap false i m r = refl

  mutual
    unfolding work_all OwnsWithin

    all-IsHeap :
        (m : Module S) (h : Heap P)
        → OwnsWithin n m
        → IsHeap n h
        → (m' : Module S) × (h' : Heap P) × (work_all hooks m h ≡ some (m', h'))
          × OwnsWithin n m'
          × IsHeap n h'
    all-IsHeap (node s ms) h w v =
        let (s', h₁, own, same, v₁) = work_own-IsHeap s h v in
        let (r, subs, ws, v₂) = submodules-IsHeap ms zero h₁ w.1 v₁ in
        let (m', h', last, w', v') =
          finish_cycle-IsHeap s' r (subst (Within n) (sym same) w.0) ws v₂ in
        (m', h', rw (own, subs) last, w', v')

    submodules-IsHeap :
        (ms : Modules S) (i : ℕ) (h : Heap P)
        → AllOwnWithin n ms
        → IsHeap n h
        → (r : Ran P S) × (work_all_submodules hooks ms i h ≡ some r)
          × AllOwnWithin n r.modules
          × IsHeap n r.heap
    submodules-IsHeap nil i h w v = (record { modules = nil; heap = h; active = [] }, refl, w, v)
    submodules-IsHeap (cons m ms) i h w v =
        let (m', h₁, first, w₁, v₁) = all-IsHeap m h w.0 v in
        let (r, rest, ws, v₂) = submodules-IsHeap ms (suc i) h₁ w.1 v₁ in
        let b = has_pending_work_recursive h m in
        (
          with_module b i m' r,
          rw (first, rest) refl,
          with_module-Owns b i m' r w₁ ws,
          subst (IsHeap n) (sym (with_module-heap b i m' r)) v₂,
        )

  -- Where the overrides of `WorkSelf` return and leave valid queues, a cycle of a tree of modules
  -- whose owned queues are valid fails no assertion, and leaves such a tree and valid queues.
  pub work-returns :
      (m : Module S) (h : Heap P)
      → OwnsWithin n m
      → IsHeap n h
      → (m' : Module S) × (h' : Heap P) × (work hooks m h ≡ some (m', h'))
        × OwnsWithin n m'
        × IsHeap n h'
  work-returns m h w v =
      let (m', h', ran, owns, kept) = all-IsHeap m h w v in
      (m', h', work-eq-work_all hooks m h ∙ ran, owns, kept)
