-- ===== src/System/Modules.antt =====
-- A simulation of include/linx/model/sim_system.hpp whose objects are the recursive modules of
-- include/linx/model/module.hpp, on one heap of queues.
use linx_model.Base.{
  ℕ, zero, suc, Bool, true, false, Option, some, List, ◌≡◌, refl, sym, subst, if◌then◌else◌,
}
use linx_model.Module.{Module, node, Modules, nil, cons, ModuleState, Heap, Hooks}
use linx_model.Module.Setup.{build, reset}
use linx_model.Module.Cycle.{work, xfer, xfer_submodules, is_active}
use linx_model.Module.Total.{IsHeap, Within, OwnsWithin, AllOwnWithin, SoundWork, work-returns}
use linx_model.System.{SimObject}
use linx_model.System.Run.{SoundObject}

abbrev pub module_object : {P S : Type 0} → Hooks P S → SimObject (Module S) (Heap P)
module_object hooks = record {
  build = build hooks;
  reset = reset hooks;
  work = work hooks;
  xfer = xfer hooks;
}

-- The same of the overrides of `XferSelf`.
pub record SoundXfer {P S : Type 0} (n : ℕ) (hooks : Hooks P S) : Type 0 where
  pub returns :
      (s : ModuleState S) (h : Heap P)
      → IsHeap n h
      → (s' : ModuleState S) × (h' : Heap P) × (hooks.xfer_self s h ≡ some (s', h'))
        × (s'.owned_queues ≡ s.owned_queues)
        × IsHeap n h'

module _ {P S : Type 0} (hooks : Hooks P S) {n : ℕ} (sound : SoundXfer n hooks) where
  xfer_own-IsHeap :
      (ran : Bool) (s : ModuleState S) (h : Heap P)
      → IsHeap n h
      → (s' : ModuleState S) × (h' : Heap P) × ((if ran then hooks.xfer_self s h else some (s, h))
          ≡ some (s', h'))
        × (s'.owned_queues ≡ s.owned_queues)
        × IsHeap n h'
  xfer_own-IsHeap true s h v = sound.returns s h v
  xfer_own-IsHeap false s h v = (s, h, refl, refl, v)

  abbrev Moves : (m : Module S) (h : Heap P) → Option (Module S × Heap P) → Type 0
  Moves m h o =
      (m' : Module S) × (h' : Heap P) × (o ≡ some (m', h')) × OwnsWithin n m' × IsHeap n h'

  xfer_active-IsHeap :
      (active : Bool) (m : Module S) (h : Heap P)
      → OwnsWithin n m
      → IsHeap n h
      → Moves m h (xfer hooks m h)
      → Moves m h (if active then xfer hooks m h else some (m, h))
  xfer_active-IsHeap true m h w v moves = moves
  xfer_active-IsHeap false m h w v moves = (m, h, refl, w, v)

  mutual
    unfolding xfer OwnsWithin

    pub xfer-IsHeap :
        (m : Module S) (h : Heap P) → OwnsWithin n m → IsHeap n h → Moves m h (xfer hooks m h)
    xfer-IsHeap (node s ms) h w v =
        let (s', h₁, own, same, v₁) = xfer_own-IsHeap s.ran_work_self_last_cycle s h v in
        let (ms', h₂, subs, ws, v₂) =
          xfer_submodules-IsHeap ms zero s'.active_submodules h₁ w.1 v₁ in
        (node s' ms', h₂, rw (own, subs) refl, (subst (Within n) (sym same) w.0, ws), v₂)

    xfer_submodules-IsHeap :
        (ms : Modules S) (i : ℕ) (active : List ℕ) (h : Heap P)
        → AllOwnWithin n ms
        → IsHeap n h
        → (ms' : Modules S) × (h' : Heap P) × (xfer_submodules hooks ms i active h ≡ some (ms', h'))
          × AllOwnWithin n ms'
          × IsHeap n h'
    xfer_submodules-IsHeap nil i active h w v = (nil, h, refl, tt, v)
    xfer_submodules-IsHeap (cons m ms) i active h w v =
        let (m', h₁, first, w₁, v₁) =
          xfer_active-IsHeap (is_active hooks i active) m h w.0 v (xfer-IsHeap m h w.0 v) in
        let (ms', h₂, rest, ws, v₂) = xfer_submodules-IsHeap ms (suc i) active h₁ w.1 v₁ in
        (cons m' ms', h₂, rw (first, rest) refl, (w₁, ws), v₂)

-- Modules whose overrides return and leave valid queues are sound objects of a simulation.
unfoldable pub module_sound :
    {P S : Type 0} {n : ℕ} (hooks : Hooks P S)
    → SoundWork n hooks
    → SoundXfer n hooks
    → SoundObject (module_object hooks)
module_sound {n = n} hooks sound_work sound_xfer = record {
  IsReady = OwnsWithin n;
  IsShared = IsHeap n;
  work_returns = work-returns hooks sound_work;
  xfer_returns = xfer-IsHeap hooks sound_xfer;
}
