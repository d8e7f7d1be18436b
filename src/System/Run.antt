-- ===== src/System/Run.antt =====
-- Runs of include/linx/model/sim_system.hpp.
use linx_model.Base.{
  ℕ, zero, suc, ◌+◌, ◌%◌, ◌^◌, ◌≡◌, ◌<◌, false, Option, some, List, [], ◌∷◌, >>=-eq-some, length,
  refl, ap, ◌∙◌, arith,
}
use linx_model.System.{SimObject, SimSystem, SystemHooks, each, with_modules, step, steps, reset}

-- What a system asks of its objects: that `Work` and `Xfer` return, from a state and a shared part
-- that they can start from to ones of the same kind.
pub record SoundObject {X H : Type 0} (object : SimObject X H) : Type 1 where
  pub IsReady : X → Type 0
  pub IsShared : H → Type 0
  pub work_returns :
      (x : X) (h : H)
      → IsReady x
      → IsShared h
      → (x' : X) × (h' : H) × (object.work x h ≡ some (x', h')) × IsReady x' × IsShared h'
  pub xfer_returns :
      (x : X) (h : H)
      → IsReady x
      → IsShared h
      → (x' : X) × (h' : H) × (object.xfer x h ≡ some (x', h')) × IsReady x' × IsShared h'

module _ {X : Type 0} where
  abbrev pub All : (X → Type 0) → List X → Type 0
  All Q [] = Unit
  All Q (x ∷ xs) = Q x × All Q xs

module _ {X H : Type 0} (Ready : X → Type 0) (Shared : H → Type 0) (f : X → H → Option (X × H))
    (f_returns : (x : X) (h : H)
      → Ready x
      → Shared h
      → (x' : X) × (h' : H) × (f x h ≡ some (x', h')) × Ready x' × Shared h') where
  each-All :
      (xs : List X) (h : H)
      → All Ready xs
      → Shared h
      → (xs' : List X) × (h' : H) × (each f xs h ≡ some (xs', h'))
        × All Ready xs'
        × Shared h'
        × (length xs' ≡ length xs)
  each-All [] h r v = ([], h, refl, tt, v, refl)
  each-All (x ∷ xs) h r v =
      let (x', h₁, first, r₁, v₁) = f_returns x h r.0 v in
      let (xs', h₂, rest, rs, v₂, same) = each-All xs h₁ r.1 v₁ in
      (x' ∷ xs', h₂, rw (first, rest) refl, (r₁, rs), v₂, ap suc same)

module _ {X H : Type 0} (object : SimObject X H) (sound : SoundObject object) where
  -- A system that a run can start from, or be in.
  pub record IsRunning (s : SimSystem X H) : Type 0 where
    pub ready : All sound.IsReady s.modules
    pub shared_ok : sound.IsShared s.shared

  pub step-returns :
      (s : SimSystem X H)
      → IsRunning s
      → (s' : SimSystem X H) × (step object s ≡ some s')
        × IsRunning s'
        × (s'.cycle ≡ (s.cycle + 1) % 2 ^ 64)
        × (length s'.modules ≡ length s.modules)
        × (s'.built ≡ s.built)
        × (s'.terminate_requested ≡ s.terminate_requested)
  unfolding step
  step-returns s v =
      let (ms, h, worked, r, w, same) =
        each-All sound.IsReady sound.IsShared object.work sound.work_returns s.modules s.shared
          v.ready v.shared_ok in
      let (ms', h', moved, r', w', same') =
        each-All sound.IsReady sound.IsShared object.xfer sound.xfer_returns ms h r w in
      (
        record (with_modules s (ms', h')) { cycle = (s.cycle + 1) % 2 ^ 64 },
        rw (worked, moved) refl,
        record { ready = r'; shared_ok = w' },
        refl,
        same' ∙ same,
        refl,
        refl,
      )

  -- A system of sound objects runs for any number of cycles without a failed assertion: the cycle
  -- counter advances by that number, on 64 bits, and no module is lost.
  pub steps-returns :
      (n : ℕ) (s : SimSystem X H)
      → IsRunning s
      → s.cycle ≡ s.cycle % 2 ^ 64
      → (s' : SimSystem X H) × (steps object n s ≡ some s')
        × IsRunning s'
        × (s'.cycle ≡ (s.cycle + n) % 2 ^ 64)
        × (length s'.modules ≡ length s.modules)
        × (s'.built ≡ s.built)
        × (s'.terminate_requested ≡ s.terminate_requested)
  unfolding steps
  steps-returns zero s v small = (s, refl, v, omega (arith, small), refl, refl, refl)
  steps-returns (suc n) s v small =
      let (t, first, w, at, count, b, q) = step-returns s v in
      let (s', rest, v', at', count', b', q') = steps-returns n t w (omega (arith, at)) in
      (s', rw first rest, v', omega (arith, at, at'), count' ∙ count, b' ∙ b, q' ∙ q)

module _ {X H : Type 0} (object : SimObject X H) where
  step-cycle :
      (s t : SimSystem X H)
      → step object s ≡ some t
      → (t.cycle ≡ (s.cycle + 1) % 2 ^ 64) × (t.terminate_requested ≡ s.terminate_requested)
  unfolding step
  step-cycle s t e =
      let (worked, _, e) = >>=-eq-some (each object.work s.modules s.shared) _ e in
      let (moved, _, e) = >>=-eq-some (each object.xfer worked.0 worked.1) _ e in ground (arith, e)

  steps-cycle :
      (n : ℕ) (s t : SimSystem X H)
      → s.cycle < 2 ^ 64
      → steps object n s ≡ some t
      → (t.cycle ≡ (s.cycle + n) % 2 ^ 64) × (t.terminate_requested ≡ s.terminate_requested)
  unfolding steps
  steps-cycle zero s t small e = ground (arith, e)
  steps-cycle (suc n) s t small e =
      let (m, first, rest) = >>=-eq-some (step object s) _ e in
      let (at, asked) = step-cycle s m first in
      let (at', asked') = steps-cycle n m t (omega (arith, at)) rest in
      (omega (arith, at, at'), asked' ∙ asked)

module _ {X H : Type 0} (object : SimObject X H) (hooks : SystemHooks X H) where
  -- A `Reset` that returns puts the system at cycle 0 with no termination asked for, and `n` steps
  -- that return from there end at cycle `n`, on 64 bits.
  pub steps-reset :
      (n : ℕ) (s t u : SimSystem X H)
      → reset object hooks s ≡ some t
      → steps object n t ≡ some u
      → (u.cycle ≡ n % 2 ^ 64) × (u.terminate_requested ≡ false)
  unfolding reset
  steps-reset n s t u e e' =
      let (s₁, _, e) = >>=-eq-some (hooks.reset_system s) _ e in
      let (r, _, e) = >>=-eq-some (each object.reset s₁.modules s₁.shared) _ e in
      let at : t.cycle ≡ 0 = ground (arith, e) in
      let asked : t.terminate_requested ≡ false = ground (arith, e) in
      let (at', asked') = steps-cycle object n t u (omega (arith, at)) e' in
      (omega (arith, at, at'), asked' ∙ asked)
