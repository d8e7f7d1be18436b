-- ===== src/Main/Loop.antt =====
-- The main loop of include/linx/model/sim_main.hpp, `RunSimMain`, on a system with its program
-- loaded. The loop runs on fuel; what it prints is left out.
use linx_model.Base.{
  ℕ, zero, suc, ◌+◌, ◌%◌, ◌^◌, ◌≤◌, ◌<◌, ◌≡◌, ◌⊎◌, inl, inr, Bool, true, false, Option, none, some,
  leb, ◌>>=◌, if◌then◌else◌, arith, refl, ap, ◌∙◌, Bool-cases,
}
use linx_model.System.{SimObject, SimSystem, SystemHooks, step, build, reset, request_terminate}
use linx_model.System.Run.{SoundObject, IsRunning, step-returns}
use linx_model.Main.{SimMainArgs}

-- The virtual functions of the system that only the main loop calls.
pub record RunHooks (X H : Type 0) : Type 0 where
  pub run_reference : Option ℕ → SimSystem X H → Option (SimSystem X H)
  pub need_terminate : SimSystem X H → Bool

pub data RunResult (X H : Type 0) : Type 0 where
  finished : SimSystem X H → RunResult X H
  asserts : RunResult X H
  out_of_fuel : RunResult X H

-- `args.max_cycles.has_value() && sim.Cycle() >= *args.max_cycles`.
abbrev pub is_past : Option ℕ → ℕ → Bool
is_past none cycle = false
is_past (some n) cycle = leb n cycle

module _ {X H : Type 0} (object : SimObject X H) (hooks : RunHooks X H) (args : SimMainArgs) where
  -- The end of a turn: the system, and whether the loop ends.
  unfoldable pub finish_turn : SimSystem X H → SimSystem X H × Bool
  unfolding request_terminate
  finish_turn s =
      if hooks.need_terminate s
      then (s, true)
      else if is_past args.max_cycles s.cycle
      then (request_terminate s, true)
      else (s, false)

  unfoldable pub take_turn : SimSystem X H → Option (SimSystem X H × Bool)
  unfolding finish_turn
  take_turn s = do
    s' ← (if args.enable_reference then hooks.run_reference args.stop_pc s else some s)
    s'' ← step object s'
    some (finish_turn s'')

  unfoldable pub run_loop : ℕ → Bool → SimSystem X H → RunResult X H
  unfolding take_turn
  run_loop fuel true s = finished s
  run_loop zero false s = out_of_fuel
  run_loop (suc fuel) false s = elim (take_turn s) [
    | none ↦ asserts
    | some (s', terminate) ↦ run_loop fuel terminate s'
  ]

  -- `RunSimMain` from `Build` on.
  unfoldable pub run_sim_main : SystemHooks X H → ℕ → SimSystem X H → RunResult X H
  unfolding run_loop
  run_sim_main system_hooks fuel s =
      let ready = build object system_hooks s >>= λ b. reset object system_hooks b in
      elim ready [ none ↦ asserts | some r ↦ run_loop fuel (hooks.need_terminate r) r ]

  module _ (sound : SoundObject object)
      (reference_returns : (pc : Option ℕ) (s : SimSystem X H)
        → IsRunning object sound s
        → (s' : SimSystem X H) × (hooks.run_reference pc s ≡ some s')
          × IsRunning object sound s'
          × (s'.cycle ≡ s.cycle)) where
    reference-returns :
        (b : Bool) (s : SimSystem X H)
        → IsRunning object sound s
        → (s' : SimSystem X H) × ((if b then hooks.run_reference args.stop_pc s else some s)
            ≡ some s')
          × IsRunning object sound s'
          × (s'.cycle ≡ s.cycle)
    reference-returns true s v = reference_returns args.stop_pc s v
    reference-returns false s v = (s, refl, v, refl)

    finish_turn-kept :
        (s : SimSystem X H) (n : ℕ)
        → args.max_cycles ≡ some n
        → IsRunning object sound s
        → IsRunning object sound (finish_turn s).0
          × ((finish_turn s).0.cycle ≡ s.cycle)
          × (((finish_turn s).1 ≡ true) ⊎ (s.cycle < n))
    unfolding finish_turn request_terminate
    finish_turn-kept s n e v = elim (Bool-cases (hooks.need_terminate s)) [
      | inl asked ↦ rw asked (v, refl, inl refl)
      | inr goes ↦ rw (goes, e) (past (leb n s.cycle) refl)
    ]
      where
        past :
            (b : Bool)
            → leb n s.cycle ≡ b
            → let r : SimSystem X H × Bool =
                if b then (request_terminate s, true) else (s, false) in
              IsRunning object sound r.0 × (r.0.cycle ≡ s.cycle) × ((r.1 ≡ true) ⊎ (s.cycle < n))
        past true le = (record { ready = v.ready; shared_ok = v.shared_ok }, refl, inl refl)
        past false gt = (v, refl, inr (ground (arith, gt)))

    take_turn-returns :
        (s : SimSystem X H) (n : ℕ)
        → args.max_cycles ≡ some n
        → IsRunning object sound s
        → (s' : SimSystem X H) × (terminate : Bool) × (take_turn s ≡ some (s', terminate))
          × IsRunning object sound s'
          × (s'.cycle ≡ (s.cycle + 1) % 2 ^ 64)
          × ((terminate ≡ true) ⊎ (s'.cycle < n))
    unfolding take_turn
    take_turn-returns s n e v =
        let (s₁, first, v₁, same) = reference-returns args.enable_reference s v in
        let (s₂, stepped, v₂, at, _, _, _) = step-returns object sound s₁ v₁ in
        let (v₃, at', past) = finish_turn-kept s₂ n e v₂ in
        (
          (finish_turn s₂).0,
          (finish_turn s₂).1,
          rw (first, stepped) refl,
          v₃,
          omega (arith, same, at, at'),
          ended past at',
        )
      where
        ended : {b : Bool} {c d : ℕ} → (b ≡ true) ⊎ (d < n) → c ≡ d → (b ≡ true) ⊎ (c < n)
        ended (inl h) at = inl h
        ended (inr h) at = inr (omega (arith, h, at))

    run_loop-true :
        (fuel : ℕ) (b : Bool) (s : SimSystem X H) → b ≡ true → run_loop fuel b s ≡ finished s
    unfolding run_loop
    run_loop-true fuel true s e = refl
    run_loop-true fuel false s e = cc

    run_loop-step :
        (fuel : ℕ) (s s' : SimSystem X H) (b : Bool)
        → take_turn s ≡ some (s', b)
        → run_loop (suc fuel) false s ≡ run_loop fuel b s'
    unfolding run_loop
    run_loop-step fuel s s' b e = ground (arith, e)

    -- With a bound of `n` cycles the main loop ends without a failed assertion, within as many
    -- turns as the cycles left, or one, and the cycle it ends at is at most that far: the objects
    -- are sound, and `RunReference` returns and keeps the cycle.
    pub run_loop-finishes :
        (fuel n : ℕ) (s : SimSystem X H)
        → args.max_cycles ≡ some n
        → IsRunning object sound s
        → s.cycle + fuel < 2 ^ 64
        → n ≤ s.cycle + fuel
        → 0 < fuel
        → (u : SimSystem X H) × (run_loop fuel false s ≡ finished u)
          × IsRunning object sound u
          × (s.cycle < u.cycle)
          × (u.cycle ≤ s.cycle + fuel)
    run_loop-finishes zero n s e v small enough some_fuel = absurd (omega arith)
    run_loop-finishes (suc fuel) n s e v small enough some_fuel =
        let (s', b, turn, w, at, past) = take_turn-returns s n e v in
        let first = run_loop-step fuel s s' b turn in
        elim (Bool-cases b) [
          | inl ends ↦
              (s', first ∙ run_loop-true fuel b s' ends, w, omega (arith, at), omega (arith, at))
          | inr goes ↦
              let below : s'.cycle < n = still b goes past in
              let (u, rest, x, later, bound) =
                run_loop-finishes fuel n s' e w (omega (arith, at)) (omega (arith, at))
                  (omega (arith, at, below)) in
              (
                u,
                first ∙ ap (λ c. run_loop fuel c s') goes ∙ rest,
                x,
                omega (arith, at, later),
                omega (arith, at, bound),
              )
        ]
      where
        still : {c : ℕ} (b : Bool) → b ≡ false → (b ≡ true) ⊎ (c < n) → c < n
        still b no_end (inl yes_end) = absurd (ground (arith, no_end, yes_end))
        still b no_end (inr h) = h
