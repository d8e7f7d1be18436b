-- ===== src/System/Order.antt =====
-- The order of the calls that `Step` of include/linx/model/sim_system.hpp makes.
use linx_model.Base.{
  ℕ, zero, suc, ◌+◌, ◌%◌, ◌^◌, ◌≡◌, refl, sym, ap, ap₂, subst, ◌∙◌, Option, none, some, List, [],
  ◌∷◌, ◌++◌, map, arith, append_assoc, append-nil, >>=-eq-some,
}
use linx_model.System.{SimObject, SimSystem, each, with_modules, step, steps}

-- A call of an object, by its number.
pub data Event : Type 0 where
  worked : ℕ → Event
  moved : ℕ → Event

module _ {X H : Type 0} where
  -- A call that writes down that it was made.
  abbrev pub recorded :
      (ℕ → Event)
      → (X → H → Option (X × H))
      → ℕ × X
      → H × List Event
      → Option ((ℕ × X) × (H × List Event))
  recorded event f x h = elim (f x.1 h.0) [
    | none ↦ none
    | some r ↦ some ((x.0, r.0), (r.1, h.1 ++ event x.0 ∷ []))
  ]

  -- The objects with numbers, over a shared part with a log of the calls of `Work` and `Xfer`.
  abbrev pub numbered : SimObject X H → SimObject (ℕ × X) (H × List Event)
  numbered object = record {
    build = λ x h. some (x, h);
    reset = λ x h. some (x, h);
    work = recorded worked object.work;
    xfer = recorded moved object.xfer;
  }

module _ {X : Type 0} where
  abbrev pub numbers : List (ℕ × X) → List ℕ
  numbers [] = []
  numbers (x ∷ xs) = x.0 ∷ numbers xs

  abbrev pub objects : List (ℕ × X) → List X
  objects [] = []
  objects (x ∷ xs) = x.1 ∷ objects xs

module _ {X H : Type 0} where
  -- The system without the numbers and the log.
  abbrev pub plain : SimSystem (ℕ × X) (H × List Event) → SimSystem X H
  plain s = record {
    modules = objects s.modules;
    shared = s.shared.0;
    program_image = s.program_image;
    cycle = s.cycle;
    built = s.built;
    terminate_requested = s.terminate_requested;
  }

-- The calls of `n` cycles: in each, the `Work` of every object in the order of registration, and
-- only then the `Xfer` of every one.
abbrev pub schedule : ℕ → List ℕ → List Event
schedule zero ids = []
schedule (suc n) ids = map worked ids ++ (map moved ids ++ schedule n ids)

each-cons :
    {X H : Type 0} (f : X → H → Option (X × H)) (x x' : X) (xs xs' : List X) (h h' h'' : H)
    → f x h ≡ some (x', h')
    → each f xs h' ≡ some (xs', h'')
    → each f (x ∷ xs) h ≡ some (x' ∷ xs', h'')
each-cons f x x' xs xs' h h' h'' first rest = rw (first, rest) refl

module _ {X H : Type 0} (event : ℕ → Event) (f : X → H → Option (X × H)) where
  recorded-some :
      (x : ℕ × X) (h : H × List Event) (x' : X) (h' : H)
      → f x.1 h.0 ≡ some (x', h')
      → recorded event f x h ≡ some ((x.0, x'), (h', h.1 ++ event x.0 ∷ []))
  recorded-some x h x' h' called = rw (called, recorded) refl

  each-recorded :
      (xs : List (ℕ × X)) (h : H × List Event) (ys : List X) (k : H)
      → each f (objects xs) h.0 ≡ some (ys, k)
      → (xs' : List (ℕ × X)) × (each (recorded event f) xs h
          ≡ some (xs', (k, h.1 ++ map event (numbers xs))))
        × (objects xs' ≡ ys)
        × (numbers xs' ≡ numbers xs)
  each-recorded [] h ys k e = ([], ground (arith, e, append-nil h.1), ground (arith, e), refl)
  each-recorded (x ∷ xs) h ys k e =
      let ((x', h'), first, e) = >>=-eq-some (f x.1 h.0) _ e in
      let ((ys', k'), rest, e) = >>=-eq-some (each f (objects xs) h') _ e in
      let log : List Event = h.1 ++ event x.0 ∷ [] in
      let (xs', done, same, ids) = each-recorded xs (h', log) ys' k' rest in
      let end : k' ≡ k = ground (arith, e) in
      let all =
        each-cons (recorded event f) x (x.0, x') xs xs' h (h', log) _
          (recorded-some x h x' h' first) done in
      (
        (x.0, x') ∷ xs',
        all
            ∙ ap₂ (λ (c : H) (l : List Event). some ((x.0, x') ∷ xs', (c, l))) end
                (append_assoc h.1 (event x.0 ∷ []) (map event (numbers xs))),
        ap (λ zs. x' ∷ zs) same ∙ ground (arith, e),
        ap (λ ns. x.0 ∷ ns) ids,
      )

module _ {X H : Type 0} (object : SimObject X H) where
  step-schedule :
      (s : SimSystem (ℕ × X) (H × List Event)) (u : SimSystem X H)
      → step object (plain s) ≡ some u
      → (t : SimSystem (ℕ × X) (H × List Event)) × (step (numbered object) s ≡ some t)
        × (plain t ≡ u)
        × (numbers t.modules ≡ numbers s.modules)
        × (t.shared.1
            ≡ (s.shared.1 ++ map worked (numbers s.modules)) ++ map moved (numbers s.modules))
  unfolding step
  step-schedule s u e =
      let ((ms, h), first, e) = >>=-eq-some (each object.work (objects s.modules) s.shared.0) _ e in
      let ((ms', h'), rest, e) = >>=-eq-some (each object.xfer ms h) _ e in
      let (xs, works, same, ids) = each-recorded worked object.work s.modules s.shared ms h first in
      let log : List Event = s.shared.1 ++ map worked (numbers s.modules) in
      let rest' : each object.xfer (objects xs) h ≡ some (ms', h') =
        subst (λ (zs : List X). each object.xfer zs h ≡ some (ms', h')) (sym same) rest in
      let (ys, moves, same', ids') = each-recorded moved object.xfer xs (h, log) ms' h' rest' in
      (
        record (with_modules s (ys, (h', log ++ map moved (numbers xs)))) {
          cycle = (s.cycle + 1) % 2 ^ 64;
        },
        rw (works, moves) refl,
        ap
              (λ (zs : List X). record (with_modules (plain s) (zs, h')) {
                cycle = (s.cycle + 1) % 2 ^ 64;
              })
              same'
            ∙ ground (arith, e),
        ids' ∙ ids,
        ap (λ ns. log ++ map moved ns) ids,
      )

  -- Whatever its objects, a simulation that runs for `n` cycles makes in each one call of `Work` for
  -- every object, in the order of registration, and only then one of `Xfer` for every object, in the
  -- same order: with its objects numbered and each call written to a log, it takes the same steps, and
  -- the log has these calls.
  pub steps-schedule :
      (n : ℕ) (s : SimSystem (ℕ × X) (H × List Event)) (u : SimSystem X H)
      → steps object n (plain s) ≡ some u
      → (t : SimSystem (ℕ × X) (H × List Event)) × (steps (numbered object) n s ≡ some t)
        × (plain t ≡ u)
        × (numbers t.modules ≡ numbers s.modules)
        × (t.shared.1 ≡ s.shared.1 ++ schedule n (numbers s.modules))
  unfolding steps
  steps-schedule zero s u e = (s, refl, ground (arith, e), refl, sym (append-nil s.shared.1))
  steps-schedule (suc n) s u e =
      let (v, first, rest) = >>=-eq-some (step object (plain s)) _ e in
      let (t, stepped, same, ids, log) = step-schedule s v first in
      let rest' : steps object n (plain t) ≡ some u =
        subst (λ (w : SimSystem X H). steps object n w ≡ some u) (sym same) rest in
      let (t', done, same', ids', log') = steps-schedule n t u rest' in
      let before = s.shared.1 in
      let ws = map worked (numbers s.modules) in
      let xs = map moved (numbers s.modules) in
      let after = schedule n (numbers s.modules) in
      (
        t',
        rw stepped done,
        same',
        ids' ∙ ids,
        log'
            ∙ ap₂ (λ (l : List Event) (ns : List ℕ). l ++ schedule n ns) log ids
            ∙ append_assoc (before ++ ws) xs after
            ∙ append_assoc before ws (xs ++ after),
      )
