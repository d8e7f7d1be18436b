-- ===== src/Module/Bindings.antt =====
-- How the ports of include/linx/model/module.hpp bind queues.
use Prim.Native.String.{String}
use linx_model.Base.{
  ◌++◌, ◌∙◌, subst, ℕ, zero, suc, ◌+◌, ◌≤◌, true, false, Option, none, some, List, [], ◌∷◌, ◌≡◌,
  ◌==◌, if◌then◌else◌, length, length-append, length-set, get_elem?, set, arith, refl, sym, inl,
  inr, Bool-cases, Option-cases, >>=-eq-some,
}
use linx_model.Module.{PortDirection, PortInfo, ModuleState}
use linx_model.Module.Ports.{
  holds, contains_queue, resize, describe_port, slots_of, ports_of, set_slots, set_ports, describe,
  is_slot_bindable, bind_port, bind, add, PortCall, describe_call, bind_call, add_call, call, calls,
}

-- In how many slots the queue stands.
abbrev pub count : ℕ → List (Option ℕ) → ℕ
count q [] = 0
count q (x ∷ xs) = if holds x q then suc (count q xs) else count q xs

count-zero : (q : ℕ) (xs : List (Option ℕ)) → contains_queue xs q ≡ false → count q xs ≡ 0
unfolding contains_queue
count-zero q [] h = refl
count-zero q (x ∷ xs) h = ground (arith, count-zero q xs)

length-resize : (xs : List (Option ℕ)) (n : ℕ) → length (resize xs n) ≡ n
unfolding resize
length-resize xs zero = refl
length-resize [] (suc n) = ground (arith, length-resize [] n)
length-resize (x ∷ xs) (suc n) = ground (arith, length-resize xs n)

count-resize : (q : ℕ) (xs : List (Option ℕ)) (n : ℕ) → count q (resize xs n) ≤ count q xs
unfolding resize
count-resize q xs zero = omega arith
count-resize q [] (suc n) = count-resize q [] n
count-resize q (x ∷ xs) (suc n) = ground (arith, count-resize q xs n)

count-set :
    (p q : ℕ) (xs : List (Option ℕ)) (i : ℕ)
    → count p (set xs i (some q)) ≤ count p xs + (if q == p then 1 else 0)
count-set p q [] i = ground arith
count-set p q (x ∷ xs) zero = ground arith
count-set p q (x ∷ xs) (suc i) = ground (arith, count-set p q xs i)

-- Setting a slot to the queue it holds changes no count.
count-set_same :
    (p q : ℕ) (xs : List (Option ℕ)) (i : ℕ) (current : Option ℕ)
    → get_elem? xs i ≡ some current
    → holds current q ≡ true
    → count p (set xs i (some q)) ≤ count p xs
count-set_same p q [] i current e same = cc
count-set_same p q (x ∷ xs) zero none e same = cc
count-set_same p q (none ∷ xs) zero (some r) e same = cc
count-set_same p q (some t ∷ xs) zero (some r) e same = ground arith
count-set_same p q (x ∷ xs) (suc i) current e same = ground (arith, count-set_same p q xs i current)

module _ {S : Type 0} where
  abbrev pub bindings : ℕ → ModuleState S → ℕ
  bindings q s = count q s.inputs + count q s.outputs + count q s.inners

  -- As many slots as ports in every role, and no queue in two slots.
  pub record IsWired (s : ModuleState S) : Type 0 where
    pub slots : (d : PortDirection) → length (slots_of d s) ≡ length (ports_of d s)
    pub once : (q : ℕ) → bindings q s ≤ 1

  -- What a change of one role's slots does to the number of bindings.
  bindings-set_slots :
      (d : PortDirection) (s : ModuleState S) (slots : List (Option ℕ)) (q : ℕ)
      → bindings q (set_slots d s slots) + count q (slots_of d s) ≡ bindings q s + count q slots
  bindings-set_slots PortDirection.input s slots q = omega arith
  bindings-set_slots PortDirection.output s slots q = omega arith
  bindings-set_slots PortDirection.inner s slots q = omega arith

  bindings-bindable :
      (s : ModuleState S) (q : ℕ) (current : Option ℕ)
      → is_slot_bindable s q current ≡ true
      → holds current q ≡ false
      → bindings q s ≡ 0
  unfolding is_slot_bindable
  bindings-bindable s q current ok other =
      ground (arith, count-zero q s.inputs, count-zero q s.outputs, count-zero q s.inners)

  once-bind :
      (d : PortDirection) (s : ModuleState S) (idx q : ℕ) (current : Option ℕ)
      → ((p : ℕ) → bindings p s ≤ 1)
      → get_elem? (slots_of d s) idx ≡ some current
      → is_slot_bindable s q current ≡ true
      → (p : ℕ) → bindings p (set_slots d s (set (slots_of d s) idx (some q))) ≤ 1
  once-bind d s idx q current once at ok p =
      let moved = bindings-set_slots d s (set (slots_of d s) idx (some q)) p in
      elim (Bool-cases (holds current q)) [
        | inl same ↦
            omega (arith, moved, once p, count-set_same p q (slots_of d s) idx current at same)
        | inr other ↦ ground (
          arith,
          moved,
          once p,
          count-set p q (slots_of d s) idx,
          bindings-bindable s q current ok other,
        )
      ]

  -- A role whose new slots and ports are as many.
  slots-set :
      (d : PortDirection) (s : ModuleState S) (slots : List (Option ℕ)) (ports : List PortInfo)
      → length slots ≡ length ports
      → ((c : PortDirection) → length (slots_of c s) ≡ length (ports_of c s))
      → (c : PortDirection)
      → let t = set_slots d (set_ports d s ports) slots in
        length (slots_of c t) ≡ length (ports_of c t)
  slots-set PortDirection.input s slots ports e h PortDirection.input = e
  slots-set PortDirection.input s slots ports e h PortDirection.output = h PortDirection.output
  slots-set PortDirection.input s slots ports e h PortDirection.inner = h PortDirection.inner
  slots-set PortDirection.output s slots ports e h PortDirection.input = h PortDirection.input
  slots-set PortDirection.output s slots ports e h PortDirection.output = e
  slots-set PortDirection.output s slots ports e h PortDirection.inner = h PortDirection.inner
  slots-set PortDirection.inner s slots ports e h PortDirection.input = h PortDirection.input
  slots-set PortDirection.inner s slots ports e h PortDirection.output = h PortDirection.output
  slots-set PortDirection.inner s slots ports e h PortDirection.inner = e

  set_ports_same : (d : PortDirection) (s : ModuleState S) → set_ports d s (ports_of d s) ≡ s
  set_ports_same PortDirection.input s = refl
  set_ports_same PortDirection.output s = refl
  set_ports_same PortDirection.inner s = refl

  slots-set_slots :
      (d : PortDirection) (s : ModuleState S) (slots : List (Option ℕ))
      → length slots ≡ length (slots_of d s)
      → ((c : PortDirection) → length (slots_of c s) ≡ length (ports_of c s))
      → (c : PortDirection)
      → length (slots_of c (set_slots d s slots)) ≡ length (ports_of c (set_slots d s slots))
  slots-set_slots d s slots e h c =
      subst
        (λ (t : ModuleState S).
          length (slots_of c (set_slots d t slots)) ≡ length (ports_of c (set_slots d t slots)))
        (set_ports_same d s) (slots-set d s slots (ports_of d s) (e ∙ h d) h c)

  bindings-describe :
      (d : PortDirection) (s : ModuleState S) (ports : List PortInfo) (n q : ℕ)
      → bindings q (set_slots d (set_ports d s ports) (resize (slots_of d s) n)) ≤ bindings q s
  bindings-describe PortDirection.input s ports n q = omega (arith, count-resize q s.inputs n)
  bindings-describe PortDirection.output s ports n q = omega (arith, count-resize q s.outputs n)
  bindings-describe PortDirection.inner s ports n q = omega (arith, count-resize q s.inners n)

  describe-IsWired :
      (d : PortDirection) (s : ModuleState S) (name description : String)
      → IsWired s
      → IsWired (describe d s name description).1
  unfolding describe describe_port
  describe-IsWired d s name description v =
      let n : ℕ = length (ports_of d s) + 1 in
      let port : PortInfo = record {
        index = length (ports_of d s);
        direction = d;
        name = name;
        description = description;
      } in
      record {
        slots =
            slots-set d s (resize (slots_of d s) n) (ports_of d s ++ port ∷ [])
              (length-resize (slots_of d s) n ∙ sym (length-append (ports_of d s) (port ∷ [])))
              v.slots;
        once = λ q. omega (arith, bindings-describe d s (ports_of d s ++ port ∷ []) n q, v.once q);
      }

  bind_slot-IsWired :
      (d : PortDirection) (s : ModuleState S) (idx q : ℕ) (current : Option ℕ)
      → IsWired s
      → get_elem? (slots_of d s) idx ≡ some current
      → is_slot_bindable s q current ≡ true
      → IsWired (set_slots d s (set (slots_of d s) idx (some q)))
  bind_slot-IsWired d s idx q current v at ok = record {
    slots =
        slots-set_slots d s (set (slots_of d s) idx (some q))
          (length-set (slots_of d s) idx (some q)) v.slots;
    once = once-bind d s idx q current v.once at ok;
  }

  bind-IsWired :
      (d : PortDirection) (s s' : ModuleState S) (idx : ℕ) (queue : Option ℕ)
      → IsWired s
      → bind d s idx queue ≡ some s'
      → IsWired s'
  unfolding bind bind_port
  bind-IsWired d s s' idx none v e = cc
  bind-IsWired d s s' idx (some q) v e = elim (Option-cases (get_elem? (slots_of d s) idx)) [
    | inl out ↦ absurd (ground (arith, out, e))
    | inr (current, at) ↦ elim (Bool-cases (is_slot_bindable s q current)) [
      | inl ok ↦ ground (arith, at, ok, e, bind_slot-IsWired d s idx q current v at ok)
      | inr bound ↦ absurd (ground (arith, at, bound, e))
    ]
  ]

  call-IsWired : (s s' : ModuleState S) (c : PortCall) → IsWired s → call s c ≡ some s' → IsWired s'
  unfolding call add
  call-IsWired s s' (describe_call d name description) v e =
      ground (arith, e, describe-IsWired d s name description v)
  call-IsWired s s' (bind_call d idx queue) v e = bind-IsWired d s s' idx queue v e
  call-IsWired s s' (add_call d queue name description) v e =
      let (idx, described) = describe d s name description in
      bind-IsWired d described s' idx queue (describe-IsWired d s name description v) e

  -- Whatever port functions are called on a module, in whatever order, if no assertion fails
  -- then every role keeps one slot for each of its ports, and no queue is bound to two slots of
  -- the module, in one role or in two.
  pub calls-IsWired :
      (cs : List PortCall) (s s' : ModuleState S) → IsWired s → calls s cs ≡ some s' → IsWired s'
  unfolding calls
  calls-IsWired [] s s' v e = ground (arith, e, v)
  calls-IsWired (c ∷ cs) s s' v e =
      let (t, first, rest) = >>=-eq-some (call s c) _ e in
      calls-IsWired cs t s' (call-IsWired s t c v first) rest
