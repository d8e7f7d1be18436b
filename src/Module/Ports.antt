-- ===== src/Module/Ports.antt =====
-- The ports of include/linx/model/module.hpp: `DescribePort`, `BindPort` and their callers.
use Prim.Native.String.{String}
use linx_model.Base.{
  ℕ, zero, suc, ◌+◌, Bool, true, false, ◌||◌, Option, none, some, List, [], ◌∷◌, ◌++◌, ◌==◌, ◌>>=◌,
  if◌then◌else◌, length, get_elem?, set,
}
use linx_model.Module.{PortDirection, PortInfo, ModuleState}

-- Whether a slot holds the queue `q`.
abbrev pub holds : Option ℕ → ℕ → Bool
holds none q = false
holds (some p) q = p == q

unfoldable pub contains_queue : List (Option ℕ) → ℕ → Bool
contains_queue [] q = false
contains_queue (x ∷ xs) q = holds x q || contains_queue xs q

-- `queues.resize(n, nullptr)`.
unfoldable pub resize : List (Option ℕ) → ℕ → List (Option ℕ)
resize xs zero = []
resize [] (suc n) = none ∷ resize [] n
resize (x ∷ xs) (suc n) = x ∷ resize xs n

-- The index of the new port, the ports and the slots.
unfoldable pub describe_port :
    List PortInfo
    → List (Option ℕ)
    → PortDirection
    → String
    → String
    → ℕ × List PortInfo × List (Option ℕ)
unfolding resize
describe_port ports queues direction name description =
    let idx = length ports in
    let port : PortInfo = record {
      index = idx;
      direction = direction;
      name = name;
      description = description;
    } in
    (idx, ports ++ port ∷ [], resize queues (idx + 1))

module _ {S : Type 0} where
  -- The slots and the ports of a role.
  abbrev pub slots_of : PortDirection → ModuleState S → List (Option ℕ)
  slots_of PortDirection.input s = s.inputs
  slots_of PortDirection.output s = s.outputs
  slots_of PortDirection.inner s = s.inners

  abbrev pub ports_of : PortDirection → ModuleState S → List PortInfo
  ports_of PortDirection.input s = s.input_ports
  ports_of PortDirection.output s = s.output_ports
  ports_of PortDirection.inner s = s.inner_ports

  abbrev pub set_slots : PortDirection → ModuleState S → List (Option ℕ) → ModuleState S
  set_slots PortDirection.input s slots = record s { inputs = slots }
  set_slots PortDirection.output s slots = record s { outputs = slots }
  set_slots PortDirection.inner s slots = record s { inners = slots }

  abbrev pub set_ports : PortDirection → ModuleState S → List PortInfo → ModuleState S
  set_ports PortDirection.input s ports = record s { input_ports = ports }
  set_ports PortDirection.output s ports = record s { output_ports = ports }
  set_ports PortDirection.inner s ports = record s { inner_ports = ports }

  -- `DescribeInput`, `DescribeOutput` and `DescribeInner`, with the index they return.
  unfoldable pub describe : PortDirection → ModuleState S → String → String → ℕ × ModuleState S
  unfolding describe_port
  describe d s name description =
      let (idx, ports, slots) = describe_port (ports_of d s) (slots_of d s) d name description in
      (idx, set_slots d (set_ports d s ports) slots)

  -- `AssertRoleSlotBindable` on a queue that is not null: `false` is a failed assertion.
  unfoldable pub is_slot_bindable : ModuleState S → ℕ → Option ℕ → Bool
  unfolding contains_queue
  is_slot_bindable s q current =
      if holds current q
      then true
      else if contains_queue s.inputs q
      then false
      else if contains_queue s.outputs q
      then false
      else if contains_queue s.inners q
      then false
      else true

  -- The new slots; `none` is a failed assertion.
  unfoldable pub bind_port :
      ModuleState S → ℕ → Option ℕ → List (Option ℕ) → Option (List (Option ℕ))
  unfolding is_slot_bindable
  bind_port s idx none slots = none
  bind_port s idx (some q) slots = elim (get_elem? slots idx) [
    | none ↦ none
    | some current ↦ if is_slot_bindable s q current then some (set slots idx (some q)) else none
  ]

  -- `BindInput`, `BindOutput` and `BindInner`.
  unfoldable pub bind : PortDirection → ModuleState S → ℕ → Option ℕ → Option (ModuleState S)
  unfolding bind_port
  bind d s idx queue = do slots ← bind_port s idx queue (slots_of d s); some (set_slots d s slots)

  -- `AddInput`, `AddOutput` and `AddInner`.
  unfoldable pub add :
      PortDirection → ModuleState S → Option ℕ → String → String → Option (ModuleState S)
  unfolding describe bind
  add d s queue name description =
      let (idx, described) = describe d s name description in bind d described idx queue

  -- `Input`, `Output` and `Inner`: an index out of range or an unbound slot fails an assertion.
  unfoldable pub queue_at : PortDirection → ModuleState S → ℕ → Option ℕ
  queue_at d s idx = do slot ← get_elem? (slots_of d s) idx; slot

-- A call of a module's port functions.
pub data PortCall : Type 0 where
  describe_call : PortDirection → String → String → PortCall
  bind_call : PortDirection → ℕ → Option ℕ → PortCall
  add_call : PortDirection → Option ℕ → String → String → PortCall

module _ {S : Type 0} where
  unfoldable pub call : ModuleState S → PortCall → Option (ModuleState S)
  unfolding describe bind add
  call s (describe_call d name description) = some (describe d s name description).1
  call s (bind_call d idx queue) = bind d s idx queue
  call s (add_call d queue name description) = add d s queue name description

  unfoldable pub calls : ModuleState S → List PortCall → Option (ModuleState S)
  unfolding call
  calls s [] = some s
  calls s (c ∷ cs) = do s' ← call s c; calls s' cs
