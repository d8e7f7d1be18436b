-- ===== src/Module/Built.antt =====
-- What a sequence of calls that build up a tree leaves, include/linx/model/module.hpp.
use linx_model.Base.{ℕ, suc, ◌≡◌, Option, some, List, [], ◌∷◌, ◌++◌, ◌>>=◌, length}
use linx_model.SimQueue.{SimQueue, make}
use linx_model.Module.{Module, node, Modules, ModuleState, Heap}
use linx_model.Module.Ports.{PortCall, bind_call, calls}
use linx_model.Module.Construct.{
  ConstructCall, queue_call, submodule_call, connect_call, append_module,
}

-- The submodules and the connections of the calls, in order.
abbrev children_of : {S : Type 0} → List (ConstructCall S) → List (Module S)
children_of [] = []
children_of (queue_call max_size latency ∷ cs) = children_of cs
children_of (submodule_call m ∷ cs) = m ∷ children_of cs
children_of (connect_call d idx queue ∷ cs) = children_of cs

abbrev bindings_of : {S : Type 0} → List (ConstructCall S) → List PortCall
bindings_of [] = []
bindings_of (queue_call max_size latency ∷ cs) = bindings_of cs
bindings_of (submodule_call m ∷ cs) = bindings_of cs
bindings_of (connect_call d idx queue ∷ cs) = bind_call d idx queue ∷ bindings_of cs

-- The new queues, unless one is refused.
abbrev queues_of : {S : Type 0} (P : Type 0) → List (ConstructCall S) → Option (List (SimQueue P))
queues_of P [] = some []
queues_of P (queue_call max_size latency ∷ cs) =
    make max_size latency >>= λ q. queues_of P cs >>= λ qs. some (q ∷ qs)
queues_of P (submodule_call m ∷ cs) = queues_of P cs
queues_of P (connect_call d idx queue ∷ cs) = queues_of P cs

abbrev with_children : {S : Type 0} → Modules S → List (Module S) → Modules S
with_children ms [] = ms
with_children ms (m ∷ rest) = with_children (append_module ms m) rest

-- As many numbers as there are queues.
abbrev pub numbers_from : {P : Type 0} → ℕ → List (SimQueue P) → List ℕ
numbers_from n [] = []
numbers_from n (q ∷ qs) = n ∷ numbers_from (suc n) qs

abbrev owning : {S : Type 0} → ModuleState S → List ℕ → ModuleState S
owning s owned = record s { owned_queues = owned }

-- What the calls leave of a module, its submodules and the heap.
pub record IsBuilt {P S : Type 0} (cs : List (ConstructCall S)) (s : ModuleState S) (owned : List ℕ)
    (ms : Modules S) (h : Heap P) (m' : Module S) (h' : Heap P) : Type 0 where
  pub state : ModuleState S
  pub queues : List (SimQueue P)
  pub binds : calls s (bindings_of cs) ≡ some state
  pub makes : queues_of P cs ≡ some queues
  pub heap : h' ≡ h ++ queues
  pub tree :
      m'
      ≡ node
          (owning state (owned ++ numbers_from (length h) queues))
          (with_children ms (children_of cs))
