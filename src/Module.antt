-- ===== src/Module.antt =====
-- The recursive module of include/linx/model/module.hpp: its state, its events, its dispatch.
-- Queues live on a heap, a pointer to one is its place there, and `none` is the null pointer.
pub mod Ports
pub mod Cycle
pub mod Skip
pub mod Setup
pub mod Quiet
pub mod Wake
pub mod Total
pub mod Construct
pub mod Built
pub mod Bindings
pub mod Issues
pub mod Complete
mod Tests
use Prim.Native.String.{String}
use linx_model.Base.{
  ℕ, suc, Bool, true, false, not, ◌||◌, Option, none, some, List, [], ◌∷◌, map, ◌==◌, if◌then◌else◌,
  length, get_elem?, set,
}
use linx_model.SimQueue.{SimQueue, work}

pub data PortDirection : Type 0 where
  input output inner : PortDirection

pub record PortInfo : Type 0 where
  pub index : ℕ
  pub direction : PortDirection
  pub name : String
  pub description : String

-- `derived` is the state of the class that derives from `Module`; an active submodule is named by
-- its place among the submodules.
pub record ModuleState (S : Type 0) : Type 0 where
  pub module_name : String
  pub inputs : List (Option ℕ)
  pub outputs : List (Option ℕ)
  pub inners : List (Option ℕ)
  pub owned_queues : List ℕ
  pub input_ports : List PortInfo
  pub output_ports : List PortInfo
  pub inner_ports : List PortInfo
  pub observed_input_epochs : List ℕ
  pub observed_inner_epochs : List ℕ
  pub active_submodules : List ℕ
  pub built : Bool
  pub require_io_contract : Bool
  pub force_activate_self : Bool
  pub ran_work_self_last_cycle : Bool
  pub derived : S

mutual
  pub data Module (S : Type 0) : Type 0 where
    node : ModuleState S → Modules S → Module S

  pub data Modules (S : Type 0) : Type 0 where
    nil : Modules S
    cons : Module S → Modules S → Modules S

abbrev pub Heap : Type 0 → Type 0
Heap P = List (SimQueue P)

-- The virtual functions that a derived class overrides; `none` is a failed assertion.
pub record Hooks (P S : Type 0) : Type 0 where
  pub build_self : ModuleState S → Heap P → Option (ModuleState S × Heap P)
  pub reset_self : ModuleState S → Heap P → Option (ModuleState S × Heap P)
  pub work_self : ModuleState S → Heap P → Option (ModuleState S × Heap P)
  pub xfer_self : ModuleState S → Heap P → Option (ModuleState S × Heap P)

module _ {P : Type 0} where
  -- `queues[idx] != nullptr ? queues[idx]->VisibleEpoch() : 0`.
  unfoldable pub epoch_of : Heap P → Option ℕ → ℕ
  epoch_of h none = 0
  epoch_of h (some q) = elim (get_elem? h q) [ none ↦ 0 | some c ↦ c.visible_epoch ]

  unfoldable pub any_changed : Heap P → List (Option ℕ) → List ℕ → Bool
  unfolding epoch_of
  any_changed h [] epochs = false
  any_changed h (q ∷ qs) [] = false
  any_changed h (q ∷ qs) (e ∷ es) = not (epoch_of h q == e) || any_changed h qs es

  unfoldable pub queues_changed : Heap P → List (Option ℕ) → List ℕ → Bool
  unfolding any_changed
  queues_changed h queues epochs =
      if not (length queues == length epochs) then true else any_changed h queues epochs

  unfoldable pub capture_queue_epochs : Heap P → List (Option ℕ) → List ℕ
  unfolding epoch_of
  capture_queue_epochs h queues = map (epoch_of h) queues

  -- The loop over the owned queues in `Work`; `none` is a failed assertion of the queue.
  unfoldable pub work_queues : List ℕ → Heap P → Option (Heap P)
  work_queues [] h = some h
  work_queues (q ∷ qs) h = elim (get_elem? h q) [
    | none ↦ none
    | some c ↦ elim (work c) [ none ↦ none | some c' ↦ work_queues qs (set h q c') ]
  ]

module _ {P S : Type 0} where
  unfoldable pub has_input_event : Heap P → ModuleState S → Bool
  unfolding queues_changed
  has_input_event h s =
      s.force_activate_self
      || queues_changed h s.inputs s.observed_input_epochs
      || queues_changed h s.inners s.observed_inner_epochs

  unfoldable pub capture_observed_input_epochs : Heap P → ModuleState S → ModuleState S
  unfolding capture_queue_epochs
  capture_observed_input_epochs h s = record s {
    observed_input_epochs = capture_queue_epochs h s.inputs;
    observed_inner_epochs = capture_queue_epochs h s.inners;
  }

  unfoldable mutual
    unfolding has_input_event

    pub has_pending_work_recursive : Heap P → Module S → Bool
    has_pending_work_recursive h (node s ms) = has_input_event h s || any_pending h ms

    pub any_pending : Heap P → Modules S → Bool
    any_pending h nil = false
    any_pending h (cons m ms) = has_pending_work_recursive h m || any_pending h ms

-- `RequestActivation`.
unfoldable pub request_activation : {S : Type 0} → ModuleState S → ModuleState S
request_activation s = record s { force_activate_self = true }
