-- ===== src/Module/Tests.antt =====
-- A parent with one child that reads the parent's queue, and the theorems on them.
use linx_model.Base.{
  List, ℕ, zero, suc, ◌+◌, ◌≡◌, refl, arith, true, false, none, some, [], ◌∷◌, ◌>>=◌, inl,
  get_elem?,
}
use linx_model.SimQueue
use linx_model.SimQueue.{SimQueue, promote}
use linx_model.SimQueue.Invariant.{IsValid}
use linx_model.Module.{
  PortDirection, ModuleState, Module, node, nil, cons, Heap, Hooks, capture_observed_input_epochs,
  has_pending_work_recursive,
}
use linx_model.Module.Cycle.{work, run_self, finish_cycle, work_submodules}
use linx_model.Module.Skip.{work_all, work-eq-work_all}
use linx_model.Module.Setup.{reset}
use linx_model.Module.Quiet.{reset-quiet}
use linx_model.Module.Wake.{work-wakes}
use linx_model.Module.Total.{IsHeap, OwnsWithin, SoundWork, work-returns}
use linx_model.Module.Construct.{
  ConstructCall, queue_call, submodule_call, connect_call, constructs,
}
use linx_model.Module.Ports.{describe_call, bind_call, add_call, calls}
use linx_model.Module.Issues.{has_errors, validate_model}
use linx_model.Module.Complete.{is_complete, has_errors-validate_model}
use linx_model.Module.Bindings.{IsWired, calls-IsWired}

abbrev idle : ModuleState ℕ
idle = record {
  module_name = "m";
  inputs = [];
  outputs = [];
  inners = [];
  owned_queues = [];
  input_ports = [];
  output_ports = [];
  inner_ports = [];
  observed_input_epochs = [];
  observed_inner_epochs = [];
  active_submodules = [];
  built = false;
  require_io_contract = true;
  force_activate_self = false;
  ran_work_self_last_cycle = false;
  derived = 0;
}

-- Two entries in flight, the first one due in the next cycle.
abbrev pipe : SimQueue ℕ
pipe = record {
  max_q_size = 4;
  write_q = 20 ∷ 30 ∷ [];
  read_q = [];
  delay_q = 1 ∷ 3 ∷ [];
  latency = 1;
  stalled = false;
  visible_epoch = 7;
}

abbrev heap : Heap ℕ
heap = pipe ∷ []

abbrev child : ModuleState ℕ
child = record idle { inputs = some 0 ∷ []; observed_input_epochs = 7 ∷ [] }

abbrev tree : Module ℕ
tree = node (record idle { owned_queues = 0 ∷ [] }) (cons (node child nil) nil)

-- `WorkSelf` counts its runs.
abbrev counting : Hooks ℕ ℕ
counting = record {
  build_self = λ s h. some (s, h);
  reset_self = λ s h. some (s, h);
  work_self = λ s h. some (record s { derived = s.derived + 1 }, h);
  xfer_self = λ s h. some (s, h);
}

abbrev promoted : SimQueue ℕ
promoted = record pipe { write_q = 30 ∷ []; read_q = 20 ∷ []; delay_q = 2 ∷ []; visible_epoch = 8 }

-- In the first cycle no one runs, and the queue of the parent makes 20 readable.
work-tree : work counting tree heap ≡ some (tree, promoted ∷ [])
unfolding work SimQueue.work promote
work-tree = refl

-- In the second one the child runs.
work-tree_again :
    work counting tree (promoted ∷ [])
    ≡ some (
      node
          (record idle { owned_queues = 0 ∷ []; active_submodules = 0 ∷ [] })
          (cons
            (node
              (record child {
                observed_input_epochs = 8 ∷ [];
                ran_work_self_last_cycle = true;
                derived = 1;
              })
              nil)
            nil),
      record promoted { delay_q = 1 ∷ [] } ∷ [],
    )
unfolding work SimQueue.work promote
work-tree_again = refl

work-eq-work_all_example : some (tree, promoted ∷ []) ≡ work_all counting tree heap
unfolding work SimQueue.work promote
work-eq-work_all_example = work-eq-work_all counting tree heap

reset-quiet_example :
    has_pending_work_recursive (SimQueue.reset pipe ∷ []) (
      node
        (record idle { owned_queues = 0 ∷ [] })
        (cons (node (record child { observed_input_epochs = 0 ∷ [] }) nil) nil))
    ≡ false
unfolding reset SimQueue.reset
reset-quiet_example = reset-quiet counting tree _ heap _ refl

heap-IsHeap : IsHeap 1 heap
heap-IsHeap = record { size = refl; valid = valid }
  where
    valid : (q : ℕ) (c : SimQueue ℕ) → get_elem? heap q ≡ some c → IsValid c
    valid zero c e = ground (arith, e)
    valid (suc q) c e = cc

counting-Sound : SoundWork 1 counting
counting-Sound = record {
  returns = λ s h v. (record s { derived = s.derived + 1 }, h, refl, refl, v);
}

work-wakes_example :
    (has_pending_work_recursive (promoted ∷ []) (node child nil) ≡ true)
    × (work counting (node child nil) (promoted ∷ []) ≡ (
        run_self counting
          (record child { active_submodules = []; ran_work_self_last_cycle = true })
          (promoted ∷ [])
        >>= λ x. work_submodules counting nil zero x.1 >>= λ r. finish_cycle counting x.0 r))
unfolding capture_observed_input_epochs SimQueue.work promote
work-wakes_example =
    work-wakes counting heap child nil 0 pipe promoted (inl (inl refl)) refl (omega arith) refl
      (omega arith)

work-returns_example :
    (m : Module ℕ) × (h : Heap ℕ) × (work counting tree heap ≡ some (m, h))
    × OwnsWithin 1 m
    × IsHeap 1 h
unfolding OwnsWithin
work-returns_example =
    work-returns counting counting-Sound tree heap ((omega arith, tt), ((tt, tt), tt)) heap-IsHeap

idle-IsWired : IsWired idle
idle-IsWired = record {
  slots = elim [
    | PortDirection.input ↦ refl
    | PortDirection.output ↦ refl
    | PortDirection.inner ↦ refl
  ];
  once = λ q. omega arith;
}

abbrev wired : ModuleState ℕ
wired = record idle {
  inputs = some 0 ∷ [];
  outputs = some 1 ∷ [];
  input_ports =
      record { index = 0; direction = PortDirection.input; name = "in"; description = "work" } ∷ [];
  output_ports =
      record { index = 0; direction = PortDirection.output; name = "out"; description = "results" }
      ∷ [];
}

calls-IsWired_example : IsWired wired
unfolding calls
calls-IsWired_example =
    calls-IsWired
      (describe_call PortDirection.input "in" "work"
        ∷ add_call PortDirection.output (some 1) "out" "results"
        ∷ bind_call PortDirection.input 0 (some 0)
        ∷ [])
      idle wired idle-IsWired refl

-- A queue in two roles fails an assertion.
calls-twice :
    calls idle (
      add_call PortDirection.input (some 0) "in" "work"
      ∷ add_call PortDirection.output (some 0) "out" "results"
      ∷ [])
    ≡ none
unfolding calls
calls-twice = refl

-- The wired module is complete, and its child, which has no port, is not.
has_errors-validate_model_example :
    has_errors
      (validate_model (λ n. "0") [] (some (true, node wired (cons (node idle nil) nil)) ∷ []))
    ≡ true
unfolding is_complete has_errors
has_errors-validate_model_example =
    has_errors-validate_model (λ n. "0") []
      (some (true, node wired (cons (node idle nil) nil)) ∷ [])

abbrev fresh_queue : ℕ → ℕ → SimQueue ℕ
fresh_queue max_size latency = record {
  max_q_size = max_size;
  write_q = [];
  read_q = [];
  delay_q = [];
  latency = latency;
  stalled = false;
  visible_epoch = 0;
}

-- A module with two queues and a child.
construct-tree :
    constructs
      (queue_call 4 1 ∷ submodule_call (node idle nil) ∷ queue_call 8 2 ∷ [])
      (node idle nil)
      []
    ≡ some (
      node (record idle { owned_queues = 0 ∷ 1 ∷ [] }) (cons (node idle nil) nil),
      fresh_queue 4 1 ∷ fresh_queue 8 2 ∷ [],
    )
unfolding constructs
construct-tree = refl

-- The same calls with two connections between them, on a module with two inputs.
abbrev some_calls : List (ConstructCall ℕ)
some_calls =
    queue_call 4 1
    ∷ connect_call PortDirection.input 1 (some 0)
    ∷ submodule_call (node idle nil)
    ∷ queue_call 8 2
    ∷ connect_call PortDirection.input 0 (some 1)
    ∷ []
