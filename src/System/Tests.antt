-- ===== src/System/Tests.antt =====
-- A simulation of one module that owns a queue, and the theorems on it.
use linx_model.Base.{
  ℕ, zero, suc, ◌+◌, ◌*◌, List, ◌%◌, ◌^◌, ◌≡◌, refl, arith, true, false, none, some, [], ◌∷◌,
  length, get_elem?,
}
use linx_model.SimQueue
use linx_model.SimQueue.{SimQueue, promote}
use linx_model.SimQueue.Invariant.{IsValid}
use linx_model.Module.Cycle
use linx_model.Module.{ModuleState, Module, node, nil, Heap, Hooks}
use linx_model.Module.Total.{IsHeap, OwnsWithin, SoundWork}
use linx_model.System.{SimObject, SimSystem, SystemHooks, step, steps}
use linx_model.System.Run.{SoundObject, IsRunning, steps-returns}
use linx_model.System.Order.{
  Event, worked, moved, numbered, numbers, plain as unnumbered, steps-schedule,
}
use linx_model.System.Modules.{module_object, SoundXfer, module_sound}

abbrev owner : ModuleState ℕ
owner = record {
  module_name = "m";
  inputs = [];
  outputs = [];
  inners = [];
  owned_queues = 0 ∷ [];
  input_ports = [];
  output_ports = [];
  inner_ports = [];
  observed_input_epochs = [];
  observed_inner_epochs = [];
  active_submodules = [];
  built = false;
  require_io_contract = true;
  force_activate_self = true;
  ran_work_self_last_cycle = false;
  derived = 0;
}

abbrev pipe : SimQueue ℕ
pipe = record {
  max_q_size = 4;
  write_q = 20 ∷ 30 ∷ [];
  read_q = [];
  delay_q = 1 ∷ 3 ∷ [];
  latency = 1;
  stalled = false;
  visible_epoch = 7;
}

abbrev counting : Hooks ℕ ℕ
counting = record {
  build_self = λ s h. some (s, h);
  reset_self = λ s h. some (s, h);
  work_self = λ s h. some (record s { derived = s.derived + 1 }, h);
  xfer_self = λ s h. some (record s { derived = s.derived + 10 }, h);
}

abbrev object : SimObject (Module ℕ) (Heap ℕ)
object = module_object counting

abbrev plain : SystemHooks (Module ℕ) (Heap ℕ)
plain = record { build_system = some; reset_system = some; on_program_loaded = λ image s. some s }

abbrev start : SimSystem (Module ℕ) (Heap ℕ)
start = record {
  modules = node owner nil ∷ [];
  shared = pipe ∷ [];
  program_image = none;
  cycle = 5;
  built = false;
  terminate_requested = true;
}

abbrev stepped : ModuleState ℕ
stepped = record owner {
  derived = 11;
  force_activate_self = false;
  ran_work_self_last_cycle = true;
}

abbrev promoted : SimQueue ℕ
promoted = record pipe { write_q = 30 ∷ []; read_q = 20 ∷ []; delay_q = 2 ∷ []; visible_epoch = 8 }

-- The module runs, moves what it made, and its queue takes its cycle.
step-start :
    step object start
    ≡ some (record start { modules = node stepped nil ∷ []; shared = promoted ∷ []; cycle = 6 })
unfolding step Cycle.work Cycle.xfer SimQueue.work promote
step-start = refl

counting-Work : SoundWork 1 counting
counting-Work = record {
  returns = λ s h v. (record s { derived = s.derived + 1 }, h, refl, refl, v);
}

counting-Xfer : SoundXfer 1 counting
counting-Xfer = record {
  returns = λ s h v. (record s { derived = s.derived + 10 }, h, refl, refl, v);
}

abbrev sound : SoundObject object
sound = module_sound counting counting-Work counting-Xfer

pipes-IsHeap : IsHeap 1 (pipe ∷ [])
pipes-IsHeap = record { size = refl; valid = valid }
  where
    valid : (q : ℕ) (c : SimQueue ℕ) → get_elem? (pipe ∷ []) q ≡ some c → IsValid c
    valid zero c e = ground (arith, e)
    valid (suc q) c e = cc

start-IsRunning : IsRunning object sound start
unfolding module_sound OwnsWithin
start-IsRunning = record { ready = (((omega arith, tt), tt), tt); shared_ok = pipes-IsHeap }

steps-start :
    (s : SimSystem (Module ℕ) (Heap ℕ)) × (steps object 100 start ≡ some s)
    × IsRunning object sound s
    × (s.cycle ≡ 105 % 2 ^ 64)
    × (length s.modules ≡ 1)
    × (s.built ≡ false)
    × (s.terminate_requested ≡ true)
steps-start = steps-returns object sound 100 start start-IsRunning refl

abbrev again : SimSystem (Module ℕ) (Heap ℕ)
again = record start {
  modules = node (record owner { force_activate_self = false }) nil ∷ [];
  shared = SimQueue.reset pipe ∷ [];
  cycle = 0;
  terminate_requested = false;
}

-- Two objects with a shared count; both phases depend on what came before.
abbrev adder : SimObject ℕ ℕ
adder = record {
  build = λ x h. some (x, h);
  reset = λ x h. some (x, h);
  work = λ x h. some (x + 1, h + x);
  xfer = λ x h. some (x * 2, h + 1);
}

abbrev two_adders : SimSystem (ℕ × ℕ) (ℕ × List Event)
two_adders = record {
  modules = (0, 5) ∷ (1, 7) ∷ [];
  shared = (0, []);
  program_image = none;
  cycle = 0;
  built = true;
  terminate_requested = false;
}

steps-schedule_example :
    (t : SimSystem (ℕ × ℕ) (ℕ × List Event)) × (steps (numbered adder) 1 two_adders ≡ some t)
    × (unnumbered t
        ≡ record (unnumbered two_adders) { modules = 12 ∷ 16 ∷ []; shared = 14; cycle = 1 })
    × (numbers t.modules ≡ 0 ∷ 1 ∷ [])
    × (t.shared.1 ≡ worked 0 ∷ worked 1 ∷ moved 0 ∷ moved 1 ∷ [])
unfolding steps
steps-schedule_example = steps-schedule adder 1 two_adders _ refl
