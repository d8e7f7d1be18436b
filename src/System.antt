-- ===== src/System.antt =====
-- The simulation of include/linx/model/sim_system.hpp: the modules it registers, its cycle count
-- and its program. `H` is what the modules share: their queues.
pub mod Run
pub mod Modules
pub mod Order
mod Tests
use Prim.Native.String.{String}
use linx_model.Base.{
  ℕ, zero, suc, ◌+◌, ◌%◌, ◌^◌, Bool, true, false, Option, none, some, List, [], ◌∷◌, ◌++◌, ◌>>=◌,
  if◌then◌else◌,
}
use linx_model.Emulator.Context.{ProgramImage}
use linx_model.Elf.{Outcome, returns, throws, undefined}
use linx_model.Elf.Load.{load_elf_image, load_raw_binary_image, load_program_image as load_image}

-- The virtual functions of `SimObject`; `none` is a failed assertion.
pub record SimObject (X H : Type 0) : Type 0 where
  pub build : X → H → Option (X × H)
  pub reset : X → H → Option (X × H)
  pub work : X → H → Option (X × H)
  pub xfer : X → H → Option (X × H)

pub record SimSystem (X H : Type 0) : Type 0 where
  pub modules : List X
  pub shared : H
  pub program_image : Option ProgramImage
  pub cycle : ℕ
  pub built : Bool
  pub terminate_requested : Bool

-- The virtual functions that a derived class overrides.
pub record SystemHooks (X H : Type 0) : Type 0 where
  pub build_system : SimSystem X H → Option (SimSystem X H)
  pub reset_system : SimSystem X H → Option (SimSystem X H)
  pub on_program_loaded : ProgramImage → SimSystem X H → Option (SimSystem X H)

module _ {X H : Type 0} where
  -- A loop over the modules.
  abbrev pub each : (X → H → Option (X × H)) → List X → H → Option (List X × H)
  each f [] h = some ([], h)
  each f (x ∷ xs) h = do (x', h') ← f x h; (xs', h'') ← each f xs h'; some (x' ∷ xs', h'')

  abbrev pub with_modules : SimSystem X H → List X × H → SimSystem X H
  with_modules s r = record s { modules = r.0; shared = r.1 }

  -- `AddModule`, and `AddOwnedModule` of a pointer that is not null.
  unfoldable pub add_module : SimSystem X H → X → SimSystem X H
  add_module s x = record s { modules = s.modules ++ x ∷ [] }

  unfoldable pub request_terminate : SimSystem X H → SimSystem X H
  request_terminate s = record s { terminate_requested = true }

module _ {X H : Type 0} (object : SimObject X H) where
  unfoldable pub step : SimSystem X H → Option (SimSystem X H)
  step s = do
    worked ← each object.work s.modules s.shared
    moved ← each object.xfer worked.0 worked.1
    some (record (with_modules s moved) { cycle = (s.cycle + 1) % 2 ^ 64 })

  -- `n` calls of `Step`.
  unfoldable pub steps : ℕ → SimSystem X H → Option (SimSystem X H)
  unfolding step
  steps zero s = some s
  steps (suc n) s = do s' ← step s; steps n s'

module _ {X H : Type 0} (object : SimObject X H) (hooks : SystemHooks X H) where
  unfoldable pub build : SimSystem X H → Option (SimSystem X H)
  build s = if s.built then none else do
    s' ← hooks.build_system s
    r ← each object.build s'.modules s'.shared
    some (record (with_modules s' r) { built = true })

  unfoldable pub reset : SimSystem X H → Option (SimSystem X H)
  reset s = do
    s' ← hooks.reset_system s
    r ← each object.reset s'.modules s'.shared
    some (record (with_modules s' r) { cycle = 0; terminate_requested = false })

  unfoldable pub load_program_image : ProgramImage → SimSystem X H → Option (SimSystem X H)
  load_program_image image s =
      hooks.on_program_loaded image (record s { program_image = some image })

  -- The image is loaded unless reading it throws.
  abbrev pub load_outcome : Outcome ProgramImage → SimSystem X H → Outcome (Option (SimSystem X H))
  load_outcome (returns image) s =
      returns (hooks.on_program_loaded image (record s { program_image = some image }))
  load_outcome (throws e) s = throws e
  load_outcome undefined s = undefined

  -- `LoadProgramFile`, `LoadElf` and `LoadBinary` on the bytes of the file at `path`.
  module _ (to_string : ℕ → String) where
    unfoldable pub load_program_file :
        List ℕ → String → ℕ → SimSystem X H → Outcome (Option (SimSystem X H))
    load_program_file bytes path raw_base_address s =
        load_outcome (load_image to_string bytes path raw_base_address) s

    unfoldable pub load_elf : List ℕ → String → SimSystem X H → Outcome (Option (SimSystem X H))
    load_elf bytes path s = load_outcome (load_elf_image to_string bytes path) s

    unfoldable pub load_binary : List ℕ → String → ℕ → SimSystem X H → Option (SimSystem X H)
    unfolding load_program_image
    load_binary bytes path base_address s =
        load_program_image (load_raw_binary_image to_string bytes path base_address ".text") s
