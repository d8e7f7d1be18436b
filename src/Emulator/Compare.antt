-- ===== src/Emulator/Compare.antt =====
-- The comparison of two traces in src/emulator/compare.cpp, on records of any type with the test of
-- `std::memcmp` on them. The texts of a mismatch, its reason and the two states, are in
-- Cli/Mismatch.antt.
pub mod Window
mod Tests
use linx_model.Base.{
  ℕ, Bool, true, false, Option, none, some, List, [], ◌∷◌, ◌++◌, ltb, if◌then◌else◌, length,
}

pub record CompareMismatch (R : Type 0) : Type 0 where
  pub ref_window : List R
  pub ca_window : List R

pub record CompareHarness (R : Type 0) : Type 0 where
  pub window_size : ℕ
  pub ref_window : List R
  pub ca_window : List R
  pub mismatch : Option (CompareMismatch R)

module _ {R : Type 0} where
  unfoldable pub make_harness : ℕ → CompareHarness R
  make_harness window_size = record {
    window_size = window_size;
    ref_window = [];
    ca_window = [];
    mismatch = none;
  }

  -- The loop of `PushWindow`.
  pub pop_excess : ℕ → List R → List R
  pop_excess window_size [] = []
  pop_excess window_size (r ∷ window) =
      if ltb window_size (length (r ∷ window)) then pop_excess window_size window else r ∷ window

  pub push_window : ℕ → List R → R → List R
  unfolding pop_excess
  push_window window_size window r = pop_excess window_size (window ++ r ∷ [])

  -- What `Push` returns is whether the records agree, and no mismatch was seen before.
  unfoldable pub push : (R → R → Bool) → CompareHarness R → R → R → Bool × CompareHarness R
  unfolding push_window
  push equal_record h ref ca = elim h.mismatch [
    | some mismatch ↦ (false, h)
    | none ↦
        let refs = push_window h.window_size h.ref_window ref in
        let cas = push_window h.window_size h.ca_window ca in
        let pushed = record h { ref_window = refs; ca_window = cas } in
        if equal_record ref ca then (true, pushed) else (
          false,
          record pushed { mismatch = some (record { ref_window = refs; ca_window = cas }) },
        )
  ]

  -- A comparison of two traces, record by record: what the calls returned, and what they leave.
  pub pushes : (R → R → Bool) → CompareHarness R → List (R × R) → List Bool × CompareHarness R
  unfolding push
  pushes equal_record h [] = ([], h)
  pushes equal_record h ((ref, ca) ∷ rest) =
      let (same, h') = push equal_record h ref ca in
      let (results, h'') = pushes equal_record h' rest in (same ∷ results, h'')
