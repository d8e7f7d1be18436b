-- ===== src/Emulator/Compare/Tests.antt =====
-- Two traces of numbers that differ in their third record, and the theorem on them.
use linx_model.Base.{ℕ, ◌≡◌, refl, Bool, true, false, some, [], ◌∷◌, ◌==◌}
use linx_model.Emulator.Compare.{CompareHarness, make_harness, pushes}
use linx_model.Emulator.Compare.Window.{pushes-compared}

abbrev equal : ℕ → ℕ → Bool
equal a b = a == b

abbrev differ : CompareHarness ℕ
differ = record {
  window_size = 2;
  ref_window = 2 ∷ 3 ∷ [];
  ca_window = 2 ∷ 9 ∷ [];
  mismatch = some (record { ref_window = 2 ∷ 3 ∷ []; ca_window = 2 ∷ 9 ∷ [] });
}

pushes-differ :
    pushes equal (make_harness 2) ((1, 1) ∷ (2, 2) ∷ (3, 9) ∷ (4, 4) ∷ [])
    ≡ (true ∷ true ∷ false ∷ false ∷ [], differ)
unfolding pushes make_harness
pushes-differ = refl

pushes-compared_example :
    pushes equal (make_harness 2) ((1, 1) ∷ (2, 2) ∷ (3, 9) ∷ (4, 4) ∷ [])
    ≡ (true ∷ true ∷ false ∷ false ∷ [], differ)
pushes-compared_example = pushes-compared equal 2 ((1, 1) ∷ (2, 2) ∷ (3, 9) ∷ (4, 4) ∷ [])
