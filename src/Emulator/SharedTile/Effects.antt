-- ===== src/Emulator/SharedTile/Effects.antt =====
-- `SharedTileBank::Write` and `Read` of src/emulator/shared_tile.cpp on the whole bank.
use native.Mathlib.Nat.{pow-le-pow_right, mod-eq_of_lt}
use linx_model.Base.{
  ℕ, zero, suc, ◌-◌, ◌*◌, ◌≤◌, ◌<◌, ◌%◌, ◌^◌, ◌≡◌, ◌≢◌, ◌↔◌, ◌⊎◌, inl, inr, refl, ap, some, List,
  [], ◌∷◌, ◌==◌, ◌&&◌, ltb, leb, length, set, get_elem?-set_self, get_elem?-set_ne, arith,
  Bool-cases,
}
use linx_model.Base.Bits.{bit_of_lt, lt-pow_of_bits, bit-low_mask, bit-le-one}
use linx_model.Emulator.SharedTile.{
  SharedTileDescriptor, SharedTileVersion, SharedTileWriteStatus, entry, no_version, minus_mask,
  capacity_bytes,
}
use linx_model.Emulator.SharedTile.Bank.{write}
use linx_model.Emulator.SharedTile.Versions.{
  Accepts, VersionIsValid, written, write_version-cases, minus_mask-IsWithin, IsWithin-minus_mask,
}

pub record BankIsValid (bank : List SharedTileVersion) : Type 0 where
  pub whole : length bank ≡ 64
  pub each : (i : ℕ) → i < 64 → VersionIsValid (entry no_version bank i)

-- The conditions of a write: a register of the bank, a mask of at least one and at most the four
-- lanes, a size code from 1 to 12, and what the version asks at that capacity.
pub record Writable (bank : List SharedTileVersion) (shared_id pe_mask size_code : ℕ)
    (ds : List SharedTileDescriptor) (ps : List (List ℕ)) : Type 0 where
  pub known : shared_id < 64
  pub some_lane : 0 < pe_mask
  pub narrow : pe_mask < 16
  pub coded : (1 ≤ size_code) × (size_code ≤ 12)
  pub accepted : Accepts (entry no_version bank shared_id) pe_mask (128 * 2 ^ (size_code - 1)) ds ps

pub entry-set_self :
    (bank : List SharedTileVersion) (i : ℕ) (v : SharedTileVersion)
    → i < length bank
    → entry no_version (set bank i v) i ≡ v
entry-set_self bank i v h = ground (arith, get_elem?-set_self bank i v h)

pub entry-set_ne :
    (bank : List SharedTileVersion) (i j : ℕ) (v : SharedTileVersion)
    → i ≢ j
    → entry no_version (set bank i v) j ≡ entry no_version bank j
entry-set_ne bank i j v h = ground (arith, get_elem?-set_ne bank i j v h)

set-entry : (bank : List SharedTileVersion) (i : ℕ) → set bank i (entry no_version bank i) ≡ bank
set-entry [] i = refl
set-entry (v ∷ vs) zero = refl
set-entry (v ∷ vs) (suc i) = ap (◌∷◌ v) (set-entry vs i)

narrow_iff : (mask : ℕ) → mask < 2 ^ 8 → (minus_mask mask 15 ≡ 0) ↔ (mask < 16)
narrow_iff mask byte = (
  λ e.
      let w = minus_mask-IsWithin mask 15 byte (omega arith) e in
      lt-pow_of_bits 4 mask λ k le. ground (arith, w k, bit_of_lt 4 15 k (omega arith) le),
  λ lt.
      IsWithin-minus_mask mask 15 byte (omega arith)
        λ k. ground (arith, bit_of_lt 4 mask k lt, bit-low_mask 4 k, bit-le-one mask k),
)

pub capacity_bytes_coded :
    (size_code : ℕ)
    → (1 ≤ size_code) × (size_code ≤ 12)
    → (capacity_bytes size_code ≡ some (128 * 2 ^ (size_code - 1)))
      × (128 * 2 ^ (size_code - 1) ≤ 2 ^ 18)
unfolding capacity_bytes
capacity_bytes_coded size_code h =
    let below : size_code - 1 ≤ 11 = omega arith in
    let small : 2 ^ (size_code - 1) ≤ 2 ^ 11 = pow-le-pow_right (omega arith) below in
    let exact : 128 * 2 ^ (size_code - 1) % 2 ^ 32 ≡ 128 * 2 ^ (size_code - 1) =
      mod-eq_of_lt (omega arith) in
    ground (arith, exact)

module _ (bank : List SharedTileVersion) (shared_id pe_mask size_code : ℕ)
    (ds : List SharedTileDescriptor) (ps : List (List ℕ)) (valid : BankIsValid bank)
    (byte : pe_mask < 2 ^ 8) where
  abbrev found : SharedTileVersion
  found = entry no_version bank shared_id

  abbrev capacity : ℕ
  capacity = 128 * 2 ^ (size_code - 1)

  abbrev outcome : SharedTileWriteStatus × List SharedTileVersion
  outcome = write bank shared_id pe_mask size_code ds ps

  abbrev Refused : Type 0
  Refused =
      (¬ Writable bank shared_id pe_mask size_code ds ps)
      × (outcome.0 ≢ SharedTileWriteStatus.applied)
      × (outcome.1 ≡ bank)

  abbrev Applied : Type 0
  Applied =
      Writable bank shared_id pe_mask size_code ds ps
      × (outcome ≡ (
        SharedTileWriteStatus.applied,
        set bank shared_id (written found pe_mask capacity ds ps),
      ))

  -- The one step of the case analysis that reaches the version.
  coded_cases :
      shared_id < 64
      → 0 < pe_mask
      → pe_mask < 16
      → (1 ≤ size_code) × (size_code ≤ 12)
      → Applied ⊎ Refused
  unfolding write
  coded_cases known some_lane narrow coded =
      let v = valid.each shared_id known in
      let cap = (capacity_bytes_coded size_code coded).0 in
      let mask_ok = (narrow_iff pe_mask byte).1 narrow in
      elim (write_version-cases found pe_mask capacity ds ps narrow v) [
        | inl (acc, e) ↦ inl (
          record {
            known = known;
            some_lane = some_lane;
            narrow = narrow;
            coded = coded;
            accepted = acc;
          },
          ground (arith, valid.whole, cap, mask_ok, e),
        )
        | inr (bad, status, same) ↦ inr (
          λ w. bad w.accepted,
          ground (arith, valid.whole, cap, mask_ok, status),
          ground (arith, valid.whole, cap, mask_ok, same, set-entry bank shared_id),
        )
      ]

  pub write-cases : Applied ⊎ Refused
  unfolding write capacity_bytes
  write-cases = elim (Bool-cases (ltb shared_id 64)) [
    | inr off ↦ inr (
      λ w. absurd (ground (arith, w.known, off)),
      ground (arith, valid.whole, off),
      ground (arith, valid.whole, off),
    )
    | inl known ↦ elim (Bool-cases (ltb pe_mask 16)) [
      | inr wide ↦
          let mask_bad = (narrow_iff pe_mask byte).0 in
          inr (
            λ w. absurd (ground (arith, w.narrow, wide)),
            ground (arith, valid.whole, known, wide, mask_bad),
            ground (arith, valid.whole, known, wide, mask_bad),
          )
      | inl narrow ↦
          let mask_ok = (narrow_iff pe_mask byte).1 (ground arith) in
          elim (Bool-cases (pe_mask == 0)) [
            | inl empty ↦ inr (
              λ w. absurd (ground (arith, w.some_lane, empty)),
              ground (arith, valid.whole, known, mask_ok, empty),
              ground (arith, valid.whole, known, mask_ok, empty),
            )
            | inr some_lane ↦ elim (Bool-cases (leb 1 size_code && leb size_code 12)) [
              | inl coded ↦ coded_cases (ground arith) (ground arith) (ground arith) (ground arith)
              | inr bad ↦ inr (
                λ w. absurd (ground (arith, w.coded, bad)),
                ground (arith, valid.whole, known, mask_ok, some_lane, bad),
                ground (arith, valid.whole, known, mask_ok, some_lane, bad),
              )
            ]
          ]
    ]
  ]

  -- On a valid bank and a byte for a mask, `Write` reports an applied write exactly if the
  -- conditions of a write hold, and with any other status it leaves the bank as it was.
  pub write-applied_iff :
      ((outcome.0 ≡ SharedTileWriteStatus.applied)
        ↔ Writable bank shared_id pe_mask size_code ds ps)
      × (outcome.0 ≢ SharedTileWriteStatus.applied → outcome.1 ≡ bank)
  write-applied_iff = elim write-cases [
    | inl (w, e) ↦ ((λ s. w, λ u. ap (λ o. o.0) e), λ ne. absurd (ne (ap (λ o. o.0) e)))
    | inr (bad, ne, same) ↦ ((λ s. absurd (ne s), λ w. absurd (bad w)), λ other. same)
  ]

  pub applied_bank :
      Writable bank shared_id pe_mask size_code ds ps
      → outcome.1 ≡ set bank shared_id (written found pe_mask capacity ds ps)
  applied_bank w = elim write-cases [
    | inl (u, e) ↦ ap (λ o. o.1) e
    | inr (bad, ne, same) ↦ absurd (bad w)
  ]
