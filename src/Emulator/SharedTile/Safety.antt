-- ===== src/Emulator/SharedTile/Safety.antt =====
-- What `SharedTileBank::Write` of src/emulator/shared_tile.cpp leaves to `Read`, and what it keeps.
use linx_model.Base.{
  ℕ, ◌-◌, ◌*◌, ◌<◌, ◌≤◌, ◌^◌, ◌≡◌, ◌∙◌, inl, inr, refl, ap, true, false, Option, none, some, List,
  ◌==◌, ◌&&◌, if◌then◌else◌, length, length-set, arith, Bool-cases,
}
use linx_model.Emulator.SharedTile.{
  SharedTileDescriptor, SharedTileLane, SharedTileVersion, entry, no_lane, no_version, selects,
}
use linx_model.Emulator.SharedTile.Bank.{write, read}
use linx_model.Emulator.SharedTile.Lanes.{lane_of}
use linx_model.Emulator.SharedTile.Versions.{
  Accepts, VersionIsValid, written, written-selects, written-entry,
}
use linx_model.Emulator.SharedTile.Keeps.{written-IsValid, mask_now, kept_now}
use linx_model.Emulator.SharedTile.Effects.{
  BankIsValid, Writable, entry-set_self, entry-set_ne, capacity_bytes_coded, write-cases,
  applied_bank,
}

-- What no write takes back from a version.
pub record Keeps (v w : SharedTileVersion) : Type 0 where
  pub allocation :
      0 < v.allocation_mask
      → (w.allocation_mask ≡ v.allocation_mask)
        × (w.per_pe_capacity ≡ v.per_pe_capacity)
        × (w.dtype ≡ v.dtype)
  pub written_lane :
      (pe : ℕ)
      → pe < 4
      → selects v.initialized_mask pe ≡ true
      → (selects w.initialized_mask pe ≡ true)
        × ((entry no_lane w.lanes pe).descriptor ≡ (entry no_lane v.lanes pe).descriptor)

abbrev read_lane : SharedTileVersion → ℕ → Option SharedTileLane
read_lane v pe = if selects v.initialized_mask pe then some (entry no_lane v.lanes pe) else none

-- `Read` inside the bounds.
read-read_lane :
    (bank : List SharedTileVersion) (i pe : ℕ)
    → length bank ≡ 64
    → i < 64
    → pe < 4
    → read bank i pe ≡ read_lane (entry no_version bank i) pe
unfolding read
read-read_lane bank i pe whole known lane = ground arith

Keeps-refl : (v : SharedTileVersion) → Keeps v v
Keeps-refl v = record {
  allocation = λ h. (refl, refl, refl);
  written_lane = λ pe lt on. (on, refl);
}

written-Keeps :
    (v : SharedTileVersion) (mask capacity : ℕ) (ds : List SharedTileDescriptor)
    (ps : List (List ℕ)) (small : mask < 2 ^ 4)
    → VersionIsValid v
    → 0 < mask
    → capacity ≤ 2 ^ 18
    → Accepts v mask capacity ds ps
    → Keeps v (written v mask capacity ds ps)
written-Keeps v mask capacity ds ps small valid some_lane bounded acc = record {
  allocation = λ h.
      let kept = kept_now v mask capacity ds ps small valid some_lane bounded acc h in
      (
        ground (arith, mask_now v mask capacity ds ps small valid some_lane bounded acc),
        kept.0,
        kept.1,
      );
  written_lane = λ pe lt on.
      let s = written-selects v mask capacity ds ps small valid pe lt in
      let e = written-entry v mask capacity ds ps small valid pe lt in
      (
        ground (arith, s, on),
        elim (Bool-cases (selects mask pe)) [
          | inl here ↦ elim (acc.fitting pe (omega arith) (omega arith) here).kept [
            | inl off ↦ absurd (ground (arith, on, off))
            | inr same ↦ ground (arith, e, here, same)
          ]
          | inr off ↦ ground (arith, e, off)
        ],
      );
}

module _ (bank : List SharedTileVersion) (shared_id pe_mask size_code : ℕ)
    (ds : List SharedTileDescriptor) (ps : List (List ℕ)) (valid : BankIsValid bank)
    (byte : pe_mask < 2 ^ 8) where
  abbrev found : SharedTileVersion
  found = entry no_version bank shared_id

  abbrev new : SharedTileVersion
  new = written found pe_mask (128 * 2 ^ (size_code - 1)) ds ps

  abbrev after : List SharedTileVersion
  after = (write bank shared_id pe_mask size_code ds ps).1

  -- The bank after a write whose conditions hold.
  applied_here :
      Writable bank shared_id pe_mask size_code ds ps → entry no_version after shared_id ≡ new
  applied_here w =
      let e = applied_bank bank shared_id pe_mask size_code ds ps valid byte w in
      rw e (entry-set_self bank shared_id new (omega (arith, valid.whole, w.known)))

  applied_elsewhere :
      Writable bank shared_id pe_mask size_code ds ps
      → (i : ℕ) → (i == shared_id) ≡ false
      → entry no_version after i ≡ entry no_version bank i
  applied_elsewhere w i ne =
      let e = applied_bank bank shared_id pe_mask size_code ds ps valid byte w in
      rw e (entry-set_ne bank shared_id i new (λ same. ground (arith, same, ne)))

  applied_length : Writable bank shared_id pe_mask size_code ds ps → length after ≡ 64
  applied_length w =
      let e = applied_bank bank shared_id pe_mask size_code ds ps valid byte w in
      rw e (length-set bank shared_id new ∙ valid.whole)

  -- After a write whose conditions hold, a lane that the mask selects reads as the descriptor and
  -- the bytes written to it, and every other lane, of any register, reads as before.
  pub read-write :
      (w : Writable bank shared_id pe_mask size_code ds ps) (i pe : ℕ)
      → i < 64
      → pe < 4
      → read after i pe ≡ (
          if i == shared_id && selects pe_mask pe
          then some (lane_of pe_mask ds ps pe)
          else read bank i pe)
  read-write w i pe known lane =
      let before = read-read_lane bank i pe valid.whole known lane in
      let after_write = read-read_lane after i pe (applied_length w) known lane in
      elim (Bool-cases (i == shared_id)) [
        | inl e ↦
            let same : i ≡ shared_id = ground arith in
            let here : entry no_version after i ≡ new =
              ap (entry no_version after) same ∙ applied_here w in
            let old : entry no_version bank i ≡ found = ap (entry no_version bank) same in
            let v = valid.each shared_id w.known in
            let s =
              written-selects found pe_mask (128 * 2 ^ (size_code - 1)) ds ps w.narrow v pe lane in
            let l =
              written-entry found pe_mask (128 * 2 ^ (size_code - 1)) ds ps w.narrow v pe lane in
            rw (before, after_write, here, old) (ground (arith, s, l, e))
        | inr ne ↦
            let there = applied_elsewhere w i ne in
            rw (before, after_write, there) (ground (arith, ne))
      ]

  -- `Write`, applied or not, keeps the invariant of the bank: 64 registers, and in each the written
  -- lanes are allocated, an allocation has the size of its mask and capacity, and a written lane
  -- has as many bytes as the capacity and a descriptor that fits it.
  pub write-BankIsValid : BankIsValid after
  write-BankIsValid = elim (write-cases bank shared_id pe_mask size_code ds ps valid byte) [
    | inl (w, e) ↦ record {
      whole = applied_length w;
      each = λ i known. elim (Bool-cases (i == shared_id)) [
        | inl eq ↦
            let same : i ≡ shared_id = ground arith in
            rw (same, applied_here w)
              (written-IsValid found pe_mask (128 * 2 ^ (size_code - 1)) ds ps w.narrow
                (valid.each shared_id w.known) w.some_lane
                (capacity_bytes_coded size_code w.coded).1 w.accepted)
        | inr ne ↦ rw (applied_elsewhere w i ne) (valid.each i known)
      ];
    }
    | inr (bad, ne, same) ↦ rw same valid
  ]

  -- What is allocated stays: after any `Write`, an allocated register has its mask, capacity and
  -- type, and a written lane is still written, with the same descriptor.
  pub write-Keeps : (i : ℕ) → i < 64 → Keeps (entry no_version bank i) (entry no_version after i)
  write-Keeps i known = elim (write-cases bank shared_id pe_mask size_code ds ps valid byte) [
    | inl (w, e) ↦ elim (Bool-cases (i == shared_id)) [
      | inl eq ↦
          let same : i ≡ shared_id = ground arith in
          rw (same, applied_here w)
            (written-Keeps found pe_mask (128 * 2 ^ (size_code - 1)) ds ps w.narrow
              (valid.each shared_id w.known) w.some_lane (capacity_bytes_coded size_code w.coded).1
              w.accepted)
      | inr ne ↦ rw (applied_elsewhere w i ne) (Keeps-refl (entry no_version bank i))
    ]
    | inr (bad, ne, same) ↦ rw same (Keeps-refl (entry no_version bank i))
  ]
