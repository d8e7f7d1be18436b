-- ===== src/Isa/Disasm/Best.antt =====
-- Which candidate `DecodeBest` of src/isa/disasm.cpp keeps.
use linx_model.Base.{
  ℕ, ◌≤◌, ◌<◌, ◌≡◌, ◌⊎◌, inl, inr, refl, Option, none, some, List, ◌/◌, length, arith, ◌∙◌, sym,
}
use linx_model.Isa.Desc.{Tables}
use linx_model.Isa.Disasm.{DecodeCandidate, fixed_bits_of, candidate_of, keep_best, decode_best}

-- More fixed bits, or as many in no more bits of length; a candidate is better than none.
abbrev pub IsAsGood : Option DecodeCandidate → Option DecodeCandidate → Type 0
IsAsGood c none = Unit
IsAsGood none (some d) = ⊥
IsAsGood (some c) (some d) =
    (fixed_bits_of d.inst.form < fixed_bits_of c.inst.form)
    ⊎ ((fixed_bits_of d.inst.form ≡ fixed_bits_of c.inst.form) × (c.length_bits ≤ d.length_bits))

IsAsGood-trans : (a b c : Option DecodeCandidate) → IsAsGood a b → IsAsGood b c → IsAsGood a c
IsAsGood-trans a b none h k = tt
IsAsGood-trans a none (some c) h k = absurd k
IsAsGood-trans none (some b) (some c) h k = absurd h
IsAsGood-trans (some a) (some b) (some c) h k = ground arith

IsAsGood-refl : (a : Option DecodeCandidate) → IsAsGood a a
IsAsGood-refl none = tt
IsAsGood-refl (some a) = inr (refl, omega arith)

module _ (t : Tables) where
  keep_best-left : (b c : Option DecodeCandidate) → IsAsGood (keep_best t b c) b
  unfolding keep_best
  keep_best-left b none = IsAsGood-refl b
  keep_best-left none (some c) = tt
  keep_best-left (some b) (some c) = ground arith

  keep_best-right : (b c : Option DecodeCandidate) → IsAsGood (keep_best t b c) c
  unfolding keep_best
  keep_best-right b none = tt
  keep_best-right none (some c) = IsAsGood-refl (some c)
  keep_best-right (some b) (some c) = ground arith

  keep_best-one : (b c : Option DecodeCandidate) → (keep_best t b c ≡ b) ⊎ (keep_best t b c ≡ c)
  unfolding keep_best
  keep_best-one b none = inl refl
  keep_best-one none (some c) = inr refl
  keep_best-one (some b) (some c) = ground arith

  keep_best-first : (c : Option DecodeCandidate) → keep_best t none c ≡ c
  unfolding keep_best
  keep_best-first none = refl
  keep_best-first (some c) = refl

  candidate_of-length :
      (bytes : List ℕ) (n : ℕ) (c : DecodeCandidate)
      → candidate_of t bytes n ≡ some c
      → (c.length_bits ≡ n) × (n / 8 ≤ length bytes)
  unfolding candidate_of
  candidate_of-length bytes n c e = ground arith

  -- As good as the candidate of each of the four lengths, and one of them.
  pub record IsBest (bytes : List ℕ) (best : Option DecodeCandidate) : Type 0 where
    pub over16 : IsAsGood best (candidate_of t bytes 16)
    pub over32 : IsAsGood best (candidate_of t bytes 32)
    pub over48 : IsAsGood best (candidate_of t bytes 48)
    pub over64 : IsAsGood best (candidate_of t bytes 64)
    pub one_of :
        (best ≡ candidate_of t bytes 16)
        ⊎ (best ≡ candidate_of t bytes 32)
        ⊎ (best ≡ candidate_of t bytes 48)
        ⊎ (best ≡ candidate_of t bytes 64)

  -- `DecodeBest` keeps a candidate that is as good as that of each of the four lengths, in fixed
  -- bits first and then in shortness, and that is one of them, or none where none decodes.
  pub decode_best-IsBest : (bytes : List ℕ) → IsBest bytes (decode_best t bytes)
  unfolding decode_best
  decode_best-IsBest bytes =
      let c16 = candidate_of t bytes 16 in
      let c32 = candidate_of t bytes 32 in
      let c48 = candidate_of t bytes 48 in
      let c64 = candidate_of t bytes 64 in
      let b16 = keep_best t none c16 in
      let b32 = keep_best t b16 c32 in
      let b48 = keep_best t b32 c48 in
      let b64 = keep_best t b48 c64 in
      let past48 = keep_best-left b48 c64 in
      let past32 = IsAsGood-trans b64 b48 b32 past48 (keep_best-left b32 c48) in
      let past16 = IsAsGood-trans b64 b32 b16 past32 (keep_best-left b16 c32) in
      record {
        over16 = IsAsGood-trans b64 b16 c16 past16 (keep_best-right none c16);
        over32 = IsAsGood-trans b64 b32 c32 past32 (keep_best-right b16 c32);
        over48 = IsAsGood-trans b64 b48 c48 past48 (keep_best-right b32 c48);
        over64 = keep_best-right b48 c64;
        one_of =
            choose (keep_best-one b48 c64) (keep_best-one b32 c48) (keep_best-one b16 c32)
              (keep_best-first c16);
      }
    where
      choose :
          {b b₃ b₂ b₁ w x y z : Option DecodeCandidate}
          → (b ≡ b₃) ⊎ (b ≡ z)
          → (b₃ ≡ b₂) ⊎ (b₃ ≡ y)
          → (b₂ ≡ b₁) ⊎ (b₂ ≡ x)
          → b₁ ≡ w
          → (b ≡ w) ⊎ (b ≡ x) ⊎ (b ≡ y) ⊎ (b ≡ z)
      choose (inr e) q r s = inr (inr (inr e))
      choose (inl e) (inr f) r s = inr (inr (inl (e ∙ f)))
      choose (inl e) (inl f) (inr g) s = inr (inl (e ∙ f ∙ g))
      choose (inl e) (inl f) (inl g) s = inl (e ∙ f ∙ g ∙ s)

  -- A line that decodes has the size of one of the lengths, and its bytes are there.
  pub decode_best-size :
      (bytes : List ℕ) (c : DecodeCandidate)
      → decode_best t bytes ≡ some c
      → (2 ≤ c.length_bits / 8) × (c.length_bits / 8 ≤ length bytes)
  decode_best-size bytes c e = sized ((decode_best-IsBest bytes).one_of)
    where
      one :
          (n : ℕ)
          → 16 ≤ n
          → candidate_of t bytes n ≡ some c
          → (2 ≤ c.length_bits / 8) × (c.length_bits / 8 ≤ length bytes)
      one n big got = omega (arith, candidate_of-length bytes n c got)

      sized :
          (decode_best t bytes ≡ candidate_of t bytes 16)
            ⊎ (decode_best t bytes ≡ candidate_of t bytes 32)
            ⊎ (decode_best t bytes ≡ candidate_of t bytes 48)
            ⊎ (decode_best t bytes ≡ candidate_of t bytes 64)
          → (2 ≤ c.length_bits / 8) × (c.length_bits / 8 ≤ length bytes)
      sized (inl h) = one 16 (omega arith) (sym h ∙ e)
      sized (inr (inl h)) = one 32 (omega arith) (sym h ∙ e)
      sized (inr (inr (inl h))) = one 48 (omega arith) (sym h ∙ e)
      sized (inr (inr (inr h))) = one 64 (omega arith) (sym h ∙ e)
