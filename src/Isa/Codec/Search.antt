-- ===== src/Isa/Codec/Search.antt =====
-- The search for the best form: the one pass of `DecodePackedWord` against a plain description.
use Prim.Native.Nat.{bit_and}
use linx_model.Base.{
  ℕ, Bool, true, false, not, ◌&&◌, ◌||◌, List, [], ◌∷◌, ◌++◌, ◌≡◌, refl, ◌∙◌, ◌==◌, keep_if, leb,
  ◌⊎◌, if◌then◌else◌, arith, append-nil, append_assoc, Bool-cases, inl, inr,
}
use linx_model.Base.Int.{ℤ, pos, negsuc, leb_ℤ, ltb_ℤ}
use linx_model.Isa.Desc.{MinstFormDesc, Tables, constraints_for}
use linx_model.Isa.Codec.Word.{eqb_ℤ}
use linx_model.Isa.Codec.Decode.{Scan, scan_start, scan_form, scan, constraints_ok}

module _ (t : Tables) (w length_bits : ℕ) where
  -- The form has the length and the fixed bits of the word.
  abbrev pub fixed_match : MinstFormDesc → Bool
  fixed_match f = (f.length_bits == length_bits) && (bit_and w f.mask == f.match)

  -- It also meets its constraints.
  abbrev pub accepts : MinstFormDesc → Bool
  accepts f = fixed_match f && constraints_ok t f w (constraints_for t f)

  abbrev pub is_best : ℤ → MinstFormDesc → Bool
  is_best best f = accepts f && eqb_ℤ (pos f.fixed_bits) best

  -- No accepted form has more fixed bits.
  abbrev pub NoneAbove : ℤ → List MinstFormDesc → Type 0
  NoneAbove best [] = Unit {0}
  NoneAbove best (f ∷ fs) =
      (accepts f ≡ true → leb_ℤ (pos f.fixed_bits) best ≡ true) × NoneAbove best fs

  abbrev pub any_fixed_match : List MinstFormDesc → Bool
  any_fixed_match [] = false
  any_fixed_match (f ∷ fs) = fixed_match f || any_fixed_match fs

  abbrev pub any_best : ℤ → List MinstFormDesc → Bool
  any_best best [] = false
  any_best best (f ∷ fs) = is_best best f || any_best best fs

  -- What the variables of the search say of the forms seen.
  pub record Found (seen : List MinstFormDesc) (s : Scan) : Type 0 where
    pub matches : s.valid_matches ≡ keep_if (is_best s.best_fixed_bits) seen
    pub top : NoneAbove s.best_fixed_bits seen
    pub saw : s.saw_fixed_match ≡ any_fixed_match seen
    pub attained : (s.best_fixed_bits ≡ negsuc 0) ⊎ (any_best s.best_fixed_bits seen ≡ true)

  keep_if-none :
      (lower best : ℤ) (fs : List MinstFormDesc)
      → NoneAbove lower fs
      → ltb_ℤ lower best ≡ true
      → keep_if (is_best best) fs ≡ []
  keep_if-none lower best [] h lt = refl
  keep_if-none lower best (f ∷ fs) h lt = ground (arith, keep_if-none lower best fs h.1 lt, h.0)

  NoneAbove-mono :
      (lower best : ℤ) (fs : List MinstFormDesc)
      → NoneAbove lower fs
      → ltb_ℤ lower best ≡ true
      → NoneAbove best fs
  NoneAbove-mono lower best [] h lt = tt
  NoneAbove-mono lower best (f ∷ fs) h lt =
      (λ a. ground (arith, h.0 a), NoneAbove-mono lower best fs h.1 lt)

  NoneAbove-snoc :
      (best : ℤ) (fs : List MinstFormDesc) (f : MinstFormDesc)
      → NoneAbove best fs
      → (accepts f ≡ true → leb_ℤ (pos f.fixed_bits) best ≡ true)
      → NoneAbove best (fs ++ f ∷ [])
  NoneAbove-snoc best [] f h g = (g, tt)
  NoneAbove-snoc best (x ∷ fs) f h g = (h.0, NoneAbove-snoc best fs f h.1 g)

  any_fixed_match-snoc :
      (fs : List MinstFormDesc) (f : MinstFormDesc)
      → any_fixed_match (fs ++ f ∷ []) ≡ any_fixed_match fs || fixed_match f
  any_fixed_match-snoc [] f = ground arith
  any_fixed_match-snoc (x ∷ fs) f = ground (arith, any_fixed_match-snoc fs f)

  any_best-snoc :
      (best : ℤ) (fs : List MinstFormDesc) (f : MinstFormDesc)
      → any_best best (fs ++ f ∷ []) ≡ any_best best fs || is_best best f
  any_best-snoc best [] f = ground arith
  any_best-snoc best (x ∷ fs) f = ground (arith, any_best-snoc best fs f)

  keep_if-snoc :
      (p : MinstFormDesc → Bool) (fs : List MinstFormDesc) (f : MinstFormDesc)
      → keep_if p (fs ++ f ∷ []) ≡ (if p f then keep_if p fs ++ f ∷ [] else keep_if p fs)
  keep_if-snoc p [] f = refl
  keep_if-snoc p (x ∷ fs) f = ground (arith, keep_if-snoc p fs f)

  -- The three ways in which a form changes the variables.
  after_rejected : MinstFormDesc → Scan → Scan
  after_rejected f s = record s { saw_fixed_match = s.saw_fixed_match || fixed_match f }

  scan_form-rejected :
      (f : MinstFormDesc) (s : Scan)
      → accepts f ≡ false
      → scan_form t w length_bits f s ≡ after_rejected f s
  unfolding scan_form after_rejected
  scan_form-rejected f s h = ground arith

  Found-rejected :
      (seen : List MinstFormDesc) (f : MinstFormDesc) (s : Scan) {s' : Scan}
      → Found seen s
      → accepts f ≡ false
      → s' ≡ after_rejected f s
      → Found (seen ++ f ∷ []) s'
  unfolding after_rejected
  Found-rejected seen f s v h e = rw e (record {
    matches = ground (arith, keep_if-snoc (is_best s.best_fixed_bits) seen f);
    top = NoneAbove-snoc s.best_fixed_bits seen f v.top (λ a. cc);
    saw = ground (arith, any_fixed_match-snoc seen f);
    attained = ground (arith, any_best-snoc s.best_fixed_bits seen f, v.attained);
  })

  Found-more :
      (seen : List MinstFormDesc) (f : MinstFormDesc) (s : Scan) {s' : Scan}
      → Found seen s
      → accepts f ≡ true
      → ltb_ℤ s.best_fixed_bits (pos f.fixed_bits) ≡ true
      → s' ≡ record {
        valid_matches = f ∷ [];
        best_fixed_bits = pos f.fixed_bits;
        saw_fixed_match = true;
      }
      → Found (seen ++ f ∷ []) s'
  Found-more seen f s v h more e = rw e (record {
    matches = ground (
      arith,
      keep_if-snoc (is_best (pos f.fixed_bits)) seen f,
      keep_if-none s.best_fixed_bits (pos f.fixed_bits) seen v.top more,
    );
    top =
        NoneAbove-snoc (pos f.fixed_bits) seen f
          (NoneAbove-mono s.best_fixed_bits (pos f.fixed_bits) seen v.top more) (λ a. ground arith);
    saw = ground (arith, any_fixed_match-snoc seen f);
    attained = ground (arith, any_best-snoc (pos f.fixed_bits) seen f);
  })

  Found-most :
      (seen : List MinstFormDesc) (f : MinstFormDesc) (s : Scan) {s' : Scan}
      → Found seen s
      → accepts f ≡ true
      → ltb_ℤ s.best_fixed_bits (pos f.fixed_bits) ≡ false
      → s' ≡ record s {
        valid_matches =
            if eqb_ℤ (pos f.fixed_bits) s.best_fixed_bits
            then s.valid_matches ++ f ∷ []
            else s.valid_matches;
        saw_fixed_match = true;
      }
      → Found (seen ++ f ∷ []) s'
  Found-most seen f s v h most e = rw e (record {
    matches = ground (arith, keep_if-snoc (is_best s.best_fixed_bits) seen f);
    top = NoneAbove-snoc s.best_fixed_bits seen f v.top (λ a. ground arith);
    saw = ground (arith, any_fixed_match-snoc seen f);
    attained = ground (arith, any_best-snoc s.best_fixed_bits seen f, v.attained);
  })

  scan_form-Found :
      (seen : List MinstFormDesc) (f : MinstFormDesc) (s : Scan)
      → Found seen s
      → Found (seen ++ f ∷ []) (scan_form t w length_bits f s)
  unfolding scan_form
  scan_form-Found seen f s v = elim (Bool-cases (accepts f)) [
    | inr rejected ↦ Found-rejected seen f s v rejected (scan_form-rejected f s rejected)
    | inl accepted ↦ elim (Bool-cases (ltb_ℤ s.best_fixed_bits (pos f.fixed_bits))) [
      | inl more ↦ Found-more seen f s v accepted more (ground arith)
      | inr most ↦ Found-most seen f s v accepted most (ground arith)
    ]
  ]

  scan-Found :
      (seen fs : List MinstFormDesc) (s : Scan)
      → Found seen s
      → Found (seen ++ fs) (scan t w length_bits fs s)
  unfolding scan
  scan-Found seen [] s v = rw append-nil v
  scan-Found seen (f ∷ fs) s v =
      rw (← append_assoc seen (f ∷ []) fs) (
        scan-Found (seen ++ f ∷ []) fs (scan_form t w length_bits f s) (scan_form-Found seen f s v))

  scan-Found_all : Found t.forms (scan t w length_bits t.forms scan_start)
  scan-Found_all =
      scan-Found [] t.forms scan_start
        (record { matches = refl; top = tt; saw = refl; attained = inl refl })

  -- No accepted form of the list has more fixed bits than `f`.
  abbrev pub dominates : MinstFormDesc → List MinstFormDesc → Bool
  dominates f [] = true
  dominates f (g ∷ gs) = (not (accepts g) || leb g.fixed_bits f.fixed_bits) && dominates f gs

  -- The accepted forms of the table that no accepted form beats, in table order.
  abbrev pub best_forms : List MinstFormDesc
  best_forms = keep_if (λ f. accepts f && dominates f t.forms) t.forms

  dominates_of_best :
      (best : ℤ) (f : MinstFormDesc) (fs : List MinstFormDesc)
      → eqb_ℤ (pos f.fixed_bits) best ≡ true
      → NoneAbove best fs
      → dominates f fs ≡ true
  dominates_of_best best f [] e h = refl
  dominates_of_best best f (g ∷ gs) e h = ground (arith, dominates_of_best best f gs e h.1, h.0)

  best-le_of_dominates :
      (best : ℤ) (f : MinstFormDesc) (fs : List MinstFormDesc)
      → dominates f fs ≡ true
      → any_best best fs ≡ true
      → leb_ℤ best (pos f.fixed_bits) ≡ true
  best-le_of_dominates best f [] d a = cc
  best-le_of_dominates best f (g ∷ gs) d a = ground (arith, best-le_of_dominates best f gs)

  keep_if-best :
      (best : ℤ) (fs : List MinstFormDesc)
      → NoneAbove best t.forms
      → (best ≡ negsuc 0) ⊎ (any_best best t.forms ≡ true)
      → NoneAbove best fs
      → keep_if (is_best best) fs ≡ keep_if (λ f. accepts f && dominates f t.forms) fs
  keep_if-best best [] all at h = refl
  keep_if-best best (f ∷ fs) all at h =
      let same : is_best best f ≡ accepts f && dominates f t.forms = ground (
        arith,
        dominates_of_best best f t.forms,
        best-le_of_dominates best f t.forms,
        h.0,
        at,
        all,
      ) in
      rw same (ground (arith, keep_if-best best fs all at h.1))

  -- The search ends with exactly the accepted forms that have the most fixed bits, in table order,
  -- and knows whether any form had the length and the fixed bits of the word.
  pub scan-best_forms :
      let s = scan t w length_bits t.forms scan_start in
      (s.valid_matches ≡ best_forms) × (s.saw_fixed_match ≡ any_fixed_match t.forms)
  scan-best_forms =
      let v = scan-Found_all in (v.matches ∙ keep_if-best _ t.forms v.top v.attained v.top, v.saw)
