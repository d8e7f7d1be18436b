-- ===== src/Isa/Asm/Tokens.antt =====
-- `ReplaceAsmToken` of src/isa/minst.cpp replaces the tokens that are the needle.
use linx_model.Base.{
  ℕ, zero, suc, ◌<◌, ◌≡◌, ◌∙◌, ◌⊎◌, inl, inr, refl, ap, sym, Bool, true, false, ◌&&◌, some, [], ◌∷◌,
  ◌++◌, append_assoc, append-nil, length, length-append, if◌then◌else◌, arith, Bool-cases,
  Option-cases,
}
use linx_model.Base.Text.{Bytes}
use linx_model.Isa.Asm.{
  strip, find_split, ends_token, starts_no_token, replace_from, replace_asm_token,
}
use linx_model.Isa.Asm.Runs.{
  all_token, start, copying, mode_of, left_of, strip-≡, replace_tokens, find-none, find-Found,
}

ends_token-append :
    (xs : Bytes) (y : ℕ) (ys : Bytes) → ends_token (xs ++ y ∷ ys) ≡ ends_token (y ∷ ys)
ends_token-append [] y ys = refl
ends_token-append (x ∷ []) y ys = refl
ends_token-append (x ∷ x' ∷ xs) y ys = ends_token-append (x' ∷ xs) y ys

ends_token-all : (y : ℕ) (ys : Bytes) → all_token (y ∷ ys) ≡ true → ends_token (y ∷ ys) ≡ false
ends_token-all y [] h = ground (arith, h)
ends_token-all y (x ∷ xs) h = ends_token-all x xs (ground (arith, h))

module _ (n : ℕ) (ns replacement : Bytes) (token : all_token (n ∷ ns) ≡ true) where
  abbrev needle : Bytes
  needle = n ∷ ns

  find-≡ :
      (text before after : Bytes)
      → find_split needle text ≡ some (before, after)
      → text ≡ before ++ (needle ++ after)
  unfolding find_split
  find-≡ [] before after h = absurd (ground (arith, h))
  find-≡ (c ∷ cs) before after h = elim (Option-cases (strip needle (c ∷ cs))) [
    | inr (after', found) ↦
        let whole = strip-≡ needle (c ∷ cs) after' found in ground (arith, h, found, whole)
    | inl away ↦ elim (Option-cases (find_split needle cs)) [
      | inl no_more ↦ absurd (ground (arith, h, away, no_more))
      | inr ((before', after'), found) ↦
          let rest = find-≡ cs before' after' found in ground (arith, h, away, found, rest)
    ]
  ]

  -- What the loop knows: `b` tells whether its place in the text is outside of every token.
  abbrev Knows : Bool → Bytes → Bytes → Type 0
  Knows true done text = ends_token done ≡ true
  Knows false done text = (ends_token done ≡ false) ⊎ (starts_no_token text ≡ true)

  -- So the loop's test of the left side is that of the tokens.
  Knows-left :
      (b : Bool) (done text before after : Bytes)
      → Knows b done text
      → find_split needle text ≡ some (before, after)
      → ends_token (done ++ before) ≡ left_of b before
  Knows-left b done text (c ∷ before) after k h = ends_token-append done c before
  Knows-left true done text [] after k h = ap ends_token (append-nil done) ∙ k
  Knows-left false done text [] after (inl k) h = ap ends_token (append-nil done) ∙ k
  Knows-left false done text [] after (inr k) h =
      let front = ap starts_no_token (find-≡ text [] after h) in
      absurd (ground (arith, token, k, front))

  -- What the loop knows after a turn.
  Knows-next :
      (left : Bool) (done before after : Bytes)
      → Knows false
          (if left && starts_no_token after
            then done ++ (before ++ replacement)
            else done ++ (before ++ needle))
          after
  Knows-next left done before after = elim (Bool-cases (starts_no_token after)) [
    | inl clear ↦ inr clear
    | inr inside ↦
        let last =
          ap ends_token (sym (append_assoc done before needle))
          ∙ ends_token-append (done ++ before) n ns
          ∙ ends_token-all n ns token in
        elim (Bool-cases left) [
          | inl l ↦ inl (ground (arith, inside, last, l))
          | inr l ↦ inl (ground (arith, inside, last, l))
        ]
  ]

  loop-step :
      (fuel : ℕ) (b : Bool) (done text before after : Bytes)
      → Knows b done text
      → find_split needle text ≡ some (before, after)
      → ((done' : Bytes)
          → Knows false done' after
          → replace_from needle replacement fuel done' after
            ≡ done' ++ replace_tokens n ns replacement copying after)
      → replace_from needle replacement (suc fuel) done text
        ≡ done ++ replace_tokens n ns replacement (mode_of b) text
  unfolding replace_from
  loop-step fuel b done text before after k h again =
      let left = Knows-left b done text before after k h in
      let found = find-Found n ns replacement token b text before after h in
      let rest =
        again
          (if ends_token (done ++ before) && starts_no_token after
            then done ++ (before ++ replacement)
            else done ++ (before ++ needle))
          (Knows-next (ends_token (done ++ before)) done before after) in
      let tail = replace_tokens n ns replacement copying after in
      elim (Bool-cases (left_of b before && starts_no_token after)) [
        | inl clear ↦
            let shape =
              append_assoc done (before ++ replacement) tail
              ∙ ap (λ (x : Bytes). done ++ x) (append_assoc before replacement tail) in
            ground (arith, h, left, found, rest, clear, shape)
        | inr no_match ↦
            let shape =
              append_assoc done (before ++ needle) tail
              ∙ ap (λ (x : Bytes). done ++ x) (append_assoc before needle tail) in
            ground (arith, h, left, found, rest, no_match, shape)
      ]

  replace_from-tokens :
      (fuel : ℕ) (b : Bool) (done text : Bytes)
      → length text < fuel
      → Knows b done text
      → replace_from needle replacement fuel done text
        ≡ done ++ replace_tokens n ns replacement (mode_of b) text
  unfolding replace_from
  replace_from-tokens zero b done text enough k = absurd (omega arith)
  replace_from-tokens (suc fuel) b done text enough k =
      elim (Option-cases (find_split needle text)) [
        | inl no_more ↦
            let same = find-none n ns replacement token b text no_more in
            ground (arith, no_more, same)
        | inr ((before, after), found) ↦
            let size = ap length (find-≡ text before after found) in
            let shorter : length after < fuel = omega (
              arith,
              size,
              enough,
              length-append {0} before (needle ++ after),
              length-append {0} ns after,
            ) in
            loop-step fuel b done text before after k found
              λ done' k'. replace_from-tokens fuel false done' after shorter k'
      ]

  -- `ReplaceAsmToken` for a needle of token characters replaces every token of the text that is
  -- the needle and keeps all else: the fuel, the length of the text, is enough, and neither an
  -- occurrence inside a longer token nor one in a replacement is touched.
  pub replace_asm_token-tokens :
      (text : Bytes)
      → replace_asm_token needle replacement text ≡ replace_tokens n ns replacement start text
  unfolding replace_asm_token
  replace_asm_token-tokens text =
      replace_from-tokens (suc (length text)) true [] text (omega arith) refl
