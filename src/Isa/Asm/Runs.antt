-- ===== src/Isa/Asm/Runs.antt =====
-- The tokens of a text for `ReplaceAsmToken` of src/isa/minst.cpp, the longest runs of letters,
-- digits, `_` and `#`, and where its search for a needle stops among them.
use linx_model.Base.{
  ℕ, ◌≡◌, ◌∙◌, inl, inr, refl, ap, sym, subst, Bool, true, false, not, ◌&&◌, none, some, [], ◌∷◌,
  ◌++◌, ◌==◌, if◌then◌else◌, arith, Bool-cases, Option-cases,
}
use linx_model.Base.Text.{Bytes}
use linx_model.Isa.Asm.{
  is_asm_token_char, strip, find_split, ends_token, starts_no_token, same_bytes,
}

-- The token characters at the front of a text.
abbrev pub token_of : Bytes → Bytes
token_of [] = []
token_of (c ∷ cs) = if is_asm_token_char c then c ∷ token_of cs else []

abbrev pub all_token : Bytes → Bool
all_token [] = true
all_token (c ∷ cs) = is_asm_token_char c && all_token cs

-- Before a token or outside of one, in a token that is kept, and in one that is dropped.
pub data Mode : Type 0 where
  start copying dropping : Mode

abbrev pub mode_of : Bool → Mode
mode_of true = start
mode_of false = copying

abbrev pub after_char : ℕ → Mode
after_char c = mode_of (not (is_asm_token_char c))

-- Whether what stands before an occurrence is of no token, given that of what stands before all.
abbrev pub left_of : Bool → Bytes → Bool
left_of b [] = b
left_of b (c ∷ cs) = ends_token (c ∷ cs)

left_of-char :
    (b : Bool) (c : ℕ) (cs : Bytes) → left_of b (c ∷ cs) ≡ left_of (not (is_asm_token_char c)) cs
left_of-char b c [] = refl
left_of-char b c (d ∷ cs) = refl

token_of-append : (xs ys : Bytes) → all_token xs ≡ true → token_of (xs ++ ys) ≡ xs ++ token_of ys
token_of-append [] ys h = refl
token_of-append (x ∷ xs) ys h = ground (arith, h, token_of-append xs ys (ground (arith, h)))

same_bytes-token_of : (xs ys : Bytes) → same_bytes (xs ++ token_of ys) xs ≡ starts_no_token ys
same_bytes-token_of [] [] = refl
same_bytes-token_of [] (y ∷ ys) = elim (Bool-cases (is_asm_token_char y)) [
  | inl e ↦ rw e refl
  | inr e ↦ rw e refl
]
same_bytes-token_of (x ∷ xs) ys = ground (arith, same_bytes-token_of xs ys)

same_bytes-true : (xs ys : Bytes) → same_bytes xs ys ≡ true → xs ≡ ys
same_bytes-true [] [] h = refl
same_bytes-true [] (y ∷ ys) h = absurd (ground (arith, h))
same_bytes-true (x ∷ xs) [] h = absurd (ground (arith, h))
same_bytes-true (x ∷ xs) (y ∷ ys) h =
    let rest = same_bytes-true xs ys (ground (arith, h)) in ground (arith, h, rest)

strip-append : (xs ys : Bytes) → strip xs (xs ++ ys) ≡ some ys
strip-append [] ys = refl
strip-append (x ∷ xs) ys = ground (arith, strip-append xs ys)

pub strip-≡ : (xs text after : Bytes) → strip xs text ≡ some after → text ≡ xs ++ after
strip-≡ [] text after h = ground (arith, h)
strip-≡ (x ∷ xs) [] after h = absurd (ground (arith, h))
strip-≡ (x ∷ xs) (c ∷ cs) after h = elim (Bool-cases (x == c)) [
  | inl e ↦ let rest = strip-≡ xs cs after (ground (arith, h, e)) in ground (arith, e, rest)
  | inr e ↦ absurd (ground (arith, h, e))
]

token_of-front : (text : Bytes) → (rest : Bytes) × (text ≡ token_of text ++ rest)
token_of-front [] = ([], refl)
token_of-front (c ∷ cs) = elim (Bool-cases (is_asm_token_char c)) [
  | inl e ↦ let (rest, h) = token_of-front cs in (rest, ground (arith, e, h))
  | inr e ↦ (c ∷ cs, ground (arith, e))
]

-- A text at whose front the needle does not stand does not start with it as a token.
no_token :
    (needle text : Bytes) → strip needle text ≡ none → same_bytes (token_of text) needle ≡ false
no_token needle text h = elim (Bool-cases (same_bytes (token_of text) needle)) [
  | inr e ↦ e
  | inl e ↦
      let same = same_bytes-true (token_of text) needle e in
      let (rest, whole) = token_of-front text in
      let found = strip-append (token_of text) rest in absurd (cc (h, same, whole, found))
]

module _ (n : ℕ) (ns replacement : Bytes) where
  abbrev pub needle : Bytes
  needle = n ∷ ns

  -- The text with each token that is the needle replaced, and nothing else.
  unfoldable pub replace_tokens : Mode → Bytes → Bytes
  replace_tokens m [] = []
  replace_tokens start (c ∷ cs) = elim (is_asm_token_char c) [
    | false ↦ c ∷ replace_tokens start cs
    | true ↦ elim (same_bytes (token_of (c ∷ cs)) needle) [
      | true ↦ replacement ++ replace_tokens dropping cs
      | false ↦ c ∷ replace_tokens copying cs
    ]
  ]
  replace_tokens copying (c ∷ cs) = c ∷ replace_tokens (after_char c) cs
  replace_tokens dropping (c ∷ cs) = elim (is_asm_token_char c) [
    | true ↦ replace_tokens dropping cs
    | false ↦ c ∷ replace_tokens start cs
  ]

  copying-run :
      (xs ys : Bytes)
      → all_token xs ≡ true
      → replace_tokens copying (xs ++ ys) ≡ xs ++ replace_tokens copying ys
  unfolding replace_tokens
  copying-run [] ys h = refl
  copying-run (x ∷ xs) ys h =
      let rest = copying-run xs ys (ground (arith, h)) in ground (arith, h, rest)

  dropping-run :
      (xs ys : Bytes)
      → all_token xs ≡ true
      → starts_no_token ys ≡ true
      → replace_tokens dropping (xs ++ ys) ≡ replace_tokens copying ys
  unfolding replace_tokens
  dropping-run [] [] h k = refl
  dropping-run [] (y ∷ ys) h k = ground (arith, k)
  dropping-run (x ∷ xs) ys h k =
      let rest = dropping-run xs ys (ground (arith, h)) k in ground (arith, h, rest)

  module _ (token : all_token needle ≡ true) where
    start-in :
        (c : ℕ) (cs : Bytes) (b : Bool)
        → is_asm_token_char c ≡ true
        → same_bytes (token_of (c ∷ cs)) needle ≡ b
        → replace_tokens start (c ∷ cs)
          ≡ (if b then replacement ++ replace_tokens dropping cs else c ∷ replace_tokens copying cs)
    unfolding replace_tokens
    start-in c cs true t e = ground (arith, t, e)
    start-in c cs false t e = ground (arith, t, e)

    -- At an occurrence of the needle.
    start-needle :
        (after : Bytes)
        → replace_tokens start (needle ++ after)
          ≡ (if starts_no_token after then replacement else needle) ++ replace_tokens copying after
    start-needle after =
        let same =
          ap (λ (x : Bytes). same_bytes x needle) (token_of-append needle after token)
          ∙ same_bytes-token_of needle after in
        let first = start-in n (ns ++ after) _ (ground (arith, token)) same in
        let rest : all_token ns ≡ true = ground (arith, token) in
        elim (Bool-cases (starts_no_token after)) [
          | inl e ↦ let dropped = dropping-run ns after rest e in ground (arith, first, e, dropped)
          | inr e ↦ let kept = copying-run ns after rest in ground (arith, first, e, kept)
        ]

    -- Away from the needle a character is kept.
    skip-char :
        (b : Bool) (c : ℕ) (cs : Bytes)
        → strip needle (c ∷ cs) ≡ none
        → replace_tokens (mode_of b) (c ∷ cs) ≡ c ∷ replace_tokens (after_char c) cs
    unfolding replace_tokens
    skip-char false c cs h = refl
    skip-char true c cs h = elim (Bool-cases (is_asm_token_char c)) [
      | inl t ↦
          let first = start-in c cs false t (no_token needle (c ∷ cs) h) in ground (arith, first, t)
      | inr f ↦ ground (arith, f)
    ]

    pub find-none :
        (b : Bool) (text : Bytes)
        → find_split needle text ≡ none
        → replace_tokens (mode_of b) text ≡ text
    unfolding replace_tokens find_split
    find-none b [] h = refl
    find-none b (c ∷ cs) h = elim (Option-cases (strip needle (c ∷ cs))) [
      | inr (after, found) ↦ absurd (ground (arith, h, found))
      | inl away ↦ elim (Option-cases (find_split needle cs)) [
        | inr ((before, after), found) ↦ absurd (ground (arith, h, away, found))
        | inl later ↦
            skip-char b c cs away
            ∙ ap (λ (x : Bytes). c ∷ x) (find-none (not (is_asm_token_char c)) cs later)
      ]
    ]

    abbrev pub Found : Bool → Bytes → Bytes → Bytes → Type 0
    Found b text before after =
        replace_tokens (mode_of b) text
        ≡ before
          ++ ((if left_of b before && starts_no_token after then replacement else needle)
              ++ replace_tokens copying after)

    Found-needle : (b : Bool) (after : Bytes) → Found b (needle ++ after) [] after
    Found-needle true after = start-needle after
    Found-needle false after = copying-run needle after token

    Found-char :
        (b : Bool) (c : ℕ) (cs before after : Bytes)
        → strip needle (c ∷ cs) ≡ none
        → Found (not (is_asm_token_char c)) cs before after
        → Found b (c ∷ cs) (c ∷ before) after
    Found-char b c cs before after away later =
        skip-char b c cs away
        ∙ ap (λ (x : Bytes). c ∷ x) later
        ∙ ap
            (λ (l : Bool).
              c
              ∷ (before
                  ++ ((if l && starts_no_token after then replacement else needle)
                      ++ replace_tokens copying after)))
            (sym (left_of-char b c before))

    -- At the first occurrence of the needle, a token or not.
    pub find-Found :
        (b : Bool) (text before after : Bytes)
        → find_split needle text ≡ some (before, after)
        → Found b text before after
    unfolding find_split
    find-Found b [] before after h = absurd (ground (arith, h))
    find-Found b (c ∷ cs) before after h = elim (Option-cases (strip needle (c ∷ cs))) [
      | inr (after', found) ↦
          let whole = strip-≡ needle (c ∷ cs) after' found in
          let e₁ : [] ≡ before = ground (arith, h, found) in
          let e₂ : after' ≡ after = ground (arith, h, found) in
          subst (λ (x : Bytes). Found b (c ∷ cs) x after) e₁
            (subst (λ (x : Bytes). Found b (c ∷ cs) [] x) e₂
              (subst (λ (x : Bytes). Found b x [] after') (sym whole) (Found-needle b after')))
      | inl away ↦ elim (Option-cases (find_split needle cs)) [
        | inl no_more ↦ absurd (ground (arith, h, away, no_more))
        | inr ((before', after'), found) ↦
            let e₁ : c ∷ before' ≡ before = ground (arith, h, away, found) in
            let e₂ : after' ≡ after = ground (arith, h, away, found) in
            subst (λ (x : Bytes). Found b (c ∷ cs) x after) e₁
              (subst (λ (x : Bytes). Found b (c ∷ cs) (c ∷ before') x) e₂
                (Found-char b c cs before' after' away
                  (find-Found (not (is_asm_token_char c)) cs before' after' found)))
      ]
    ]
