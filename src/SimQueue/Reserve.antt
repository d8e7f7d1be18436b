-- ===== src/SimQueue/Reserve.antt =====
-- The places that `WillBeFull` of include/linx/model/sim_queue.hpp reserves.
use linx_model.Base.{
  ℕ, suc, ◌+◌, ◌^◌, ◌≤◌, ◌<◌, ◌≡◌, ◌↔◌, refl, true, false, Option, none, some, List, [], ◌∷◌, ◌++◌,
  ◌>>=◌, length, length-append, arith, ltb, Bool-cases, inl, inr,
}
use linx_model.SimQueue.{SimQueue, occupancy, full, will_be_full, write}

module _ {ℓ} {A : Type ℓ} where
  -- Calls of `Write` in a row; `none` is a failed assertion of one of them.
  abbrev pub write_all : SimQueue A → List A → Option (SimQueue A)
  write_all q [] = some q
  write_all q (a ∷ xs) = write q a >>= λ q'. write_all q' xs

  write-room :
      (q : SimQueue A) (a : A)
      → occupancy q < q.max_q_size
      → (q' : SimQueue A) × (write q a ≡ some q')
        × (occupancy q' ≡ suc (occupancy q))
        × (q'.max_q_size ≡ q.max_q_size)
  unfolding write full occupancy
  write-room q a room = (
    record q { write_q = q.write_q ++ a ∷ []; delay_q = q.delay_q ++ q.latency ∷ [] },
    ground (arith, room),
    omega (arith, length-append q.write_q (a ∷ [])),
    refl,
  )

  write-full : (q : SimQueue A) (a : A) → q.max_q_size ≤ occupancy q → write q a ≡ none
  unfolding write full occupancy
  write-full q a no_room = ground (arith, no_room)

  full-le : (q : SimQueue A) → full q ≡ true → q.max_q_size ≤ occupancy q
  unfolding full
  full-le q e = ground (arith, e)

  full-lt : (q : SimQueue A) → full q ≡ false → occupancy q < q.max_q_size
  unfolding full
  full-lt q e = ground (arith, e)

  write_all-room :
      (xs : List A) (q : SimQueue A)
      → occupancy q + length xs ≤ q.max_q_size
      → (q' : SimQueue A) × (write_all q xs ≡ some q')
  write_all-room [] q room = (q, refl)
  write_all-room (a ∷ xs) q room =
      let (q', first, one, same) = write-room q a (omega arith) in
      let (q'', rest) = write_all-room xs q' (omega (arith, one, same)) in (q'', rw first rest)

  write_all-full :
      (xs : List A) (q : SimQueue A)
      → 0 < length xs
      → q.max_q_size < occupancy q + length xs
      → write_all q xs ≡ none
  write_all-full [] q some_call over = absurd (omega arith)
  write_all-full (a ∷ []) q some_call over = rw (write-full q a (omega arith)) refl
  write_all-full (a ∷ b ∷ xs) q some_call over = elim (Bool-cases (full q)) [
    | inl no_room ↦ rw (write-full q a (full-le q no_room)) refl
    | inr room ↦
        let (q', first, one, same) = write-room q a (full-lt q room) in
        rw first (write_all-full (b ∷ xs) q' (omega arith) (omega (arith, one, same)))
  ]

  will_be_full-occupancy :
      (q : SimQueue A) (reserve : ℕ)
      → q.max_q_size < 2 ^ 64
      → (will_be_full q reserve ≡ true) ↔ (q.max_q_size ≤ occupancy q + reserve)
  unfolding will_be_full
  will_be_full-occupancy q reserve small = ground (arith, small)

  -- With a capacity below 2^64, `WillBeFull(n)` holds exactly where `n + 1` calls of `Write` in a row
  -- do not all return, whatever they write and however large `n` is.
  pub will_be_full-write_all :
      (q : SimQueue A) (xs : List A) (n : ℕ)
      → q.max_q_size < 2 ^ 64
      → length xs ≡ suc n
      → (will_be_full q n ≡ true) ↔ (write_all q xs ≡ none)
  will_be_full-write_all q xs n small many = (
    λ e.
        write_all-full xs q (omega (arith, many))
          (omega (arith, many, (will_be_full-occupancy q n small).0 e)),
    λ e. elim (Bool-cases (ltb (occupancy q + n) q.max_q_size)) [
      | inl room ↦
          let fits : occupancy q + length xs ≤ q.max_q_size = ground (arith, many, room) in
          let (q', done) = write_all-room xs q fits in absurd (ground (arith, e, done))
      | inr over ↦ (will_be_full-occupancy q n small).1 (ground (arith, over))
    ],
  )
