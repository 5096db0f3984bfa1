-- ===== src/Auth/SignIn/Codes.antt =====
-- The table of pending codes: what check_code accepts, and how often a code can be tried.
use wvpn.Base.{
  ℕ, suc, ◌+◌, ◌≤◌, ◌<◌, ◌≡◌, ◌≢◌, ◌↔◌, refl, subst, List, [], ◌∷◌, none, some, arith, ltb, leb,
  length, Bool-cases, Option-cases, inl, inr, ◌⊎◌,
}
use wvpn.Text.{Bytes}
use wvpn.Text.Laws.{same_refl, same_iff}
use wvpn.Dict.{Dict, lookup}
use wvpn.Dict.Laws.{Distinct, lookup-delete, lookup-insert_self, insert-Distinct, delete-Distinct}
use wvpn.Auth.Model.{Options, Directory, Std, CodeState, Reply, unauthorized, too_many, hash_code}
use wvpn.Auth.SignIn.{check_code}

module _ (std : Std) (opts : Options) (dir : Directory) where
  -- A code is good for an address: pending, not expired, not tried out, and of the right hash.
  abbrev pub Good : ℕ → Bytes → Bytes → Dict CodeState → Type 0
  Good now email code codes =
      (c : CodeState) × (lookup email codes ≡ some c)
      × (now ≤ c.expires)
      × (c.attempts < opts.max_attempts)
      × (c.hash ≡ hash_code std email code)

  pub check_code_iff :
      (now : ℕ) (email code : Bytes) (codes : Dict CodeState)
      → ((check_code std opts dir now email code codes).1 ≡ none) ↔ Good now email code codes
  unfolding check_code
  check_code_iff now email code codes = elim (Option-cases (lookup email codes)) [
    | inl n ↦ (λ h. ground arith, λ (c, l, e, a, q). ground arith)
    | inr (c, l) ↦ (
      λ h. (
        c,
        l,
        ground arith,
        ground arith,
        ground (arith, same_iff c.hash (hash_code std email code)),
      ),
      λ (d, k, e, a, q). ground (arith, same_iff c.hash (hash_code std email code)),
    )
  ]

  -- A refusal has one of two answers.
  pub check_code-refused :
      (now : ℕ) (email code : Bytes) (codes : Dict CodeState) (reply : Reply)
      → (check_code std opts dir now email code codes).1 ≡ some reply
      → (reply ≡ unauthorized) ⊎ (reply ≡ too_many)
  unfolding check_code
  check_code-refused now email code codes reply h = ground arith

  -- A code that is accepted is gone.
  pub check_code-once :
      (now : ℕ) (email code : Bytes) (codes : Dict CodeState)
      → Distinct codes
      → (check_code std opts dir now email code codes).1 ≡ none
      → lookup email (check_code std opts dir now email code codes).0 ≡ none
  unfolding check_code
  check_code-once now email code codes d h =
      ground (arith, lookup-delete email email codes d, same_refl email)

  -- Codes that are tried one after the other, each at its time: the table afterwards.
  unfoldable pub try_codes : Bytes → List (ℕ × Bytes) → Dict CodeState → Dict CodeState
  try_codes email [] codes = codes
  try_codes email ((now, code) ∷ guesses) codes =
      try_codes email guesses (check_code std opts dir now email code codes).0

  -- None of them is the code that was sent.
  abbrev pub AllWrong : Bytes → Bytes → List (ℕ × Bytes) → Type 0
  AllWrong email hash [] = Unit
  AllWrong email hash ((now, code) ∷ guesses) =
      (hash ≢ hash_code std email code) × AllWrong email hash guesses

  -- Nothing pending, or a code that has been tried `n` times at the least.
  abbrev pub Tried : Bytes → Bytes → ℕ → Dict CodeState → Type 0
  Tried email hash n codes =
      (lookup email codes ≡ none)
      ⊎ ((c : CodeState) × (lookup email codes ≡ some c) × (c.hash ≡ hash) × (n ≤ c.attempts))

  check_code-Tried :
      (now : ℕ) (email code hash : Bytes) (n : ℕ) (codes : Dict CodeState)
      → Distinct codes
      → hash ≢ hash_code std email code
      → Tried email hash n codes
      → Tried email hash (suc n) (check_code std opts dir now email code codes).0
  unfolding check_code
  check_code-Tried now email code hash n codes d w (inl l) =
      inl (ground (arith, lookup-delete email email codes d, same_refl email))
  check_code-Tried now email code hash n codes d w (inr (c, l, q, a)) =
      elim (Bool-cases (ltb c.expires now)) [
        | inl e ↦ inl (ground (arith, lookup-delete email email codes d, same_refl email))
        | inr e ↦ elim (Bool-cases (leb opts.max_attempts c.attempts)) [
          | inl m ↦ inl (ground (arith, lookup-delete email email codes d, same_refl email))
          | inr m ↦ inr (
            record {
              hash = c.hash;
              expires = c.expires;
              sent_at = c.sent_at;
              attempts = suc c.attempts;
            },
            ground (
              arith,
              lookup-insert_self email
                  (record {
                    hash = c.hash;
                    expires = c.expires;
                    sent_at = c.sent_at;
                    attempts = suc c.attempts;
                  })
                  codes,
              same_iff c.hash (hash_code std email code),
            ),
            q,
            omega arith,
          )
        ]
      ]

  check_code-Distinct :
      (now : ℕ) (email code : Bytes) (codes : Dict CodeState)
      → Distinct codes
      → Distinct (check_code std opts dir now email code codes).0
  unfolding check_code
  check_code-Distinct now email code codes d = elim (Option-cases (lookup email codes)) [
    | inl n ↦ ground (arith, delete-Distinct email codes d)
    | inr (c, l) ↦
        let tried : CodeState = record {
          hash = c.hash;
          expires = c.expires;
          sent_at = c.sent_at;
          attempts = suc c.attempts;
        } in
        ground (arith, delete-Distinct email codes d, insert-Distinct email tried codes d)
  ]

  shift_count :
      (n : ℕ) (guesses : List (ℕ × Bytes)) → suc n + length guesses ≡ n + suc (length guesses)
  shift_count n guesses = omega arith

  try_codes-Tried :
      (email hash : Bytes) (guesses : List (ℕ × Bytes)) (n : ℕ) (codes : Dict CodeState)
      → Distinct codes
      → AllWrong email hash guesses
      → Tried email hash n codes
      → Tried email hash (n + length guesses) (try_codes email guesses codes)
  unfolding try_codes
  try_codes-Tried email hash [] n codes d w t =
      subst (λ k. Tried email hash k codes) (omega arith) t
  try_codes-Tried email hash ((now, code) ∷ guesses) n codes d (w, ws) t =
      let after = (check_code std opts dir now email code codes).0 in
      subst (λ k. Tried email hash k (try_codes email guesses after)) (shift_count n guesses)
        (try_codes-Tried email hash guesses (suc n) after
          (check_code-Distinct now email code codes d) ws
          (check_code-Tried now email code hash n codes d w t))

  -- After as many wrong guesses as the options allow, the code that was sent is refused as well.
  pub try_codes-locked :
      (email : Bytes) (c : CodeState) (guesses : List (ℕ × Bytes)) (now : ℕ) (code : Bytes)
      (codes : Dict CodeState)
      → Distinct codes
      → lookup email codes ≡ some c
      → AllWrong email c.hash guesses
      → opts.max_attempts ≤ length guesses
      → (check_code std opts dir now email code (try_codes email guesses codes)).1 ≢ none
  try_codes-locked email c guesses now code codes d l w n h =
      let after = try_codes email guesses codes in
      let (k, j, e, a, q) = (check_code_iff now email code after).0 h in
      elim (try_codes-Tried email c.hash guesses 0 codes d w (inr (c, l, refl, omega arith))) [
        | inl gone ↦ ground arith
        | inr (t, i, p, b) ↦ ground arith
      ]
