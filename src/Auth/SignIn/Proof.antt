-- ===== src/Auth/SignIn/Proof.antt =====
-- What a sign-in takes, what it gives, and what the answers to requests for a code tell.
use wvpn.Base.{
  ℕ, ◌+◌, ◌-◌, ◌/◌, ◌<◌, ◌≡◌, ◌≢◌, ◌↔◌, refl, sym, ap, ◌∙◌, Bool, true, Option, none, some, arith,
  if◌then◌else◌, Option-cases, inl, inr, ◌⊎◌,
}
use wvpn.Text.{Bytes}
use wvpn.Dict.{lookup}
use wvpn.Dict.Laws.{Distinct, lookup-insert_self}
use wvpn.Auth.Model.{
  Options, Directory, Std, Manager, Request, Reply, unauthorized, too_many, wait, code_sent,
  signed_in, hash_code, session_ttl, second,
}
use wvpn.Auth.Sessions.{new_session}
use wvpn.Auth.SignIn.{check_code, verify_for, admit, request_for, issue, with_codes}
use wvpn.Auth.SignIn.Codes.{Good, check_code_iff, check_code-once, check_code-refused}

ne_none {ℓ} : {A : Type ℓ} (a : A) → some a ≡ none → ⊥
ne_none a h = cc

module _ (std : Std) (opts : Options) (dir : Directory) where
  abbrev pub Admitted : Bytes → Option Bytes → Option Bytes → Bytes → ℕ → Bool → Type 0
  Admitted email token id given ttl admin =
      (dir.allowed email ≡ true)
      × (token ≡ some given)
      × ((i : Bytes) × (id ≡ some i))
      × (ttl ≡ session_ttl opts dir)
      × (admin ≡ dir.is_admin email)

  admit_iff :
      (now : ℕ) (email : Bytes) (r : Request) (token id : Option Bytes) (m : Manager)
      (given : Bytes) (ttl : ℕ) (admin : Bool)
      → ((admit std opts dir now email r token id m).1 ≡ signed_in given ttl admin)
        ↔ Admitted email token id given ttl admin
  unfolding admit new_session
  admit_iff now email r none id m given ttl admin =
      (λ h. ground arith, λ (e, t, i, l, a). ground arith)
  admit_iff now email r (some t) none m given ttl admin =
      (λ h. ground arith, λ (e, t, (i, j), l, a). ground arith)
  admit_iff now email r (some t) (some i) m given ttl admin = (
    λ h. (ground arith, ground arith, (i, refl), ground arith, ground arith),
    λ (e, t, (i, j), l, a). ground arith,
  )

  verify_for-refused :
      (now : ℕ) (email code : Bytes) (r : Request) (token id : Option Bytes) (m : Manager)
      (reply : Reply)
      → (check_code std opts dir now email code m.codes).1 ≡ some reply
      → (verify_for std opts dir now email code r token id m).1 ≡ reply
  unfolding verify_for
  verify_for-refused now email code r token id m reply h = ground arith

  pub verify_for-accepted :
      (now : ℕ) (email code : Bytes) (r : Request) (token id : Option Bytes) (m : Manager)
      → (check_code std opts dir now email code m.codes).1 ≡ none
      → verify_for std opts dir now email code r token id m
        ≡ admit std opts dir now email r token id
            (with_codes m (check_code std opts dir now email code m.codes).0)
  unfolding verify_for
  verify_for-accepted now email code r token id m h = ground arith

  admit-codes :
      (now : ℕ) (email : Bytes) (r : Request) (token id : Option Bytes) (m : Manager)
      → (admit std opts dir now email r token id m).0.codes ≡ m.codes
  unfolding admit new_session
  admit-codes now email r none id m = ground arith
  admit-codes now email r (some t) none m = ground arith
  admit-codes now email r (some t) (some i) m = ground arith

  not_signed_in :
      (reply : Reply) (given : Bytes) (ttl : ℕ) (admin : Bool)
      → (reply ≡ unauthorized) ⊎ (reply ≡ too_many)
      → reply ≢ signed_in given ttl admin
  not_signed_in reply given ttl admin h = ground arith

  -- handleVerify, for a normalised address and within the rate, signs a browser in exactly when the
  -- code is good for the address, the address may sign in, and the random source gives a token and an
  -- id; the reply then carries that token, the lifetime of a session, and whether the address is an
  -- administrator's.
  pub verify_for_iff :
      (now : ℕ) (email code : Bytes) (r : Request) (token id : Option Bytes) (m : Manager)
      (given : Bytes) (ttl : ℕ) (admin : Bool)
      → ((verify_for std opts dir now email code r token id m).1 ≡ signed_in given ttl admin)
        ↔ (Good std opts dir now email code m.codes × Admitted email token id given ttl admin)
  verify_for_iff now email code r token id m given ttl admin =
      let checked = check_code std opts dir now email code m.codes in
      let rest = admit_iff now email r token id (with_codes m checked.0) given ttl admin in
      let good = check_code_iff std opts dir now email code m.codes in
      elim (Option-cases checked.1) [
        | inl n ↦
            let eq = ap (λ a. a.1) (verify_for-accepted now email code r token id m n) in
            (λ h. (good.0 n, rest.0 (sym eq ∙ h)), λ (g, a). eq ∙ rest.1 a)
        | inr (reply, e) ↦ (
          λ h. absurd (
              not_signed_in reply given ttl admin
                (check_code-refused std opts dir now email code m.codes reply e)
                (sym (verify_for-refused now email code r token id m reply e) ∙ h)),
          λ (g, a). absurd (ne_none reply (sym e ∙ good.1 g)),
        )
      ]

  -- A code that has signed a browser in signs in no other: the next attempt for the address is refused,
  -- whatever the code, the time and the request, until a new code is asked for.
  pub verify_for-once :
      (now later : ℕ) (email code again : Bytes) (r q : Request)
      (token id token2 id2 : Option Bytes) (m : Manager) (given given2 : Bytes) (ttl ttl2 : ℕ)
      (admin admin2 : Bool)
      → Distinct m.codes
      → (verify_for std opts dir now email code r token id m).1 ≡ signed_in given ttl admin
      → (verify_for std opts dir later email again q token2 id2
          (verify_for std opts dir now email code r token id m).0).1
        ≢ signed_in given2 ttl2 admin2
  verify_for-once now later email code again r q token id token2 id2 m given given2 ttl ttl2 admin
        admin2 d h h2 =
      let after = (verify_for std opts dir now email code r token id m).0 in
      let n =
        (check_code_iff std opts dir now email code m.codes).1
          ((verify_for_iff now email code r token id m given ttl admin).0 h).0 in
      let table : after.codes ≡ (check_code std opts dir now email code m.codes).0 =
        ap (λ a. a.0.codes) (verify_for-accepted now email code r token id m n)
        ∙ admit-codes now email r token id _ in
      let gone : lookup email after.codes ≡ none =
        ap (λ t. lookup email t) table ∙ check_code-once std opts dir now email code m.codes d n in
      let (c, l, _, _, _) =
        ((verify_for_iff later email again q token2 id2 after given2 ttl2 admin2).0 h2).0 in
      ne_none c (sym l ∙ gone)

  -- Two requests for a code for one address with nothing pending, the second before the resend
  -- interval is over: the first answer is the same for every address, the second is `wait` where the
  -- address may sign in, and the first answer again where it may not.
  pub request_for-again :
      (now later : ℕ) (email code : Bytes) (random : Option Bytes) (m : Manager)
      → lookup email m.codes ≡ none
      → later < now + opts.resend_interval
      → let first = request_for std opts dir now email (some code) m in
        (first.1 ≡ code_sent (opts.resend_interval / second) (opts.code_ttl / second))
        × ((request_for std opts dir later email random first.0).1 ≡ (
            if dir.allowed email
            then wait ((now + opts.resend_interval - later) / second)
            else code_sent (opts.resend_interval / second) (opts.code_ttl / second)))
  unfolding request_for issue
  request_for-again now later email code random m l h = ground (
    arith,
    lookup-insert_self email
        (record {
          hash = hash_code std email code;
          expires = now + opts.code_ttl;
          sent_at = now;
          attempts = 0;
        })
        m.codes,
  )
