-- ===== src/Auth/SignIn/RoundTrip.antt =====
-- From the request for a code to the first page: the code that is mailed signs the browser in, and the
-- token that it is given names its session.
use wvpn.Base.{
  ℕ, ◌+◌, ◌≤◌, ◌<◌, ◌≡◌, refl, sym, ap, subst, ◌∙◌, true, false, [], ◌∷◌, none, some, arith,
  is_empty,
}
use wvpn.Text.{Bytes}
use wvpn.Dict.{Dict, lookup}
use wvpn.Dict.Laws.{lookup-insert_self}
use wvpn.Auth.Model.{
  Options, Directory, Std, CodeState, Session, Manager, Request, client_ip, truncate, signed_in,
  hash_code, session_ttl, session_cookie,
}
use wvpn.Auth.Sessions.{new_session, session_for, touch}
use wvpn.Auth.SignIn.{check_code, verify_for, admit, request_for, issue, too_soon, with_codes}
use wvpn.Auth.SignIn.Codes.{Good, check_code_iff}
use wvpn.Auth.SignIn.Proof.{verify_for_iff, verify_for-accepted}

module _ (std : Std) (opts : Options) (dir : Directory) where
  -- After a request that is answered in full, the code that was mailed is good for its lifetime.
  request_for-Good :
      (now later : ℕ) (email code : Bytes) (m : Manager)
      → dir.allowed email ≡ true
      → too_soon std opts dir now (lookup email m.codes) ≡ none
      → later ≤ now + opts.code_ttl
      → 0 < opts.max_attempts
      → Good std opts dir later email code
          (request_for std opts dir now email (some code) m).0.codes
  unfolding request_for issue
  request_for-Good now later email code m a s t n =
      let c : CodeState = record {
        hash = hash_code std email code;
        expires = now + opts.code_ttl;
        sent_at = now;
        attempts = 0;
      } in
      (c, ground (arith, lookup-insert_self email c m.codes), t, n, refl)

  request_for-mail :
      (now : ℕ) (email code : Bytes) (m : Manager)
      → dir.allowed email ≡ true
      → too_soon std opts dir now (lookup email m.codes) ≡ none
      → (request_for std opts dir now email (some code) m).2 ≡ some (email, code)
  unfolding request_for issue
  request_for-mail now email code m a s = ground arith

  -- The session that admit makes stands in the table under its token.
  admit-lookup :
      (now : ℕ) (email : Bytes) (r : Request) (token id : Bytes) (m : Manager)
      → dir.allowed email ≡ true
      → (s : Session) × (lookup token
            (admit std opts dir now email r (some token) (some id) m).0.sessions
          ≡ some s)
        × (s.email ≡ email)
        × (s.expires ≡ now + session_ttl opts dir)
  unfolding admit new_session
  admit-lookup now email r token id m a =
      let s : Session = record {
        id = id;
        email = email;
        admin = dir.is_admin email;
        created = now;
        expires = now + session_ttl opts dir;
        ip = client_ip std opts r;
        user_agent = truncate r.user_agent 200;
        token = token;
      } in
      (s, ground (arith, lookup-insert_self token s m.sessions), refl, refl)

  -- session_for, with the one cookie that the browser holds.
  session_for-single :
      (now : ℕ) (token : Bytes) (t : Dict Session) (s : Session)
      → is_empty token ≡ false
      → lookup token t ≡ some s
      → now ≤ s.expires
      → (session_for opts dir now ((session_cookie, token) ∷ []) t).1 ≡ some (touch opts dir now s)
  unfolding session_for
  session_for-single now token t s e l x = ground arith

  touch-email : (now : ℕ) (s : Session) → (touch opts dir now s).email ≡ s.email
  unfolding touch
  touch-email now s = ground arith

  -- Where a code may be tried at least once and the token drawn is not empty: an address that may sign in
  -- asks for a code outside the resend interval, and the code that is drawn is mailed to it. Entered before it expires, that code signs the browser in, and a request
  -- that carries the new token while the session lasts is given a session of that address.
  pub session_for-sign_in :
      (now later then_on : ℕ) (email code token id : Bytes) (r : Request) (m : Manager)
      → dir.allowed email ≡ true
      → too_soon std opts dir now (lookup email m.codes) ≡ none
      → later ≤ now + opts.code_ttl
      → 0 < opts.max_attempts
      → is_empty token ≡ false
      → then_on ≤ later + session_ttl opts dir
      → let (pending, _, mail) = request_for std opts dir now email (some code) m in
        let entered = verify_for std opts dir later email code r (some token) (some id) pending in
        (mail ≡ some (email, code))
        × (entered.1 ≡ signed_in token (session_ttl opts dir) (dir.is_admin email))
        × ((s : Session) × ((session_for opts dir then_on
                ((session_cookie, token) ∷ [])
                entered.0.sessions).1
              ≡ some s)
            × (s.email ≡ email))
  session_for-sign_in now later then_on email code token id r m a soon t n e u =
      let pending = (request_for std opts dir now email (some code) m).0 in
      let good = request_for-Good now later email code m a soon t n in
      let checked = check_code std opts dir later email code pending.codes in
      let eq =
        verify_for-accepted std opts dir later email code r (some token) (some id) pending
          ((check_code_iff std opts dir later email code pending.codes).1 good) in
      let (s, l, q, x) = admit-lookup later email r token id (with_codes pending checked.0) a in
      (
        request_for-mail now email code m a soon,
        (verify_for_iff std opts dir later email code r (some token) (some id) pending token _ _).1
            (good, (a, refl, (id, refl), refl, refl)),
        (
          touch opts dir then_on s,
          session_for-single then_on token _ s e (ap (λ v. lookup token v.0.sessions) eq ∙ l)
              (subst (λ k. then_on ≤ k) (sym x) u),
          touch-email then_on s ∙ q,
        ),
      )
