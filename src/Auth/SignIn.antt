-- ===== src/Auth/SignIn.antt =====
-- internal/auth/manager.go: handleRequestCode and handleVerify, and closeSetup of setup.go. The
-- decoded body is an argument, none where it does not decode, and so is what the random source gives.
-- A handler that takes the lock twice is one step here.
pub mod Codes
pub mod Proof
pub mod RoundTrip
use wvpn.Base.{
  ℕ, ◌+◌, ◌-◌, ◌/◌, suc, Bool, true, false, not, List, Option, none, some, if◌then◌else◌, ltb, leb,
}
use wvpn.Text.{Bytes, same, trim_space}
use wvpn.Dict.{Dict, lookup, insert, delete}
use wvpn.Auth.Model.{
  Options, Directory, Std, Session, CodeState, Manager, Request, Reply, bad_origin, bad_request,
  too_many, unauthorized, forbidden, server_error, wait, code_sent, signed_in, session_ttl,
  same_origin, client_ip, hash_code, second,
}
use wvpn.Auth.Limit.{rate_limited}
use wvpn.Auth.Sessions.{new_session}

abbrev pub with_codes : Manager → Dict CodeState → Manager
with_codes m c = record {
  sessions = m.sessions;
  codes = c;
  ip_hits = m.ip_hits;
  setup_open = m.setup_open;
}

abbrev pub with_hits : Manager → Dict (List ℕ) → Manager
with_hits m h = record {
  sessions = m.sessions;
  codes = m.codes;
  ip_hits = h;
  setup_open = m.setup_open;
}

-- closeSetup
abbrev pub close_setup : Manager → Manager
close_setup m = record {
  sessions = m.sessions;
  codes = m.codes;
  ip_hits = m.ip_hits;
  setup_open = false;
}

module _ (std : Std) (opts : Options) (dir : Directory) (now : ℕ) where
  -- The end of handleRequestCode: the code is made, kept as a hash and handed to the mailer.
  unfoldable pub issue : Bytes → Option Bytes → Manager → Manager × Reply × Option (Bytes × Bytes)
  unfolding hash_code insert
  issue email none m = (m, server_error, none)
  issue email (some code) m =
      let c : CodeState = record {
        hash = hash_code std email code;
        expires = now + opts.code_ttl;
        sent_at = now;
        attempts = 0;
      } in
      (
        with_codes m (insert email c m.codes),
        code_sent (opts.resend_interval / second) (opts.code_ttl / second),
        some (email, code),
      )

  -- c, ok := m.codes[email]; ok && now.Sub(c.sentAt) < m.opts.ResendInterval
  abbrev pub too_soon : Option CodeState → Option ℕ
  too_soon none = none
  too_soon (some c) = if ltb now (c.sent_at + opts.resend_interval) then some c.sent_at else none

  -- handleRequestCode after the rate limit, for a normalised address. The last component is the mail
  -- that `go m.deliver` sends.
  unfoldable pub request_for :
      Bytes → Option Bytes → Manager → Manager × Reply × Option (Bytes × Bytes)
  unfolding issue lookup
  request_for email random m = elim (too_soon (lookup email m.codes)) [
    | some sent_at ↦ (m, wait ((sent_at + opts.resend_interval - now) / second), none)
    | none ↦
        if dir.allowed email
        then issue email random m
        else (m, code_sent (opts.resend_interval / second) (opts.code_ttl / second), none)
  ]

  -- handleRequestCode
  unfoldable pub request_code :
      Request → Option Bytes → Option Bytes → Manager → Manager × Reply × Option (Bytes × Bytes)
  unfolding same_origin client_ip rate_limited request_for
  request_code r none random m = (m, (if same_origin std r then bad_request else bad_origin), none)
  request_code r (some raw) random m =
      let (hits, over) = rate_limited now (client_ip std opts r) m.ip_hits in
      if not (same_origin std r)
      then (m, bad_origin, none)
      else if over
      then (with_hits m hits, too_many, none)
      else elim (dir.normalize_email raw) [
        | none ↦ (with_hits m hits, bad_request, none)
        | some email ↦ request_for email random (with_hits m hits)
      ]

  -- The switch of handleVerify and the comparison: the codes afterwards, and the reply where the code
  -- is not accepted.
  unfoldable pub check_code : Bytes → Bytes → Dict CodeState → Dict CodeState × Option Reply
  unfolding hash_code lookup insert delete same
  check_code email code codes = elim (lookup email codes) [
    | none ↦ (delete email codes, some unauthorized)
    | some c ↦
        if ltb c.expires now
        then (delete email codes, some unauthorized)
        else if leb opts.max_attempts c.attempts
        then (delete email codes, some too_many)
        else if not (same c.hash (hash_code std email code))
        then (
          insert email
              (record {
                hash = c.hash;
                expires = c.expires;
                sent_at = c.sent_at;
                attempts = suc c.attempts;
              })
              codes,
          some unauthorized,
        )
        else (delete email codes, none)
  ]

  -- handleVerify from the accepted code on, with the random token and id.
  unfoldable pub admit : Bytes → Request → Option Bytes → Option Bytes → Manager → Manager × Reply
  unfolding new_session
  admit email r token id m =
      let (m1, made) = new_session std opts dir now email r token id m in
      if not (dir.allowed email) then (m, forbidden) else elim made [
        | none ↦ (m1, server_error)
        | some s ↦ (
          (if s.admin then close_setup m1 else m1),
          signed_in s.token (session_ttl opts dir) s.admin,
        )
      ]

  -- handleVerify after the rate limit, for a normalised address and a trimmed code.
  unfoldable pub verify_for :
      Bytes → Bytes → Request → Option Bytes → Option Bytes → Manager → Manager × Reply
  unfolding check_code admit
  verify_for email code r token id m =
      let (codes, refused) = check_code email code m.codes in
      elim refused [
        | some reply ↦ (with_codes m codes, reply)
        | none ↦ admit email r token id (with_codes m codes)
      ]

  -- handleVerify
  unfoldable pub verify :
      Request → Option (Bytes × Bytes) → Option Bytes → Option Bytes → Manager → Manager × Reply
  unfolding same_origin client_ip rate_limited verify_for trim_space
  verify r none token id m = (m, (if same_origin std r then bad_request else bad_origin))
  verify r (some (raw, code)) token id m =
      let (hits, over) = rate_limited now (client_ip std opts r) m.ip_hits in
      if not (same_origin std r)
      then (m, bad_origin)
      else if over
      then (with_hits m hits, too_many)
      else elim (dir.normalize_email raw) [
        | none ↦ (with_hits m hits, bad_request)
        | some email ↦ verify_for email (trim_space code) r token id (with_hits m hits)
      ]
