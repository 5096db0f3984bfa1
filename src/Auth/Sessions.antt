-- ===== src/Auth/Sessions.antt =====
-- internal/auth/manager.go: the table of sessions. SessionFor, newSession, handleLogout, handleRenew,
-- handleListSessions, handleRevokeSession, requireAdminAPI and the janitor's sweep.
pub mod Lookup
pub mod Table
use wvpn.Base.{
  ℕ, ◌+◌, ◌-◌, ◌/◌, Bool, true, false, not, ◌&&◌, ◌||◌, List, [], ◌∷◌, Option, none, some,
  if◌then◌else◌, is_empty, ltb, leb,
}
use wvpn.Text.{Bytes, codes, same}
use wvpn.Dict.{Dict, lookup, insert, delete, sweep}
use wvpn.Auth.Model.{
  Options, Directory, Std, Session, CodeState, Manager, Request, Reply, bad_origin, bad_request,
  unauthorized, forbidden, done, renewed, session_ttl, session_cookie, same_origin, client_ip,
  truncate,
}
use wvpn.Auth.Limit.{sweep_hits}

-- now.After(s.Expires)
abbrev pub expired : ℕ → Session → Bool
expired now s = ltb s.expires now

abbrev pub with_expires : ℕ → Session → Session
with_expires t s = record {
  id = s.id;
  email = s.email;
  admin = s.admin;
  created = s.created;
  expires = t;
  ip = s.ip;
  user_agent = s.user_agent;
  token = s.token;
}

abbrev pub with_admin : Bool → Session → Session
with_admin a s = record {
  id = s.id;
  email = s.email;
  admin = a;
  created = s.created;
  expires = s.expires;
  ip = s.ip;
  user_agent = s.user_agent;
  token = s.token;
}

module _ (opts : Options) (dir : Directory) (now : ℕ) where
  -- What SessionFor does to a session that it finds live. Here expires ≥ now, so the difference is not
  -- cut off at 0.
  unfoldable pub touch : Session → Session
  unfolding session_ttl
  touch s = with_admin (dir.is_admin s.email) (
      if ltb (s.expires - now) (session_ttl opts dir / 2)
      then with_expires (now + session_ttl opts dir) s
      else s)

  -- SessionFor, over r.Cookies().
  unfoldable pub session_for : List (Bytes × Bytes) → Dict Session → Dict Session × Option Session
  unfolding touch lookup insert delete same
  session_for [] m = (m, none)
  session_for ((name, value) ∷ cookies) m =
      elim (same name session_cookie && not (is_empty value)) [
        | false ↦ session_for cookies m
        | true ↦ elim (lookup value m) [
          | none ↦ session_for cookies m
          | some s ↦ elim (expired now s) [
            | true ↦ session_for cookies (delete value m)
            | false ↦ (insert value (touch s) m, some (touch s))
          ]
        ]
      ]

-- handleLogout
unfoldable pub logout : List (Bytes × Bytes) → Dict Session → Dict Session
unfolding delete same
logout [] m = m
logout ((name, value) ∷ cookies) m =
    logout cookies (if same name session_cookie then delete value m else m)

abbrev pub with_sessions : Manager → Dict Session → Manager
with_sessions m t = record {
  sessions = t;
  codes = m.codes;
  ip_hits = m.ip_hits;
  setup_open = m.setup_open;
}

-- newSession, with the two random strings, none where the source of randomness fails.
unfoldable pub new_session :
    Std
    → Options
    → Directory
    → ℕ
    → Bytes
    → Request
    → Option Bytes
    → Option Bytes
    → Manager
    → Manager × Option Session
unfolding client_ip truncate session_ttl insert
new_session std opts dir now email r none random_id m = (m, none)
new_session std opts dir now email r (some token) none m = (m, none)
new_session std opts dir now email r (some token) (some id) m =
    let s : Session = record {
      id = id;
      email = email;
      admin = dir.is_admin email;
      created = now;
      expires = now + session_ttl opts dir;
      ip = client_ip std opts r;
      user_agent = truncate r.user_agent 200;
      token = token;
    } in
    (with_sessions m (insert token s m.sessions), some s)

-- handleRenew
unfoldable pub renew : Std → Options → Directory → ℕ → Request → Manager → Manager × Reply
unfolding same_origin session_for session_ttl lookup insert
renew std opts dir now r m =
    let (table, found) = session_for opts dir now r.cookies m.sessions in
    if not (same_origin std r) then (m, bad_origin) else elim found [
      | none ↦ (with_sessions m table, unauthorized)
      | some s ↦ elim (lookup s.token table) [
        | none ↦ (with_sessions m table, renewed s.token (s.expires - now))
        | some live ↦ (
          with_sessions m (insert s.token (with_expires (now + session_ttl opts dir) live) table),
          renewed live.token (session_ttl opts dir),
        )
      ]
    ]

-- handleListSessions
unfoldable pub list_sessions : ℕ → Dict Session → List Session
list_sessions now [] = []
list_sessions now ((token, s) ∷ m) =
    let rest = list_sessions now m in if expired now s then rest else s ∷ rest

-- handleRevokeSession, with the id of the decoded body.
unfoldable pub revoke : Option Bytes → Manager → Manager × Reply
unfolding sweep same
revoke none m = (m, bad_request)
revoke (some id) m =
    if is_empty id
    then (m, bad_request)
    else (with_sessions m (sweep (λ s. not (same s.id id)) m.sessions), done)

-- requireAdminAPI: nothing where the request goes on to the handler.
unfoldable pub require_admin_api :
    Std → Options → Directory → ℕ → Bool → Request → Manager → Manager × Option Reply
unfolding session_for same_origin
require_admin_api std opts dir now is_post r m =
    let (table, found) = session_for opts dir now r.cookies m.sessions in
    elim found [
      | none ↦ (with_sessions m table, some unauthorized)
      | some s ↦ (
        with_sessions m table,
        (if not s.admin
            then some forbidden
            else if is_post && not (same_origin std r)
            then some bad_origin
            else none),
      )
    ]

-- sweep
unfoldable pub sweep_manager : ℕ → Manager → Manager
unfolding sweep sweep_hits
sweep_manager now m = record {
  sessions = sweep (λ s. not (expired now s)) m.sessions;
  codes = sweep (λ c. not (ltb c.expires now)) m.codes;
  ip_hits = sweep_hits now m.ip_hits;
  setup_open = m.setup_open;
}
