-- ===== src/Auth/Model.antt =====
-- internal/auth/manager.go: the Manager's state, what it is given, and what a request carries. Time is
-- a number of nanoseconds.
use wvpn.Base.{
  ℕ, ◌*◌, Bool, true, false, not, ◌&&◌, ◌||◌, List, ◌∷◌, ◌++◌, Option, none, some, if◌then◌else◌,
  is_empty, ltb, leb, length,
}
use wvpn.Text.{Bytes, codes, same, cut, trim_space, trim_both, equal_fold, take}
use wvpn.Net.{Addr, is_loopback, without_port}
use wvpn.Dict.{Dict}
use wvpn.Base.{◌==◌}

abbrev pub second : ℕ
second = 1_000_000_000

abbrev pub minute : ℕ
minute = 60_000_000_000

abbrev pub session_cookie : Bytes
session_cookie = codes "wvsid"

-- The times and bounds of Options, as New has filled them in.
pub record Options : Type 0 where
  pub session_ttl : ℕ
  pub code_ttl : ℕ
  pub resend_interval : ℕ
  pub max_attempts : ℕ
  pub trust_proxy_headers : Bool
  pub setup_token : Bytes

-- What the manager asks the store.
pub record Directory : Type 0 where
  pub normalize_email : Bytes → Option Bytes
  pub allowed : Bytes → Bool
  pub is_admin : Bytes → Bool
  pub session_minutes : ℕ
  pub has_admins : Bool

-- What the manager asks the standard library: SHA-256, netip.ParseAddr, and the host of a parsed URL.
pub record Std : Type 0 where
  pub sha256 : Bytes → Bytes
  pub parse_addr : Bytes → Option Addr
  pub url_host : Bytes → Option Bytes

pub record Session : Type 0 where
  pub id : Bytes
  pub email : Bytes
  pub admin : Bool
  pub created : ℕ
  pub expires : ℕ
  pub ip : Bytes
  pub user_agent : Bytes
  pub token : Bytes

pub record CodeState : Type 0 where
  pub hash : Bytes
  pub expires : ℕ
  pub sent_at : ℕ
  pub attempts : ℕ

pub record Manager : Type 0 where
  pub sessions : Dict Session
  pub codes : Dict CodeState
  pub ip_hits : Dict (List ℕ)
  pub setup_open : Bool

-- The parts of an http.Request that the handlers read.
pub record Request : Type 0 where
  pub origin : Bytes
  pub host : Bytes
  pub remote_addr : Bytes
  pub real_ip : Bytes
  pub forwarded_for : Bytes
  pub user_agent : Bytes
  pub cookies : List (Bytes × Bytes)

pub data Reply : Type 0 where
  bad_origin bad_request too_many unauthorized forbidden server_error done : Reply
  wait : ℕ → Reply
  code_sent : ℕ → ℕ → Reply
  signed_in : Bytes → ℕ → Bool → Reply
  renewed : Bytes → ℕ → Reply

-- sessionTTL
unfoldable pub session_ttl : Options → Directory → ℕ
session_ttl opts dir =
    if ltb 0 dir.session_minutes then dir.session_minutes * minute else opts.session_ttl

-- sameOrigin
unfoldable pub same_origin : Std → Request → Bool
same_origin std r =
    if is_empty r.origin || same r.origin (codes "null")
    then true
    else elim (std.url_host r.origin) [ none ↦ false | some h ↦ equal_fold h r.host ]

-- isLoopbackAddr
unfoldable pub is_loopback_addr : Std → Bytes → Bool
is_loopback_addr std host = elim (std.parse_addr (trim_both (λ c. c == b'[' || c == b']') host)) [
  | none ↦ false
  | some a ↦ is_loopback a
]

-- clientIP, with peerIP for the connection's own end.
unfoldable pub client_ip : Std → Options → Request → Bytes
unfolding is_loopback_addr without_port
client_ip std opts r =
    let peer = without_port r.remote_addr in
    let (first, _, _) = cut b',' r.forwarded_for in
    if not opts.trust_proxy_headers && not (is_loopback_addr std peer)
    then peer
    else if not (is_empty (trim_space r.real_ip))
    then trim_space r.real_ip
    else if not (is_empty r.forwarded_for) && not (is_empty (trim_space first))
    then trim_space first
    else peer

-- hashCode
unfoldable pub hash_code : Std → Bytes → Bytes → Bytes
hash_code std email code = std.sha256 (email ++ (b':' ∷ code))

-- truncate
unfoldable pub truncate : Bytes → ℕ → Bytes
truncate s n = if leb (length s) n then s else take n s
