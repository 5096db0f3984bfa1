-- ===== src/Store/Config.antt =====
-- internal/store/store.go: the configuration and its normal form, from Config to normalizeConfig and
-- clone.
pub mod Domain
pub mod Validate
pub mod Normal
pub mod Patterns
pub mod Persist
pub mod Samples
mod Tests
use wvpn.Base.{
  ℕ, Bool, true, false, not, ◌&&◌, ◌||◌, List, [], ◌∷◌, ◌++◌, if◌then◌else◌, is_empty, any, ◌==◌,
}
use wvpn.Text.{Bytes, codes, same, trim_space, trim_both, to_lower}
use wvpn.Store.Headers.{HeaderRule, normalize_header_rules}

-- A Go int, which a configuration file may set below zero.
pub data ℤ : Type 0 where
  pos : ℕ → ℤ
  negsuc : ℕ → ℤ

pub record Access : Type 0 where
  pub mode : Bytes
  pub sites : List Bytes

pub record Sso : Type 0 where
  pub mode : Bytes
  pub hosts : List Bytes

pub record Bookmark : Type 0 where
  pub name : Bytes
  pub url : Bytes
  pub note : Bytes

pub record Group : Type 0 where
  pub name : Bytes
  pub items : List Bookmark

pub record Gateway : Type 0 where
  pub url_mode : Bytes
  pub base_domain : Bytes
  pub host : Bytes
  pub public_port : Bytes
  pub public_scheme : Bytes

pub record Policy : Type 0 where
  pub session_minutes : ℤ
  pub forward_for : Bool

pub record Tls : Type 0 where
  pub cert : Bytes
  pub key : Bytes

pub record Smtp : Type 0 where
  pub addr : Bytes
  pub sender : Bytes
  pub username : Bytes
  pub password : Bytes
  pub tls_mode : Bytes
  pub implicit_tls : Bool
  pub allow_plaintext_auth : Bool
  pub helo : Bytes
  pub insecure_skip_verify : Bool

pub record Config : Type 0 where
  pub default_domain : Bytes
  pub allowed_users : List Bytes
  pub admins : List Bytes
  pub access : Access
  pub bookmarks : List Group
  pub smtp : Smtp
  pub gateway : Gateway
  pub tls : Tls
  pub sso : Sso
  pub headers : List HeaderRule
  pub policy : Policy

-- TLSAuto, TLSRequire, TLSNone and TLSImplicit.
abbrev pub is_tls_mode : Bytes → Bool
is_tls_mode m =
    same m (codes "auto")
    || same m (codes "require")
    || same m (codes "none")
    || same m (codes "implicit")

-- Mode of SMTP
unfoldable pub mode : Smtp → Bytes
unfolding same
mode s =
    if is_tls_mode s.tls_mode
    then s.tls_mode
    else if s.implicit_tls
    then codes "implicit"
    else codes "auto"

-- URLPlain, URLWRD and URLSubdomain.
abbrev pub is_url_mode : Bytes → Bool
is_url_mode m = same m (codes "plain") || same m (codes "wrd") || same m (codes "subdomain")

-- Mode of Gateway
unfoldable pub url_mode : Gateway → Bytes
unfolding same
url_mode g = if is_url_mode g.url_mode then g.url_mode else codes "plain"

-- PortalHost
unfoldable pub portal_host : Gateway → Bytes
portal_host g =
    if not (is_empty g.host)
    then g.host
    else if is_empty g.base_domain
    then []
    else codes "app." ++ g.base_domain

-- strings.ToLower(strings.TrimSpace(p))
abbrev pub cleaned : Bytes → Bytes
cleaned p = to_lower (trim_space p)

-- strings.ToLower(strings.Trim(strings.TrimSpace(s), string(b)))
abbrev pub stripped : ℕ → Bytes → Bytes
stripped b s = to_lower (trim_both (λ c. c == b) (trim_space s))

-- The loop of cleanPatterns, with the patterns that have been seen.
unfoldable pub clean_loop : List Bytes → List Bytes → List Bytes
unfolding same trim_space to_lower
clean_loop seen [] = []
clean_loop seen (p ∷ ps) =
    let again = clean_loop seen ps in
    let kept = cleaned p ∷ clean_loop (cleaned p ∷ seen) ps in
    if is_empty (cleaned p) || any (λ q. same q (cleaned p)) seen then again else kept

-- cleanPatterns
unfoldable pub clean_patterns : List Bytes → List Bytes
unfolding clean_loop
clean_patterns ps = clean_loop [] ps

abbrev pub trimmed_bookmark : Bookmark → Bookmark
trimmed_bookmark b = record {
  name = trim_space b.name;
  url = trim_space b.url;
  note = trim_space b.note;
}

unfoldable pub normalize_items : List Bookmark → List Bookmark
unfolding trim_space
normalize_items [] = []
normalize_items (b ∷ bs) =
    let rest = normalize_items bs in
    if not (is_empty (trim_space b.name)) && not (is_empty (trim_space b.url))
    then trimmed_bookmark b ∷ rest
    else rest

unfoldable pub normalize_groups : List Group → List Group
unfolding normalize_items trim_space
normalize_groups [] = []
normalize_groups (g ∷ gs) =
    let rest = normalize_groups gs in
    if not (is_empty (trim_space g.name)) && not (is_empty (normalize_items g.items))
    then record { name = trim_space g.name; items = normalize_items g.items } ∷ rest
    else rest

abbrev pub nonnegative : ℤ → ℤ
nonnegative (pos n) = pos n
nonnegative (negsuc n) = pos 0

abbrev pub access_mode : Bytes → Bytes
access_mode m = if same m (codes "allowlist") || same m (codes "denylist") then m else codes "off"

abbrev pub sso_mode : Bytes → Bytes
sso_mode m = if same m (codes "hosts") || same m (codes "off") then m else codes "all"

abbrev pub public_scheme : Bytes → Bytes
public_scheme s = if same (cleaned s) (codes "https") then codes "https" else codes "auto"

-- The part of normalizeConfig that clone repeats, for the gateway, the certificate and mail.
unfoldable pub normalize_gateway : Gateway → Gateway
unfolding trim_space trim_both to_lower same
normalize_gateway g = record {
  url_mode = cleaned g.url_mode;
  base_domain = stripped b'.' g.base_domain;
  host = stripped b'.' g.host;
  public_port = trim_space g.public_port;
  public_scheme = public_scheme g.public_scheme;
}

unfoldable pub normalize_tls : Tls → Tls
unfolding trim_space
normalize_tls t = record { cert = trim_space t.cert; key = trim_space t.key }

unfoldable pub normalize_smtp : Smtp → Smtp
unfolding trim_space mode
normalize_smtp s = record s {
  addr = trim_space s.addr;
  sender = trim_space s.sender;
  username = trim_space s.username;
  helo = trim_space s.helo;
  tls_mode = mode s;
  implicit_tls = false;
}

-- normalizeConfig
unfoldable pub normalize_config : Config → Config
unfolding clean_patterns normalize_groups normalize_gateway normalize_tls normalize_smtp
    normalize_header_rules same
normalize_config c = record {
  default_domain = stripped b'@' c.default_domain;
  allowed_users = clean_patterns c.allowed_users;
  admins = clean_patterns c.admins;
  access = record { mode = access_mode c.access.mode; sites = clean_patterns c.access.sites };
  sso = record { mode = sso_mode c.sso.mode; hosts = clean_patterns c.sso.hosts };
  headers = normalize_header_rules c.headers;
  policy = record c.policy { session_minutes = nonnegative c.policy.session_minutes };
  bookmarks = normalize_groups c.bookmarks;
  gateway = normalize_gateway c.gateway;
  tls = normalize_tls c.tls;
  smtp = normalize_smtp c.smtp;
}

-- clone. The slices are values here, so copying them changes nothing.
unfoldable pub clone : Config → Config
unfolding normalize_gateway normalize_tls normalize_smtp
clone c = record c {
  gateway = normalize_gateway c.gateway;
  tls = normalize_tls c.tls;
  smtp = normalize_smtp c.smtp;
}
