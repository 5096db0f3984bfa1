-- ===== src/Store/Config/Validate.antt =====
-- internal/store/store.go: Validate and the functions that it calls.
use wvpn.Base.{
  ℕ, Bool, true, false, not, ◌&&◌, ◌||◌, List, [], ◌∷◌, ◌++◌, Option, none, some, Result, ok, err,
  ◌>>◌, reject_if, if◌then◌else◌, is_empty, leb,
}
use wvpn.Text.{Bytes, codes, same, contains, contains_byte, has_suffix}
use wvpn.Net.{Addr, Prefix, split_host_port}
use wvpn.Store.Sites.{parse_sites}
use wvpn.Store.Headers.{HeaderError, validate_header_rules, is_ok}
use wvpn.Store.Config.{
  ℤ, pos, negsuc, Bookmark, Group, Gateway, Tls, Smtp, Config, is_tls_mode, is_url_mode, url_mode,
}
use wvpn.Store.Config.Domain.{is_domain, is_pattern, is_port}

pub data ConfigError : Type 0 where
  bad_domain bad_pattern bad_site empty_allowlist bad_sso_host empty_sso_hosts bad_header :
      ConfigError
  bad_session_minutes bad_bookmark bad_url_mode bad_base_domain bad_host outside_base
        no_base_domain :
      ConfigError
  bad_public_port no_cert no_key bad_pair no_addr bad_addr bad_tls_mode no_sender bad_sender :
      ConfigError

-- What Validate asks the standard library: netip.ParsePrefix, netip.ParseAddr, the
-- canonical form of a header's name, whether tls.X509KeyPair takes a certificate and a key, the address that mail.ParseAddress reads, and
-- the scheme and the host of a URL.
pub record Libs : Type 0 where
  pub parse_prefix : Bytes → Option Prefix
  pub parse_addr : Bytes → Option Addr
  pub canonical : Bytes → Bytes
  pub key_pair : Bytes → Bytes → Bool
  pub parse_mail : Bytes → Option Bytes
  pub parse_url : Bytes → Option (Bytes × Bytes)

unfoldable pub all_patterns : List Bytes → Bool
unfolding is_pattern
all_patterns [] = true
all_patterns (p ∷ ps) = is_pattern p && all_patterns ps

-- The bounds MinSessionMinutes and MaxSessionMinutes, and 0.
abbrev pub minutes_in_bounds : ℤ → Bool
minutes_in_bounds (pos ℕ.zero) = true
minutes_in_bounds (pos (ℕ.suc n)) = leb 5 (ℕ.suc n) && leb (ℕ.suc n) 1440
minutes_in_bounds (negsuc n) = false

-- validateGateway
unfoldable pub validate_gateway : Gateway → Result ConfigError (Unit {0})
unfolding is_domain contains_byte has_suffix same url_mode is_port
validate_gateway g = do
  reject_if (not (is_empty g.url_mode || is_url_mode g.url_mode)) bad_url_mode
  reject_if (not (is_empty g.base_domain) && not (is_domain g.base_domain)) bad_base_domain
  reject_if (not (is_empty g.base_domain) && not (contains_byte b'.' g.base_domain)) bad_base_domain
  reject_if (not (is_empty g.host) && (not (is_domain g.host) || not (contains_byte b'.' g.host)))
      bad_host
  reject_if
      (not (is_empty g.host)
        && (not (is_empty g.base_domain)
            && (not (same g.host g.base_domain)
                && not (has_suffix g.host (codes "." ++ g.base_domain)))))
      outside_base
  reject_if (same (url_mode g) (codes "subdomain") && is_empty g.base_domain) no_base_domain
  reject_if (not (is_empty g.public_port) && not (is_port g.public_port)) bad_public_port
  ok tt

module _ (libs : Libs) where
  -- validateTLS
  unfoldable pub validate_tls : Tls → Result ConfigError (Unit {0})
  validate_tls t = if is_empty t.cert && is_empty t.key then ok tt else do
    reject_if (is_empty t.cert) no_cert
    reject_if (is_empty t.key) no_key
    reject_if (not (libs.key_pair t.cert t.key)) bad_pair
    ok tt

  -- Whether SMTP's Addr is a host and a port.
  unfoldable pub is_smtp_addr : Bytes → Bool
  unfolding split_host_port is_port
  is_smtp_addr addr = elim (split_host_port addr) [
    | none ↦ false
    | some (host, port) ↦ not (is_empty host) && (not (is_empty port) && is_port port)
  ]

  -- err == nil && addr.Address == s
  unfoldable pub is_mail : Bytes → Bool
  unfolding same
  is_mail s = elim (libs.parse_mail s) [ none ↦ false | some a ↦ same a s ]

  -- validateSMTP
  unfoldable pub validate_smtp : Smtp → Result ConfigError (Unit {0})
  unfolding is_smtp_addr is_mail same
  validate_smtp s =
      if is_empty s.addr && is_empty s.sender && is_empty s.username && is_empty s.password
      then ok tt
      else do
        reject_if (is_empty s.addr) no_addr
        reject_if (not (is_smtp_addr s.addr)) bad_addr
        reject_if (not (is_empty s.tls_mode || is_tls_mode s.tls_mode)) bad_tls_mode
        reject_if (is_empty s.sender) no_sender
        reject_if (not (is_mail s.sender)) bad_sender
        ok tt

  -- validateBookmarkURL
  unfoldable pub is_bookmark_url : Bytes → Bool
  unfolding contains same
  is_bookmark_url raw =
      let full = if contains raw (codes "://") then raw else codes "https://" ++ raw in
      elim (libs.parse_url full) [
        | none ↦ false
        | some (scheme, host) ↦
            not (is_empty host) && (same scheme (codes "http") || same scheme (codes "https"))
      ]

  unfoldable pub all_items : List Bookmark → Bool
  unfolding is_bookmark_url
  all_items [] = true
  all_items (b ∷ bs) = is_bookmark_url b.url && all_items bs

  unfoldable pub all_groups : List Group → Bool
  unfolding all_items
  all_groups [] = true
  all_groups (g ∷ gs) = all_items g.items && all_groups gs

  abbrev pub header_check : Result HeaderError (Unit {0}) → Bool
  header_check (ok _) = true
  header_check (err _) = false

  -- Validate, up to the part that has functions of its own.
  unfoldable pub validate_lists : Config → Result ConfigError (Unit {0})
  unfolding is_domain all_patterns parse_sites validate_header_rules all_groups same
  validate_lists c = do
    reject_if (not (is_empty c.default_domain) && not (is_domain c.default_domain)) bad_domain
    reject_if (not (all_patterns (c.allowed_users ++ c.admins))) bad_pattern
    reject_if (not (is_ok (parse_sites libs.parse_prefix c.access.sites))) bad_site
    reject_if (same c.access.mode (codes "allowlist") && is_empty c.access.sites) empty_allowlist
    reject_if (not (is_ok (parse_sites libs.parse_prefix c.sso.hosts))) bad_sso_host
    reject_if (same c.sso.mode (codes "hosts") && is_empty c.sso.hosts) empty_sso_hosts
    reject_if
        (not (
          header_check
            (validate_header_rules libs.parse_prefix libs.parse_addr libs.canonical c.headers)))
        bad_header
    reject_if (not (minutes_in_bounds c.policy.session_minutes)) bad_session_minutes
    reject_if (not (all_groups c.bookmarks)) bad_bookmark
    ok tt

  -- Validate
  unfoldable pub validate : Config → Result ConfigError (Unit {0})
  unfolding validate_lists validate_gateway validate_tls validate_smtp
  validate c = do
    validate_lists c
    validate_gateway c.gateway
    validate_tls c.tls
    validate_smtp c.smtp
