-- ===== src/Auth/Gate.antt =====
-- internal/auth/manager.go: what happens to a request without a session, and where a browser is sent after
-- it has signed in: Require, wantsHTML, loginURL and safeNext. net/url is given.
pub mod Destination
mod Tests
use wvpn.Base.{
  ℕ, Bool, true, false, not, ◌&&◌, ◌||◌, List, [], ◌∷◌, ◌++◌, Option, none, some, if◌then◌else◌,
  is_empty,
}
use wvpn.Text.{Bytes, codes, same, has_prefix, has_suffix, equal_fold, contains}

-- SiteConfig: where the login page is, and the domain that an absolute destination may be on.
pub record Place : Type 0 where
  pub login_origin : Bytes
  pub next_domain : Bytes

-- The scheme, the host and the host's name of a parsed address.
pub record Parts : Type 0 where
  pub scheme : Bytes
  pub host : Bytes
  pub hostname : Bytes

-- What a page request carries.
pub record PageRequest : Type 0 where
  pub method : Bytes
  pub requested_with : Bytes
  pub fetch_dest : Bytes
  pub accept : Bytes
  pub tls : Bool
  pub forwarded_proto : Bytes
  pub host : Bytes
  pub uri : Bytes

-- wantsHTML
unfoldable pub wants_html : PageRequest → Bool
unfolding same equal_fold contains
wants_html r =
    if not (same r.method (codes "GET")) && not (same r.method (codes "HEAD"))
    then false
    else if equal_fold r.requested_with (codes "XMLHttpRequest")
    then false
    else if not (is_empty r.fetch_dest)
    then same r.fetch_dest (codes "document")
      || same r.fetch_dest (codes "iframe")
      || same r.fetch_dest (codes "frame")
    else contains r.accept (codes "text/html")

-- loginURL
unfoldable pub login_url : (Bytes → Bytes) → Place → PageRequest → Bytes
unfolding equal_fold
login_url query_escape place r =
    let scheme =
      if r.tls || equal_fold r.forwarded_proto (codes "https")
      then codes "https"
      else codes "http" in
    let here = scheme ++ (codes "://" ++ (r.host ++ r.uri)) in
    if is_empty place.login_origin
    then codes "/login?next=" ++ query_escape r.uri
    else place.login_origin ++ (codes "/login?next=" ++ query_escape here)

-- What Require answers with, where the request does not go on to the handler.
pub data Gated : Type 0 where
  goes_on to_setup unauthenticated : Gated
  to_login : Bytes → Gated

-- Require, on whether SessionFor finds a session and NeedsSetup.
unfoldable pub require : (Bytes → Bytes) → Place → Bool → Bool → PageRequest → Gated
unfolding wants_html login_url
require query_escape place signed_in needs_setup r =
    if signed_in
    then goes_on
    else if needs_setup && wants_html r
    then to_setup
    else if wants_html r
    then to_login (login_url query_escape place r)
    else unauthenticated

-- `home` in safeNext.
abbrev pub home : Place → Bytes
home place =
    if not (is_empty place.login_origin) then place.login_origin ++ codes "/" else codes "/"

-- The host is the domain or a name below it.
abbrev pub on_domain : Bytes → Bytes → Bool
on_domain hostname domain = same hostname domain || has_suffix hostname (b'.' ∷ domain)

-- The decision of safeNext on a relative and on an absolute destination.
unfoldable pub is_local : Option Parts → Bool
is_local none = false
is_local (some u) = is_empty u.host && is_empty u.scheme

unfoldable pub is_ours : Place → Option Parts → Bool
unfolding same has_suffix
is_ours place none = false
is_ours place (some u) =
    (same u.scheme (codes "http") || same u.scheme (codes "https"))
    && on_domain u.hostname place.next_domain

-- safeNext
unfoldable pub safe_next : (Bytes → Option Parts) → Place → Bytes → Bytes
unfolding has_prefix is_local is_ours
safe_next parse place next =
    if is_empty next || has_prefix next (codes "//")
    then home place
    else if has_prefix next (codes "/")
    then if is_local (parse next) then next else home place
    else if is_empty place.next_domain
    then home place
    else if is_ours place (parse next)
    then next
    else home place
