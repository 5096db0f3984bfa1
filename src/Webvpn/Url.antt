-- ===== src/Webvpn/Url.antt =====
-- net/url as the gateway uses it, and the helpers at the top of internal/webvpn/codec.go. A parsed
-- address holds its parts as they are written, path and fragment escaped; what parses, resolves, prints
-- and unescapes them is given.
use wvpn.Base.{
  Bool, false, not, ◌||◌, [], ◌∷◌, ◌++◌, Option, none, some, if◌then◌else◌, is_empty, any, ◌==◌,
}
use wvpn.Text.{Bytes, codes, same, contains_byte, contains, trim_space}

pub record Url : Type 0 where
  pub scheme : Bytes
  pub host : Bytes
  pub path : Bytes
  pub query : Bytes
  pub force_query : Bool
  pub fragment : Bytes

-- url.Parse, URL.Parse, URL.String, url.PathUnescape, url.QueryUnescape, url.QueryEscape, and Hostname and Port on a host.
pub record UrlLib : Type 0 where
  pub parse : Bytes → Option Url
  pub resolve : Url → Bytes → Option Url
  pub print : Url → Bytes
  pub path_unescape : Bytes → Option Bytes
  pub query_unescape : Bytes → Option Bytes
  pub query_escape : Bytes → Bytes
  pub hostname : Bytes → Bytes
  pub port : Bytes → Bytes

-- SchemeSupported
unfoldable pub scheme_supported : Bytes → Bool
unfolding same
scheme_supported s =
    same s (codes "http") || same s (codes "https") || same s (codes "ws") || same s (codes "wss")

-- httpScheme
unfoldable pub http_scheme : Bytes → Bytes
unfolding same
http_scheme s =
    if same s (codes "ws") then codes "http" else if same s (codes "wss") then codes "https" else s

-- isTLSScheme
unfoldable pub is_tls_scheme : Bytes → Bool
unfolding same
is_tls_scheme s = same s (codes "https") || same s (codes "wss")

-- defaultPort
unfoldable pub default_port : Bytes → Bytes → Bool
unfolding same
default_port scheme port =
    if same scheme (codes "http") || same scheme (codes "ws")
    then same port (codes "80")
    else if same scheme (codes "https") || same scheme (codes "wss")
    then same port (codes "443")
    else false

abbrev pub query_tail : Bool → Bytes → Bytes
query_tail force query = if force || not (is_empty query) then b'?' ∷ query else []

-- The text that assemble parses.
unfoldable pub absolute_text : Bytes → Bytes → Bytes → Bytes → Bytes
absolute_text scheme host tail query =
    scheme ++ (codes "://" ++ (host ++ ((b'/' ∷ tail) ++ query_tail false query)))

-- strings.ContainsAny(host, "/\\ ")
unfoldable pub bad_host : Bytes → Bool
unfolding contains_byte
bad_host host = is_empty host || any (λ c. contains_byte c (codes "/\\ ")) host

-- A parsed address that names a host.
abbrev pub with_host : Option Url → Option Url
with_host none = none
with_host (some u) = if is_empty u.host then none else some u

-- assemble
unfoldable pub assemble : UrlLib → Bytes → Bytes → Bytes → Bytes → Option Url
unfolding bad_host absolute_text
assemble lib scheme host tail query =
    if bad_host host then none else with_host (lib.parse (absolute_text scheme host tail query))

-- The path that appendPathQuery writes, which starts with a slash.
unfoldable pub rooted : Bytes → Bytes
rooted [] = b'/' ∷ []
rooted (c ∷ p) = if c == b'/' then c ∷ p else b'/' ∷ c ∷ p

-- appendPathQuery
unfoldable pub path_query : Url → Bytes
unfolding rooted
path_query u =
    rooted u.path
    ++ (query_tail u.force_query u.query
        ++ (if not (is_empty u.fragment) then b'#' ∷ u.fragment else []))

-- ParseUserInput
unfoldable pub parse_user_input : UrlLib → Bytes → Option Url
unfolding trim_space contains scheme_supported
parse_user_input lib s =
    let t = trim_space s in
    let full = if contains t (codes "://") then t else codes "https://" ++ t in
    if is_empty t then none else elim (lib.parse full) [
      | none ↦ none
      | some u ↦ if is_empty u.host || not (scheme_supported u.scheme) then none else some u
    ]
