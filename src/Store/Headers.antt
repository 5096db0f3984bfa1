-- ===== src/Store/Headers.antt =====
-- internal/store/headers.go: the request headers that the operator adds, from the submitted rules to
-- the headers for a target.
pub mod Safety
mod Tests
use wvpn.Base.{
  ℕ, Bool, true, false, not, ◌&&◌, ◌||◌, List, [], ◌∷◌, Option, none, some, Result, ok, err, ◌>>◌,
  reject_if, if◌then◌else◌, is_empty, leb, ltb, length, ◌==◌, any,
}
use wvpn.Text.{Bytes, codes, same, trim_space, to_lower, contains_byte}
use wvpn.Net.{Addr, Prefix, without_port}
use wvpn.Store.Sites.{SiteRules, SiteError, parse_sites, match_host, all_bytes}

pub record HeaderRule : Type 0 where
  pub site : Bytes
  pub name : Bytes
  pub value : Bytes

abbrev pub max_header_rules : ℕ
max_header_rules = 200

abbrev pub max_header_value : ℕ
max_header_value = 4096

abbrev pub max_header_name_len : ℕ
max_header_name_len = 256

-- The keys of the source's map reservedHeaders.
abbrev pub reserved_headers : List Bytes
reserved_headers =
    codes "Host"
    ∷ codes "Cookie"
    ∷ codes "Origin"
    ∷ codes "Referer"
    ∷ codes "Accept-Encoding"
    ∷ codes "Content-Length"
    ∷ codes "Transfer-Encoding"
    ∷ codes "Connection"
    ∷ codes "Keep-Alive"
    ∷ codes "Proxy-Connection"
    ∷ codes "Proxy-Authorization"
    ∷ codes "Te"
    ∷ codes "Trailer"
    ∷ codes "Upgrade"
    ∷ codes "X-Forwarded-Host"
    ∷ codes "X-Forwarded-Proto"
    ∷ codes "X-Wvpn-Credentials"
    ∷ []

-- One round of normalizeHeaderRules.
abbrev pub trimmed_rule : HeaderRule → HeaderRule
trimmed_rule r = record {
  site = to_lower (trim_space r.site);
  name = trim_space r.name;
  value = trim_space r.value;
}

abbrev pub blank : HeaderRule → Bool
blank r = is_empty r.site && is_empty r.name && is_empty r.value

unfoldable pub normalize_header_rules : List HeaderRule → List HeaderRule
unfolding trim_space to_lower
normalize_header_rules [] = []
normalize_header_rules (r ∷ rules) =
    let rest = normalize_header_rules rules in
    if blank (trimmed_rule r) then rest else trimmed_rule r ∷ rest

unfoldable pub token_byte : ℕ → Bool
unfolding contains_byte
token_byte c =
    (leb b'a' c && leb c b'z')
    || (leb b'A' c && leb c b'Z')
    || (leb b'0' c && leb c b'9')
    || contains_byte c (codes "!#$%&'*+-.^_`|~")

-- validHeaderName
unfoldable pub valid_header_name : Bytes → Bool
unfolding token_byte all_bytes
valid_header_name s = not (is_empty s) && all_bytes token_byte s

unfoldable pub value_byte : ℕ → Bool
value_byte c = not ((ltb c 32 && not (c == 9)) || c == 127)

-- validHeaderValue
unfoldable pub valid_header_value : Bytes → Bool
unfolding value_byte all_bytes
valid_header_value s = all_bytes value_byte s

pub data HeaderError : Type 0 where
  too_many_rules empty_site bad_site empty_name bad_name reserved empty_value long_value bad_value :
      HeaderError

abbrev pub is_ok : Result SiteError SiteRules → Bool
is_ok (err e) = false
is_ok (ok r) = true

-- netip's parsers, and textproto.CanonicalMIMEHeaderKey.
module _ (parse_prefix : Bytes → Option Prefix) (parse_addr : Bytes → Option Addr)
    (canonical : Bytes → Bytes) where
  abbrev pub site_parses : Bytes → Bool
  site_parses site = is_ok (parse_sites parse_prefix (site ∷ []))

  -- The body of validateHeaderRules' loop.
  unfoldable pub validate_header_rule : HeaderRule → Result HeaderError (Unit {0})
  unfolding valid_header_name valid_header_value parse_sites same
  validate_header_rule r = do
    reject_if (is_empty r.site) empty_site
    reject_if (not (site_parses r.site)) bad_site
    reject_if (is_empty r.name) empty_name
    reject_if (ltb max_header_name_len (length r.name) || not (valid_header_name r.name)) bad_name
    reject_if (any (λ h. same h (canonical r.name)) reserved_headers) reserved
    reject_if (is_empty r.value) empty_value
    reject_if (ltb max_header_value (length r.value)) long_value
    reject_if (not (valid_header_value r.value)) bad_value
    ok tt

  unfoldable pub validate_each : List HeaderRule → Result HeaderError (Unit {0})
  unfolding validate_header_rule
  validate_each [] = ok tt
  validate_each (r ∷ rules) = do validate_header_rule r; validate_each rules

  -- validateHeaderRules
  unfoldable pub validate_header_rules : List HeaderRule → Result HeaderError (Unit {0})
  unfolding validate_each
  validate_header_rules rules = do
    reject_if (ltb max_header_rules (length rules)) too_many_rules
    validate_each rules

  -- A headerRule of the source.
  pub record Compiled : Type 0 where
    pub site : SiteRules
    pub name : Bytes
    pub value : Bytes

  -- A rule whose site does not parse is passed over.
  abbrev pub compiled : Result SiteError SiteRules → HeaderRule → List Compiled → List Compiled
  compiled (err e) r rest = rest
  compiled (ok site) r rest = record { site = site; name = r.name; value = r.value } ∷ rest

  -- compileHeaderRules
  unfoldable pub compile_header_rules : List HeaderRule → List Compiled
  unfolding parse_sites
  compile_header_rules [] = []
  compile_header_rules (r ∷ rules) =
      let rest = compile_header_rules rules in
      compiled (parse_sites parse_prefix (r.site ∷ [])) r rest

  unfoldable pub matching : List Compiled → Bytes → List (Bytes × Bytes)
  unfolding match_host
  matching [] host = []
  matching (r ∷ rules) host =
      let rest = matching rules host in
      if match_host parse_addr r.site host then (r.name, r.value) ∷ rest else rest

  -- HeadersFor
  unfoldable pub headers_for : List Compiled → Bytes → List (Bytes × Bytes)
  unfolding matching without_port
  headers_for rules host = matching rules (without_port host)
