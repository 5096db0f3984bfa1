-- ===== src/Store/Sites.antt =====
-- internal/store/store.go: the site list, its parsed form and the verdicts read from it.
use wvpn.Base.{
  ℕ, Bool, true, false, not, ◌&&◌, ◌||◌, List, [], ◌∷◌, ◌++◌, Option, none, some, Result, ok, err,
  if◌then◌else◌, is_empty, ◌==◌, leb, any,
}
use wvpn.Text.{
  Bytes, codes, has_suffix, trim_prefix, trim_suffix, trim_both, trim_space, to_lower,
  contains_byte,
}
use wvpn.Net.{Addr, unmap, Prefix, contains_addr, masked, without_port}
use wvpn.Store.Glob.{glob_match}

-- Neutral, Allow and Deny.
pub data Verdict : Type 0 where
  neutral allow deny : Verdict

pub data AccessMode : Type 0 where
  off allowlist denylist : AccessMode

pub record SiteRules : Type 0 where
  pub hosts : List Bytes
  pub nets : List Prefix

unfoldable pub no_rules : SiteRules → Bool
no_rules r = is_empty r.hosts && is_empty r.nets

-- An entry that is neither a host pattern nor a network.
pub data SiteError : Type 0 where
  bad_network bad_pattern : Bytes → SiteError

-- One byte of sitePatternRe's class [a-z0-9*?._:\[\]-].
unfoldable pub site_pattern_byte : ℕ → Bool
site_pattern_byte c =
    (leb b'a' c && leb c b'z') || (leb b'0' c && leb c b'9') || contains_byte c (codes "*?._:[]-")

unfoldable pub all_bytes : (ℕ → Bool) → Bytes → Bool
all_bytes p [] = true
all_bytes p (c ∷ s) = p c && all_bytes p s

-- sitePatternRe
unfoldable pub site_pattern : Bytes → Bool
unfolding site_pattern_byte all_bytes
site_pattern s = not (is_empty s) && all_bytes site_pattern_byte s

-- What netip.ParsePrefix and netip.ParseAddr make of a text; theorems hold whatever it is.
module _ (parse_prefix : Bytes → Option Prefix) where
  -- The body of parseSites' loop, on an entry in lower case.
  unfoldable pub add_entry : Bytes → Bytes → SiteRules → Result SiteError SiteRules
  unfolding site_pattern
  add_entry raw entry r =
      if is_empty entry
      then ok r
      else if contains_byte b'/' entry
      then elim (parse_prefix entry) [
        | none ↦ err (bad_network raw)
        | some p ↦ ok (record r { nets = r.nets ++ (masked p ∷ []) })
      ]
      else if site_pattern entry
      then ok (record r { hosts = r.hosts ++ (entry ∷ []) })
      else err (bad_pattern raw)

  unfoldable pub parse_sites_loop : List Bytes → SiteRules → Result SiteError SiteRules
  unfolding add_entry
  parse_sites_loop [] r = ok r
  parse_sites_loop (raw ∷ sites) r = elim (add_entry raw (to_lower (trim_space raw)) r) [
    | err e ↦ err e
    | ok r' ↦ parse_sites_loop sites r'
  ]

  unfoldable pub parse_sites : List Bytes → Result SiteError SiteRules
  unfolding parse_sites_loop
  parse_sites sites = parse_sites_loop sites (record { hosts = []; nets = [] })

-- matchAddr
unfoldable pub match_addr : SiteRules → Addr → Bool
match_addr r a = any (λ p. contains_addr p (unmap a)) r.nets

-- strings.ToLower(strings.Trim(strings.TrimSuffix(host, "."), "[]"))
unfoldable pub plain_host : Bytes → Bytes
plain_host host = to_lower (trim_both (λ c. c == b'[' || c == b']') (trim_suffix host (codes ".")))

-- The body of matchHost's loop.
unfoldable pub covers : Bytes → Bytes → Bool
unfolding glob_match
covers host p =
    glob_match p host
    || (not (contains_byte b'*' p || contains_byte b'?' p)
        && has_suffix host (codes "." ++ trim_prefix p (codes ".")))

-- The policy fields of Store that the verdicts are read from.
pub record Policy : Type 0 where
  pub mode : AccessMode
  pub rules : SiteRules

abbrev pub is_off : AccessMode → Bool
is_off off = true
is_off _ = false

abbrev pub verdict_of : AccessMode → Bool → Verdict
verdict_of denylist true = deny
verdict_of allowlist true = allow
verdict_of _ _ = neutral

unfoldable pub requires_match : Policy → Bool
requires_match p = elim p.mode [ allowlist ↦ true | _ ↦ false ]

unfoldable pub has_addr_rules : Policy → Bool
has_addr_rules p = not (is_empty p.rules.nets)

unfoldable pub addr_verdict : Policy → Addr → Verdict
unfolding match_addr
addr_verdict p a =
    if is_off p.mode || is_empty p.rules.nets
    then neutral
    else verdict_of p.mode (match_addr p.rules a)

module _ (parse_addr : Bytes → Option Addr) where
  -- The address rules' say on a literal address.
  unfoldable pub match_literal : SiteRules → Bytes → Bool
  unfolding match_addr
  match_literal r host = elim (parse_addr host) [ none ↦ false | some a ↦ match_addr r a ]

  unfoldable pub match_host : SiteRules → Bytes → Bool
  unfolding plain_host covers match_literal
  match_host r host = any (covers (plain_host host)) r.hosts || match_literal r (plain_host host)

  unfoldable pub host_verdict : Policy → Bytes → Verdict
  unfolding match_host no_rules
  host_verdict p host =
      if is_off p.mode || no_rules p.rules
      then neutral
      else verdict_of p.mode (match_host p.rules (without_port host))
