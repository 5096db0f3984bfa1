-- ===== src/Webvpn/Guard.antt =====
-- internal/webvpn/guard.go. An error is named for what it says; its text is left out.
pub mod Address
pub mod Address6
mod Tests
use wvpn.Base.{
  ℕ, ◌+◌, ◌*◌, ◌^◌, Bool, true, false, not, ◌&&◌, ◌||◌, List, [], ◌∷◌, ◌++◌, Option, none, some,
  Result, ok, err, if◌then◌else◌, is_empty, ◌>>=◌, ◌>>◌, reject_if, ◌==◌,
}
use wvpn.Text.{
  Bytes, codes, same, has_prefix, has_suffix, trim_suffix, trim_both, trim_space, to_lower, split,
}
use wvpn.Net.{
  Addr, invalid, v4, v6, unmap, is_valid, is_unspecified, is_link_local_unicast,
  is_link_local_multicast, is_interface_local_multicast, is_multicast, is_loopback, is_private,
  Prefix, contains_addr, without_port,
}

pub data Verdict : Type 0 where
  neutral allow deny : Verdict

-- The runtime half of the policy, which the store implements.
pub record SitePolicy : Type 0 where
  pub requires_match : Bool
  pub has_addr_rules : Bool
  pub host_verdict : Bytes → Verdict
  pub addr_verdict : Addr → Verdict

pub record SiteCheck : Type 0 where
  pub bypass : Bool
  pub allowed : Bool

pub record Guard : Type 0 where
  pub allow_private : Bool
  pub allow_hosts : List Bytes
  pub deny_hosts : List Bytes
  pub site : Option SitePolicy

pub data GuardError : Type 0 where
  unspecified link_local multicast loopback private_address cgnat_address : GuardError
  empty_host not_on_allowlist on_denylist site_denied site_not_allowed : GuardError

unfoldable pub split_list_loop : List Bytes → List Bytes
split_list_loop [] = []
split_list_loop (p ∷ ps) =
    let rest = split_list_loop ps in
    if is_empty (to_lower (trim_space p)) then rest else to_lower (trim_space p) ∷ rest

unfoldable pub split_list : Bytes → List Bytes
unfolding split_list_loop
split_list s = split_list_loop (split b',' s)

-- NewGuard
unfoldable pub new_guard : Bytes → Bytes → Bool → Guard
unfolding split_list
new_guard allow_list deny_list allow_private = record {
  allow_private = allow_private;
  allow_hosts = split_list allow_list;
  deny_hosts = split_list deny_list;
  site = none;
}

-- The body of hostMatches' loop; `host` is in lower case and has no trailing dot.
unfoldable pub host_matches_pattern : Bytes → Bytes → Bool
host_matches_pattern host p =
    same p host
    || (has_prefix p (codes ".") && has_suffix host p)
    || (not (has_prefix p (codes ".")) && has_suffix host (codes "." ++ p))

unfoldable pub host_matches_loop : Bytes → List Bytes → Bool
unfolding host_matches_pattern
host_matches_loop host [] = false
host_matches_loop host (p ∷ ps) = host_matches_pattern host p || host_matches_loop host ps

unfoldable pub host_matches : Bytes → List Bytes → Bool
unfolding host_matches_loop
host_matches host patterns = host_matches_loop (to_lower (trim_suffix host (codes "."))) patterns

-- 100.64.0.0/10
abbrev pub cgnat : Prefix
cgnat = record { addr = v4 (100 * 2 ^ 24 + 64 * 2 ^ 16); bits = 10 }

unfoldable pub is_cgnat : Addr → Bool
unfolding contains_addr
is_cgnat (v4 a) = contains_addr cgnat (v4 a)
is_cgnat _ = false

-- CheckAddr on an address that is not an IPv4 address in IPv6 clothes.
unfoldable pub check_unmapped : Bool → Addr → Result GuardError (Unit {0})
unfolding is_cgnat
check_unmapped allow_private a =
    if not (is_valid a) || is_unspecified a
    then err unspecified
    else if is_link_local_unicast a || is_link_local_multicast a
    then err link_local
    else if is_multicast a || is_interface_local_multicast a
    then err multicast
    else if allow_private
    then ok tt
    else if is_loopback a
    then err loopback
    else if is_private a
    then err private_address
    else if is_cgnat a
    then err cgnat_address
    else ok tt

unfoldable pub check_addr : Guard → Addr → Result GuardError (Unit {0})
unfolding check_unmapped
check_addr g a = check_unmapped g.allow_private (unmap a)

-- What netip.ParseAddr makes of a name; theorems hold whatever it is.
module _ (parse_addr : Bytes → Option Addr) where
  -- The rejection of a literal address by name.
  unfoldable pub check_literal : Guard → Bytes → Result GuardError (Unit {0})
  unfolding check_addr
  check_literal g name = elim (parse_addr name) [ none ↦ ok tt | some a ↦ check_addr g a ]

  -- The site policy's say on the name.
  unfoldable pub check_site : Bool → Bytes → Option SitePolicy → Result GuardError SiteCheck
  check_site bypass name none = ok (record { bypass = bypass; allowed = false })
  check_site true name (some site) = ok (record { bypass = true; allowed = false })
  check_site false name (some site) = elim (site.host_verdict name) [
    | deny ↦ err site_denied
    | allow ↦ ok (record { bypass = false; allowed = true })
    | neutral ↦
        if site.requires_match && not site.has_addr_rules
        then err site_not_allowed
        else ok (record { bypass = false; allowed = false })
  ]

  -- The host without its port and brackets.
  unfoldable pub target_name : Bytes → Bytes
  unfolding without_port trim_both
  target_name host = trim_both (λ c. c == b'[' || c == b']') (without_port host)

  unfoldable pub check_name : Guard → Bytes → Bool → Result GuardError SiteCheck
  unfolding check_literal check_site host_matches
  check_name g name bypass = do
    reject_if (is_empty name) empty_host
    reject_if (not (is_empty g.allow_hosts) && not (host_matches name g.allow_hosts))
        not_on_allowlist
    reject_if (host_matches name g.deny_hosts) on_denylist
    check_literal g name
    check_site bypass name g.site

  -- CheckTarget
  unfoldable pub check_target : Guard → Bytes → Bool → Result GuardError SiteCheck
  unfolding target_name check_name
  check_target g host bypass = check_name g (target_name host) bypass

-- The site policy's say on the resolved address.
unfoldable pub check_dial_site : Addr → SiteCheck → Option SitePolicy → Result GuardError (Unit {0})
check_dial_site a check none = ok tt
check_dial_site a check (some site) = if check.bypass then ok tt else elim (site.addr_verdict a) [
  | deny ↦ err site_denied
  | allow ↦ ok tt
  | neutral ↦ if not check.allowed && site.requires_match then err site_not_allowed else ok tt
]

-- CheckDialAddr
unfoldable pub check_dial_addr : Guard → Addr → SiteCheck → Result GuardError (Unit {0})
unfolding check_addr check_dial_site
check_dial_addr g a check = do check_addr g a; check_dial_site a check g.site
