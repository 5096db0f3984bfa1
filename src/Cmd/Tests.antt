-- ===== src/Cmd/Tests.antt =====
-- The guard and the store's policy together, at a concrete request.
use wvpn.Base.{◌≡◌, ◌↔◌, true, false, [], ◌∷◌, ok, none, some, Option, if◌then◌else◌}
use wvpn.Text.{Bytes, codes, same}
use wvpn.Net.{Addr, v4}
use wvpn.Store.Sites.{Policy, AccessMode}
use wvpn.Webvpn.Guard.{Guard}
use wvpn.Webvpn.Guard.Address.{dotted}
use wvpn.Cmd.{site_policy, reach}
use wvpn.Cmd.Reach.{IsAdmitted, reach_iff}

-- An address parser that knows one literal.
abbrev parse_one : Bytes → Option Addr
parse_one s = if same s (codes "10.0.0.5") then some (v4 (dotted 10 0 0 5)) else none

abbrev inner : Guard
inner = record {
  allow_private = true;
  allow_hosts = [];
  deny_hosts = codes "db.corp" ∷ [];
  site = none;
}

abbrev listed_sites : Policy
listed_sites = record {
  mode = AccessMode.allowlist;
  rules = record {
    hosts = codes "oa.corp" ∷ [];
    nets = record { addr = v4 (dotted 10 0 0 0); bits = 8 } ∷ [];
  };
}

reach_iff_example :
    (reach parse_one
        (record inner { site = some (site_policy parse_one listed_sites) })
        (codes "www.oa.corp:8443")
        (v4 (dotted 10 0 0 5))
        false
      ≡ ok tt)
    ↔ IsAdmitted parse_one inner listed_sites
        (codes "www.oa.corp:8443")
        (v4 (dotted 10 0 0 5))
        false
reach_iff_example =
    reach_iff parse_one inner listed_sites (codes "www.oa.corp:8443") (v4 (dotted 10 0 0 5)) false
