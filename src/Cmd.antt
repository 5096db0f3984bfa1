-- ===== src/Cmd.antt =====
-- cmd/webvpn/main.go: how the parts are put together.
pub mod Reach
mod Tests
use wvpn.Base.{Bool, List, Option, some, Result, ◌>>=◌}
use wvpn.Text.{Bytes}
use wvpn.Net.{Addr}
use wvpn.Store.Sites
use wvpn.Store.Sites.{Policy}
use wvpn.Webvpn.Guard.{
  Verdict, neutral, allow, deny, SitePolicy, Guard, GuardError, check_target, check_dial_addr,
}

-- verdict
unfoldable pub verdict : Sites.Verdict → Verdict
verdict Sites.Verdict.allow = allow
verdict Sites.Verdict.deny = deny
verdict Sites.Verdict.neutral = neutral

module _ (parse_addr : Bytes → Option Addr) where
  -- sitePolicy: the store behind the interface that the guard consults.
  unfoldable pub site_policy : Policy → SitePolicy
  unfolding verdict
  site_policy p = record {
    requires_match = Sites.requires_match p;
    has_addr_rules = Sites.has_addr_rules p;
    host_verdict = λ host. verdict (Sites.host_verdict parse_addr p host);
    addr_verdict = λ a. verdict (Sites.addr_verdict p a);
  }

  -- A proxied request's way through the guard: CheckTarget on the host, and, with the outcome that
  -- the request carries, CheckDialAddr on the address that the resolver returned.
  unfoldable pub reach : Guard → Bytes → Addr → Bool → Result GuardError (Unit {0})
  reach g host a bypass = do
    check ← check_target parse_addr g host bypass
    check_dial_addr g a check
