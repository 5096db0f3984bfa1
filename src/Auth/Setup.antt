-- ===== src/Auth/Setup.antt =====
-- internal/auth/setup.go: who may still set the gateway up.
pub mod Closed
pub mod Form
mod Tests
use wvpn.Base.{
  ℕ, Bool, true, false, not, ◌&&◌, ◌||◌, List, Option, none, some, if◌then◌else◌, is_empty,
}
use wvpn.Text.{Bytes, same, trim_space}
use wvpn.Dict.{Dict}
use wvpn.Auth.Model.{
  Options, Directory, Std, Manager, Request, Reply, bad_origin, too_many, forbidden, same_origin,
  client_ip,
}
use wvpn.Auth.Limit.{rate_limited}
use wvpn.Auth.SignIn.{with_hits}

-- SetupPending
abbrev pub setup_pending : Manager → Bool
setup_pending m = m.setup_open

-- NeedsSetup
unfoldable pub needs_setup : Directory → Manager → Bool
needs_setup dir m = setup_pending m && not dir.has_admins

-- validToken
unfoldable pub valid_token : Options → Bytes → Bool
unfolding same trim_space
valid_token opts got =
    if is_empty opts.setup_token || is_empty got
    then false
    else same (trim_space got) opts.setup_token

-- guardSetup: nothing where the request goes on.
unfoldable pub guard_setup : Std → Options → ℕ → Request → Bytes → Manager → Manager × Option Reply
unfolding same_origin client_ip rate_limited valid_token
guard_setup std opts now r token m =
    let (hits, over) = rate_limited now (client_ip std opts r) m.ip_hits in
    if not (same_origin std r)
    then (m, some bad_origin)
    else if not (setup_pending m)
    then (m, some forbidden)
    else if over
    then (with_hits m hits, some too_many)
    else if not (valid_token opts token)
    then (with_hits m hits, some forbidden)
    else (with_hits m hits, none)
