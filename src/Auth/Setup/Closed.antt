-- ===== src/Auth/Setup/Closed.antt =====
-- The setup link is for its holder, and ends with the first administrator's sign-in.
use wvpn.Base.{ℕ, ◌≡◌, ◌≢◌, ◌↔◌, sym, ap, ◌∙◌, true, false, Option, none, some, arith, is_empty}
use wvpn.Text.{Bytes, trim_space}
use wvpn.Text.Laws.{same_iff}
use wvpn.Auth.Model.{Options, Directory, Std, Manager, Request, signed_in, same_origin, client_ip}
use wvpn.Auth.Limit.{rate_limited}
use wvpn.Auth.Sessions.{new_session}
use wvpn.Auth.SignIn.{verify_for, admit, check_code, with_codes}
use wvpn.Auth.SignIn.Proof.{verify_for_iff, verify_for-accepted}
use wvpn.Auth.SignIn.Codes.{check_code_iff}
use wvpn.Auth.Setup.{guard_setup, valid_token}

valid_token_iff :
    (opts : Options) (token : Bytes)
    → (valid_token opts token ≡ true) ↔ (
        (is_empty opts.setup_token ≡ false)
        × (is_empty token ≡ false)
        × (trim_space token ≡ opts.setup_token))
unfolding valid_token
valid_token_iff opts token = (
  λ h. (ground arith, ground arith, ground (arith, same_iff (trim_space token) opts.setup_token)),
  λ (a, b, c). ground (arith, same_iff (trim_space token) opts.setup_token),
)

module _ (std : Std) (opts : Options) (now : ℕ) (r : Request) where
  -- A setup request goes on exactly when it passes sameOrigin, setup is pending, its address is within the
  -- rate, and it carries the setup token, which is not empty.
  guard_setup_iff :
      (token : Bytes) (m : Manager)
      → ((guard_setup std opts now r token m).1 ≡ none) ↔ (
          (same_origin std r ≡ true)
          × (m.setup_open ≡ true)
          × ((rate_limited now (client_ip std opts r) m.ip_hits).1 ≡ false)
          × (is_empty opts.setup_token ≡ false)
          × (is_empty token ≡ false)
          × (trim_space token ≡ opts.setup_token))
  unfolding guard_setup
  guard_setup_iff token m =
      let v = valid_token_iff opts token in
      (
        λ h. (
          ground arith,
          ground arith,
          ground arith,
          (v.0 (ground arith)).0,
          (v.0 (ground arith)).1,
          (v.0 (ground arith)).2,
        ),
        λ (a, b, c, d, e, f). ground (arith, v.1 (d, e, f)),
      )

  admit-setup_open :
      (dir : Directory) (at : ℕ) (email : Bytes) (q : Request) (given i : Bytes) (m : Manager)
      → dir.allowed email ≡ true
      → dir.is_admin email ≡ true
      → (admit std opts dir at email q (some given) (some i) m).0.setup_open ≡ false
  unfolding admit new_session
  admit-setup_open dir at email q given i m a b = ground arith

  -- Once an administrator has signed in, no setup request goes on.
  pub guard_setup-closed :
      (dir : Directory) (at : ℕ) (email code : Bytes) (q : Request) (token id : Option Bytes)
      (m : Manager) (given : Bytes) (ttl : ℕ) (carried : Bytes)
      → (verify_for std opts dir at email code q token id m).1 ≡ signed_in given ttl true
      → (guard_setup std opts now r carried
          (verify_for std opts dir at email code q token id m).0).1
        ≢ none
  guard_setup-closed dir at email code q token id m given ttl carried h g =
      let (good, (a, t, (i, j), l, b)) =
        (verify_for_iff std opts dir at email code q token id m given ttl true).0 h in
      let after = (verify_for std opts dir at email code q token id m).0 in
      let n = (check_code_iff std opts dir at email code m.codes).1 good in
      let held = with_codes m (check_code std opts dir at email code m.codes).0 in
      let shut : after.setup_open ≡ false =
        ap (λ v. v.0.setup_open) (verify_for-accepted std opts dir at email code q token id m n)
        ∙ (ap (λ v. (admit std opts dir at email q v id held).0.setup_open) t
            ∙ (ap (λ v. (admit std opts dir at email q (some given) v held).0.setup_open) j
                ∙ admit-setup_open dir at email q given i held a (sym b))) in
      let (o, open_still, _, _, _, _) = (guard_setup_iff carried after).0 g in ground arith
