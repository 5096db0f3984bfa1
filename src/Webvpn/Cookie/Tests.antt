-- ===== src/Webvpn/Cookie/Tests.antt =====
-- The cookie theorems at concrete headers, and runs of the code.
use wvpn.Base.{◌≡◌, refl, true, false, [], ◌∷◌, some, arith}
use wvpn.Text.{Bytes, codes, texts, join, trim_space, has_prefix}
use wvpn.Webvpn.Cookie.{
  SetCookie, parse_set_cookie, rewrite, our_cookies, domain_scope, append_cookie_pairs,
  cookie_header_names, attr, parse_attr, parse_attrs,
}
use wvpn.Webvpn.Cookie.Return.{written, foreign, our_cookies-shown}
use wvpn.Webvpn.Cookie.Browser.{InBrowser, rewrite-InBrowser}

our_cookies-shown_example :
    our_cookies (codes "__wvpn_sid=a b; x=1; __wvpn_t=") ≡ codes "sid=a b; t="
unfolding join
our_cookies-shown_example =
    our_cookies-shown
      (written (codes "sid") (codes "a b")
        ∷ foreign (codes "x") (codes "1")
        ∷ written (codes "t") []
        ∷ [])
      (unfold trim_space has_prefix in
        (
          ((refl, omega arith, λ e. cc), refl, omega arith),
          (
            ((refl, omega arith, λ e. cc), refl, omega arith, refl),
            (((refl, omega arith, λ e. cc), refl, omega arith), tt),
          ),
        ))

abbrev sample : SetCookie
sample = record {
  name = codes "sid";
  pair = codes "sid=1 2";
  attrs =
      record { key = codes "domain"; val = codes ".corp.com"; raw = codes "Domain=.corp.com" }
      ∷ record { key = codes "secure"; val = []; raw = codes "Secure" }
      ∷ record { key = codes "samesite"; val = codes "None"; raw = codes "SameSite=None" }
      ∷ [];
}

abbrev sample_path : Bytes
sample_path = codes "/p/https/app.corp.com/"

sample_parses :
    parse_set_cookie (codes " sid=1 2; Domain=.corp.com;; Secure; SameSite=None") ≡ some sample
unfolding texts parse_set_cookie parse_attrs parse_attr
sample_parses = refl

rewrite-InBrowser_example :
    (c : SetCookie) × (parse_set_cookie (rewrite sample sample_path false) ≡ some c)
    × InBrowser sample sample_path false c
rewrite-InBrowser_example =
    rewrite-InBrowser (codes " sid=1 2; Domain=.corp.com;; Secure; SameSite=None") sample_path false
      sample sample_parses (unfold trim_space in refl)
      (record { trimmed = unfold trim_space in refl; filled = λ e. cc; whole = omega arith })

rewrite_tests :
    (rewrite sample sample_path false
      ≡ codes "__wvpn_sid=1 2; SameSite=Lax; Path=/p/https/app.corp.com/")
    × (domain_scope sample (codes "sso.Corp.com") ≡ (true, true))
    × (domain_scope sample (codes "corp.com.evil") ≡ (false, false))
    × (cookie_header_names (codes "a=1;  b ; =c") ≡ codes "a" ∷ codes "b" ∷ [])
    × (append_cookie_pairs (codes "a=1") (codes "b=2" ∷ codes "c=3" ∷ []) ≡ codes "a=1; b=2; c=3")
unfolding texts attr rewrite domain_scope cookie_header_names append_cookie_pairs
rewrite_tests = (refl, refl, refl, refl, refl)
