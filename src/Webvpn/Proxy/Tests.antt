-- ===== src/Webvpn/Proxy/Tests.antt =====
-- Runs of the proxy.
use wvpn.Base.{◌≡◌, refl, true, false, List, [], ◌∷◌, none, some, if◌then◌else◌, All}
use wvpn.Text.{Bytes, codes, texts, has_prefix}
use wvpn.Webvpn.Cookie.{parse_set_cookie, our_cookies}
use wvpn.Webvpn.Guard.{check_target}
use wvpn.Webvpn.Proxy.{ReqInfo, portal, shim, not_found, forward, redirect, serve_http, serve_goto}
use wvpn.Webvpn.Proxy.Admission.{Decoded, serve_http-forward}
use wvpn.Webvpn.Proxy.Request.{Header, forwarded_for, site_cookies, site_headers}
use wvpn.Webvpn.Proxy.Request.Privacy.{site_headers-forwarded}
use wvpn.Webvpn.Proxy.Response.{rewrite_cookies, html, script, body_kind}
use wvpn.Webvpn.Proxy.Response.Cookies.{Rescoped, Shared, rewrite_cookies-Rescoped}
use wvpn.Webvpn.Proxy.Samples.{handler, inbound, browser, info}

abbrev forwarded : ReqInfo
forwarded = record info { site = record { bypass = false; allowed = false } }

route_runs :
    (serve_http handler (record inbound { path = codes "/_wv/shim.js" }) browser [] none ≡ shim)
    × (serve_http handler (record inbound { path = codes "/_wv/x" }) browser [] none ≡ not_found)
    × (serve_http handler (record inbound { path = codes "/" }) browser [] none ≡ portal)
    × (serve_goto handler inbound (codes "x.cn") ≡ redirect (codes "/p/https/x.cn/a?u=1&v=2") 302)
    × (serve_http handler inbound browser [] none ≡ forward forwarded)
unfolding serve_http serve_goto check_target texts
route_runs = (refl, refl, refl, refl, refl)

serve_http-forward_example :
    (has_prefix (codes "/p/https/x.cn/a") (codes "/_wv/") ≡ false)
    × Decoded handler inbound browser forwarded
serve_http-forward_example =
    serve_http-forward handler inbound browser [] none forwarded
      (unfold serve_http check_target texts in refl)

abbrev sent : Header
sent name = if has_prefix name (codes "Cook") then some (codes "__wvpn_a=1; b=2") else none

abbrev same_name : Bytes → Bytes
same_name name = name

site_headers-forwarded_example :
    site_headers same_name handler info none sent forwarded_for ≡ some (codes "1.2.3.4")
site_headers-forwarded_example = site_headers-forwarded same_name handler info none sent refl

abbrev private : ReqInfo
private = record info { client_ip = []; omit_cookies = true }

cookie_runs :
    (site_cookies info none (codes "__wvpn_a=1; b=2") ≡ codes "a=1")
    × (site_cookies private none (codes "__wvpn_a=1; b=2") ≡ [])
    × ((rewrite_cookies handler info (codes "wvsid=1" ∷ [])).0 ≡ [])
    × (body_kind (λ s. none) (codes "Text/HTML; charset=utf-8") ≡ html)
    × (body_kind (λ s. none) (codes "application/ld+json") ≡ script)
unfolding site_cookies our_cookies rewrite_cookies body_kind parse_set_cookie texts
cookie_runs = (refl, refl, refl, refl, refl)

-- One cookie for the host and one for its domain.
abbrev site_lines : List Bytes
site_lines = codes "a=1; Path=/b" ∷ codes "s=2; Domain=.cn" ∷ []

rewrite_cookies-Rescoped_example :
    All (Rescoped handler info site_lines) (rewrite_cookies handler info site_lines).0
    × All (Shared handler info site_lines) (rewrite_cookies handler info site_lines).1
rewrite_cookies-Rescoped_example = rewrite_cookies-Rescoped handler info site_lines
