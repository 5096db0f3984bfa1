-- ===== src/Webvpn/Proxy/Admission.antt =====
-- What ServeHTTP forwards to a site.
use wvpn.Base.{
  ℕ, ◌≡◌, ◌≢◌, refl, sym, ap, subst, ◌∙◌, Bool, true, false, not, ◌&&◌, ◌||◌, Option, none, some,
  ok, err, if◌then◌else◌, is_empty, arith, Bool-cases, Option-cases, Result-cases, inl, inr,
}
use wvpn.Text.{Bytes, codes, same, has_prefix, equal_fold}
use wvpn.Webvpn.Url.{Url, http_scheme, parse_user_input}
use wvpn.Webvpn.Codec.{Codec}
use wvpn.Webvpn.Codec.Plain.{plain_match, plain_codec}
use wvpn.Webvpn.Guard.{SiteCheck, GuardError, check_target}
use wvpn.Webvpn.Proxy.{
  Handler, codec, codec_secure, Inbound, is_secure, site_exempt, decode, ReqInfo, Answer, forward,
  portal, shim, trust_page, cookie_route, not_found, redirect, denied, bad_request, unwrap_target,
  is_get_or_head, Browser, admit_target, serve_proxy, serve_goto, serve_stray, serve_http,
}

module _ (h : Handler) (r : Inbound) (b : Browser) where
  -- What a forwarded request is known to be, given the address that it was decoded to.
  abbrev pub Admitted : Url → ReqInfo → Type 0
  Admitted decoded info =
      (info.target ≡ record decoded { scheme = http_scheme decoded.scheme })
      × (check_target h.parse_addr h.guard info.target.host (site_exempt r) ≡ ok info.site)
      × (info.secure ≡ is_secure h r)

  abbrev info_of : ReqInfo → Answer → ReqInfo
  info_of default (forward info) = info
  info_of default _ = default

  abbrev Passed : Url → ReqInfo → Type 0
  Passed target info =
      (info.target ≡ target)
      × (check_target h.parse_addr h.guard info.target.host (site_exempt r) ≡ ok info.site)
      × (info.secure ≡ is_secure h r)

  admit_target-denied :
      (target : Url) (why : GuardError)
      → check_target h.parse_addr h.guard target.host (site_exempt r) ≡ err why
      → admit_target h r b target ≡ denied why
  unfolding admit_target
  admit_target-denied target why k = rw (admit_target, k) refl

  abbrev info_for : Url → SiteCheck → ReqInfo
  info_for target check = record {
    target = target;
    secure = is_secure h r;
    site = check;
    jar_key = b.jar_key;
    page = b.trail target;
    browser_host = r.host;
    client_ip = b.client_ip;
    omit_cookies = equal_fold r.credentials (codes "omit");
  }

  admit_target-ok :
      (target : Url) (check : SiteCheck)
      → check_target h.parse_addr h.guard target.host (site_exempt r) ≡ ok check
      → admit_target h r b target ≡ forward (info_for target check)
  unfolding admit_target
  admit_target-ok target check k = rw (admit_target, k) refl

  admit_target-forward :
      (target : Url) (info : ReqInfo)
      → admit_target h r b target ≡ forward info
      → Passed target info
  admit_target-forward target info e =
      elim (Result-cases (check_target h.parse_addr h.guard target.host (site_exempt r))) [
        | inl (why, k) ↦
            let bad : denied why ≡ forward info = sym (admit_target-denied target why k) ∙ e in cc
        | inr (check, k) ↦
            subst (Passed target) (ap (info_of info) (sym (admit_target-ok target check k) ∙ e))
              (refl, k, refl)
      ]

  serve_proxy-none :
      (c : Codec) → c.decode r.host r.path r.query ≡ none → serve_proxy h c r b ≡ bad_request
  unfolding serve_proxy
  serve_proxy-none c k = rw (serve_proxy, k) refl

  serve_proxy-some :
      (c : Codec) (decoded : Url)
      → c.decode r.host r.path r.query ≡ some decoded
      → let target = record decoded { scheme = http_scheme decoded.scheme } in
        let fixed = unwrap_target 4 h target in
        let enc = (codec_secure h (is_secure h r)).encode fixed in
        serve_proxy h c r b ≡ (
          if not (same (h.lib.print fixed) (h.lib.print target)) && not (is_empty enc)
          then redirect enc (if is_get_or_head r.method then 302 else 307)
          else admit_target h r b target)
  unfolding serve_proxy
  serve_proxy-some c decoded k = rw (serve_proxy, k) refl

  redirect_or :
      (test : Bool) (enc : Bytes) (code : ℕ) (a : Answer) (info : ReqInfo)
      → (if test then redirect enc code else a) ≡ forward info
      → a ≡ forward info
  redirect_or true enc code a info e = cc
  redirect_or false enc code a info e = e

  serve_proxy-forward :
      (c : Codec) (info : ReqInfo)
      → serve_proxy h c r b ≡ forward info
      → (decoded : Url) × (c.decode r.host r.path r.query ≡ some decoded) × Admitted decoded info
  serve_proxy-forward c info e = elim (Option-cases (c.decode r.host r.path r.query)) [
    | inl k ↦ let bad : bad_request ≡ forward info = sym (serve_proxy-none c k) ∙ e in cc
    | inr (decoded, k) ↦
        let target = record decoded { scheme = http_scheme decoded.scheme } in
        (
          decoded,
          k,
          admit_target-forward target info (
              redirect_or _ _ _ (admit_target h r b target) info
                (sym (serve_proxy-some c decoded k) ∙ e)),
        )
  ]

  if_reply :
      (test : Bool) (enc : Bytes) (code : ℕ) (info : ReqInfo)
      → (if test then bad_request else redirect enc code) ≢ forward info
  if_reply true enc code info e = cc
  if_reply false enc code info e = cc

  serve_goto-none :
      (raw : Bytes) → parse_user_input h.lib raw ≡ none → serve_goto h r raw ≡ bad_request
  unfolding serve_goto
  serve_goto-none raw k = rw (serve_goto, k) refl

  serve_goto-denied :
      (raw : Bytes) (target : Url) (why : GuardError)
      → parse_user_input h.lib raw ≡ some target
      → check_target h.parse_addr h.guard target.host (site_exempt r) ≡ err why
      → serve_goto h r raw ≡ denied why
  unfolding serve_goto
  serve_goto-denied raw target why k l = rw (serve_goto, k, l) refl

  serve_goto-ok :
      (raw : Bytes) (target : Url) (check : SiteCheck)
      → parse_user_input h.lib raw ≡ some target
      → check_target h.parse_addr h.guard target.host (site_exempt r) ≡ ok check
      → let ref = (codec_secure h (is_secure h r)).encode target in
        serve_goto h r raw ≡ (if is_empty ref then bad_request else redirect ref 302)
  unfolding serve_goto
  serve_goto-ok raw target check k l = rw (serve_goto, k, l) refl

  goto_never : (raw : Bytes) (info : ReqInfo) → serve_goto h r raw ≢ forward info
  goto_never raw info e = elim (Option-cases (parse_user_input h.lib raw)) [
    | inl k ↦ let bad : bad_request ≡ forward info = sym (serve_goto-none raw k) ∙ e in cc
    | inr (target, k) ↦
        elim (Result-cases (check_target h.parse_addr h.guard target.host (site_exempt r))) [
          | inl (why, l) ↦
              let bad : denied why ≡ forward info =
                sym (serve_goto-denied raw target why k l) ∙ e in
              cc
          | inr (check, l) ↦ if_reply _ _ _ info (sym (serve_goto-ok raw target check k l) ∙ e)
        ]
  ]

  stray_never : (current : Option Url) (info : ReqInfo) → serve_stray h r current ≢ forward info
  unfolding serve_stray
  stray_never current info e = ground arith

  -- The request decodes to an address that is admitted.
  pub Decoded : ReqInfo → Type 0
  Decoded info =
      (decoded : Url) × (decode h r.host r.path r.query ≡ some decoded) × Admitted decoded info

  decode_plainly :
      plain_match r.host r.path ≡ true
      → (plain_codec h.lib).decode r.host r.path r.query ≡ decode h r.host r.path r.query
  unfolding decode plain_codec
  decode_plainly e = rw (decode, e) refl

  decode_in_force :
      plain_match r.host r.path ≡ false
      → (codec h.lib h.addressing).decode r.host r.path r.query ≡ decode h r.host r.path r.query
  unfolding decode
  decode_in_force e = rw (decode, e) refl

  claimed :
      (current : Option Url) (info : ReqInfo)
      → (if plain_match r.host r.path
          then serve_proxy h (plain_codec h.lib) r b
          else if (codec h.lib h.addressing).claims r.host r.path
          then serve_proxy h (codec h.lib h.addressing) r b
          else if same r.path (codes "/") || same r.path (codes "/index.html")
          then portal
          else serve_stray h r current)
        ≡ forward info
      → Decoded info
  unfolding Decoded
  claimed current info e = elim (Bool-cases (plain_match r.host r.path)) [
    | inl p ↦
        let (decoded, k, admitted) = serve_proxy-forward (plain_codec h.lib) info (rw p at e) in
        (decoded, sym (decode_plainly p) ∙ k, admitted)
    | inr p ↦ elim (Bool-cases ((codec h.lib h.addressing).claims r.host r.path)) [
      | inl q ↦
          let (decoded, k, admitted) =
            serve_proxy-forward (codec h.lib h.addressing) info (rw (p, q) at e) in
          (decoded, sym (decode_in_force p) ∙ k, admitted)
      | inr q ↦ elim (Bool-cases (same r.path (codes "/") || same r.path (codes "/index.html"))) [
        | inl t ↦ let bad : portal ≡ forward info = rw (p, q, t) at e in cc
        | inr t ↦ elim (stray_never current info (rw (p, q, t) at e)) [ ]
      ]
    ]
  ]

  -- A request goes to a site only when its path is not one of the gateway's own, the address that it
  -- decodes to passes the guard, and the answer of the guard and the security of the browser's leg go
  -- with it. The site policy is waived for administrators alone.
  pub serve_http-forward :
      (raw : Bytes) (current : Option Url) (info : ReqInfo)
      → serve_http h r b raw current ≡ forward info
      → (has_prefix r.path (codes "/_wv/") ≡ false) × Decoded info
  unfolding serve_http
  serve_http-forward raw current info e = elim (Bool-cases (same r.path (codes "/_wv/shim.js"))) [
    | inl k ↦ let bad : shim ≡ forward info = rw (serve_http, k) at e in cc
    | inr k ↦ elim (Bool-cases (same r.path (codes "/_wv/go"))) [
      | inl l ↦ elim (goto_never raw info (rw (serve_http, k, l) at e)) [ ]
      | inr l ↦ elim (Bool-cases (same r.path (codes "/_wv/trust"))) [
        | inl m ↦ let bad : trust_page ≡ forward info = rw (serve_http, k, l, m) at e in cc
        | inr m ↦ elim (Bool-cases (same r.path (codes "/_wv/cookie"))) [
          | inl n ↦ let bad : cookie_route ≡ forward info = rw (serve_http, k, l, m, n) at e in cc
          | inr n ↦ elim (Bool-cases (has_prefix r.path (codes "/_wv/"))) [
            | inl o ↦ let bad : not_found ≡ forward info = rw (serve_http, k, l, m, n, o) at e in cc
            | inr o ↦ (o, claimed current info (rw (serve_http, k, l, m, n, o) at e))
          ]
        ]
      ]
    ]
  ]
