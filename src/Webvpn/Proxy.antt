-- ===== src/Webvpn/Proxy.antt =====
-- internal/webvpn/proxy.go: how ServeHTTP sends a request on, and the pages that answer it, up to the
-- request that goes to the site. Headers are functions of their canonical names.
pub mod Admission
pub mod Request
pub mod Response
pub mod Samples
mod Tests
use wvpn.Base.{
  ℕ, zero, suc, Bool, true, false, not, ◌&&◌, ◌||◌, List, [], ◌∷◌, ◌++◌, Option, none, some, Result,
  ok, err, if◌then◌else◌, is_empty, ◌==◌,
}
use wvpn.Text.{Bytes, codes, same, has_prefix, equal_fold}
use wvpn.Net.{Addr}
use wvpn.Webvpn.Url.{Url, UrlLib, http_scheme, parse_user_input}
use wvpn.Webvpn.Codec.{Codec}
use wvpn.Webvpn.Codec.Plain.{plain_match, plain_codec, plain_decode}
use wvpn.Webvpn.Codec.Wrd.{Cipher, wrd_codec}
use wvpn.Webvpn.Codec.Host.{HostCodec, host_codec}
use wvpn.Webvpn.Guard.{Guard, GuardError, SiteCheck, check_target}

-- The codec in force, with what HostCodec is asked beyond the interface.
pub data Addressing : Type 0 where
  plainly : Addressing
  hidden : Cipher → Addressing
  by_name : HostCodec → Addressing

-- The options of a Handler that its decisions rest on.
pub record Handler : Type 0 where
  pub lib : UrlLib
  pub addressing : Addressing
  pub parse_addr : Bytes → Option Addr
  pub guard : Guard
  pub force_secure : Bool
  pub restores : Url → Bool
  pub extra_headers : Url → List (Bytes × Bytes)
  pub session_cookie : Bytes

-- codec
unfoldable pub codec : UrlLib → Addressing → Codec
unfolding plain_codec wrd_codec host_codec
codec lib plainly = plain_codec lib
codec lib (hidden cipher) = wrd_codec lib cipher
codec lib (by_name c) = host_codec lib c

-- codecSecure, and codecFor on what a request says
unfoldable pub codec_secure : Handler → Bool → Codec
unfolding codec
codec_secure h secure = elim h.addressing [
  | by_name c ↦ codec h.lib (by_name (record c { tls = secure }))
  | plainly ↦ codec h.lib plainly
  | hidden cipher ↦ codec h.lib (hidden cipher)
]

-- The parts of an http.Request that the handlers read: `real_user` is what Identity says of it.
pub record Inbound : Type 0 where
  pub method : Bytes
  pub host : Bytes
  pub path : Bytes
  pub query : Bytes
  pub uri : Bytes
  pub tls : Bool
  pub forwarded_proto : Bytes
  pub referer : Bytes
  pub credentials : Bytes
  pub real_user : Option (Bytes × Bool)

-- isSecure
unfoldable pub is_secure : Handler → Inbound → Bool
unfolding equal_fold
is_secure h r = h.force_secure || (r.tls || equal_fold r.forwarded_proto (codes "https"))

-- siteExempt
abbrev pub site_exempt : Inbound → Bool
site_exempt r = elim r.real_user [ none ↦ false | some (email, admin) ↦ admin ]

-- decode
unfoldable pub decode : Handler → Bytes → Bytes → Bytes → Option Url
unfolding plain_match plain_decode codec
decode h host path query =
    if plain_match host path
    then plain_decode h.lib host path query
    else (codec h.lib h.addressing).decode host path query

-- reqInfo
pub record ReqInfo : Type 0 where
  pub target : Url
  pub secure : Bool
  pub site : SiteCheck
  pub jar_key : Bytes
  pub page : Option Url
  pub browser_host : Bytes
  pub client_ip : Bytes
  pub omit_cookies : Bool

-- gatewayOrigin
unfoldable pub gateway_origin : ReqInfo → Bytes
gateway_origin info =
    if is_empty info.browser_host
    then []
    else if info.secure
    then codes "https://" ++ info.browser_host
    else codes "http://" ++ info.browser_host

-- What a request is answered with. `forward` is one that ReverseProxy sends to the site.
pub data Answer : Type 0 where
  shim trust_page cookie_route portal not_found bad_request : Answer
  denied : GuardError → Answer
  redirect : Bytes → ℕ → Answer
  forward : ReqInfo → Answer

-- The body of unwrapTarget's inner loop, at a slash with `before` in front of it.
unfoldable pub splice_at : Handler → Url → Bytes → Bytes → Option Url
unfolding decode equal_fold
splice_at h out before rest = elim (decode h out.host rest out.query) [
  | none ↦ none
  | some inner ↦
      if not (equal_fold inner.host out.host)
      then none
      else elim (h.lib.parse (before ++ inner.path)) [
        | none ↦ none
        | some joined ↦ some (record out { path = joined.path })
      ]
]

abbrev pub or_else : Option Url → Option Url → Option Url
or_else (some u) later = some u
or_else none later = later

-- The inner loop of unwrapTarget.
unfoldable pub splice : Handler → Url → Bytes → Bytes → Option Url
unfolding splice_at
splice h out before [] = none
splice h out before (c ∷ rest) =
    let later = splice h out (before ++ (c ∷ [])) rest in
    if c == b'/' then or_else (splice_at h out before (c ∷ rest)) later else later

abbrev pub splice_path : Handler → Url → Bytes → Option Url
splice_path h out [] = none
splice_path h out (c ∷ path) = splice h out (c ∷ []) path

-- The outer loop of unwrapTarget, which goes round four times at most.
unfoldable pub unwrap_target : ℕ → Handler → Url → Url
unfolding splice
unwrap_target zero h t = t
unwrap_target (suc n) h t = elim (splice_path h t t.path) [
  | none ↦ t
  | some next ↦ unwrap_target n h next
]

abbrev pub is_get_or_head : Bytes → Bool
is_get_or_head method = same method (codes "GET") || same method (codes "HEAD")

-- What a request carries beside its address: the key of its jar, the browser's address for the sites
-- that are told, and the page that pages.record answers for a target.
pub record Browser : Type 0 where
  pub jar_key : Bytes
  pub client_ip : Bytes
  pub trail : Url → Option Url

-- The end of serveProxy.
unfoldable pub admit_target : Handler → Inbound → Browser → Url → Answer
unfolding check_target is_secure equal_fold
admit_target h r b target = elim (check_target h.parse_addr h.guard target.host (site_exempt r)) [
  | err why ↦ denied why
  | ok check ↦ forward (record {
    target = target;
    secure = is_secure h r;
    site = check;
    jar_key = b.jar_key;
    page = b.trail target;
    browser_host = r.host;
    client_ip = b.client_ip;
    omit_cookies = equal_fold r.credentials (codes "omit");
  })
]

-- serveProxy
unfoldable pub serve_proxy : Handler → Codec → Inbound → Browser → Answer
unfolding http_scheme unwrap_target same codec_secure is_secure admit_target
serve_proxy h c r b = elim (c.decode r.host r.path r.query) [
  | none ↦ bad_request
  | some decoded ↦
      let target = record decoded { scheme = http_scheme decoded.scheme } in
      let fixed = unwrap_target 4 h target in
      let enc = (codec_secure h (is_secure h r)).encode fixed in
      if not (same (h.lib.print fixed) (h.lib.print target)) && not (is_empty enc)
      then redirect enc (if is_get_or_head r.method then 302 else 307)
      else admit_target h r b target
]

-- serveGoto, on the address that the form or the query gives.
unfoldable pub serve_goto : Handler → Inbound → Bytes → Answer
unfolding parse_user_input check_target codec_secure is_secure
serve_goto h r raw = elim (parse_user_input h.lib raw) [
  | none ↦ bad_request
  | some target ↦
      let ref = (codec_secure h (is_secure h r)).encode target in
      elim (check_target h.parse_addr h.guard target.host (site_exempt r)) [
        | err why ↦ denied why
        | ok _ ↦ if is_empty ref then bad_request else redirect ref 302
      ]
]

-- The target of the page that a Referer names.
unfoldable pub referer_target : Handler → Bytes → Option Url
unfolding decode
referer_target h referer = elim (h.lib.parse referer) [
  | none ↦ none
  | some ref ↦ if is_empty ref.host then none else decode h ref.host ref.path ref.query
]

-- strayBase, where `current` is what pages.current answers.
unfoldable pub stray_base : Handler → Inbound → Option Url → Option Url
unfolding referer_target
stray_base h r current = or_else (referer_target h r.referer) current

-- serveStray
unfoldable pub serve_stray : Handler → Inbound → Option Url → Answer
unfolding stray_base codec_secure is_secure
serve_stray h r current = elim (stray_base h r current) [
  | none ↦ not_found
  | some base ↦ elim (h.lib.resolve base r.uri) [
    | none ↦ not_found
    | some target ↦
        let enc = (codec_secure h (is_secure h r)).encode target in
        if not (is_empty enc) then redirect enc 307 else not_found
  ]
]

-- ServeHTTP. `raw` is the address that a request of /_wv/go carries.
unfoldable pub serve_http : Handler → Inbound → Browser → Bytes → Option Url → Answer
unfolding same has_prefix plain_match plain_codec codec serve_goto serve_proxy serve_stray
serve_http h r b raw current =
    if same r.path (codes "/_wv/shim.js")
    then shim
    else if same r.path (codes "/_wv/go")
    then serve_goto h r raw
    else if same r.path (codes "/_wv/trust")
    then trust_page
    else if same r.path (codes "/_wv/cookie")
    then cookie_route
    else if has_prefix r.path (codes "/_wv/")
    then not_found
    else if plain_match r.host r.path
    then serve_proxy h (plain_codec h.lib) r b
    else if (codec h.lib h.addressing).claims r.host r.path
    then serve_proxy h (codec h.lib h.addressing) r b
    else if same r.path (codes "/") || same r.path (codes "/index.html")
    then portal
    else serve_stray h r current
