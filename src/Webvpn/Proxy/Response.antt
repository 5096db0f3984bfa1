-- ===== src/Webvpn/Proxy/Response.antt =====
-- internal/webvpn/proxy.go: what becomes of a response, modifyResponse with browserOrigin, cookiePath,
-- rewriteCookies, bodyKind and rewriteBody, and serveCookie. The rewriters of HTML, CSS and script, and gzip,
-- are given.
pub mod Cookies
use wvpn.Base.{
  ℕ, Bool, true, false, not, ◌&&◌, ◌||◌, List, [], ◌∷◌, ◌++◌, Option, none, some, Result, ok, err,
  if◌then◌else◌, is_empty, length, ltb, leb, drop, any, ◌==◌,
}
use wvpn.Text.{Bytes, codes, same, has_prefix, has_suffix, equal_fold, to_lower, trim_space, cut}
use wvpn.Store.Config.{ℤ, pos, negsuc}
use wvpn.Webvpn.Url.{Url, scheme_supported}
use wvpn.Webvpn.Codec.{Codec}
use wvpn.Webvpn.Cookie.{SetCookie, parse_set_cookie, domain_scope, origin_path, rewrite}
use wvpn.Webvpn.Guard.{check_target}
use wvpn.Webvpn.Proxy.{Handler, Inbound, ReqInfo, codec_secure, gateway_origin, site_exempt}
use wvpn.Webvpn.Proxy.Request.{Header, value, set_header, del_header}

-- strippedResponseHeaders
abbrev pub stripped_response_headers : List Bytes
stripped_response_headers =
    codes "Content-Security-Policy"
    ∷ codes "Content-Security-Policy-Report-Only"
    ∷ codes "X-Frame-Options"
    ∷ codes "Strict-Transport-Security"
    ∷ codes "Public-Key-Pins"
    ∷ codes "Public-Key-Pins-Report-Only"
    ∷ codes "Cross-Origin-Opener-Policy"
    ∷ codes "Cross-Origin-Embedder-Policy"
    ∷ codes "Cross-Origin-Resource-Policy"
    ∷ codes "Clear-Site-Data"
    ∷ codes "Alt-Svc"
    ∷ codes "Report-To"
    ∷ codes "Reporting-Endpoints"
    ∷ []

-- The loop that deletes them.
unfoldable pub strip : List Bytes → Header → Header
unfolding del_header
strip [] header = header
strip (k ∷ ks) header = strip ks (del_header k header)

-- browserOrigin
unfoldable pub browser_origin : Handler → ReqInfo → Url → Bytes
unfolding codec_secure has_prefix gateway_origin
browser_origin h info origin =
    let enc = (codec_secure h info.secure).encode (record {
      scheme = origin.scheme;
      host = origin.host;
      path = [];
      query = [];
      force_query = false;
      fragment = [];
    }) in
    if is_empty enc || has_prefix enc (codes "/")
    then gateway_origin info
    else elim (h.lib.parse enc) [
      | none ↦ gateway_origin info
      | some u ↦
          if is_empty u.host then gateway_origin info else u.scheme ++ (codes "://" ++ u.host)
    ]

-- cookiePath
unfoldable pub cookie_path : Handler → ReqInfo → Bytes → Bytes
unfolding codec_secure has_prefix
cookie_path h info path =
    let scoped = record info.target { path = path; query = []; fragment = [] } in
    let enc = (codec_secure h info.secure).encode scoped in
    if is_empty enc
    then codes "/"
    else if has_prefix enc (codes "/")
    then enc
    else elim (h.lib.parse enc) [
      | none ↦ codes "/"
      | some u ↦ if is_empty u.path then codes "/" else u.path
    ]

-- The Location that the browser gets.
unfoldable pub browser_location : Handler → ReqInfo → Bytes → Bytes
unfolding trim_space codec_secure
browser_location h info loc = elim (h.lib.resolve info.target (trim_space loc)) [
  | none ↦ loc
  | some u ↦ let enc = (codec_secure h info.secure).encode u in if is_empty enc then loc else enc
]

-- The Access-Control-Allow-Origin that the browser gets.
unfoldable pub browser_acao : Handler → ReqInfo → Bytes → Bytes
unfolding trim_space same equal_fold browser_origin
browser_acao h info raw =
    let acao = trim_space raw in
    if is_empty acao || (same acao (codes "*") || equal_fold acao (codes "null"))
    then raw
    else elim (h.lib.parse acao) [
      | none ↦ raw
      | some u ↦
          let br = browser_origin h info u in if is_empty u.host || is_empty br then raw else br
    ]

abbrev pub replace_value : Bytes → (Bytes → Bytes) → Header → Header
replace_value name f header =
    let v = value (header name) in if is_empty v then header else set_header name (f v) header

-- The headers of modifyResponse, but for Link and Set-Cookie.
unfoldable pub browser_headers : Handler → ReqInfo → Header → Header
unfolding strip browser_location browser_acao set_header
browser_headers h info header =
    replace_value (codes "Access-Control-Allow-Origin") (browser_acao h info) (
      replace_value (codes "Location") (browser_location h info)
        (strip stripped_response_headers header))

-- What rewriteCookies makes of one cookie: a line for the browser, and whether the jar gets it.
unfoldable pub rescope : Handler → ReqInfo → SetCookie → Option Bytes × Bool
unfolding domain_scope rewrite cookie_path origin_path
rescope h info sc =
    let (to_jar, to_browser) = domain_scope sc (h.lib.hostname info.target.host) in
    let shared = to_jar && not (is_empty info.jar_key) in
    let line = rewrite sc (cookie_path h info (origin_path sc)) info.secure in
    (if to_browser || (to_jar && not shared) then some line else none, shared)

abbrev pub with_line : Option Bytes → List Bytes → List Bytes
with_line none lines = lines
with_line (some line) lines = line ∷ lines

-- The loop of rewriteCookies: the lines for the browser, and the cookies for the jar.
unfoldable pub rewrite_each : Handler → ReqInfo → List Bytes → List Bytes × List SetCookie
unfolding parse_set_cookie same rescope
rewrite_each h info [] = ([], [])
rewrite_each h info (raw ∷ raws) =
    let (lines, shared) = rewrite_each h info raws in
    elim (parse_set_cookie raw) [
      | none ↦ (lines, shared)
      | some sc ↦
          let (line, to_jar) = rescope h info sc in
          if same sc.name h.session_cookie
          then (lines, shared)
          else (with_line line lines, if to_jar then sc ∷ shared else shared)
    ]

-- rewriteCookies
unfoldable pub rewrite_cookies : Handler → ReqInfo → List Bytes → List Bytes × List SetCookie
unfolding rewrite_each
rewrite_cookies h info raws = if info.omit_cookies then ([], []) else rewrite_each h info raws

-- serveCookie: the status, and the cookie that the jar is given.
unfoldable pub serve_cookie :
    Handler → Inbound → Option (Bytes × Bytes) → Bytes → ℕ × Option (Url × SetCookie)
unfolding same scheme_supported check_target parse_set_cookie domain_scope
serve_cookie h r none key = if not (same r.method (codes "POST")) then (405, none) else (400, none)
serve_cookie h r (some (address, cookie)) key =
    if not (same r.method (codes "POST")) then (405, none) else elim (h.lib.parse address) [
      | none ↦ (400, none)
      | some target ↦
          if is_empty target.host || not (scheme_supported target.scheme)
          then (400, none)
          else elim (check_target h.parse_addr h.guard target.host (site_exempt r)) [
            | err why ↦ (403, none)
            | ok _ ↦ elim (parse_set_cookie cookie) [
              | none ↦ (204, none)
              | some sc ↦
                  if same sc.name h.session_cookie
                    || (not (domain_scope sc (h.lib.hostname target.host)).0 || is_empty key)
                  then (204, none)
                  else (204, some (target, sc))
            ]
          ]
    ]

pub data BodyKind : Type 0 where
  other html css script : BodyKind

abbrev pub media_text : Bytes → Bytes
media_text content_type = let (media, _, _) = cut b';' content_type in to_lower (trim_space media)

-- bodyKind, on what mime.ParseMediaType makes of the text.
unfoldable pub body_kind : (Bytes → Option Bytes) → Bytes → BodyKind
unfolding cut to_lower trim_space same has_suffix
body_kind parse_media content_type =
    let mt : Bytes = elim (parse_media content_type) [
      | none ↦ media_text content_type
      | some m ↦ m
    ] in
    if any (λ m. same m mt) (codes "text/html" ∷ codes "application/xhtml+xml" ∷ [])
    then html
    else if same mt (codes "text/css")
    then css
    else if any (λ m. same m mt)
        (codes "application/javascript"
          ∷ codes "text/javascript"
          ∷ codes "application/x-javascript"
          ∷ codes "module"
          ∷ codes "application/json"
          ∷ codes "text/json"
          ∷ [])
    then script
    else if has_suffix mt (codes "+json")
    then script
    else other

-- gzip.NewReader and the reading of it: not gzip, with the number of bytes that have been taken off the
-- body; a body that breaks; or what it holds.
pub data Gunzip : Type 0 where
  not_gzip : ℕ → Gunzip
  broken : Gunzip
  inflated : Bytes → Gunzip

-- A body as rewriteBody passes it on, with the headers that it changes.
pub record Reply : Type 0 where
  pub status : ℕ
  pub present : Bool
  pub encoding : Bytes
  pub content_length : ℤ
  pub bytes : Bytes

abbrev pub longer_than : ℤ → ℕ → Bool
longer_than (pos n) bound = ltb bound n
longer_than (negsuc n) bound = false

module _ (max_rewrite_bytes : ℕ) (js_off : Bool) (gunzip : Bytes → Gunzip)
    (render : BodyKind → Bytes → Bytes) where
  -- The kind that rewriteBody goes by.
  abbrev pub effective_kind : BodyKind → BodyKind
  effective_kind script = if js_off then other else script
  effective_kind kind = kind

  abbrev pub is_other : BodyKind → Bool
  is_other other = true
  is_other _ = false

  -- rewriteBody once the body is read.
  unfoldable pub render_body : BodyKind → Bool → Bytes → Reply → Reply
  render_body kind gzipped text r =
      if ltb max_rewrite_bytes (length text)
      then record r {
        encoding = if gzipped then [] else r.encoding;
        content_length = negsuc 0;
        bytes = text;
      }
      else record r {
        encoding = [];
        content_length = pos (length (render kind text));
        bytes = render kind text;
      }

  -- rewriteBody; `none` is a body that cannot be read.
  unfoldable pub rewrite_body : BodyKind → Reply → Option Reply
  unfolding equal_fold render_body
  rewrite_body kind r =
      if is_other (effective_kind kind) || (not r.present || r.status == 204)
      then some r
      else if longer_than r.content_length max_rewrite_bytes
      then some r
      else if not (equal_fold r.encoding (codes "gzip"))
      then some (render_body kind false r.bytes r)
      else elim (gunzip r.bytes) [
        | not_gzip taken ↦ some (record r { bytes = drop taken r.bytes })
        | broken ↦ none
        | inflated text ↦ some (render_body kind true text r)
      ]
