-- ===== src/Webvpn/Proxy/Request.antt =====
-- internal/webvpn/proxy.go: rewriteRequest. A header is a function of its canonical name; what the jar of
-- the browser holds for the target is given.
pub mod Privacy
use wvpn.Base.{
  ℕ, Bool, true, false, not, ◌&&◌, ◌||◌, List, [], ◌∷◌, ◌++◌, Option, none, some, if◌then◌else◌,
  is_empty,
}
use wvpn.Text.{Bytes, codes, same}
use wvpn.Webvpn.Url.{Url, http_scheme}
use wvpn.Webvpn.Cookie.{our_cookies, append_cookie_pairs, cookie_header_names}
use wvpn.Webvpn.Jars.{jar_pairs}
use wvpn.Webvpn.Proxy.{Handler, ReqInfo, decode}
use wvpn.Webvpn.Restore.{Body, browser_page, restore_query, restore_body}

abbrev pub Header : Type 0
Header = Bytes → Option Bytes

-- Get
abbrev pub value : Option Bytes → Bytes
value none = []
value (some v) = v

-- Set
unfoldable pub set_header : Bytes → Bytes → Header → Header
set_header name v header = λ k. if same name k then some v else header k

-- Del
unfoldable pub del_header : Bytes → Header → Header
del_header name header = λ k. if same name k then none else header k

abbrev pub set_or_del : Bytes → Option Bytes → Header → Header
set_or_del name none header = del_header name header
set_or_del name (some v) header = set_header name v header

abbrev pub forwarded_for : Bytes
forwarded_for = codes "X-Forwarded-For"

-- OmitCredentialsHeader
abbrev pub omit_credentials : Bytes
omit_credentials = codes "X-Wvpn-Credentials"

-- The cookies that go to the site.
unfoldable pub site_cookies : ReqInfo → Option (List (Bytes × Bytes)) → Bytes → Bytes
unfolding our_cookies append_cookie_pairs cookie_header_names jar_pairs
site_cookies info held sent =
    let ours = our_cookies sent in
    if info.omit_cookies then [] else elim held [
      | none ↦ ours
      | some cookies ↦ append_cookie_pairs ours (jar_pairs (cookie_header_names ours) cookies)
    ]

-- The Referer that goes to the site.
unfoldable pub site_referer : Handler → Bytes → Option Bytes
unfolding decode
site_referer h referer = elim (h.lib.parse referer) [
  | none ↦ none
  | some u ↦ elim (decode h u.host u.path u.query) [ none ↦ none | some t ↦ some (h.lib.print t) ]
]

abbrev pub origin_text : Url → Bytes
origin_text u = u.scheme ++ (codes "://" ++ u.host)

-- The Origin that goes to the site, for one that is neither empty nor "null".
unfoldable pub site_origin : Handler → Url → Bytes → Bytes
unfolding decode
site_origin h target origin = elim (h.lib.parse origin) [
  | none ↦ origin_text target
  | some u ↦ if is_empty u.host then origin_text target else elim (decode h u.host (codes "/") []) [
    | none ↦ origin_text target
    | some t ↦ origin_text t
  ]
]

-- The loop over the operator's headers. `canonical` is http.CanonicalHeaderKey.
module _ (canonical : Bytes → Bytes) where
  unfoldable pub add_extra : Bytes → List (Bytes × Bytes) → Header → Header
  unfolding same set_header
  add_extra client_ip [] header = header
  add_extra client_ip ((name, v) ∷ extra) header =
      let skipped = add_extra client_ip extra header in
      let set = add_extra client_ip extra (set_header (canonical name) v header) in
      if not (is_empty client_ip) && same (canonical name) forwarded_for then skipped else set

  -- What tells the site who is behind the gateway.
  unfoldable pub reveal : Bytes → Header → Header
  unfolding set_header del_header
  reveal client_ip header =
      if not (is_empty client_ip)
      then set_header forwarded_for client_ip header
      else del_header (codes "X-Real-Ip") (del_header forwarded_for header)

  unfoldable pub with_cookies : Bytes → Header → Header
  unfolding set_header del_header
  with_cookies cookies header =
      if is_empty cookies
      then del_header (codes "Cookie") header
      else set_header (codes "Cookie") cookies header

  unfoldable pub with_referer : Handler → Header → Header
  unfolding set_header del_header site_referer
  with_referer h header =
      if is_empty (value (header (codes "Referer")))
      then header
      else set_or_del (codes "Referer") (site_referer h (value (header (codes "Referer")))) header

  unfoldable pub with_origin : Handler → Url → Header → Header
  unfolding set_header same site_origin
  with_origin h target header =
      let origin = value (header (codes "Origin")) in
      if is_empty origin || same origin (codes "null")
      then header
      else set_header (codes "Origin") (site_origin h target origin) header

  -- The headers of the request that goes to the site, but for those that name the browser and those of
  -- the operator.
  unfoldable pub site_base : Handler → ReqInfo → Option (List (Bytes × Bytes)) → Header → Header
  unfolding set_header del_header with_cookies site_cookies with_referer with_origin
  site_base h info held header =
      let base =
        del_header omit_credentials (set_header (codes "Accept-Encoding") (codes "gzip") header) in
      let cookies = site_cookies info held (value (base (codes "Cookie"))) in
      let named = with_origin h info.target (with_referer h (with_cookies cookies base)) in
      del_header (codes "X-Forwarded-Proto") (del_header (codes "X-Forwarded-Host") named)

  unfoldable pub site_headers : Handler → ReqInfo → Option (List (Bytes × Bytes)) → Header → Header
  unfolding site_base reveal add_extra
  site_headers h info held header =
      add_extra info.client_ip (h.extra_headers info.target)
        (reveal info.client_ip (site_base h info held header))

  -- The request that goes to the site.
  pub record Outbound : Type 0 where
    pub url : Url
    pub host : Bytes
    pub header : Header
    pub body : Body

  -- rewriteRequest, on the header and the body of the request as ReverseProxy has prepared it, and on the
  -- Referer and the host that the browser sent.
  unfoldable pub rewrite_request :
      Handler → ReqInfo → Option (List (Bytes × Bytes)) → Bytes → Bytes → Header → Body → Outbound
  unfolding http_scheme browser_page restore_query restore_body site_headers
  rewrite_request h info held referer browser_host header body =
      let url = record info.target { scheme = http_scheme info.target.scheme } in
      let page = browser_page h info referer in
      let content_type = value (header (codes "Content-Type")) in
      if h.restores info.target
      then record {
        url = record url { query = restore_query h (some page) browser_host url.query };
        host = info.target.host;
        header = site_headers h info held header;
        body = restore_body h (some page) browser_host content_type body;
      }
      else record {
        url = url;
        host = info.target.host;
        header = site_headers h info held header;
        body = body;
      }
