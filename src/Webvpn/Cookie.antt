-- ===== src/Webvpn/Cookie.antt =====
-- internal/webvpn/cookie.go. Cookies are edited as text; a header value is its bytes.
pub mod Scope
pub mod Shape
pub mod Rescope
pub mod Return
pub mod Attributes
pub mod Browser
mod Tests
use wvpn.Base.{
  ℕ, Bool, true, false, not, ◌&&◌, ◌||◌, List, [], ◌∷◌, ◌++◌, map, Option, none, some,
  if◌then◌else◌, is_empty,
}
use wvpn.Text.{
  Bytes, codes, same, has_prefix, has_suffix, trim_prefix, cut, split, join, trim_space, to_lower,
  equal_fold,
}

pub record CookieAttr : Type 0 where
  pub key : Bytes
  pub val : Bytes
  pub raw : Bytes

pub record SetCookie : Type 0 where
  pub name : Bytes
  pub pair : Bytes
  pub attrs : List CookieAttr

-- The body of parseSetCookie's loop, on an attribute that is not blank.
unfoldable pub parse_attr : Bytes → CookieAttr
parse_attr attr =
    let (key, val, _) = cut b'=' attr in
    record { key = to_lower (trim_space key); val = trim_space val; raw = attr }

unfoldable pub parse_attrs : List Bytes → List CookieAttr
parse_attrs [] = []
parse_attrs (p ∷ ps) =
    let rest = parse_attrs ps in
    if is_empty (trim_space p) then rest else parse_attr (trim_space p) ∷ rest

-- parseSetCookie behind its Split.
unfoldable pub parse_parts : List Bytes → Option SetCookie
parse_parts [] = none
parse_parts (first ∷ rest) =
    let pair = trim_space first in
    let (before, _, found) = cut b'=' pair in
    let name = trim_space before in
    if not found || is_empty name
    then none
    else some (record { name = name; pair = pair; attrs = parse_attrs rest })

unfoldable pub parse_set_cookie : Bytes → Option SetCookie
unfolding parse_parts
parse_set_cookie raw = parse_parts (split b';' raw)

-- The loop of attr.
unfoldable pub find_attr : Bytes → List CookieAttr → Option Bytes
find_attr key [] = none
find_attr key (a ∷ as') = if same a.key key then some a.val else find_attr key as'

unfoldable pub attr : SetCookie → Bytes → Option Bytes
unfolding find_attr
attr sc key = find_attr key sc.attrs

abbrev pub cookie_prefix : Bytes
cookie_prefix = codes "__wvpn_"

abbrev pub gateway_cookie_name : Bytes → Bytes
gateway_cookie_name name = cookie_prefix ++ name

unfoldable pub site_cookie_name : Bytes → Bytes × Bool
site_cookie_name name =
    if has_prefix name cookie_prefix then (trim_prefix name cookie_prefix, true) else (name, false)

-- One round of rewrite's loop: what it appends for an attribute.
unfoldable pub rewrite_attr : Bool → CookieAttr → List Bytes
rewrite_attr secure a =
    if same a.key (codes "domain") || same a.key (codes "path")
    then []
    else if same a.key (codes "secure") && not secure
    then []
    else if same a.key (codes "samesite") && (equal_fold a.val (codes "none") && not secure)
    then codes "SameSite=Lax" ∷ []
    else a.raw ∷ []

unfoldable pub rewrite_attrs : Bool → List CookieAttr → List Bytes
unfolding rewrite_attr
rewrite_attrs secure [] = []
rewrite_attrs secure (a ∷ as') = rewrite_attr secure a ++ rewrite_attrs secure as'

-- What stands behind the first "=" of the pair.
unfoldable pub pair_value : SetCookie → Bytes
pair_value sc = let (_, value, _) = cut b'=' sc.pair in value

unfoldable pub rewrite : SetCookie → Bytes → Bool → Bytes
unfolding rewrite_attrs pair_value
rewrite sc path secure = join (codes "; ") (
    (gateway_cookie_name sc.name ++ (b'=' ∷ pair_value sc))
    ∷ (rewrite_attrs secure sc.attrs ++ ((codes "Path=" ++ path) ∷ [])))

-- originPath
unfoldable pub origin_path : SetCookie → Bytes
origin_path sc = elim (attr sc (codes "path")) [
  | none ↦ codes "/"
  | some v ↦ if has_prefix v (codes "/") then v else codes "/"
]

-- strings.TrimPrefix(…, ".") and lower case, of a Domain attribute.
unfoldable pub domain_of : Bytes → Bytes
domain_of v = to_lower (trim_prefix (trim_space v) (codes "."))

-- domainScope: (jar, browser). The argument `hostname` is target.Hostname().
unfoldable pub domain_scope : SetCookie → Bytes → Bool × Bool
unfolding domain_of
domain_scope sc hostname = elim (attr sc (codes "domain")) [
  | none ↦ (false, true)
  | some v ↦
      if is_empty (trim_space v)
      then (false, true)
      else if same (domain_of v) (to_lower hostname)
          || has_suffix (to_lower hostname) (codes "." ++ domain_of v)
      then (true, true)
      else (false, false)
]

-- The loop of cookieHeaderNames; the map of names is the list of its keys.
unfoldable pub header_names : List Bytes → List Bytes
header_names [] = []
header_names (p ∷ ps) =
    let (name, _, _) = cut b'=' (trim_space p) in
    let rest = header_names ps in
    if is_empty (trim_space name) then rest else trim_space name ∷ rest

unfoldable pub cookie_header_names : Bytes → List Bytes
unfolding header_names
cookie_header_names header = header_names (split b';' header)

unfoldable pub append_cookie_pairs : Bytes → List Bytes → Bytes
append_cookie_pairs header pairs =
    if is_empty pairs
    then header
    else if is_empty header
    then join (codes "; ") pairs
    else header ++ (codes "; " ++ join (codes "; ") pairs)

-- One round of ourCookies' loop.
unfoldable pub our_pair : Bytes → List Bytes
unfolding site_cookie_name
our_pair part =
    let (name, value, found) = cut b'=' (trim_space part) in
    let (site, ours) = site_cookie_name (trim_space name) in
    if found && ours then (site ++ (b'=' ∷ value)) ∷ [] else []

unfoldable pub our_pairs : List Bytes → List Bytes
unfolding our_pair
our_pairs [] = []
our_pairs (p ∷ ps) = our_pair p ++ our_pairs ps

unfoldable pub our_cookies : Bytes → Bytes
unfolding our_pairs
our_cookies header =
    if is_empty header then header else join (codes "; ") (our_pairs (split b';' header))
