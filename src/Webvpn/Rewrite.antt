-- ===== src/Webvpn/Rewrite.antt =====
-- internal/webvpn/rewrite.go: Rewriter, which turns the references of a document into the gateway's. The
-- tokenizer of golang.org/x/net/html, the public suffix list and what the regular expressions of scripts and
-- style sheets match are given.
pub mod Srcset
pub mod Document
mod Tests
use wvpn.Base.{
  ℕ, zero, suc, Bool, true, false, not, ◌&&◌, ◌||◌, List, [], ◌∷◌, ◌++◌, Option, none, some,
  if◌then◌else◌, is_empty, any, leb, ◌==◌,
}
use wvpn.Text.{Bytes, codes, same, has_prefix, trim_space, trim_suffix, to_lower, cut}
use wvpn.Store.Sites.{all_bytes}
use wvpn.Webvpn.Url.{Url, UrlLib, scheme_supported}
use wvpn.Webvpn.Codec.{Codec, host_only, replace_all}

pub data JsScope : Type 0 where
  js_off js_related js_all : JsScope

-- ParseJSScope
unfoldable pub parse_js_scope : Bytes → Option JsScope
unfolding to_lower trim_space same
parse_js_scope v =
    let s = to_lower (trim_space v) in
    if same s (codes "off") || same s (codes "none")
    then some js_off
    else if is_empty s || same s (codes "related")
    then some js_related
    else if same s (codes "all")
    then some js_all
    else none

-- Rewriter, with what it asks: `registrable` is publicsuffix.EffectiveTLDPlusOne, and the last three put
-- the answer of a function in the place of each match of jsOriginRe (given its scheme and host), cssURLRe
-- and cssImportRe.
pub record Rewriter : Type 0 where
  pub lib : UrlLib
  pub codec : Codec
  pub scope : JsScope
  pub origin : Bytes
  pub registrable : Bytes → Option Bytes
  pub replace_origins : (Bytes → Bytes → Bytes → Bytes) → Bytes → Bytes
  pub replace_css_urls : (Bytes → Bytes) → Bytes → Bytes
  pub replace_css_imports : (Bytes → Bytes) → Bytes → Bytes

abbrev pub is_letter : ℕ → Bool
is_letter c = (leb b'a' c && leb c b'z') || (leb b'A' c && leb c b'Z')

abbrev pub scheme_byte : ℕ → Bool
scheme_byte c =
    is_letter c || ((leb b'0' c && leb c b'9') || (c == b'+' || (c == b'.' || c == b'-')))

abbrev pub is_scheme : Bytes → Bool
is_scheme [] = false
is_scheme (c ∷ s) = is_letter c && all_bytes scheme_byte s

-- schemeRe: the scheme in front of the first ":".
unfoldable pub explicit_scheme : Bytes → Option Bytes
unfolding cut all_bytes
explicit_scheme s =
    let (before, _, found) = cut b':' s in if found && is_scheme before then some before else none

-- The reference has no scheme of its own, or one that the gateway carries.
unfoldable pub carried : Bytes → Bool
unfolding explicit_scheme scheme_supported to_lower
carried s = elim (explicit_scheme s) [ none ↦ true | some k ↦ scheme_supported (to_lower k) ]

-- Ref
unfoldable pub ref : Rewriter → Bytes → Url → Bytes
unfolding trim_space has_prefix carried scheme_supported
ref rw text base =
    let trimmed = trim_space text in
    if is_empty trimmed || has_prefix trimmed (codes "#")
    then []
    else if not (carried trimmed)
    then []
    else elim (rw.lib.resolve base trimmed) [
      | none ↦ []
      | some u ↦ if scheme_supported u.scheme then rw.codec.encode u else []
    ]

-- relatedHosts
unfoldable pub related_hosts : Rewriter → Bytes → Bytes → Bool
unfolding host_only same
related_hosts rw a b =
    if same (host_only a) (host_only b) then true else elim (rw.registrable (host_only a)) [
      | none ↦ false
      | some da ↦ elim (rw.registrable (host_only b)) [ none ↦ false | some db ↦ same da db ]
    ]

abbrev pub is_related_scope : JsScope → Bool
is_related_scope js_related = true
is_related_scope _ = false

abbrev pub is_off : JsScope → Bool
is_off js_off = true
is_off _ = false

abbrev pub bare_url : Bytes → Bytes → Url
bare_url scheme host = record {
  scheme = scheme;
  host = host;
  path = [];
  query = [];
  force_query = false;
  fragment = [];
}

-- The function that JS replaces a match by.
unfoldable pub js_origin : Rewriter → Url → Bytes → Bytes → Bytes → Bytes
unfolding to_lower related_hosts trim_suffix has_prefix
js_origin rw base m scheme host =
    let enc = rw.codec.encode (bare_url (to_lower scheme) host) in
    let short = trim_suffix enc (codes "/") in
    if is_related_scope rw.scope && not (related_hosts rw (rw.lib.hostname base.host) host)
    then m
    else if is_empty enc
    then m
    else if not (is_empty rw.origin) && has_prefix short (codes "/")
    then rw.origin ++ short
    else short

-- JS
unfoldable pub js : Rewriter → Bytes → Url → Bytes
unfolding js_origin
js rw src base =
    if is_off rw.scope || is_empty src then src else rw.replace_origins (js_origin rw base) src

abbrev pub last_or : ℕ → Bytes → ℕ
last_or c [] = c
last_or c (d ∷ s) = last_or d s

abbrev pub without_last : Bytes → Bytes
without_last [] = []
without_last (c ∷ []) = []
without_last (c ∷ d ∷ s) = c ∷ without_last (d ∷ s)

-- The quote that a text stands in, which is empty where it stands in none, and the text itself.
unfoldable pub unquoted : Bytes → Bytes × Bytes
unquoted [] = ([], [])
unquoted (c ∷ []) = ([], c ∷ [])
unquoted (c ∷ d ∷ s) =
    if (c == b'"' || c == 39) && last_or d s == c
    then (c ∷ [], without_last (d ∷ s))
    else ([], c ∷ d ∷ s)

abbrev pub in_quote : ℕ → Bytes → Bytes
in_quote q text = q ∷ (replace_all q (92 ∷ q ∷ []) text ++ (q ∷ []))

-- rewriteQuoted in CSS
unfoldable pub rewrite_quoted : Rewriter → Url → Bytes → Bytes
unfolding unquoted ref replace_all
rewrite_quoted rw base raw =
    let (quote, val) = unquoted raw in
    let r = ref rw val base in
    if is_empty r then raw else elim quote [ [] ↦ in_quote b'"' r | (q ∷ _) ↦ in_quote q r ]

-- m[strings.Index(m, "(")+1 : len(m)-1]
abbrev pub in_parentheses : Bytes → Bytes
in_parentheses m = let (_, rest, _) = cut b'(' m in without_last rest

-- m[:i] and m[i:] at the first quote of either kind.
unfoldable pub at_quote : Bytes → Bytes × Bytes
at_quote [] = ([], [])
at_quote (c ∷ s) =
    let (before, rest) = at_quote s in
    if c == b'"' || c == 39 then ([], c ∷ s) else (c ∷ before, rest)

abbrev pub css_url : Rewriter → Url → Bytes → Bytes
css_url rw base m =
    codes "url(" ++ (rewrite_quoted rw base (trim_space (in_parentheses m)) ++ codes ")")

abbrev pub css_import : Rewriter → Url → Bytes → Bytes
css_import rw base m =
    let (before, rest) = at_quote m in
    if is_empty rest then m else before ++ rewrite_quoted rw base rest

-- CSS
unfoldable pub css : Rewriter → Bytes → Url → Bytes
unfolding rewrite_quoted at_quote cut trim_space
css rw text base =
    rw.replace_css_imports (css_import rw base) (rw.replace_css_urls (css_url rw base) text)
