-- ===== src/Webvpn/Codec/Plain.antt =====
-- internal/webvpn/codec.go: PlainCodec, /p/{scheme}/{host}/{path}.
pub mod RoundTrip
use wvpn.Base.{
  ℕ, ◌≡◌, ◌≢◌, refl, sym, ap, subst, ◌∙◌, Bool, true, false, not, ◌&&◌, ◌||◌, List, [], ◌∷◌, ◌++◌,
  Option, none, some, if◌then◌else◌, is_empty, length, drop, arith, Bool-cases, inl, inr, ◌==◌,
}
use wvpn.Text.{Bytes, codes, same, has_prefix, cut}
use wvpn.Text.Laws.{Lacks, cut_at, same→eq}
use wvpn.Webvpn.Url.{
  Url, UrlLib, scheme_supported, bad_host, with_host, assemble, absolute_text, rooted, query_tail,
  path_query,
}
use wvpn.Webvpn.Codec.{Codec, replace_all}

-- PlainPrefix
abbrev pub plain_prefix : Bytes
plain_prefix = codes "/p/"

-- Match
unfoldable pub plain_match : Bytes → Bytes → Bool
unfolding has_prefix
plain_match host path = has_prefix path plain_prefix

-- The path of Encode, up to and with the path of the address.
unfoldable pub plain_path : Url → Bytes
unfolding replace_all rooted
plain_path u =
    plain_prefix ++ (u.scheme ++ (b'/' ∷ (replace_all b'/' (codes "%2F") u.host ++ rooted u.path)))

-- Encode
unfoldable pub plain_encode : Url → Bytes
unfolding scheme_supported replace_all path_query
plain_encode u =
    if is_empty u.host || not (scheme_supported u.scheme)
    then []
    else plain_prefix
      ++ (u.scheme ++ (b'/' ∷ (replace_all b'/' (codes "%2F") u.host ++ path_query u)))

-- Decode
unfoldable pub plain_decode : UrlLib → Bytes → Bytes → Bytes → Option Url
unfolding has_prefix cut scheme_supported assemble
plain_decode lib host path query =
    let (scheme, rest, _) = cut b'/' (drop 3 path) in
    let (raw_host, tail, _) = cut b'/' rest in
    if not (has_prefix path plain_prefix)
    then none
    else if not (scheme_supported scheme)
    then none
    else elim (lib.path_unescape raw_host) [
      | none ↦ none
      | some name ↦ assemble lib scheme name tail query
    ]

unfoldable pub plain_codec : UrlLib → Codec
unfolding plain_match plain_encode plain_decode
plain_codec lib = record {
  name = codes "plain";
  claims = plain_match;
  encode = plain_encode;
  decode = plain_decode lib;
}
