-- ===== src/Webvpn/Codec/Plain/RoundTrip.antt =====
-- PlainCodec gives back the address that it has encoded.
use wvpn.Base.{
  ℕ, ◌≡◌, refl, sym, ap, subst, ◌∙◌, true, false, not, [], ◌∷◌, ◌++◌, some, if◌then◌else◌, is_empty,
  drop, arith, Bool-cases, inl, inr, ◌==◌, append_assoc,
}
use wvpn.Text.{Bytes, codes, same, has_prefix, cut}
use wvpn.Text.Laws.{Lacks, Lacks-append, cut_at, same→eq}
use wvpn.Webvpn.Url.{
  Url, UrlLib, scheme_supported, bad_host, assemble, absolute_text, rooted, query_tail, path_query,
}
use wvpn.Webvpn.Codec.{replace_all}
use wvpn.Webvpn.Codec.Plain.{plain_prefix, plain_match, plain_path, plain_encode, plain_decode}

Lacks-replace_all : (b : ℕ) (by s : Bytes) → Lacks b by → Lacks b (replace_all b by s)
unfolding replace_all
Lacks-replace_all b by [] h = tt
Lacks-replace_all b by (c ∷ s) h = elim (Bool-cases (c == b)) [
  | inl e ↦ rw e (Lacks-append b by (replace_all b by s) h (Lacks-replace_all b by s h))
  | inr e ↦ rw e (ground arith, Lacks-replace_all b by s h)
]

-- A scheme that is supported has no slash.
scheme-Lacks : (s : Bytes) → scheme_supported s ≡ true → Lacks b'/' s
unfolding scheme_supported
scheme-Lacks s h = elim (Bool-cases (same s (codes "http"))) [
  | inl e ↦ subst (Lacks b'/') (sym (same→eq s (codes "http") e)) (omega arith)
  | inr e ↦ elim (Bool-cases (same s (codes "https"))) [
    | inl f ↦ subst (Lacks b'/') (sym (same→eq s (codes "https") f)) (omega arith)
    | inr f ↦ elim (Bool-cases (same s (codes "ws"))) [
      | inl g ↦ subst (Lacks b'/') (sym (same→eq s (codes "ws") g)) (omega arith)
      | inr g ↦ subst (Lacks b'/') (sym (same→eq s (codes "wss") (ground arith))) (omega arith)
    ]
  ]
]

-- The path behind its first slash.
abbrev unrooted : Bytes → Bytes
unrooted p = drop 1 (rooted p)

rooted-unrooted : (p : Bytes) → rooted p ≡ b'/' ∷ unrooted p
unfolding rooted
rooted-unrooted [] = refl
rooted-unrooted (c ∷ p) = ground arith

-- What Encode writes behind the path.
abbrev pub written_tail : Url → Bytes
written_tail u =
    query_tail u.force_query u.query
    ++ (if not (is_empty u.fragment) then b'#' ∷ u.fragment else [])

plain_path-parts :
    (u : Url)
    → plain_path u
      ≡ plain_prefix
        ++ (u.scheme
            ++ (b'/' ∷ (replace_all b'/' (codes "%2F") u.host ++ (b'/' ∷ unrooted u.path))))
unfolding plain_path
plain_path-parts u = rw (rooted-unrooted u.path) refl

plain_encode-plain_path :
    (u : Url)
    → scheme_supported u.scheme ≡ true
    → is_empty u.host ≡ false
    → plain_encode u ≡ plain_path u ++ written_tail u
unfolding plain_encode plain_path path_query
plain_encode-plain_path u h k =
    let name = replace_all b'/' (codes "%2F") u.host in
    let long = append_assoc name (rooted u.path) (written_tail u) in
    rw (h, k)
      (ap (λ t. plain_prefix ++ (u.scheme ++ (b'/' ∷ t))) (sym long)
        ∙ ap (λ t. plain_prefix ++ t)
            (sym (append_assoc u.scheme (b'/' ∷ (name ++ rooted u.path)) (written_tail u))))

module _ (lib : UrlLib) where
  plain_decode-cut :
      (host path scheme rest name tail query clean : Bytes)
      → has_prefix path plain_prefix ≡ true
      → cut b'/' (drop 3 path) ≡ (scheme, rest, true)
      → cut b'/' rest ≡ (name, tail, true)
      → scheme_supported scheme ≡ true
      → lib.path_unescape name ≡ some clean
      → plain_decode lib host path query ≡ assemble lib scheme clean tail query
  unfolding plain_decode
  plain_decode-cut host path scheme rest name tail query clean p a b h e =
      rw (plain_decode, p, a, b, h, e, a, b) refl

  assemble-some :
      (scheme host tail query : Bytes) (v : Url)
      → bad_host host ≡ false
      → lib.parse (absolute_text scheme host tail query) ≡ some v
      → is_empty v.host ≡ false
      → assemble lib scheme host tail query ≡ some v
  unfolding assemble
  assemble-some scheme host tail query v b e k = rw (assemble, b, e, k) refl

  absolute_text-rooted :
      (u : Url)
      → absolute_text u.scheme u.host (unrooted u.path) u.query
        ≡ u.scheme ++ (codes "://" ++ (u.host ++ (rooted u.path ++ query_tail false u.query)))
  unfolding absolute_text
  absolute_text-rooted u = rw (rooted-unrooted u.path) refl

  -- What Encode writes for an address is a path that this codec claims, with the query and the fragment
  -- behind it, and Decode makes of that path and query what the address parses as: its scheme, its host,
  -- its path with a slash in front and its query.
  pub plain_decode-plain_path :
      (u v : Url) (host : Bytes)
      → scheme_supported u.scheme ≡ true
      → bad_host u.host ≡ false
      → lib.path_unescape (replace_all b'/' (codes "%2F") u.host) ≡ some u.host
      → lib.parse
          (u.scheme ++ (codes "://" ++ (u.host ++ (rooted u.path ++ query_tail false u.query))))
        ≡ some v
      → is_empty v.host ≡ false
      → (plain_encode u ≡ plain_path u ++ written_tail u)
        × (plain_match host (plain_path u) ≡ true)
        × (plain_decode lib host (plain_path u) u.query ≡ some v)
  plain_decode-plain_path u v host h b e parsed k =
      let name = replace_all b'/' (codes "%2F") u.host in
      let tail = unrooted u.path in
      (
        plain_encode-plain_path u h (unfold bad_host in ground arith),
        unfold plain_match plain_path has_prefix in refl,
        ap (λ p. plain_decode lib host p u.query) (plain_path-parts u)
            ∙ (plain_decode-cut host
                  (plain_prefix ++ (u.scheme ++ (b'/' ∷ (name ++ (b'/' ∷ tail))))) u.scheme
                  (name ++ (b'/' ∷ tail)) name tail u.query u.host (unfold has_prefix in refl)
                  (cut_at b'/' u.scheme (name ++ (b'/' ∷ tail)) (scheme-Lacks u.scheme h))
                  (cut_at b'/' name tail
                    (Lacks-replace_all b'/' (codes "%2F") u.host (omega arith)))
                  h e
                ∙ assemble-some u.scheme u.host tail u.query v b
                    (ap lib.parse (absolute_text-rooted u) ∙ parsed) k),
      )
