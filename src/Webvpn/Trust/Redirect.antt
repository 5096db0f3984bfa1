-- ===== src/Webvpn/Trust/Redirect.antt =====
-- Where a confirmation sends the browser.
use wvpn.Base.{
  ◌≡◌, ◌≢◌, ◌↔◌, refl, sym, ap, subst, ◌∙◌, Bool, true, false, ◌&&◌, ◌||◌, [], ◌∷◌, ◌++◌, Option,
  none, some, arith, if◌then◌else◌, is_empty, Bool-cases, Option-cases, inl, inr, ◌⊎◌,
}
use wvpn.Text.{Bytes, codes, same, has_prefix, has_suffix}
use wvpn.Text.Laws.{same→eq, same_iff, Lacks, cut_at}
use wvpn.Webvpn.Codec.{host_only}
use wvpn.Webvpn.Trust.{safe_return, safe_absolute, suffix_of, within}

-- The name is `domain` or one below it.
abbrev pub Within : Bytes → Bytes → Type 0
Within domain name = (name ≡ domain) ⊎ (has_suffix name (codes "." ++ domain) ≡ true)

suffix_of_lem :
    (label domain : Bytes) → Lacks b'.' label → suffix_of (label ++ b'.' ∷ domain) ≡ domain
unfolding suffix_of
suffix_of_lem label domain l = rw (cut_at b'.' label domain l) refl

two_slashes :
    (next : Bytes) → has_prefix next (codes "/") ≡ false → has_prefix next (codes "//") ≡ false
unfolding has_prefix
two_slashes [] p = refl
two_slashes (c ∷ next) p = ground arith

within_iff :
    (domain name : Bytes)
    → is_empty domain ≡ false
    → (within domain name ≡ true) ↔ Within domain name
unfolding within
within_iff domain name d = (
  λ h. elim (Bool-cases (same name domain)) [
    | inl e ↦ inl (same→eq name domain e)
    | inr e ↦ inr (ground arith)
  ],
  λ w. elim w [ inl q ↦ ground (arith, same_iff name domain) | inr q ↦ ground arith ],
)

abbrev Http : Bytes → Type 0
Http scheme = (scheme ≡ codes "http") ⊎ (scheme ≡ codes "https")

scheme_taken :
    (scheme : Bytes)
    → ((same scheme (codes "http") || same scheme (codes "https")) ≡ true) ↔ Http scheme
scheme_taken scheme = (
  λ h. elim (Bool-cases (same scheme (codes "http"))) [
    | inl e ↦ inl (same→eq scheme (codes "http") e)
    | inr e ↦ inr (same→eq scheme (codes "https") (ground arith))
  ],
  λ w. elim w [
    | inl q ↦ ground (arith, same_iff scheme (codes "http"))
    | inr q ↦ ground (arith, same_iff scheme (codes "https"))
  ],
)

both_hold : (a b : Bool) → (a && b) ≡ true → (a ≡ true) × (b ≡ true)
both_hold true b h = (refl, h)
both_hold false b h = ground arith

not_slash : (next : Bytes) → has_prefix next (codes "/") ≡ false → codes "/" ≢ next
unfolding has_prefix
not_slash next p h = ground (arith, subst (λ k. has_prefix k (codes "/") ≡ false) (sym h) p)

module _ (parse_url : Bytes → Option (Bytes × Bytes)) where
  -- An absolute URL over http or https, on a name within the domain.
  abbrev pub On : Bytes → Bytes → Type 0
  On domain next =
      (scheme : Bytes) × (host : Bytes) × (parse_url next ≡ some (scheme, host))
      × ((scheme ≡ codes "http") ⊎ (scheme ≡ codes "https"))
      × Within domain (host_only host)

  abbrev taken : Bytes → Bytes → Bytes → Bool
  taken domain scheme host =
      (same scheme (codes "http") || same scheme (codes "https")) && within domain (host_only host)

  url_read :
      (next domain scheme host : Bytes)
      → parse_url next ≡ some (scheme, host)
      → safe_absolute parse_url next domain ≡ (if taken domain scheme host then next else codes "/")
  unfolding safe_absolute
  url_read next domain scheme host u = rw (u, safe_absolute) refl

  url_refused :
      (next domain : Bytes)
      → parse_url next ≡ none
      → safe_absolute parse_url next domain ≡ codes "/"
  unfolding safe_absolute
  url_refused next domain n = rw (n, safe_absolute) refl

  safe_absolute_iff :
      (next domain : Bytes)
      → has_prefix next (codes "/") ≡ false
      → is_empty domain ≡ false
      → (safe_absolute parse_url next domain ≡ next) ↔ On domain next
  safe_absolute_iff next domain p d = (
    λ h. elim (Option-cases (parse_url next)) [
      | inl n ↦ absurd (not_slash next p (sym (url_refused next domain n) ∙ h))
      | inr ((scheme, host), u) ↦
          let eq = url_read next domain scheme host u in
          elim (Bool-cases (taken domain scheme host)) [
            | inl t ↦
                let (web, near) = both_hold _ _ t in
                (
                  scheme,
                  host,
                  u,
                  (scheme_taken scheme).0 web,
                  (within_iff domain (host_only host) d).0 near,
                )
            | inr f ↦
                absurd (not_slash next p (sym (eq ∙ ap (λ b. if b then next else codes "/") f) ∙ h))
          ]
    ],
    λ (scheme, host, u, web, near).
        let yes : taken domain scheme host ≡ true =
          ground
            (arith, (scheme_taken scheme).1 web, (within_iff domain (host_only host) d).1 near) in
        url_read next domain scheme host u ∙ ap (λ b. if b then next else codes "/") yes,
  )

  -- On a gateway whose name is a label and a domain, safeReturn honours a URL that does not start with a
  -- slash exactly when it is over http or https and on the domain or a name below it.
  pub safe_return_iff :
      (next gateway_host label domain : Bytes)
      → is_empty next ≡ false
      → has_prefix next (codes "/") ≡ false
      → is_empty domain ≡ false
      → Lacks b'.' label
      → host_only gateway_host ≡ label ++ b'.' ∷ domain
      → (safe_return parse_url next gateway_host ≡ next) ↔ On domain next
  unfolding safe_return
  safe_return_iff next gateway_host label domain e p d l g =
      let base : suffix_of (host_only gateway_host) ≡ domain =
        ap suffix_of g ∙ suffix_of_lem label domain l in
      let path : safe_return parse_url next gateway_host ≡ safe_absolute parse_url next domain =
        ground (arith, base, two_slashes next p) in
      rw path (safe_absolute_iff next domain p d)
