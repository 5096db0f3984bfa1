-- ===== src/Webvpn/Proxy/Request/Privacy.antt =====
-- What a site learns of the browser from the headers that it gets.
use wvpn.Base.{
  ◌≡◌, refl, ◌∙◌, true, false, not, ◌&&◌, ◌||◌, List, [], ◌∷◌, Option, none, some, is_empty,
  if◌then◌else◌, Bool-cases, inl, inr, All,
}
use wvpn.Text.{Bytes, codes, same}
use wvpn.Webvpn.Proxy.{Handler, ReqInfo}
use wvpn.Webvpn.Proxy.Request.{
  Header, value, set_header, del_header, set_or_del, forwarded_for, omit_credentials, site_cookies,
  site_referer, add_extra, reveal, with_cookies, with_referer, with_origin, site_base, site_headers,
}

module _ (canonical : Bytes → Bytes) where
  -- No header of the operator's has this name.
  abbrev pub Free : Bytes → List (Bytes × Bytes) → Type 0
  Free name = All (λ hd. same (canonical hd.0) name ≡ false)

  add_extra-Free :
      (name client_ip : Bytes) (extra : List (Bytes × Bytes)) (header : Header)
      → Free name extra
      → add_extra canonical client_ip extra header name ≡ header name
  unfolding add_extra set_header
  add_extra-Free name client_ip [] header f = refl
  add_extra-Free name client_ip ((k, v) ∷ extra) header (e, f) =
      elim (Bool-cases (not (is_empty client_ip) && same (canonical k) forwarded_for)) [
        | inl t ↦ rw t (add_extra-Free name client_ip extra header f)
        | inr t ↦ rw t (
            add_extra-Free name client_ip extra (set_header (canonical k) v header) f ∙ (rw e refl))
      ]

  -- While the browser's address is forwarded, the operator's headers leave it alone.
  add_extra-forwarded :
      (client_ip : Bytes) (extra : List (Bytes × Bytes)) (header : Header)
      → is_empty client_ip ≡ false
      → add_extra canonical client_ip extra header forwarded_for ≡ header forwarded_for
  unfolding add_extra set_header
  add_extra-forwarded client_ip [] header n = refl
  add_extra-forwarded client_ip ((k, v) ∷ extra) header n =
      elim (Bool-cases (same (canonical k) forwarded_for)) [
        | inl t ↦ rw (n, t) (add_extra-forwarded client_ip extra header n)
        | inr t ↦
            rw (n, t)
              (add_extra-forwarded client_ip extra (set_header (canonical k) v header) n
                ∙ (rw t refl))
      ]

  with_referer-other :
      (h : Handler) (header : Header) (k : Bytes)
      → same (codes "Referer") k ≡ false
      → with_referer canonical h header k ≡ header k
  unfolding with_referer set_header del_header
  with_referer-other h header k n =
      elim (Bool-cases (is_empty (value (header (codes "Referer"))))) [
        | inl e ↦ rw e refl
        | inr e ↦ rw e (either (site_referer h (value (header (codes "Referer")))))
      ]
    where
      either : (o : Option Bytes) → set_or_del (codes "Referer") o header k ≡ header k
      either none = rw n refl
      either (some v) = rw n refl

  with_origin-other :
      (h : Handler) (info : ReqInfo) (header : Header) (k : Bytes)
      → same (codes "Origin") k ≡ false
      → with_origin canonical h info.target header k ≡ header k
  unfolding with_origin set_header
  with_origin-other h info header k n =
      elim (Bool-cases (
        is_empty (value (header (codes "Origin")))
        || same (value (header (codes "Origin"))) (codes "null"))) [
          | inl e ↦ rw e refl
          | inr e ↦ rw (e, n) refl
        ]

  module _ (h : Handler) (info : ReqInfo) (held : Option (List (Bytes × Bytes)))
      (header : Header) where
    abbrev sent : Header
    sent = site_headers canonical h info held header

    abbrev Unmanaged : Bytes → Type 0
    Unmanaged name = Free name (h.extra_headers info.target)

    -- While the browser's address is forwarded, X-Forwarded-For tells the site that address, whatever the
    -- browser sent under that name and whatever headers the operator has attached.
    pub site_headers-forwarded :
        is_empty info.client_ip ≡ false → sent forwarded_for ≡ some info.client_ip
    unfolding site_headers reveal set_header same
    site_headers-forwarded n =
        add_extra-forwarded info.client_ip (h.extra_headers info.target) _ n ∙ (rw n refl)

    extra_free :
        (name : Bytes)
        → Unmanaged name
        → sent name ≡ reveal canonical info.client_ip (site_base canonical h info held header) name
    unfolding site_headers
    extra_free name u = add_extra-Free name info.client_ip (h.extra_headers info.target) _ u

    abbrev base : Header
    base = del_header omit_credentials (set_header (codes "Accept-Encoding") (codes "gzip") header)

    abbrev cookies : Bytes
    cookies = site_cookies info held (value (header (codes "Cookie")))

    -- A header that is neither of the browser's address nor of its page.
    site_base-other :
        (k : Bytes)
        → same (codes "X-Forwarded-Proto") k ≡ false
        → same (codes "X-Forwarded-Host") k ≡ false
        → same (codes "Referer") k ≡ false
        → same (codes "Origin") k ≡ false
        → site_base canonical h info held header k ≡ with_cookies canonical cookies base k
    unfolding site_base del_header set_header same
    site_base-other k a b c d =
        rw (a, b)
          (with_origin-other h info (with_referer canonical h (with_cookies canonical cookies base))
              k d
            ∙ with_referer-other h (with_cookies canonical cookies base) k c)

    reveal-other :
        (k : Bytes) (under : Header)
        → same forwarded_for k ≡ false
        → same (codes "X-Real-Ip") k ≡ false
        → reveal canonical info.client_ip under k ≡ under k
    unfolding reveal set_header del_header
    reveal-other k under a b = elim (Bool-cases (is_empty info.client_ip)) [
      | inl e ↦ rw (e, b, a) refl
      | inr e ↦ rw (e, a) refl
    ]

    omitted : Unmanaged omit_credentials → sent omit_credentials ≡ none
    unfolding with_cookies set_header del_header same
    omitted u =
        extra_free omit_credentials u
        ∙ (reveal-other omit_credentials (site_base canonical h info held header) refl refl
            ∙ (site_base-other omit_credentials refl refl refl refl ∙ either))
      where
        either : with_cookies canonical cookies base omit_credentials ≡ none
        either = elim (Bool-cases (is_empty cookies)) [ inl e ↦ rw e refl | inr e ↦ rw e refl ]

    -- While the browser's address is withheld, a header of the operator's apart, the site sees no address
    -- of the browser, neither the gateway's host nor its scheme, and not the gateway's own mark.
    pub site_headers-withheld :
        is_empty info.client_ip ≡ true
        → Unmanaged forwarded_for
        → Unmanaged (codes "X-Real-Ip")
        → Unmanaged (codes "X-Forwarded-Host")
        → Unmanaged (codes "X-Forwarded-Proto")
        → Unmanaged omit_credentials
        → (sent forwarded_for ≡ none)
          × (sent (codes "X-Real-Ip") ≡ none)
          × (sent (codes "X-Forwarded-Host") ≡ none)
          × (sent (codes "X-Forwarded-Proto") ≡ none)
          × (sent omit_credentials ≡ none)
    unfolding site_base reveal set_header del_header same
    site_headers-withheld n a b c d e = (
      extra_free forwarded_for a ∙ (rw n refl),
      extra_free (codes "X-Real-Ip") b ∙ (rw n refl),
      extra_free (codes "X-Forwarded-Host") c ∙ (rw n refl),
      extra_free (codes "X-Forwarded-Proto") d ∙ (rw n refl),
      omitted e,
    )

    -- The cookies that a site gets are those of site_cookies, and none where the page has sent the
    -- request without credentials.
    pub site_headers-cookie :
        Unmanaged (codes "Cookie")
        → sent (codes "Cookie") ≡ (if is_empty cookies then none else some cookies)
    unfolding with_cookies set_header del_header same
    site_headers-cookie u =
        extra_free (codes "Cookie") u
        ∙ (reveal-other (codes "Cookie") (site_base canonical h info held header) refl refl
            ∙ (site_base-other (codes "Cookie") refl refl refl refl ∙ pick))
      where
        pick :
            with_cookies canonical cookies base (codes "Cookie")
            ≡ (if is_empty cookies then none else some cookies)
        pick = elim (Bool-cases (is_empty cookies)) [ inl e ↦ rw e refl | inr e ↦ rw e refl ]
