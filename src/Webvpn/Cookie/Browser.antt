-- ===== src/Webvpn/Cookie/Browser.antt =====
-- The attributes of a rescoped cookie, as the browser looks them up.
use wvpn.Base.{
  ◌≡◌, ◌≢◌, refl, ap, sym, ◌∙◌, Bool, true, false, [], ◌∷◌, ◌++◌, map, Option, none, some, All, inl,
  inr, if◌then◌else◌,
}
use wvpn.Text.{Bytes, codes, same, cut, trim_space, to_lower}
use wvpn.Text.Laws.{Lacks, cut_at, ne_of_same, same-false}
use wvpn.Text.Trim.{IsTrimmed}
use wvpn.Webvpn.Cookie.{
  SetCookie, parse_attr, parse_set_cookie, find_attr, attr, gateway_cookie_name, pair_value,
  rewrite,
}
use wvpn.Webvpn.Cookie.Shape.{IsPart, IsAttr, parse_set_cookie-IsParsed}
use wvpn.Webvpn.Cookie.Rescope.{rescoped, parse_set_cookie-rewrite, name_plain}
use wvpn.Webvpn.Cookie.Attributes.{
  domain_key, path_key, secure_key, same_site_key, IsKept, lax_option, or_else, dropped_list,
  kept_list, same_site_list,
}

secure-ne-domain : secure_key ≢ domain_key
secure-ne-domain = ne_of_same secure_key domain_key (unfold same in refl)

secure-ne-path : secure_key ≢ path_key
secure-ne-path = ne_of_same secure_key path_key (unfold same in refl)

same_site-ne-domain : same_site_key ≢ domain_key
same_site-ne-domain = ne_of_same same_site_key domain_key (unfold same in refl)

same_site-ne-path : same_site_key ≢ path_key
same_site-ne-path = ne_of_same same_site_key path_key (unfold same in refl)

domain-ne-path : domain_key ≢ path_key
domain-ne-path = ne_of_same domain_key path_key (unfold same in refl)

-- What the browser keeps of a cookie that the site set: `c` is the browser's, `sc` the site's.
pub record InBrowser (sc : SetCookie) (path : Bytes) (secure : Bool) (c : SetCookie) : Type 0 where
  pub named : c.name ≡ gateway_cookie_name sc.name
  pub valued : pair_value c ≡ pair_value sc
  pub host_only : attr c domain_key ≡ none
  pub scoped : attr c path_key ≡ some path
  pub secured : attr c secure_key ≡ (if secure then attr sc secure_key else none)
  pub same_site :
      attr c same_site_key
      ≡ (if secure then attr sc same_site_key else lax_option (attr sc same_site_key))
  pub others :
      (k : Bytes)
      → k ≢ domain_key
      → k ≢ path_key
      → k ≢ secure_key
      → k ≢ same_site_key
      → attr c k ≡ attr sc k

module _ (path : Bytes) (trimmed : IsTrimmed path) where
  find_path : find_attr path_key (map parse_attr ((codes "Path=" ++ path) ∷ [])) ≡ some path
  unfolding find_attr parse_attr cut trim_space to_lower same
  find_path = ap some (unfold trim_space in trimmed)

  find_not_path :
      (k : Bytes)
      → k ≢ path_key
      → find_attr k (map parse_attr ((codes "Path=" ++ path) ∷ [])) ≡ none
  unfolding find_attr parse_attr cut trim_space to_lower
  find_not_path k n = rw (same-false (codes "path") k (λ e. n (sym e))) refl

or_none : (o : Option Bytes) → or_else o none ≡ o
or_none none = refl
or_none (some v) = refl

module _ (sc : SetCookie) (path : Bytes) (trimmed : IsTrimmed path) (h : All IsAttr sc.attrs) where
  kept_attr :
      (k : Bytes) (secure : Bool) → IsKept k secure → attr (rescoped sc path secure) k ≡ attr sc k
  unfolding attr
  kept_attr k secure d =
      kept_list k secure sc.attrs ((codes "Path=" ++ path) ∷ []) h d
      ∙ ap (or_else (find_attr k sc.attrs)) (find_not_path path trimmed k d.1)
      ∙ or_none (find_attr k sc.attrs)

  secure_attr :
      (secure : Bool)
      → attr (rescoped sc path secure) secure_key ≡ (if secure then attr sc secure_key else none)
  secure_attr true = kept_attr secure_key true (secure-ne-domain, secure-ne-path, inl refl)
  secure_attr false =
      unfold attr in
      (dropped_list secure_key false sc.attrs ((codes "Path=" ++ path) ∷ []) h (inr (refl, refl))
        ∙ find_not_path path trimmed secure_key secure-ne-path)

  same_site_attr :
      (secure : Bool)
      → attr (rescoped sc path secure) same_site_key
        ≡ (if secure then attr sc same_site_key else lax_option (attr sc same_site_key))
  same_site_attr true =
      kept_attr same_site_key true (same_site-ne-domain, same_site-ne-path, inl refl)
  same_site_attr false =
      unfold attr in
      (same_site_list sc.attrs ((codes "Path=" ++ path) ∷ []) h
        ∙ ap (or_else (lax_option (find_attr same_site_key sc.attrs)))
            (find_not_path path trimmed same_site_key same_site-ne-path)
        ∙ or_none (lax_option (find_attr same_site_key sc.attrs)))

  rescoped-InBrowser :
      (secure : Bool)
      → Lacks b'=' (gateway_cookie_name sc.name)
      → InBrowser sc path secure (rescoped sc path secure)
  rescoped-InBrowser secure plain = record {
    named = refl;
    valued =
        unfold pair_value in
        ap (λ (x : Bytes × Bytes × Bool). x.1)
          (cut_at b'=' (gateway_cookie_name sc.name) (pair_value sc) plain);
    host_only =
        unfold attr in
        (dropped_list domain_key secure sc.attrs ((codes "Path=" ++ path) ∷ []) h (inl (inl refl))
          ∙ find_not_path path trimmed domain_key domain-ne-path);
    scoped =
        unfold attr in
        (dropped_list path_key secure sc.attrs ((codes "Path=" ++ path) ∷ []) h (inl (inr refl))
          ∙ find_path path trimmed);
    secured = secure_attr secure;
    same_site = same_site_attr secure;
    others = λ k d p s l. kept_attr k secure (d, p, inr (s, l));
  }

-- Where the path is trimmed and holds no ";", a Set-Cookie header that parseSetCookie accepts and
-- rewrite re-scopes is read by a browser as the same cookie under the gateway's name: the value byte for byte, host-only, on the given path, Secure
-- only where the browser's leg is, SameSite=None lowered to Lax otherwise, all else as it was.
pub rewrite-InBrowser :
    (raw path : Bytes) (secure : Bool) (sc : SetCookie)
    → parse_set_cookie raw ≡ some sc
    → IsTrimmed path
    → IsPart (codes "Path=" ++ path)
    → (c : SetCookie) × (parse_set_cookie (rewrite sc path secure) ≡ some c)
      × InBrowser sc path secure c
rewrite-InBrowser raw path secure sc e trimmed part =
    let h = parse_set_cookie-IsParsed raw sc e in
    (
      rescoped sc path secure,
      parse_set_cookie-rewrite sc path secure h part,
      rescoped-InBrowser sc path trimmed h.attrs secure (name_plain sc h),
    )
