-- ===== src/Webvpn/Cookie/Rescope.antt =====
-- What a browser reads in the Set-Cookie header that rewrite sends it.
use wvpn.Base.{
  ℕ, ◌≡◌, ◌≢◌, refl, ap, sym, subst, ◌∙◌, Bool, false, List, [], ◌∷◌, ◌++◌, map, some, arith, All,
  is_empty, All-append,
}
use wvpn.Text.{Bytes, codes, trim_space, trim_right, is_space}
use wvpn.Text.Laws.{Lacks, cut_at}
use wvpn.Text.Trim.{
  IsTrimmed, trim_space_blank, IsTrimmed-intro, trim_right-append, IsTrimmed-trim_right,
}
use wvpn.Text.Parts.{gapped, split-join}
use wvpn.Webvpn.Cookie.{
  CookieAttr, SetCookie, parse_attr, parse_attrs, parse_parts, parse_set_cookie,
  gateway_cookie_name, cookie_prefix, rewrite_attr, rewrite_attrs, pair_value, rewrite,
}
use wvpn.Webvpn.Cookie.Shape.{IsPart, IsAttr, IsParsed}

-- Parts that stand behind blanks are read as attributes one by one.
parse_attrs-gapped :
    (ps : List Bytes)
    → All IsPart ps
    → parse_attrs (map (λ q. codes " " ++ q) ps) ≡ map parse_attr ps
unfolding parse_attrs
parse_attrs-gapped [] h = refl
parse_attrs-gapped (p ∷ ps) h =
    rw (trim_space_blank p, h.0.trimmed, filled p h.0.filled)
      (ap (λ r. parse_attr p ∷ r) (parse_attrs-gapped ps h.1))
  where
    filled : (p : Bytes) → p ≢ [] → is_empty p ≡ false
    filled [] n = absurd (n refl)
    filled (_ ∷ _) n = refl

-- The cookie under the gateway's name, with the attributes that rewrite leaves.
abbrev pub rescoped : SetCookie → Bytes → Bool → SetCookie
rescoped sc path secure = record {
  name = gateway_cookie_name sc.name;
  pair = gateway_cookie_name sc.name ++ (b'=' ∷ pair_value sc);
  attrs = map parse_attr (rewrite_attrs secure sc.attrs ++ ((codes "Path=" ++ path) ∷ []));
}

rewrite_attr-IsPart :
    (secure : Bool) (a : CookieAttr) → IsAttr a → All IsPart (rewrite_attr secure a)
unfolding rewrite_attr
rewrite_attr-IsPart secure a h = ground (arith, lax)
  where
    lax : IsPart (codes "SameSite=Lax")
    lax = record { trimmed = unfold trim_space in refl; filled = cc; whole = omega arith }

rewrite_attrs-IsPart :
    (secure : Bool) (as' : List CookieAttr) → All IsAttr as' → All IsPart (rewrite_attrs secure as')
unfolding rewrite_attrs
rewrite_attrs-IsPart secure [] h = tt
rewrite_attrs-IsPart secure (a ∷ as') h =
    All-append IsPart (rewrite_attr secure a) (rewrite_attrs secure as')
      (rewrite_attr-IsPart secure a h.0) (rewrite_attrs-IsPart secure as' h.1)

All-append_right : (P : ℕ → Type 0) (xs ys : Bytes) → All P (xs ++ ys) → All P ys
All-append_right P [] ys h = h
All-append_right P (x ∷ xs) ys h = All-append_right P xs ys h.1

append_cancel : (x y z : Bytes) → x ++ y ≡ x ++ z → y ≡ z
append_cancel [] y z e = e
append_cancel (c ∷ x) y z e = append_cancel x y z (cc)

-- An "=" keeps what stands before it from being trimmed.
trim_right_eq :
    (x v : Bytes) → trim_right is_space (x ++ (b'=' ∷ v)) ≡ x ++ (b'=' ∷ trim_right is_space v)
trim_right_eq x v =
    trim_right-append is_space x (b'=' ∷ v) (unfold trim_right is_space in λ e. cc)
    ∙ (unfold trim_right is_space in refl)

module _ (sc : SetCookie) (h : IsParsed sc) where
  value_trimmed : trim_right is_space (pair_value sc) ≡ pair_value sc
  value_trimmed = behind_eq (append_cancel h.before _ _ both)
    where
      both :
          h.before ++ (b'=' ∷ trim_right is_space (pair_value sc))
          ≡ h.before ++ (b'=' ∷ pair_value sc)
      both =
          sym (trim_right_eq h.before (pair_value sc))
          ∙ ap (trim_right is_space) (sym h.spelled)
          ∙ IsTrimmed-trim_right sc.pair h.pair_part.trimmed
          ∙ h.spelled

      behind_eq : {v w : Bytes} → (b'=' ∷ v) ≡ (b'=' ∷ w) → v ≡ w
      behind_eq e = cc

  first-IsTrimmed : IsTrimmed (gateway_cookie_name sc.name ++ (b'=' ∷ pair_value sc))
  first-IsTrimmed = IsTrimmed-intro _ (unfold is_space in refl) (
      trim_right_eq (gateway_cookie_name sc.name) (pair_value sc)
      ∙ ap (λ v. gateway_cookie_name sc.name ++ (b'=' ∷ v)) value_trimmed)

  name-IsTrimmed : IsTrimmed (gateway_cookie_name sc.name)
  name-IsTrimmed = IsTrimmed-intro _ (unfold is_space in refl) (
      trim_right-append is_space cookie_prefix sc.name (λ e. h.name_part.filled (sym kept ∙ e))
      ∙ ap (λ n. cookie_prefix ++ n) kept)
    where
      kept : trim_right is_space sc.name ≡ sc.name
      kept = IsTrimmed-trim_right sc.name h.name_part.trimmed

  pub name_plain : Lacks b'=' (gateway_cookie_name sc.name)
  name_plain = All-append (λ c. c ≢ b'=') cookie_prefix sc.name (omega arith) h.name_plain

  first_whole : Lacks b';' (gateway_cookie_name sc.name ++ (b'=' ∷ pair_value sc))
  first_whole =
      All-append (λ c. c ≢ b';') (gateway_cookie_name sc.name) (b'=' ∷ pair_value sc)
        (All-append (λ c. c ≢ b';') cookie_prefix sc.name (omega arith) h.name_part.whole)
        (All-append_right (λ c. c ≢ b';') h.before (b'=' ∷ pair_value sc)
          (subst (Lacks b';') h.spelled h.pair_part.whole))

parts-Lacks : (ps : List Bytes) → All IsPart ps → All (Lacks b';') ps
parts-Lacks [] h = tt
parts-Lacks (p ∷ ps) h = (h.0.whole, parts-Lacks ps h.1)

parse_parts_rescoped :
    (sc : SetCookie) (ps : List Bytes)
    → IsParsed sc
    → All IsPart ps
    → parse_parts
        (gapped (codes " ") ((gateway_cookie_name sc.name ++ (b'=' ∷ pair_value sc)) ∷ ps))
      ≡ some (record {
        name = gateway_cookie_name sc.name;
        pair = gateway_cookie_name sc.name ++ (b'=' ∷ pair_value sc);
        attrs = map parse_attr ps;
      })
unfolding parse_parts
parse_parts_rescoped sc ps h k =
    rw
      (
        first-IsTrimmed sc h,
        cut_at b'=' (gateway_cookie_name sc.name) (pair_value sc) (name_plain sc h),
        name-IsTrimmed sc h,
        parse_attrs-gapped ps k,
      )
      refl

-- What the browser parses is the cookie under the gateway's name, with the attributes left to it.
pub parse_set_cookie-rewrite :
    (sc : SetCookie) (path : Bytes) (secure : Bool)
    → IsParsed sc
    → IsPart (codes "Path=" ++ path)
    → parse_set_cookie (rewrite sc path secure) ≡ some (rescoped sc path secure)
unfolding parse_set_cookie rewrite
parse_set_cookie-rewrite sc path secure h k =
    ap parse_parts (
      split-join b';' (codes " ") (first ∷ ps) (omega arith)
        (first_whole sc h, parts-Lacks ps parts))
    ∙ parse_parts_rescoped sc ps h parts
  where
    first : Bytes
    first = gateway_cookie_name sc.name ++ (b'=' ∷ pair_value sc)

    ps : List Bytes
    ps = rewrite_attrs secure sc.attrs ++ ((codes "Path=" ++ path) ∷ [])

    parts : All IsPart ps
    parts =
        All-append IsPart (rewrite_attrs secure sc.attrs) ((codes "Path=" ++ path) ∷ [])
          (rewrite_attrs-IsPart secure sc.attrs h.attrs) (k, tt)
