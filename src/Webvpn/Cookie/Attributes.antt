-- ===== src/Webvpn/Cookie/Attributes.antt =====
-- Looking an attribute up among those that rewrite leaves.
use wvpn.Base.{
  ◌≡◌, ◌≢◌, ◌⊎◌, refl, ap, sym, ◌∙◌, Bool, true, false, List, [], ◌∷◌, ◌++◌, map, Option, none,
  some, arith, All, Bool-cases, inl, inr, if◌then◌else◌, append_assoc,
}
use wvpn.Text.{Bytes, codes, same, cut, trim_space, equal_fold, to_lower}
use wvpn.Text.Laws.{same_iff, same_refl}
use wvpn.Webvpn.Cookie.{CookieAttr, parse_attr, find_attr, rewrite_attr, rewrite_attrs}
use wvpn.Webvpn.Cookie.Shape.{IsAttr}

-- What the browser finds in place of one attribute.
abbrev pub after : Bytes → CookieAttr → List Bytes → Option Bytes
after k a ps = if same a.key k then some a.val else find_attr k (map parse_attr ps)

find_raw :
    (k : Bytes) (a : CookieAttr) (ps : List Bytes)
    → IsAttr a
    → find_attr k (map parse_attr (a.raw ∷ ps)) ≡ after k a ps
unfolding find_attr
find_raw k a ps h =
    ap (λ (x : CookieAttr). if same x.key k then some x.val else find_attr k (map parse_attr ps))
      (sym h.0)

find_lax :
    (k : Bytes) (ps : List Bytes)
    → find_attr k (map parse_attr (codes "SameSite=Lax" ∷ ps))
      ≡ (if same (codes "samesite") k then some (codes "Lax") else find_attr k (map parse_attr ps))
unfolding find_attr parse_attr cut trim_space to_lower
find_lax k ps = refl

-- The keys that rewrite treats by name.
abbrev pub domain_key : Bytes
domain_key = codes "domain"

abbrev pub path_key : Bytes
path_key = codes "path"

abbrev pub secure_key : Bytes
secure_key = codes "secure"

abbrev pub same_site_key : Bytes
same_site_key = codes "samesite"

-- A key whose attributes rewrite leaves out.
abbrev pub IsDropped : Bytes → Bool → Type 0
IsDropped k secure = ((k ≡ domain_key) ⊎ (k ≡ path_key)) ⊎ ((k ≡ secure_key) × (secure ≡ false))

-- A key whose attributes rewrite leaves alone.
abbrev pub IsKept : Bytes → Bool → Type 0
IsKept k secure =
    (k ≢ domain_key) × (k ≢ path_key) × ((secure ≡ true) ⊎ ((k ≢ secure_key) × (k ≢ same_site_key)))

module _ (k : Bytes) (secure : Bool) where
  find_dropped :
      (a : CookieAttr) (ps : List Bytes)
      → IsAttr a
      → IsDropped k secure
      → find_attr k (map parse_attr (rewrite_attr secure a ++ ps)) ≡ find_attr k (map parse_attr ps)
  unfolding rewrite_attr
  find_dropped a ps h d = ground (
    arith,
    find_raw k a ps h,
    find_lax k ps,
    same_iff a.key k,
    same_iff (codes "samesite") k,
    same_iff a.key domain_key,
    same_iff a.key path_key,
    same_iff a.key secure_key,
    same_iff a.key same_site_key,
  )

  find_kept :
      (a : CookieAttr) (ps : List Bytes)
      → IsAttr a
      → IsKept k secure
      → find_attr k (map parse_attr (rewrite_attr secure a ++ ps)) ≡ after k a ps
  unfolding rewrite_attr
  find_kept a ps h d = ground (
    arith,
    find_raw k a ps h,
    find_lax k ps,
    same_iff a.key k,
    same_iff (codes "samesite") k,
    same_iff a.key domain_key,
    same_iff a.key path_key,
    same_iff a.key secure_key,
    same_iff a.key same_site_key,
  )

-- Over plain http SameSite=None becomes Lax.
abbrev pub lax_of : Bytes → Bytes
lax_of v = if equal_fold v (codes "none") then codes "Lax" else v

find_same_site :
    (a : CookieAttr) (ps : List Bytes)
    → IsAttr a
    → find_attr same_site_key (map parse_attr (rewrite_attr false a ++ ps)) ≡ (
        if same a.key same_site_key
        then some (lax_of a.val)
        else find_attr same_site_key (map parse_attr ps))
unfolding rewrite_attr
find_same_site a ps h = ground (
  arith,
  find_raw same_site_key a ps h,
  find_lax same_site_key ps,
  same_iff a.key domain_key,
  same_iff a.key path_key,
  same_iff a.key secure_key,
  same_refl same_site_key,
  same_iff a.key same_site_key,
)

-- The first of two lookups that finds something.
abbrev pub or_else : Option Bytes → Option Bytes → Option Bytes
or_else none o = o
or_else (some v) o = some v

regroup :
    (secure : Bool) (a : CookieAttr) (as' : List CookieAttr) (ps : List Bytes)
    → rewrite_attrs secure (a ∷ as') ++ ps
      ≡ rewrite_attr secure a ++ (rewrite_attrs secure as' ++ ps)
unfolding rewrite_attrs
regroup secure a as' ps = append_assoc (rewrite_attr secure a) (rewrite_attrs secure as') ps

pub dropped_list :
    (k : Bytes) (secure : Bool) (as' : List CookieAttr) (ps : List Bytes)
    → All IsAttr as'
    → IsDropped k secure
    → find_attr k (map parse_attr (rewrite_attrs secure as' ++ ps))
      ≡ find_attr k (map parse_attr ps)
dropped_list k secure [] ps h d = unfold rewrite_attrs in refl
dropped_list k secure (a ∷ as') ps h d =
    ap (λ x. find_attr k (map parse_attr x)) (regroup secure a as' ps)
    ∙ find_dropped k secure a (rewrite_attrs secure as' ++ ps) h.0 d
    ∙ dropped_list k secure as' ps h.1 d

or_else_step :
    (k : Bytes) (a : CookieAttr) (as' : List CookieAttr) (ps qs : List Bytes)
    → find_attr k (map parse_attr qs) ≡ or_else (find_attr k as') (find_attr k (map parse_attr ps))
    → after k a qs ≡ or_else (find_attr k (a ∷ as')) (find_attr k (map parse_attr ps))
unfolding find_attr
or_else_step k a as' ps qs e = elim (Bool-cases (same a.key k)) [
  | inl t ↦ rw t refl
  | inr t ↦ rw t e
]

pub kept_list :
    (k : Bytes) (secure : Bool) (as' : List CookieAttr) (ps : List Bytes)
    → All IsAttr as'
    → IsKept k secure
    → find_attr k (map parse_attr (rewrite_attrs secure as' ++ ps))
      ≡ or_else (find_attr k as') (find_attr k (map parse_attr ps))
kept_list k secure [] ps h d = unfold rewrite_attrs find_attr in refl
kept_list k secure (a ∷ as') ps h d =
    ap (λ x. find_attr k (map parse_attr x)) (regroup secure a as' ps)
    ∙ find_kept k secure a (rewrite_attrs secure as' ++ ps) h.0 d
    ∙ or_else_step k a as' ps (rewrite_attrs secure as' ++ ps) (kept_list k secure as' ps h.1 d)

abbrev pub lax_option : Option Bytes → Option Bytes
lax_option none = none
lax_option (some v) = some (lax_of v)

pub same_site_list :
    (as' : List CookieAttr) (ps : List Bytes)
    → All IsAttr as'
    → find_attr same_site_key (map parse_attr (rewrite_attrs false as' ++ ps))
      ≡ or_else
          (lax_option (find_attr same_site_key as'))
          (find_attr same_site_key (map parse_attr ps))
same_site_list [] ps h = unfold rewrite_attrs find_attr in refl
same_site_list (a ∷ as') ps h =
    ap (λ x. find_attr same_site_key (map parse_attr x)) (regroup false a as' ps)
    ∙ find_same_site a (rewrite_attrs false as' ++ ps) h.0
    ∙ step (same_site_list as' ps h.1) (Bool-cases (same a.key same_site_key))
  where
    rest : Option Bytes
    rest = find_attr same_site_key (map parse_attr (rewrite_attrs false as' ++ ps))

    step :
        rest
          ≡ or_else
              (lax_option (find_attr same_site_key as'))
              (find_attr same_site_key (map parse_attr ps))
        → (same a.key same_site_key ≡ true) ⊎ (same a.key same_site_key ≡ false)
        → (if same a.key same_site_key then some (lax_of a.val) else rest)
          ≡ or_else
              (lax_option (find_attr same_site_key (a ∷ as')))
              (find_attr same_site_key (map parse_attr ps))
    step ih (inl t) = unfold find_attr in rw t refl
    step ih (inr t) = unfold find_attr in rw t ih
