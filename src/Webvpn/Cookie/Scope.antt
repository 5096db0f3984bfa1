-- ===== src/Webvpn/Cookie/Scope.antt =====
-- Which cookies domainScope keeps: what the site says of the Domain attribute, as cases.
use wvpn.Base.{
  ◌≡◌, ◌⊎◌, inl, inr, true, false, ◌++◌, none, some, is_empty, arith, Bool-cases, Option-cases,
  ◌||◌,
}
use wvpn.Text.{Bytes, codes, same, has_suffix, to_lower, trim_space}
use wvpn.Text.Laws.{same→eq}
use wvpn.Webvpn.Cookie.{SetCookie, attr, domain_of, domain_scope}

-- The domain is the host or stands above it.
pub Covers : Bytes → Bytes → Type 0
Covers host v =
    (domain_of v ≡ to_lower host) ⊎ (has_suffix (to_lower host) (codes "." ++ domain_of v) ≡ true)

-- The cookie names no domain.
pub IsHostOnly : SetCookie → Type 0
IsHostOnly sc =
    (attr sc (codes "domain") ≡ none)
    ⊎ ((v : Bytes) × (attr sc (codes "domain") ≡ some v) × (is_empty (trim_space v) ≡ true))

-- The cookie names a domain that the host belongs to.
pub IsWide : Bytes → SetCookie → Type 0
IsWide host sc =
    (v : Bytes) × (attr sc (codes "domain") ≡ some v)
    × (is_empty (trim_space v) ≡ false)
    × Covers host v

Covers-cases :
    (host v : Bytes)
    → (same (domain_of v) (to_lower host) || has_suffix (to_lower host) (codes "." ++ domain_of v))
      ≡ true
    → Covers host v
unfolding Covers
Covers-cases host v h = elim (Bool-cases (same (domain_of v) (to_lower host))) [
  | inl e ↦ inl (same→eq (domain_of v) (to_lower host) e)
  | inr e ↦ inr (rw e at h)
]

pub domain_scope-IsWide :
    (sc : SetCookie) (host : Bytes) → (domain_scope sc host).0 ≡ true → IsWide host sc
unfolding domain_scope IsWide
domain_scope-IsWide sc host h = elim (Option-cases (attr sc (codes "domain"))) [
  | inl n ↦ ground arith
  | inr (v, e) ↦ elim (Bool-cases (is_empty (trim_space v))) [
    | inl b ↦ ground arith
    | inr b ↦ (v, e, b, Covers-cases host v (ground arith))
  ]
]

pub domain_scope-kept :
    (sc : SetCookie) (host : Bytes)
    → (domain_scope sc host).1 ≡ true
    → IsHostOnly sc ⊎ IsWide host sc
unfolding domain_scope IsHostOnly IsWide
domain_scope-kept sc host h = elim (Option-cases (attr sc (codes "domain"))) [
  | inl n ↦ inl (inl n)
  | inr (v, e) ↦ elim (Bool-cases (is_empty (trim_space v))) [
    | inl b ↦ inl (inr (v, e, b))
    | inr b ↦ inr (v, e, b, Covers-cases host v (ground arith))
  ]
]
