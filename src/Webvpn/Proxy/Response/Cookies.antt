-- ===== src/Webvpn/Proxy/Response/Cookies.antt =====
-- The cookies of a site that reach the browser and its jar.
use wvpn.Base.{
  ◌≡◌, ◌⊎◌, refl, sym, subst, Bool, ◌||◌, ◌&&◌, true, false, List, [], ◌∷◌, none, some, arith,
  is_empty, if◌then◌else◌, Bool-cases, Option-cases, inl, inr, All,
}
use wvpn.Text.{Bytes, same}
use wvpn.Webvpn.Cookie.{SetCookie, parse_set_cookie, rewrite, origin_path, domain_scope}
use wvpn.Webvpn.Cookie.Scope.{IsHostOnly, IsWide, domain_scope-IsWide, domain_scope-kept}
use wvpn.Webvpn.Proxy.{Handler, ReqInfo}
use wvpn.Webvpn.Proxy.Response.{cookie_path, rescope, with_line, rewrite_each, rewrite_cookies}

-- A line of these parses as the cookie.
pub data SetBy (sc : SetCookie) : List Bytes → Type 0 where
  here : (raw : Bytes) (raws : List Bytes) → parse_set_cookie raw ≡ some sc → SetBy sc (raw ∷ raws)
  there : (raw : Bytes) (raws : List Bytes) → SetBy sc raws → SetBy sc (raw ∷ raws)

All-implies {ℓ} :
    {A : Type ℓ} {P Q : A → Type 0} → ((x : A) → P x → Q x) → (xs : List A) → All P xs → All Q xs
All-implies f [] h = tt
All-implies f (x ∷ xs) (p, h) = (f x p, All-implies f xs h)

module _ (h : Handler) (info : ReqInfo) where
  abbrev host : Bytes
  host = h.lib.hostname info.target.host

  -- A line for the browser: a cookie that one of the site's lines sets, with no domain or with one that
  -- the target's host belongs to, not named like the session's, and rewritten.
  pub Rescoped : List Bytes → Bytes → Type 0
  Rescoped raws line =
      (sc : SetCookie) × SetBy sc raws
      × (IsHostOnly sc ⊎ IsWide host sc)
      × (same sc.name h.session_cookie ≡ false)
      × (line ≡ rewrite sc (cookie_path h info (origin_path sc)) info.secure)

  -- A cookie for the jar of a browser that has one: a cookie that one of the site's lines sets, with a
  -- domain that the target's host belongs to.
  pub Shared : List Bytes → SetCookie → Type 0
  Shared raws sc =
      SetBy sc raws
      × IsWide host sc
      × (same sc.name h.session_cookie ≡ false)
      × (is_empty info.jar_key ≡ false)

  with_line-All :
      (P : Bytes → Type 0) (b : Bool) (line : Bytes) (lines : List Bytes)
      → (b ≡ true → P line)
      → All P lines
      → All P (with_line (if b then some line else none) lines)
  with_line-All P true line lines a l = (a refl, l)
  with_line-All P false line lines a l = l

  -- What rescope gives the browser is in scope.
  in_scope :
      (sc : SetCookie) (b : Bool)
      → ((domain_scope sc host).1 || ((domain_scope sc host).0 && b)) ≡ true
      → IsHostOnly sc ⊎ IsWide host sc
  in_scope sc b e = elim (Bool-cases (domain_scope sc host).1) [
    | inl y ↦ domain_scope-kept sc host y
    | inr n ↦ inr (domain_scope-IsWide sc host (ground arith))
  ]

  rescope-line :
      (raws : List Bytes) (sc : SetCookie) (lines : List Bytes)
      → SetBy sc raws
      → same sc.name h.session_cookie ≡ false
      → All (Rescoped raws) lines
      → All (Rescoped raws) (with_line (rescope h info sc).0 lines)
  unfolding rescope Rescoped
  rescope-line raws sc lines s n l =
      with_line-All (Rescoped raws) _ _ lines (λ e. (sc, s, in_scope sc _ e, n, refl)) l

  rescope-jar :
      (sc : SetCookie)
      → (rescope h info sc).1 ≡ true
      → IsWide host sc × (is_empty info.jar_key ≡ false)
  unfolding rescope
  rescope-jar sc e = (domain_scope-IsWide sc host (ground arith), ground arith)

  abbrev Safe : List Bytes → List Bytes × List SetCookie → Type 0
  Safe raws (lines, shared) = All (Rescoped raws) lines × All (Shared raws) shared

  Safe-there :
      (raw : Bytes) (raws : List Bytes) (p : List Bytes × List SetCookie)
      → Safe raws p
      → Safe (raw ∷ raws) p
  unfolding Rescoped Shared
  Safe-there raw raws (lines, shared) (l, s) = (
    All-implies (λ line (sc, set, scope, name, eq). (sc, there raw raws set, scope, name, eq)) lines
        l,
    All-implies (λ sc (set, wide, name, jar). (there raw raws set, wide, name, jar)) shared s,
  )

  rewrite_each-none :
      (raw : Bytes) (raws : List Bytes)
      → parse_set_cookie raw ≡ none
      → rewrite_each h info (raw ∷ raws) ≡ rewrite_each h info raws
  unfolding rewrite_each
  rewrite_each-none raw raws e = rw (rewrite_each, e) refl

  abbrev added : SetCookie → List Bytes × List SetCookie → List Bytes × List SetCookie
  added sc (lines, shared) = if same sc.name h.session_cookie then (lines, shared) else (
    with_line (rescope h info sc).0 lines,
    if (rescope h info sc).1 then sc ∷ shared else shared,
  )

  rewrite_each-some :
      (raw : Bytes) (raws : List Bytes) (sc : SetCookie)
      → parse_set_cookie raw ≡ some sc
      → rewrite_each h info (raw ∷ raws) ≡ added sc (rewrite_each h info raws)
  unfolding rewrite_each
  rewrite_each-some raw raws sc e = rw (rewrite_each, e) refl

  Shared-if :
      (raws : List Bytes) (sc : SetCookie) (j : Bool) (shared : List SetCookie)
      → (j ≡ true → Shared raws sc)
      → All (Shared raws) shared
      → All (Shared raws) (if j then sc ∷ shared else shared)
  Shared-if raws sc true shared k l = (k refl, l)
  Shared-if raws sc false shared k l = l

  added-Safe :
      (raws : List Bytes) (sc : SetCookie) (p : List Bytes × List SetCookie)
      → SetBy sc raws
      → Safe raws p
      → Safe raws (added sc p)
  unfolding Shared
  added-Safe raws sc (lines, shared) set (l, s) =
      elim (Bool-cases (same sc.name h.session_cookie)) [
        | inl n ↦ rw n (l, s)
        | inr n ↦ rw n (
          rescope-line raws sc lines set n l,
          Shared-if raws sc (rescope h info sc).1 shared
              (λ j. let (wide, jar) = rescope-jar sc j in (set, wide, n, jar)) s,
        )
      ]

  rewrite_each-Safe : (raws : List Bytes) → Safe raws (rewrite_each h info raws)
  rewrite_each-Safe [] = unfold rewrite_each in (tt, tt)
  rewrite_each-Safe (raw ∷ raws) =
      let rest = Safe-there raw raws (rewrite_each h info raws) (rewrite_each-Safe raws) in
      elim (Option-cases (parse_set_cookie raw)) [
        | inl e ↦ subst (Safe (raw ∷ raws)) (sym (rewrite_each-none raw raws e)) rest
        | inr (sc, e) ↦
            subst (Safe (raw ∷ raws)) (sym (rewrite_each-some raw raws sc e))
              (added-Safe (raw ∷ raws) sc (rewrite_each h info raws) (here raw raws e) rest)
      ]

  Safe-if :
      (raws : List Bytes) (b : Bool) (p : List Bytes × List SetCookie)
      → Safe raws p
      → Safe raws (if b then ([], []) else p)
  Safe-if raws true p s = (tt, tt)
  Safe-if raws false p s = s

  -- Each Set-Cookie line that the browser gets is a cookie that one of the site's lines sets, naming no
  -- domain or one that the target's host belongs to, not named like the gateway's session, and rewritten
  -- for the path of the gateway that the codec gives. Each cookie that goes to a jar is set by one of the
  -- site's lines too, names such a domain and is not named like the session, and then the browser has a
  -- jar.
  pub rewrite_cookies-Rescoped :
      (raws : List Bytes)
      → All (Rescoped raws) (rewrite_cookies h info raws).0
        × All (Shared raws) (rewrite_cookies h info raws).1
  unfolding rewrite_cookies
  rewrite_cookies-Rescoped raws =
      Safe-if raws info.omit_cookies (rewrite_each h info raws) (rewrite_each-Safe raws)
