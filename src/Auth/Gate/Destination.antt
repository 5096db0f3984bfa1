-- ===== src/Auth/Gate/Destination.antt =====
-- Where safeNext sends a browser.
use wvpn.Base.{◌≡◌, ◌⊎◌, refl, true, false, Option, arith, is_empty, Bool-cases, inl, inr, ◌||◌}
use wvpn.Text.{Bytes, codes, has_prefix}
use wvpn.Auth.Gate.{Place, Parts, home, is_local, is_ours, safe_next}

-- safeNext answers with the home page, with a destination that starts with one slash and parses without
-- scheme and host, or, where a domain is set, with an http or https address on it.
pub safe_next_cases :
    (parse : Bytes → Option Parts) (place : Place) (next : Bytes)
    → let target = safe_next parse place next in
      ((target ≡ home place)
        ⊎ (((target ≡ next)
              × (has_prefix next (codes "/") ≡ true)
              × (has_prefix next (codes "//") ≡ false)
              × (is_local (parse next) ≡ true))
            ⊎ ((target ≡ next)
                × (is_empty place.next_domain ≡ false)
                × (is_ours place (parse next) ≡ true))))
safe_next_cases parse place next =
    elim (Bool-cases (is_empty next || has_prefix next (codes "//"))) [
      | inl e ↦ inl (unfold safe_next in rw e refl)
      | inr e ↦
          let one_slash : has_prefix next (codes "//") ≡ false = ground arith in
          elim (Bool-cases (has_prefix next (codes "/"))) [
            | inl s ↦ elim (Bool-cases (is_local (parse next))) [
              | inl l ↦ inr (inl (unfold safe_next in rw (e, s, l) refl, s, one_slash, l))
              | inr l ↦ inl (unfold safe_next in rw (e, s, l) refl)
            ]
            | inr s ↦ elim (Bool-cases (is_empty place.next_domain)) [
              | inl d ↦ inl (unfold safe_next in rw (e, s, d) refl)
              | inr d ↦ elim (Bool-cases (is_ours place (parse next))) [
                | inl o ↦ inr (inr (unfold safe_next in rw (e, s, d, o) refl, d, o))
                | inr o ↦ inl (unfold safe_next in rw (e, s, d, o) refl)
              ]
            ]
          ]
    ]
