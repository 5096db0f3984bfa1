-- ===== src/Webvpn/Restore/Buffer.antt =====
-- How much of a body restoreBody passes on.
use wvpn.Base.{
  ℕ, zero, suc, ◌≤◌, ◌<◌, ◌≡◌, refl, ap, subst, ◌∙◌, true, false, Option, [], ◌∷◌, arith, length,
  ltb, Bool-cases, inl, inr, ◌⊎◌, lt→ltb,
}
use wvpn.Text.{Bytes, take}
use wvpn.Store.Config.{pos, negsuc}
use wvpn.Webvpn.Url.{Url}
use wvpn.Webvpn.Proxy.{Handler}
use wvpn.Webvpn.Restore.{Body, is_form, max_restore_body, restore_query, restore_body}

take_all : (n : ℕ) (s : Bytes) → length s ≤ n → take n s ≡ s
take_all zero [] h = refl
take_all zero (c ∷ s) h = absurd (none_below h)
  where
    none_below : suc (length s) ≤ 0 → ⊥
    none_below k = omega arith
take_all (suc n) [] h = refl
take_all (suc n) (c ∷ s) h = ap (λ t. c ∷ t) (take_all n s (omega arith))

length-take : (n : ℕ) (s : Bytes) → n ≤ length s → length (take n s) ≡ n
length-take zero s h = refl
length-take (suc n) [] h = omega arith
length-take (suc n) (c ∷ s) h = ap suc (length-take n s (omega arith))

module _ (h : Handler) (page : Option Url) (browser_host content_type : Bytes) where
  read_whole :
      (b : Body) (n : ℕ)
      → b.present ≡ true
      → b.content_length ≡ negsuc n
      → is_form content_type ≡ true
      → b.fails ≡ false
      → ltb max_restore_body (length (take (suc max_restore_body) b.bytes)) ≡ false
      → restore_body h page browser_host content_type b ≡ record b {
        bytes = restore_query h page browser_host (take (suc max_restore_body) b.bytes);
        content_length =
            pos (length (restore_query h page browser_host (take (suc max_restore_body) b.bytes)));
      }
  unfolding restore_body
  read_whole b n p c f e l = rw (restore_body, p, c, f, e, l) refl

  read_cut :
      (b : Body) (n : ℕ)
      → b.present ≡ true
      → b.content_length ≡ negsuc n
      → is_form content_type ≡ true
      → ltb max_restore_body (length (take (suc max_restore_body) b.bytes)) ≡ true
      → (restore_body h page browser_host content_type b).bytes
        ≡ take (suc max_restore_body) b.bytes
  unfolding restore_body
  read_cut b n p c f l = ground arith

  -- A form of unknown length is restored, and its length set, where it is no longer than
  -- maxRestoreBody; of a longer one the site gets one byte more than that, and not the rest.
  pub restore_body_cases :
      (b : Body) (n : ℕ)
      → b.present ≡ true
      → b.content_length ≡ negsuc n
      → is_form content_type ≡ true
      → b.fails ≡ false
      → let out = restore_body h page browser_host content_type b in
        (((length b.bytes ≤ max_restore_body)
            × (out ≡ record b {
              bytes = restore_query h page browser_host b.bytes;
              content_length = pos (length (restore_query h page browser_host b.bytes));
            }))
          ⊎ ((max_restore_body < length b.bytes) × (length out.bytes ≡ suc max_restore_body)))
  restore_body_cases b n p c f e = elim (Bool-cases (ltb max_restore_body (length b.bytes))) [
    | inr short ↦
        let whole : take (suc max_restore_body) b.bytes ≡ b.bytes =
          take_all (suc max_restore_body) b.bytes (ground arith) in
        inl (
          ground arith,
          subst
              (λ s. restore_body h page browser_host content_type b ≡ record b {
                bytes = restore_query h page browser_host s;
                content_length = pos (length (restore_query h page browser_host s));
              })
              whole
              (read_whole b n p c f e (ap (λ s. ltb max_restore_body (length s)) whole ∙ short)),
        )
    | inl long ↦
        let over : max_restore_body < length b.bytes = ground arith in
        let full = length-take (suc max_restore_body) b.bytes over in
        inr (
          over,
          ap length (
                read_cut b n p c f (
                  ap (λ k. ltb max_restore_body k) full
                  ∙ lt→ltb max_restore_body (suc max_restore_body) (omega arith)))
              ∙ full,
        )
  ]
