-- ===== src/Auth/Setup/Form/Administrator.antt =====
-- Whoever the set-up form names is an administrator of the gateway that it leaves.
use wvpn.Base.{
  ℕ, ◌≡◌, refl, sym, ap, subst, ◌∙◌, Bool, true, false, [], ◌∷◌, ◌++◌, Option, none, some, Result,
  ok, err, arith, is_empty, Option-cases, Result-cases, inl, inr, and_false, if◌then◌else◌,
}
use wvpn.Text.{
  Bytes, trim_space, trim_both, trim_left, trim_right, to_lower, lower, is_space, contains_byte,
}
use wvpn.Text.Trim.{KeepsHead, trim_space-KeepsHead}
use wvpn.Store.Glob.{match_any}
use wvpn.Store.Config.{Config, cleaned, stripped, clean_patterns, normalize_config, clone}
use wvpn.Store.Config.Patterns.{match_any-clean_patterns}
use wvpn.Store.Config.Validate.{Libs, validate}
use wvpn.Store.Config.Persist.{
  StoreError, Store, store_of, get, set, is_admin, normalize_email_with,
}
use wvpn.Store.Config.Persist.Reload.{set_lem}
use wvpn.Auth.Model.{Std, Options, Request, Manager}
use wvpn.Auth.Setup.{needs_setup, guard_setup}
use wvpn.Auth.Setup.Form.{
  SetupRequest, bad_email, stopped, handle_setup, initialised, setup_reply, directory_of,
  with_admin, setup_config, submit_setup, domain_or,
}

-- The first byte is there and no space.
abbrev Starts : Bytes → Type 0
Starts [] = ⊥
Starts (c ∷ s) = is_space c ≡ false

cleaned-Starts : (s : Bytes) → Starts s → is_empty (cleaned s) ≡ false
unfolding trim_space trim_both trim_left trim_right to_lower
cleaned-Starts [] h = elim h [ ]
cleaned-Starts (c ∷ s) h = rw (h, h) refl

is_space-lower : (c : ℕ) → is_space (lower c) ≡ is_space c
unfolding is_space lower
is_space-lower c = ground arith

to_lower-Starts :
    (s : Bytes) → KeepsHead is_space s → is_empty (to_lower s) ≡ false → Starts (to_lower s)
unfolding to_lower
to_lower-Starts [] k h = cc
to_lower-Starts (c ∷ s) k h = is_space-lower c ∙ k

Starts-append : (s t : Bytes) → Starts s → Starts (s ++ t)
Starts-append [] t h = elim h [ ]
Starts-append (c ∷ s) t h = h

if-Starts : (b : Bool) (s t : Bytes) → Starts s → Starts (if b then s else s ++ t)
if-Starts true s t h = h
if-Starts false s t h = Starts-append s t h

abbrev full_address : Bytes → Bytes → Bytes
full_address input domain =
    let local = cleaned input in
    if contains_byte b'@' local then local else local ++ (b'@' ∷ stripped b'@' domain)

module _ (libs : Libs) where
  normalize_email_with-some :
      (input domain v : Bytes)
      → normalize_email_with libs input domain ≡ some v
      → (is_empty (cleaned input) ≡ false) × (v ≡ full_address input domain)
  unfolding normalize_email_with
  normalize_email_with-some input domain v h =
      elim (Option-cases (libs.parse_mail (full_address input domain))) [
        | inl e ↦ (ground arith, ground arith)
        | inr (a, e) ↦ (ground arith, ground arith)
      ]

  normalize_email_with-Starts :
      (input domain v : Bytes) → normalize_email_with libs input domain ≡ some v → Starts v
  normalize_email_with-Starts input domain v h =
      let (filled, e) = normalize_email_with-some input domain v h in
      let local = to_lower-Starts (trim_space input) (trim_space-KeepsHead input) filled in
      subst Starts (sym e) (
        if-Starts (contains_byte b'@' (cleaned input)) (cleaned input) (b'@' ∷ stripped b'@' domain)
          local)

  module _ (encode : Config → Bytes) (decode : Bytes → Option Config) where
    is_admin-with_admin :
        (req : SetupRequest) (cfg : Config) (admin : Bytes)
        → Starts admin
        → is_admin libs (store_of libs (normalize_config (with_admin libs req cfg admin))) admin
          ≡ true
    unfolding is_admin get clone store_of normalize_config
    is_admin-with_admin req cfg admin h =
        match_any-clean_patterns admin (clean_patterns cfg.admins) (cleaned-Starts admin h)

    is_admin-has_admins :
        (s : Store libs) (email : Bytes)
        → is_admin libs s email ≡ true
        → is_empty (get libs s).admins ≡ false
    unfolding is_admin match_any
    is_admin-has_admins s email h = ground arith

    setup_reply-named :
        (admin named : Bytes) (r : Result StoreError (Unit {0}))
        → setup_reply libs encode decode admin r ≡ initialised named
        → admin ≡ named
    setup_reply-named admin named (ok _) h = cc
    setup_reply-named admin named (err e) h = cc

    taken :
        (has_path written : Bool) (c : Config) (admin named : Bytes) (s : Store libs)
        (file : Option Bytes)
        → let (after, disk, result) = set libs encode decode has_path written c s file in
          setup_reply libs encode decode admin result ≡ initialised named
          → (after ≡ store_of libs (normalize_config c)) × (admin ≡ named)
    taken has_path written c admin named s file h =
        elim (Result-cases (validate libs (normalize_config c))) [
          | inl (e, v) ↦
              let same_store = (set_lem libs encode decode has_path written c s file).0 e v in
              ground arith
          | inr (tt, v) ↦
              let same_store = (set_lem libs encode decode has_path written c s file).1 v in
              (ap (λ x. x.0) same_store, setup_reply-named admin named _ h)
        ]

    submit-none :
        (has_path written : Bool) (req : SetupRequest) (s : Store libs) (file : Option Bytes)
        → normalize_email_with libs req.admin_email
            (domain_or req.default_domain (get libs s).default_domain)
          ≡ none
        → submit_setup libs encode decode has_path written req s file ≡ (s, file, bad_email)
    unfolding submit_setup setup_config
    submit-none has_path written req s file e = rw (e, submit_setup, setup_config) refl

    submit-some :
        (has_path written : Bool) (req : SetupRequest) (s : Store libs) (file : Option Bytes)
        (admin : Bytes)
        → normalize_email_with libs req.admin_email
            (domain_or req.default_domain (get libs s).default_domain)
          ≡ some admin
        → let (after, disk, result) =
            set libs encode decode has_path written
              (with_admin libs req (get libs s) admin)
              s
              file in
          submit_setup libs encode decode has_path written req s file
          ≡ (after, disk, setup_reply libs encode decode admin result)
    unfolding submit_setup setup_config
    submit-some has_path written req s file admin e = rw (e, submit_setup, setup_config) refl

    submitted :
        (has_path written : Bool) (req : SetupRequest) (s : Store libs) (file : Option Bytes)
        (named : Bytes)
        → let (after, disk, reply) = submit_setup libs encode decode has_path written req s file in
          reply ≡ initialised named → is_admin libs after named ≡ true
    submitted has_path written req s file named h =
        let domain = domain_or req.default_domain (get libs s).default_domain in
        elim (Option-cases (normalize_email_with libs req.admin_email domain)) [
          | inl e ↦
              let k = submit-none has_path written req s file e in
              let bad : bad_email ≡ initialised named = sym (ap (λ x. x.2) k) ∙ h in cc
          | inr (admin, e) ↦
              let k = submit-some has_path written req s file admin e in
              let cfg = with_admin libs req (get libs s) admin in
              let (live, same_name) =
                taken has_path written cfg admin named s file (sym (ap (λ x. x.2) k) ∙ h) in
              subst (λ (x : Store libs). is_admin libs x named ≡ true)
                (sym (ap (λ x. x.0) k ∙ live))
                (subst (λ x. is_admin libs (store_of libs (normalize_config cfg)) x ≡ true)
                  same_name
                  (is_admin-with_admin req (get libs s) admin
                    (normalize_email_with-Starts req.admin_email domain admin e)))
        ]

    handle-form :
        (std : Std) (opts : Options) (now : ℕ) (r : Request) (has_path written : Bool)
        (form : Option SetupRequest) (m : Manager) (s : Store libs) (file : Option Bytes)
        (named : Bytes)
        → let (m', after, disk, reply) =
            handle_setup libs encode decode std opts now r has_path written form m s file in
          reply ≡ initialised named → is_admin libs after named ≡ true
    unfolding handle_setup
    handle-form std opts now r has_path written none m s file named h = cc
    handle-form std opts now r has_path written (some req) m s file named h =
        elim (Option-cases (guard_setup std opts now r req.token m).1) [
          | inl e ↦
              rw (handle_setup, e)
                (submitted has_path written req s file named (rw (handle_setup, e) at h))
          | inr (why, e) ↦
              let bad : stopped why ≡ initialised named = rw (handle_setup, e) at h in cc
        ]

    -- Where handleSetup answers that it is done, the address that it names is an administrator of the
    -- store that it leaves, and the gateway needs no set-up any more.
    pub is_admin-handle_setup :
        (std : Std) (opts : Options) (now : ℕ) (r : Request) (has_path written : Bool)
        (form : Option SetupRequest) (m : Manager) (s : Store libs) (file : Option Bytes)
        (named : Bytes)
        → let (m', after, disk, reply) =
            handle_setup libs encode decode std opts now r has_path written form m s file in
          reply ≡ initialised named
          → (is_admin libs after named ≡ true) × (needs_setup (directory_of libs after) m' ≡ false)
    unfolding needs_setup
    is_admin-handle_setup std opts now r has_path written form m s file named h =
        let (m', after, disk, reply) =
          handle_setup libs encode decode std opts now r has_path written form m s file in
        let admin = handle-form std opts now r has_path written form m s file named h in
        (admin, rw (is_admin-has_admins after named admin) (and_false m'.setup_open))
