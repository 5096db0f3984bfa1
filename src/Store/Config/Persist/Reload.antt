-- ===== src/Store/Config/Persist/Reload.antt =====
-- What Set leaves in memory and in the file, and what LoadStore reads back.
use wvpn.Base.{
  ◌≡◌, refl, sym, ap, subst, ◌∙◌, Bool, true, Option, some, Result, ok, err, arith, if◌then◌else◌,
  inl, inr, ◌⊎◌, Result-cases, ◌⊎◌, both_ok, ◌>>◌,
}
use wvpn.Text.{Bytes}
use wvpn.Store.Sites.{SiteRules, SiteError, parse_sites}
use wvpn.Store.Headers.{is_ok}
use wvpn.Store.Config.{Config, normalize_config}
use wvpn.Store.Config.Validate.{
  Libs, ConfigError, validate, validate_lists, validate_gateway, validate_tls, validate_smtp,
}
use wvpn.Store.Config.Normal.{clone-normalize_config, normalize_config_idem}
use wvpn.Store.Config.Persist.{
  StoreError, invalid, save_failed, found, Store, store_of, get, save, load_store, apply,
  set_normal, set,
}

module _ (libs : Libs) where
  lists-parsed :
      (c : Config)
      → validate_lists libs c ≡ ok tt
      → (is_ok (parse_sites libs.parse_prefix c.access.sites) ≡ true)
        × (is_ok (parse_sites libs.parse_prefix c.sso.hosts) ≡ true)
  unfolding validate_lists
  lists-parsed c h = (ground arith, ground arith)

  parsed :
      (c : Config)
      → validate libs c ≡ ok tt
      → (is_ok (parse_sites libs.parse_prefix c.access.sites) ≡ true)
        × (is_ok (parse_sites libs.parse_prefix c.sso.hosts) ≡ true)
  unfolding validate
  parsed c h =
      lists-parsed c
        (both_ok (validate_lists libs c)
          (validate_gateway c.gateway >> (validate_tls libs c.tls >> validate_smtp libs c.smtp))
          h).0

  module _ (encode : Config → Bytes) (decode : Bytes → Option Config) where
    set_normal-refused :
        (has_path written : Bool) (c : Config) (s : Store libs) (file : Option Bytes)
        (e : ConfigError)
        → validate libs c ≡ err e
        → set_normal libs encode decode has_path written c s file ≡ (s, file, err (invalid e))
    unfolding set_normal
    set_normal-refused has_path written c s file e h = rw (h, set_normal) refl

    set_normal-taken :
        (has_path written : Bool) (c : Config) (s : Store libs) (file : Option Bytes)
        (rules sso : SiteRules)
        → validate libs c ≡ ok tt
        → parse_sites libs.parse_prefix c.access.sites ≡ ok rules
        → parse_sites libs.parse_prefix c.sso.hosts ≡ ok sso
        → let (disk, saved) = save libs encode decode has_path written c file in
          set_normal libs encode decode has_path written c s file
          ≡ (store_of libs c, disk, if saved then ok tt else err save_failed)
    unfolding set_normal apply store_of
    set_normal-taken has_path written c s file rules sso h a b =
        rw (h, a, b, set_normal, store_of) refl

    ok_value : (r : Result SiteError SiteRules) → is_ok r ≡ true → (v : SiteRules) × (r ≡ ok v)
    ok_value (err e) h = cc
    ok_value (ok v) h = (v, refl)

    pub set_lem :
        (has_path written : Bool) (c : Config) (s : Store libs) (file : Option Bytes)
        → let outcome = set libs encode decode has_path written c s file in
          let (disk, saved) = save libs encode decode has_path written (normalize_config c) file in
          ((e : ConfigError)
            → validate libs (normalize_config c) ≡ err e
            → outcome ≡ (s, file, err (invalid e)))
          × (validate libs (normalize_config c) ≡ ok tt
              → outcome ≡ (
                store_of libs (normalize_config c),
                disk,
                if saved then ok tt else err save_failed,
              ))
    unfolding set
    set_lem has_path written c s file = (
      set_normal-refused has_path written (normalize_config c) s file,
      λ h.
          let (a, b) = parsed (normalize_config c) h in
          let (rules, ra) =
            ok_value (parse_sites libs.parse_prefix (normalize_config c).access.sites) a in
          let (sso, rb) =
            ok_value (parse_sites libs.parse_prefix (normalize_config c).sso.hosts) b in
          set_normal-taken has_path written (normalize_config c) s file rules sso h ra rb,
    )

    -- A configuration that Validate refuses changes neither the store nor the file. One that it accepts
    -- is in force afterwards, whether it could be saved or not, and no site list is refused any more.
    pub set_cases :
        (has_path written : Bool) (c : Config) (s : Store libs) (file : Option Bytes)
        → let outcome = set libs encode decode has_path written c s file in
          let (disk, saved) = save libs encode decode has_path written (normalize_config c) file in
          (((e : ConfigError) × (validate libs (normalize_config c) ≡ err e)
              × (outcome ≡ (s, file, err (invalid e))))
            ⊎ ((validate libs (normalize_config c) ≡ ok tt)
                × (outcome ≡ (
                  store_of libs (normalize_config c),
                  disk,
                  if saved then ok tt else err save_failed,
                ))))
    set_cases has_path written c s file = elim (Result-cases (validate libs (normalize_config c))) [
      | inl (e, v) ↦ inl (e, v, (set_lem has_path written c s file).0 e v)
      | inr (tt, v) ↦ inr (v, (set_lem has_path written c s file).1 v)
    ]

    load_store-found :
        (has_path written : Bool) (text : Bytes) (c def : Config) (file : Option Bytes)
        → decode text ≡ some c
        → load_store libs encode decode has_path (found text) written def file
          ≡ ok (store_of libs (normalize_config c), file)
    unfolding load_store
    load_store-found has_path written text c def file e = rw (load_store, e) refl

    -- Where Validate accepts a configuration and its normal form survives being encoded, a Set that can
    -- write succeeds, Get gives the normal form, and LoadStore makes the same store of the file.
    pub load_store-set :
        (c def : Config) (s : Store libs) (file : Option Bytes)
        → decode (encode (normalize_config c)) ≡ some (normalize_config c)
        → validate libs (normalize_config c) ≡ ok tt
        → let (after, disk, result) = set libs encode decode true true c s file in
          (result ≡ ok tt)
          × (get libs after ≡ normalize_config c)
          × (disk ≡ some (encode (normalize_config c)))
          × (load_store libs encode decode true (found (encode (normalize_config c))) true def disk
              ≡ ok (after, disk))
    unfolding get save store_of
    load_store-set c def s file trip h =
        let text = encode (normalize_config c) in
        let settled = (set_lem true true c s file).1 h in
        subst
          (λ (x : Store libs × Option Bytes × Result StoreError (Unit {0})).
            (x.2 ≡ ok tt)
            × (get libs x.0 ≡ normalize_config c)
            × (x.1 ≡ some (encode (normalize_config c)))
            × (load_store libs encode decode true (found (encode (normalize_config c))) true def x.1
                ≡ ok (x.0, x.1)))
          (sym settled)
          (
            refl,
            clone-normalize_config libs c h,
            refl,
            load_store-found true true text (normalize_config c) def (some text) trip
                ∙ ap (λ x. ok (store_of libs x, some text)) (normalize_config_idem libs c h),
          )
