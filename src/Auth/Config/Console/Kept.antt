-- ===== src/Auth/Config/Console/Kept.antt =====
-- What the console cannot do: take its user's own administration away, or change anything by saving what
-- it shows.
use wvpn.Base.{
  ◌≡◌, refl, sym, ap, subst, ◌∙◌, Bool, true, false, Option, none, some, ok, Bool-cases, inl, inr,
  Result-cases, ◌⊎◌,
}
use wvpn.Text.{Bytes}
use wvpn.Store.Glob.{match_any}
use wvpn.Store.Config.{Config, clean_patterns, normalize_config, normalize_smtp, clone}
use wvpn.Store.Config.Validate.{Libs, validate}
use wvpn.Store.Config.Normal.{mode_idem, clone-normalize_config, normalize_config_idem}
use wvpn.Store.Config.Persist.{Store, store_of, get, is_admin, set}
use wvpn.Store.Config.Persist.Reload.{set_lem}
use wvpn.Auth.Model.{Session}
use wvpn.Auth.Config.{AdminConfig, view_of, merge}
use wvpn.Auth.Config.Console.{handle_set_config, names_session}

module _ (S : Type 0) (libs : Libs) (encode : Config → Bytes) (decode : Bytes → Option Config)
    (summary : Bytes → Bytes → Option S) where
  -- The store that Set leaves is the old one or that of the new configuration in normal form.
  set-store :
      (has_path written : Bool) (c : Config) (s : Store libs) (file : Option Bytes)
      → let after = (set libs encode decode has_path written c s file).0 in
        ((after ≡ s) ⊎ (after ≡ store_of libs (normalize_config c)))
  set-store has_path written c s file = elim (Result-cases (validate libs (normalize_config c))) [
    | inl (e, h) ↦
        inl (ap (λ x. x.0) ((set_lem libs encode decode has_path written c s file).0 e h))
    | inr (tt, h) ↦ inr (ap (λ x. x.0) ((set_lem libs encode decode has_path written c s file).1 h))
  ]

  handle-refused :
      (has_path written : Bool) (form : AdminConfig S) (me : Session) (s : Store libs)
      (file : Option Bytes)
      → names_session S (clean_patterns form.admins) (some me) ≡ false
      → (handle_set_config S libs encode decode summary has_path written
          (some form)
          (some me)
          s
          file).0
        ≡ s
  unfolding handle_set_config
  handle-refused has_path written form me s file e = rw (handle_set_config, e) refl

  handle-taken :
      (has_path written : Bool) (form : AdminConfig S) (me : Session) (s : Store libs)
      (file : Option Bytes)
      → names_session S (clean_patterns form.admins) (some me) ≡ true
      → (handle_set_config S libs encode decode summary has_path written
          (some form)
          (some me)
          s
          file).0
        ≡ (set libs encode decode has_path written (merge S form (get libs s)) s file).0
  unfolding handle_set_config set
  handle-taken has_path written form me s file e = rw (handle_set_config, e) refl

  is_admin-store_of :
      (form : AdminConfig S) (c : Config) (email : Bytes)
      → is_admin libs (store_of libs (normalize_config (merge S form c))) email
        ≡ match_any (clean_patterns form.admins) email
  unfolding is_admin get clone store_of normalize_config merge
  is_admin-store_of form c email = refl

  -- An administrator who saves a configuration is an administrator afterwards, whatever the form says
  -- and whether it is saved or not.
  pub is_admin-handle_set_config :
      (has_path written : Bool) (form : Option (AdminConfig S)) (me : Session) (s : Store libs)
      (file : Option Bytes)
      → is_admin libs s me.email ≡ true
      → is_admin libs
          (handle_set_config S libs encode decode summary has_path written form (some me) s file).0
          me.email
        ≡ true
  is_admin-handle_set_config has_path written none me s file h = unfold handle_set_config in h
  is_admin-handle_set_config has_path written (some form) me s file h =
      let admin = λ (x : Store libs). is_admin libs x me.email ≡ true in
      elim (Bool-cases (names_session S (clean_patterns form.admins) (some me))) [
        | inr e ↦ subst admin (sym (handle-refused has_path written form me s file e)) h
        | inl e ↦
            subst admin (sym (handle-taken has_path written form me s file e))
              (elim (set-store has_path written (merge S form (get libs s)) s file) [
                | inl same ↦ subst admin (sym same) h
                | inr new ↦ subst admin (sym new) (is_admin-store_of form (get libs s) me.email ∙ e)
              ])
      ]

  merge-view_of-normalize_config :
      (c : Config) → let n = normalize_config c in merge S (view_of S summary n) n ≡ n
  unfolding merge view_of normalize_config normalize_smtp
  merge-view_of-normalize_config c =
      let n = normalize_config c in
      ap (λ k. record n { smtp = record n.smtp { tls_mode = k } })
        (mode_idem c.smtp (normalize_config c).smtp refl refl)

  -- Saving what the console shows of a configuration that Set has taken leaves the store as it is,
  -- whoever saves it and whether it can be written or not.
  pub handle_set_config-view_of :
      (has_path written : Bool) (c : Config) (me : Session) (file : Option Bytes)
      → validate libs (normalize_config c) ≡ ok tt
      → let s = store_of libs (normalize_config c) in
        (handle_set_config S libs encode decode summary has_path written
          (some (view_of S summary (get libs s)))
          (some me)
          s
          file).0
        ≡ s
  handle_set_config-view_of has_path written c me file h =
      let n = normalize_config c in
      let s = store_of libs n in
      let form = view_of S summary (get libs s) in
      let held : get libs s ≡ n = unfold get store_of in clone-normalize_config libs c h in
      let form_same : merge S form (get libs s) ≡ n =
        ap (λ x. merge S (view_of S summary x) x) held ∙ merge-view_of-normalize_config c in
      elim (Bool-cases (names_session S (clean_patterns form.admins) (some me))) [
        | inr e ↦ handle-refused has_path written form me s file e
        | inl e ↦
            handle-taken has_path written form me s file e
            ∙ elim (set-store has_path written (merge S form (get libs s)) s file) [
              | inl same ↦ same
              | inr new ↦
                  new
                  ∙ ap (store_of libs)
                      (ap normalize_config form_same ∙ normalize_config_idem libs c h)
            ]
      ]
