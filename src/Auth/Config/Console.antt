-- ===== src/Auth/Config/Console.antt =====
-- internal/auth/manager.go: handleGetConfig and handleSetConfig, on the store of internal/store. The
-- session is the one that SessionFor finds when the handler asks, which requireAdminAPI has asked before.
pub mod Kept
use wvpn.Base.{
  Bool, true, false, not, ◌&&◌, List, Option, none, some, Result, ok, err, if◌then◌else◌,
}
use wvpn.Text.{Bytes}
use wvpn.Store.Glob.{match_any}
use wvpn.Store.Config.{Config, clean_patterns}
use wvpn.Store.Config.Validate.{Libs}
use wvpn.Store.Config.Persist.{StoreError, Store, get, set}
use wvpn.Auth.Model.{Session}
use wvpn.Auth.Config.{AdminConfig, view_of, merge}

module _ (S : Type 0) where
  -- `panicked` is a handler that dies on a nil session.
  pub data ConsoleReply : Type 0 where
    bad_form not_yourself panicked : ConsoleReply
    refused : StoreError → ConsoleReply
    shown : AdminConfig S → ConsoleReply

  abbrev pub names_session : List Bytes → Option Session → Bool
  names_session admins none = true
  names_session admins (some s) = match_any admins s.email

  module _ (libs : Libs) (encode : Config → Bytes) (decode : Bytes → Option Config)
      (summary : Bytes → Bytes → Option S) where
    -- handleGetConfig
    unfoldable pub handle_get_config : Store libs → ConsoleReply
    unfolding view_of get
    handle_get_config s = shown (view_of S summary (get libs s))

    -- The end of handleSetConfig, which logs the address of the session.
    abbrev pub report : Option Session → Store libs → Result StoreError (Unit {0}) → ConsoleReply
    report session s (err e) = refused e
    report none s (ok _) = panicked
    report (some _) s (ok _) = handle_get_config s

    -- handleSetConfig, where `none` is a form that does not decode.
    unfoldable pub handle_set_config :
        Bool
        → Bool
        → Option (AdminConfig S)
        → Option Session
        → Store libs
        → Option Bytes
        → Store libs × Option Bytes × ConsoleReply
    unfolding match_any clean_patterns set merge get handle_get_config
    handle_set_config has_path written none session s file = (s, file, bad_form)
    handle_set_config has_path written (some form) session s file =
        let (after, disk, result) =
          set libs encode decode has_path written (merge S form (get libs s)) s file in
        if not (names_session (clean_patterns form.admins) session)
        then (s, file, not_yourself)
        else (after, disk, report session after result)
