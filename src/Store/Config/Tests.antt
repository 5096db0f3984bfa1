-- ===== src/Store/Config/Tests.antt =====
-- Runs of the configuration's normal form, of Validate, and of a store that is set and read back.
use wvpn.Base.{◌≡◌, refl, true, false, [], ◌∷◌, ◌⊎◌, none, some, ok, err, if◌then◌else◌}
use wvpn.Text.{codes, texts}
use wvpn.Store.Glob.{match_pattern, glob_match}
use wvpn.Store.Config.{pos, Config, normalize_config, portal_host, url_mode}
use wvpn.Store.Config.Domain.{is_domain, is_port, is_pattern}
use wvpn.Store.Config.Validate.{ConfigError, validate, bad_session_minutes, bad_base_domain}
use wvpn.Store.Config.Normal.{normalize_config_idem}
use wvpn.Store.Config.Samples.{plain_config, libs, empty_store, encode, decode, plain_config-valid}
use wvpn.Store.Config.Persist.{
  invalid, save_failed, found, store_of, get, is_admin, allowed, normalize_email, save, load_store,
  set,
}
use wvpn.Store.Config.Persist.Reload.{set_cases, load_store-set}

abbrev no_gateway : Config
no_gateway = record plain_config {
  gateway = record plain_config.gateway { url_mode = []; base_domain = codes "a b" };
}

abbrev too_short : Config
too_short = record plain_config { policy = record plain_config.policy { session_minutes = pos 4 } }

domain_runs :
    (is_domain (codes "a-b.corp.com") ≡ true)
    × (is_domain (codes "corp") ≡ false)
    × (is_domain (codes "a-.com") ≡ false)
    × (is_domain (codes "a..com") ≡ false)
    × (is_port (codes "65535") ≡ true)
    × (is_port (codes "65536") ≡ false)
    × (is_port (codes "0") ≡ false)
    × (is_pattern (codes "*@corp.com") ≡ true)
    × (is_pattern (codes "a b") ≡ false)
unfolding is_domain is_port is_pattern texts
domain_runs = (refl, refl, refl, refl, refl, refl, refl, refl, refl)

normal_runs :
    ((normalize_config plain_config).default_domain ≡ codes "corp.com")
    × ((normalize_config plain_config).allowed_users ≡ codes "*@corp.com" ∷ [])
    × ((normalize_config plain_config).access.mode ≡ codes "off")
    × (portal_host (normalize_config plain_config).gateway ≡ codes "app.gw.corp.com")
    × (url_mode (normalize_config plain_config).gateway ≡ codes "subdomain")
    × ((normalize_config plain_config).smtp.tls_mode ≡ codes "auto")
unfolding normalize_config portal_host url_mode texts
normal_runs = (refl, refl, refl, refl, refl, refl)

validate_runs :
    (validate libs (normalize_config plain_config) ≡ ok tt)
    × (validate libs (normalize_config too_short) ≡ err bad_session_minutes)
    × (validate libs (normalize_config no_gateway) ≡ err bad_base_domain)
unfolding validate normalize_config texts
validate_runs = (refl, refl, refl)

set_runs :
    let refused = set libs encode decode true true too_short empty_store none in
    let unsaved = set libs encode decode true false plain_config empty_store none in
    (refused.2 ≡ err (invalid bad_session_minutes))
    × (unsaved.2 ≡ err save_failed)
    × (is_admin libs unsaved.0 (codes "BOSS@corp.com") ≡ true)
    × (allowed libs unsaved.0 (codes "x@corp.com") ≡ true)
    × (normalize_email libs unsaved.0 (codes " Bob") ≡ some (codes "bob@corp.com"))
unfolding set normalize_config is_admin allowed normalize_email match_pattern glob_match texts
set_runs = (refl, refl, refl, refl, refl)

normalize_config_idem_example :
    normalize_config (normalize_config plain_config) ≡ normalize_config plain_config
normalize_config_idem_example = normalize_config_idem libs plain_config plain_config-valid

load_store-set_example :
    let (after, disk, result) = set libs encode decode true true plain_config empty_store none in
    (result ≡ ok tt)
    × (get libs after ≡ normalize_config plain_config)
    × (disk ≡ some (codes "f"))
    × (load_store libs encode decode true (found (codes "f")) true plain_config disk
        ≡ ok (after, disk))
load_store-set_example =
    load_store-set libs encode decode plain_config plain_config empty_store none refl
      plain_config-valid

set_cases_example :
    let outcome = set libs encode decode true false plain_config empty_store none in
    let (disk, saved) = save libs encode decode true false (normalize_config plain_config) none in
    (((e : ConfigError) × (validate libs (normalize_config plain_config) ≡ err e)
        × (outcome ≡ (empty_store, none, err (invalid e))))
      ⊎ ((validate libs (normalize_config plain_config) ≡ ok tt)
          × (outcome ≡ (
            store_of libs (normalize_config plain_config),
            disk,
            if saved then ok tt else err save_failed,
          ))))
set_cases_example = set_cases libs encode decode true false plain_config empty_store none
