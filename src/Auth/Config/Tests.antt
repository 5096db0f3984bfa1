-- ===== src/Auth/Config/Tests.antt =====
-- Runs of the console's configuration.
use wvpn.Base.{◌≡◌, refl, true, false, Option, none, some, [], ◌∷◌}
use wvpn.Text.{Bytes, codes, texts}
use wvpn.Store.Config.{mode, Config}
use wvpn.Store.Config.Samples.{plain_config, libs, encode, decode, plain_config-valid}
use wvpn.Store.Config.Persist.{Store, store_of, get, is_admin}
use wvpn.Store.Config.{normalize_config}
use wvpn.Store.Glob.{match_pattern, glob_match}
use wvpn.Auth.Model.{Session}
use wvpn.Auth.Config.Console.{handle_set_config, not_yourself, panicked}
use wvpn.Auth.Config.Console.Kept.{is_admin-handle_set_config, handle_set_config-view_of}
use wvpn.Auth.Config.{AdminConfig, view_of}
use wvpn.Auth.Config.Secrets.{with_password, view_of-with_password}

abbrev no_summary : Bytes → Bytes → Option Bytes
no_summary cert key = none

abbrev some_config : Config
some_config = record plain_config {
  smtp = record {
    addr = codes "mx:25";
    sender = codes "gw@x.cn";
    username = [];
    password = codes "pw";
    tls_mode = [];
    implicit_tls = true;
    allow_plaintext_auth = false;
    helo = [];
    insecure_skip_verify = false;
  };
  tls = record { cert = codes "C"; key = codes "K" };
}

config_runs :
    (mode some_config.smtp ≡ codes "implicit")
    × ((view_of Bytes no_summary some_config).smtp.password ≡ [])
    × ((view_of Bytes no_summary some_config).smtp.password_set ≡ true)
unfolding mode view_of texts
config_runs = (refl, refl, refl)

view_of-with_password_example :
    view_of Bytes no_summary (with_password Bytes no_summary (codes "pw") some_config)
    ≡ view_of Bytes no_summary (with_password Bytes no_summary (codes "other") some_config)
view_of-with_password_example =
    view_of-with_password Bytes no_summary some_config (codes "pw") (codes "other") refl refl

abbrev boss : Session
boss = record {
  id = codes "1";
  email = codes "boss@corp.com";
  admin = true;
  created = 0;
  expires = 9;
  ip = [];
  user_agent = [];
  token = codes "t";
}

abbrev settled : Store libs
settled = store_of libs (normalize_config plain_config)

abbrev as_shown : AdminConfig Bytes
as_shown = view_of Bytes no_summary (get libs settled)

abbrev nobody : AdminConfig Bytes
nobody = record as_shown { admins = codes "ann@corp.com" ∷ [] }

console_runs :
    ((handle_set_config Bytes libs encode decode no_summary true true
        (some nobody)
        (some boss)
        settled
        none).2
      ≡ not_yourself)
    × ((handle_set_config Bytes libs encode decode no_summary true true
          (some as_shown)
          none
          settled
          none).2
        ≡ panicked)
unfolding handle_set_config view_of normalize_config store_of get match_pattern glob_match texts
console_runs = (refl, refl)

is_admin-handle_set_config_example :
    is_admin libs
      (handle_set_config Bytes libs encode decode no_summary true true
        (some nobody)
        (some boss)
        settled
        none).0
      (codes "boss@corp.com")
    ≡ true
is_admin-handle_set_config_example =
    is_admin-handle_set_config Bytes libs encode decode no_summary true true (some nobody) boss
      settled none
      (unfold is_admin get store_of normalize_config match_pattern glob_match texts in refl)

handle_set_config-view_of_example :
    (handle_set_config Bytes libs encode decode no_summary true false
      (some as_shown)
      (some boss)
      settled
      none).0
    ≡ settled
handle_set_config-view_of_example =
    handle_set_config-view_of Bytes libs encode decode no_summary true false plain_config boss none
      plain_config-valid
