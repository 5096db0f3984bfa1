-- ===== src/Auth/Setup/Form/Tests.antt =====
-- Runs of the set-up form.
use wvpn.Base.{◌≡◌, refl, true, false, some, none, []}
use wvpn.Text.{codes, texts}
use wvpn.Dict.{lookup}
use wvpn.Store.Config.{normalize_config}
use wvpn.Store.Config.Samples.{libs, encode, decode, empty_store}
use wvpn.Store.Config.Persist.{is_admin}
use wvpn.Auth.Config.{AdminSmtp}
use wvpn.Auth.Setup.{needs_setup}
use wvpn.Auth.Setup.Tests.{setup_std, setup_options, setup_request, waiting}
use wvpn.Auth.Setup.Form.{
  SetupRequest, handle_setup, directory_of, setup_test_recipient, setup_test_smtp,
}
use wvpn.Auth.Setup.Form.Administrator.{is_admin-handle_setup}

abbrev no_mail : AdminSmtp
no_mail = record {
  addr = [];
  sender = [];
  username = [];
  tls_mode = [];
  allow_plaintext = false;
  helo = [];
  insecure = false;
  password = [];
  clear_password = false;
  password_set = false;
}

abbrev some_form : SetupRequest
some_form = record {
  token = codes "s3cret ";
  admin_email = codes " Ann";
  default_domain = codes "x.cn";
  allowed_users = [];
  smtp = no_mail;
}

form_runs :
    (setup_test_recipient libs empty_store some_form ≡ some (codes "ann@x.cn"))
    × (setup_test_smtp some_form ≡ none)
unfolding setup_test_recipient setup_test_smtp texts
form_runs = (refl, refl)

is_admin-handle_setup_example :
    let (m, after, disk, reply) =
      handle_setup libs encode decode setup_std setup_options 5 setup_request true true
        (some some_form)
        waiting
        empty_store
        none in
    (is_admin libs after (codes "ann@x.cn") ≡ true)
    × (needs_setup (directory_of libs after) m ≡ false)
is_admin-handle_setup_example =
    is_admin-handle_setup libs encode decode setup_std setup_options 5 setup_request true true
      (some some_form) waiting empty_store none (codes "ann@x.cn")
      (unfold handle_setup texts normalize_config lookup in refl)
