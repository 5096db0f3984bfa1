-- ===== src/Auth/Setup/Tests.antt =====
-- Runs of the setup link.
use wvpn.Base.{◌*◌, ◌≢◌, refl, true, false, none, some, [], ◌∷◌}
use wvpn.Text.{Bytes, codes, texts}
use wvpn.Auth.Model.{Options, Directory, Std, Manager, Request, minute}
use wvpn.Auth.Setup.{guard_setup}
use wvpn.Auth.Setup.Closed.{guard_setup-closed}
use wvpn.Auth.SignIn.{verify_for}
use wvpn.Dict.{lookup, insert, delete}

abbrev pub setup_std : Std
setup_std = record { sha256 = λ s. s; parse_addr = λ s. none; url_host = λ s. some s }

abbrev pub setup_options : Options
setup_options = record {
  session_ttl = 60 * minute;
  code_ttl = 5 * minute;
  resend_interval = minute;
  max_attempts = 2;
  trust_proxy_headers = false;
  setup_token = codes "s3cret";
}

abbrev root : Bytes
root = codes "r@x.cn"

abbrev setup_directory : Directory
setup_directory = record {
  normalize_email = λ s. some s;
  allowed = λ s. true;
  is_admin = λ s. true;
  session_minutes = 0;
  has_admins = true;
}

abbrev pub setup_request : Request
setup_request = record {
  origin = [];
  host = codes "gw";
  remote_addr = codes "1.2.3.4:5";
  real_ip = [];
  forwarded_for = [];
  user_agent = [];
  cookies = [];
}

abbrev pub waiting : Manager
waiting = record {
  sessions = [];
  ip_hits = [];
  setup_open = true;
  codes = (root, record { hash = codes "r@x.cn:1"; expires = 300; sent_at = 0; attempts = 0 }) ∷ [];
}

guard_setup-closed_example :
    (guard_setup setup_std setup_options 9 setup_request
      (codes "s3cret")
      (verify_for setup_std setup_options setup_directory 7 root
        (codes "1")
        setup_request
        (some (codes "t"))
        (some (codes "i"))
        waiting).0).1
    ≢ none
guard_setup-closed_example =
    guard_setup-closed setup_std setup_options 9 setup_request setup_directory 7 root (codes "1")
      setup_request (some (codes "t")) (some (codes "i")) waiting (codes "t") (60 * minute)
      (codes "s3cret") (unfold verify_for texts lookup insert delete in refl)
