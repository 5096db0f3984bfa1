-- ===== src/Store/Config/Samples.antt =====
-- A configuration, a store and libraries that the tests start from.
use wvpn.Base.{true, false, [], ◌∷◌, ◌≡◌, refl, Option, none, some, ok}
use wvpn.Text.{Bytes, codes, texts}
use wvpn.Store.Config.Validate.{Libs, validate}
use wvpn.Store.Config.Persist.{Store}
use wvpn.Store.Config.{pos, Config, normalize_config}

abbrev pub plain_config : Config
plain_config = record {
  default_domain = codes " Corp.com";
  allowed_users = codes "*@corp.com " ∷ codes "*@corp.com" ∷ [];
  admins = codes "Boss@corp.com" ∷ [];
  access = record { mode = codes "open"; sites = [] };
  bookmarks =
      record {
        name = codes "Tools";
        items = record { name = codes " Wiki "; url = codes "wiki.corp.com"; note = [] } ∷ [];
      }
      ∷ [];
  smtp = record {
    addr = [];
    sender = [];
    username = [];
    password = [];
    tls_mode = [];
    implicit_tls = false;
    allow_plaintext_auth = false;
    helo = [];
    insecure_skip_verify = false;
  };
  gateway = record {
    url_mode = codes "Subdomain ";
    base_domain = codes ".gw.corp.com";
    host = [];
    public_port = codes "8443";
    public_scheme = codes "HTTPS";
  };
  tls = record { cert = []; key = [] };
  sso = record { mode = []; hosts = [] };
  headers = [];
  policy = record { session_minutes = pos 60; forward_for = true };
}

-- Libraries that read no address, no key pair and no URL, and take every mail address.
abbrev pub libs : Libs
libs = record {
  parse_prefix = λ s. none;
  parse_addr = λ s. none;
  canonical = λ s. s;
  key_pair = λ c k. false;
  parse_mail = λ s. some s;
  parse_url = λ s. some (codes "https", s);
}

abbrev pub empty_store : Store libs
empty_store = record {
  cfg = plain_config;
  rules = record { hosts = []; nets = [] };
  sso = record { hosts = []; nets = [] };
  headers = [];
}

-- A text of one byte stands for the file.
abbrev pub encode : Config → Bytes
encode c = codes "f"

abbrev pub decode : Bytes → Option Config
decode s = some (normalize_config plain_config)

pub plain_config-valid : validate libs (normalize_config plain_config) ≡ ok tt
unfolding validate normalize_config texts
plain_config-valid = refl
