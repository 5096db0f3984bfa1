-- ===== src/Auth/Setup/Form.antt =====
-- internal/auth/setup.go: setupConfig, handleSetup, and what handleSetupTest sends to whom. The store
-- answers what the manager asks through `directory_of`.
pub mod Administrator
mod Tests
use wvpn.Base.{
  ℕ, Bool, true, false, not, List, [], ◌∷◌, ◌++◌, Option, none, some, Result, ok, err,
  if◌then◌else◌, is_empty,
}
use wvpn.Text.{Bytes, trim_space}
use wvpn.Store.Config.{ℤ, pos, negsuc, Smtp, Config, clean_patterns}
use wvpn.Store.Config.Validate.{Libs}
use wvpn.Store.Config.Persist.{
  StoreError, Store, get, set, allowed, is_admin, session_minutes, normalize_email,
  normalize_email_with,
}
use wvpn.Auth.Model.{Options, Directory, Std, Manager, Request, Reply}
use wvpn.Auth.Config.{AdminSmtp}
use wvpn.Auth.Setup.{guard_setup}

pub record SetupRequest : Type 0 where
  pub token : Bytes
  pub admin_email : Bytes
  pub default_domain : Bytes
  pub allowed_users : List Bytes
  pub smtp : AdminSmtp

pub data SetupReply : Type 0 where
  bad_form bad_email : SetupReply
  stopped : Reply → SetupReply
  refused : StoreError → SetupReply
  initialised : Bytes → SetupReply

abbrev pub minutes_of : ℤ → ℕ
minutes_of (pos n) = n
minutes_of (negsuc n) = 0

-- The mail service that the form describes, in setupConfig and in handleSetupTest.
abbrev pub form_smtp : AdminSmtp → Smtp
form_smtp form = record {
  addr = trim_space form.addr;
  sender = trim_space form.sender;
  username = trim_space form.username;
  password = form.password;
  tls_mode = form.tls_mode;
  implicit_tls = false;
  allow_plaintext_auth = form.allow_plaintext;
  helo = trim_space form.helo;
  insecure_skip_verify = form.insecure;
}

abbrev pub domain_or : Bytes → Bytes → Bytes
domain_or form current = if not (is_empty (trim_space form)) then trim_space form else current

-- The service that handleSetupTest sends through: that of the form, or the gateway's.
unfoldable pub setup_test_smtp : SetupRequest → Option Smtp
unfolding trim_space
setup_test_smtp req =
    if not (is_empty (trim_space req.smtp.addr)) then some (form_smtp req.smtp) else none

module _ (libs : Libs) where
  -- The store, as the manager asks it.
  abbrev pub directory_of : Store libs → Directory
  directory_of s = record {
    normalize_email = normalize_email libs s;
    allowed = allowed libs s;
    is_admin = is_admin libs s;
    session_minutes = minutes_of (session_minutes libs s);
    has_admins = not (is_empty (get libs s).admins);
  }

  abbrev pub with_admin : SetupRequest → Config → Bytes → Config
  with_admin req cfg admin =
      let users = clean_patterns req.allowed_users in
      record cfg {
        default_domain = domain_or req.default_domain cfg.default_domain;
        admins = clean_patterns cfg.admins ++ (admin ∷ []);
        allowed_users = if is_empty users then cfg.allowed_users else users;
        smtp = form_smtp req.smtp;
      }

  -- setupConfig
  unfoldable pub setup_config : Store libs → SetupRequest → Option (Config × Bytes)
  unfolding normalize_email_with clean_patterns get trim_space
  setup_config s req =
      let cfg = get libs s in
      elim (normalize_email_with libs req.admin_email
        (domain_or req.default_domain cfg.default_domain)) [
          | none ↦ none
          | some admin ↦ some (with_admin req cfg admin, admin)
        ]

  -- The recipient of handleSetupTest's message, where the form has one.
  unfoldable pub setup_test_recipient : Store libs → SetupRequest → Option Bytes
  unfolding normalize_email_with get trim_space
  setup_test_recipient s req =
      normalize_email_with libs req.admin_email
        (domain_or req.default_domain (get libs s).default_domain)

  module _ (encode : Config → Bytes) (decode : Bytes → Option Config) where
    abbrev pub setup_reply : Bytes → Result StoreError (Unit {0}) → SetupReply
    setup_reply admin (ok _) = initialised admin
    setup_reply admin (err e) = refused e

    -- handleSetup behind guardSetup.
    unfoldable pub submit_setup :
        Bool
        → Bool
        → SetupRequest
        → Store libs
        → Option Bytes
        → Store libs × Option Bytes × SetupReply
    unfolding setup_config set
    submit_setup has_path written req s file = elim (setup_config s req) [
      | none ↦ (s, file, bad_email)
      | some (cfg, admin) ↦
          let (after, disk, result) = set libs encode decode has_path written cfg s file in
          (after, disk, setup_reply admin result)
    ]

    -- handleSetup, where `none` is a body that does not decode.
    unfoldable pub handle_setup :
        Std
        → Options
        → ℕ
        → Request
        → Bool
        → Bool
        → Option SetupRequest
        → Manager
        → Store libs
        → Option Bytes
        → Manager × Store libs × Option Bytes × SetupReply
    unfolding guard_setup submit_setup
    handle_setup std opts now r has_path written none m s file = (m, s, file, bad_form)
    handle_setup std opts now r has_path written (some req) m s file =
        let (m', answer) = guard_setup std opts now r req.token m in
        let (after, disk, reply) = submit_setup has_path written req s file in
        elim answer [ some why ↦ (m', s, file, stopped why) | none ↦ (m', after, disk, reply) ]
