-- ===== src/Auth/Config.antt =====
-- internal/auth/manager.go: what the console shows of the configuration and makes of it, adminConfig,
-- viewOf, merge, tlsView and mergeTLS.
pub mod Secrets
pub mod Console
mod Tests
use wvpn.Base.{
  Bool, true, false, not, ◌&&◌, ◌||◌, Option, none, some, if◌then◌else◌, is_empty, [], List,
}
use wvpn.Text.{Bytes}
use wvpn.Store.Headers.{HeaderRule}
use wvpn.Store.Config.{Access, Sso, Group, Gateway, Policy, Tls, Smtp, Config, mode}

pub record AdminSmtp : Type 0 where
  pub addr : Bytes
  pub sender : Bytes
  pub username : Bytes
  pub tls_mode : Bytes
  pub allow_plaintext : Bool
  pub helo : Bytes
  pub insecure : Bool
  pub password : Bytes
  pub clear_password : Bool
  pub password_set : Bool

-- `S` is a store.CertSummary.
module _ (S : Type 0) where
  pub record AdminTls : Type 0 where
    pub cert : Bytes
    pub key : Bytes
    pub clear : Bool
    pub key_set : Bool
    pub summary : Option S

  pub record AdminConfig : Type 0 where
    pub default_domain : Bytes
    pub allowed_users : List Bytes
    pub admins : List Bytes
    pub access : Access
    pub bookmarks : List Group
    pub smtp : AdminSmtp
    pub gateway : Gateway
    pub tls : AdminTls
    pub sso : Sso
    pub headers : List HeaderRule
    pub policy : Policy

  -- What Summary reads from the pair, none where it does not parse.
  module _ (summary : Bytes → Bytes → Option S) where
    -- tlsView
    unfoldable pub tls_view : Tls → AdminTls
    tls_view t = record {
      cert = t.cert;
      key = [];
      clear = false;
      key_set = not (is_empty t.key);
      summary =
          if not (is_empty t.cert) && not (is_empty t.key) then summary t.cert t.key else none;
    }

    -- viewOf
    unfoldable pub view_of : Config → AdminConfig
    unfolding tls_view mode
    view_of c = record {
      default_domain = c.default_domain;
      allowed_users = c.allowed_users;
      admins = c.admins;
      access = c.access;
      bookmarks = c.bookmarks;
      gateway = c.gateway;
      sso = c.sso;
      headers = c.headers;
      policy = c.policy;
      smtp = record {
        addr = c.smtp.addr;
        sender = c.smtp.sender;
        username = c.smtp.username;
        tls_mode = mode c.smtp;
        allow_plaintext = c.smtp.allow_plaintext_auth;
        helo = c.smtp.helo;
        insecure = c.smtp.insecure_skip_verify;
        password = [];
        clear_password = false;
        password_set = not (is_empty c.smtp.password);
      };
      tls = tls_view c.tls;
    }

  -- mergeTLS
  unfoldable pub merge_tls : AdminTls → Tls → Tls
  merge_tls form current =
      if form.clear
      then record { cert = []; key = [] }
      else record { cert = form.cert; key = if is_empty form.key then current.key else form.key }

  abbrev pub merged_password : AdminSmtp → Bytes → Bytes
  merged_password form current =
      if form.clear_password then [] else if is_empty form.password then current else form.password

  -- merge
  unfoldable pub merge : AdminConfig → Config → Config
  unfolding merge_tls
  merge form current = record {
    default_domain = form.default_domain;
    allowed_users = form.allowed_users;
    admins = form.admins;
    access = form.access;
    bookmarks = form.bookmarks;
    gateway = form.gateway;
    sso = form.sso;
    headers = form.headers;
    policy = form.policy;
    tls = merge_tls form.tls current.tls;
    smtp = record {
      addr = form.smtp.addr;
      sender = form.smtp.sender;
      username = form.smtp.username;
      tls_mode = form.smtp.tls_mode;
      implicit_tls = false;
      allow_plaintext_auth = form.smtp.allow_plaintext;
      helo = form.smtp.helo;
      insecure_skip_verify = form.smtp.insecure;
      password = merged_password form.smtp current.smtp.password;
    };
  }
