-- ===== src/Store/Config/Persist.antt =====
-- internal/store/store.go: the Store, from LoadStore to Set and save, and what the rest of the gateway
-- asks it. The configuration file is a text; writing it to a temporary file and renaming that is one
-- step, which the file system may refuse.
pub mod Reload
use wvpn.Base.{
  ℕ, Bool, true, false, not, ◌&&◌, ◌||◌, List, [], ◌∷◌, ◌++◌, Option, none, some, Result, ok, err,
  if◌then◌else◌, is_empty,
}
use wvpn.Text.{Bytes, codes, same, trim_space, trim_both, to_lower, contains_byte}
use wvpn.Base.{length, ltb, ◌==◌}
use wvpn.Net.{without_port}
use wvpn.Store.Glob.{match_any}
use wvpn.Store.Sites
use wvpn.Store.Sites.{
  SiteRules, SiteError, AccessMode, off, allowlist, denylist, parse_sites, match_host,
}
use wvpn.Store.Headers.{Compiled, compile_header_rules}
use wvpn.Store.Config.{ℤ, Config, normalize_config, clone, stripped, cleaned}
use wvpn.Store.Config.Validate.{Libs, ConfigError, validate}

pub data StoreError : Type 0 where
  invalid : ConfigError → StoreError
  bad_sites : SiteError → StoreError
  bad_json read_failed save_failed : StoreError

-- What os.ReadFile gives.
pub data Read : Type 0 where
  found : Bytes → Read
  missing failed : Read

abbrev pub no_sites : SiteRules
no_sites = record { hosts = []; nets = [] }

-- rules, _ = parseSites(sites): an error comes with no rules.
abbrev pub sites_or_none : Result SiteError SiteRules → SiteRules
sites_or_none (ok r) = r
sites_or_none (err e) = no_sites

-- The mode that the verdicts are read under.
unfoldable pub mode_of : Bytes → AccessMode
unfolding same
mode_of m =
    if same m (codes "allowlist")
    then allowlist
    else if same m (codes "denylist")
    then denylist
    else off

module _ (libs : Libs) where
  pub record Store : Type 0 where
    pub cfg : Config
    pub rules : SiteRules
    pub sso : SiteRules
    pub headers : List (Compiled libs.parse_prefix libs.parse_addr libs.canonical)

  -- What LoadStore's deferred function makes of the configuration.
  unfoldable pub store_of : Config → Store
  unfolding parse_sites compile_header_rules
  store_of c = record {
    cfg = c;
    rules = sites_or_none (parse_sites libs.parse_prefix c.access.sites);
    sso = sites_or_none (parse_sites libs.parse_prefix c.sso.hosts);
    headers = compile_header_rules libs.parse_prefix libs.parse_addr libs.canonical c.headers;
  }

  -- Get
  unfoldable pub get : Store → Config
  unfolding clone
  get s = clone s.cfg

  -- Allowed
  unfoldable pub allowed : Store → Bytes → Bool
  unfolding match_any get
  allowed s email = match_any (get s).allowed_users email || match_any (get s).admins email

  -- IsAdmin
  unfoldable pub is_admin : Store → Bytes → Bool
  unfolding match_any get
  is_admin s email = match_any (get s).admins email

  -- snapshot, as the verdicts of the site list take it.
  unfoldable pub snapshot : Store → Sites.Policy
  unfolding mode_of
  snapshot s = record { mode = mode_of s.cfg.access.mode; rules = s.rules }

  -- RestoresAddresses
  unfoldable pub restores_addresses : Store → Bytes → Bool
  unfolding same match_host without_port
  restores_addresses s host =
      if same s.cfg.sso.mode (codes "off")
      then false
      else if same s.cfg.sso.mode (codes "hosts")
      then match_host libs.parse_addr s.sso (without_port host)
      else true

  -- SessionMinutes
  abbrev pub session_minutes : Store → ℤ
  session_minutes s = s.cfg.policy.session_minutes

  -- ForwardsFor
  abbrev pub forwards_for : Store → Bool
  forwards_for s = s.cfg.policy.forward_for

  -- PublicHTTPS
  unfoldable pub public_https : Store → Bool
  unfolding same
  public_https s = same s.cfg.gateway.public_scheme (codes "https")

  -- NormalizeEmailWith
  unfoldable pub normalize_email_with : Bytes → Bytes → Option Bytes
  unfolding trim_space trim_both to_lower contains_byte same
  normalize_email_with input domain =
      let local = cleaned input in
      let dom = stripped b'@' domain in
      let full = if contains_byte b'@' local then local else local ++ (b'@' ∷ dom) in
      if is_empty local || (not (contains_byte b'@' local) && is_empty dom)
      then none
      else elim (libs.parse_mail full) [
        | none ↦ none
        | some a ↦ if not (same a full) || ltb 254 (length full) then none else some full
      ]

  -- NormalizeEmail
  unfoldable pub normalize_email : Store → Bytes → Option Bytes
  unfolding normalize_email_with get
  normalize_email s input = normalize_email_with input (get s).default_domain

  -- encoding/json on a Config.
  module _ (encode : Config → Bytes) (decode : Bytes → Option Config) where
    -- save: the file afterwards, and whether it succeeded. A store without a path is not saved.
    unfoldable pub save : Bool → Bool → Config → Option Bytes → Option Bytes × Bool
    save has_path written c file =
        if not has_path
        then (file, true)
        else if written
        then (some (encode c), true)
        else (file, false)

    -- LoadStore: the store and the file.
    unfoldable pub load_store :
        Bool → Read → Bool → Config → Option Bytes → Result StoreError (Store × Option Bytes)
    unfolding store_of normalize_config save
    load_store has_path failed written def file = err read_failed
    load_store has_path (found text) written def file = elim (decode text) [
      | none ↦ err bad_json
      | some c ↦ ok (store_of (normalize_config c), file)
    ]
    load_store has_path missing written def file =
        let (after, saved) = save has_path written (normalize_config def) file in
        if saved then ok (store_of (normalize_config def), after) else err save_failed

    -- The end of Set, for a configuration that is valid and whose site lists are parsed.
    unfoldable pub apply :
        Bool
        → Bool
        → Config
        → SiteRules
        → SiteRules
        → Option Bytes
        → Store × Option Bytes × Result StoreError (Unit {0})
    unfolding save compile_header_rules
    apply has_path written c rules sso file =
        let (after, saved) = save has_path written c file in
        (
          record {
            cfg = c;
            rules = rules;
            sso = sso;
            headers =
                compile_header_rules libs.parse_prefix libs.parse_addr libs.canonical c.headers;
          },
          after,
          if saved then ok tt else err save_failed,
        )

    -- Set after normalizeConfig.
    unfoldable pub set_normal :
        Bool
        → Bool
        → Config
        → Store
        → Option Bytes
        → Store × Option Bytes × Result StoreError (Unit {0})
    unfolding validate parse_sites apply
    set_normal has_path written c s file = elim (validate libs c) [
      | err e ↦ (s, file, err (invalid e))
      | ok _ ↦ elim (parse_sites libs.parse_prefix c.access.sites) [
        | err e ↦ (s, file, err (bad_sites e))
        | ok rules ↦ elim (parse_sites libs.parse_prefix c.sso.hosts) [
          | err e ↦ (s, file, err (bad_sites e))
          | ok sso ↦ apply has_path written c rules sso file
        ]
      ]
    ]

    -- Set
    unfoldable pub set :
        Bool
        → Bool
        → Config
        → Store
        → Option Bytes
        → Store × Option Bytes × Result StoreError (Unit {0})
    unfolding set_normal normalize_config
    set has_path written c s file = set_normal has_path written (normalize_config c) s file
