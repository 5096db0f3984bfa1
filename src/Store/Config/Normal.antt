-- ===== src/Store/Config/Normal.antt =====
-- normalizeConfig leaves a configuration alone that Validate has accepted in its normal form.
use wvpn.Base.{
  ℕ, ◌≡◌, refl, ap, ◌∙◌, true, false, not, ◌&&◌, List, [], ◌∷◌, arith, ok, ◌>>◌, is_empty,
  Bool-cases, inl, inr, ◌==◌, All, both_ok,
}
use wvpn.Text.{Bytes, codes, same, trim_space, trim_both, to_lower, is_space, lower, split}
use wvpn.Text.Laws.{to_lower_idem}
use wvpn.Text.Trim.{trim_space_idem, trim_both_idem}
use wvpn.Text.Case.{trim_both-to_lower, to_lower-trim_space_idem, trim_both_none}
use wvpn.Text.Parts.{All-split_of}
use wvpn.Store.Sites.{all_bytes}
use wvpn.Store.Headers.{HeaderRule, normalize_header_rules}
use wvpn.Store.Config.{
  ℤ, pos, negsuc, Bookmark, Group, Gateway, Tls, Smtp, Config, mode, cleaned, stripped, clean_loop,
  clean_patterns, normalize_items, normalize_groups, nonnegative, access_mode, sso_mode,
  public_scheme, normalize_gateway, normalize_tls, normalize_smtp, normalize_config, clone,
}
use wvpn.Store.Config.Domain.{alnum, label_byte, is_label, all_labels, is_domain}
use wvpn.Store.Config.Validate.{
  Libs, validate, validate_lists, validate_tls, validate_smtp, validate_gateway,
}

clean_loop_idem : (ps seen : List Bytes) → clean_loop seen (clean_loop seen ps) ≡ clean_loop seen ps
unfolding clean_loop
clean_loop_idem [] seen = refl
clean_loop_idem (p ∷ ps) seen = ground (
  arith,
  clean_loop_idem ps seen,
  clean_loop_idem ps (cleaned p ∷ seen),
  to_lower-trim_space_idem p,
)

clean_patterns_idem : (ps : List Bytes) → clean_patterns (clean_patterns ps) ≡ clean_patterns ps
unfolding clean_patterns
clean_patterns_idem ps = clean_loop_idem ps []

normalize_items_idem :
    (bs : List Bookmark) → normalize_items (normalize_items bs) ≡ normalize_items bs
unfolding normalize_items
normalize_items_idem [] = refl
normalize_items_idem (b ∷ bs) = ground (
  arith,
  normalize_items_idem bs,
  trim_space_idem b.name,
  trim_space_idem b.url,
  trim_space_idem b.note,
)

normalize_groups_idem :
    (gs : List Group) → normalize_groups (normalize_groups gs) ≡ normalize_groups gs
unfolding normalize_groups
normalize_groups_idem [] = refl
normalize_groups_idem (g ∷ gs) =
    ground (arith, normalize_groups_idem gs, trim_space_idem g.name, normalize_items_idem g.items)

normalize_header_rules_idem :
    (rules : List HeaderRule)
    → normalize_header_rules (normalize_header_rules rules) ≡ normalize_header_rules rules
unfolding normalize_header_rules
normalize_header_rules_idem [] = refl
normalize_header_rules_idem (r ∷ rules) = ground (
  arith,
  normalize_header_rules_idem rules,
  to_lower-trim_space_idem r.site,
  trim_space_idem r.name,
  trim_space_idem r.value,
)

label_byte-not_space : (c : ℕ) → label_byte c ≡ true → is_space c ≡ false
unfolding label_byte alnum is_space
label_byte-not_space c h = ground arith

label_bytes : (s : Bytes) → all_bytes label_byte s ≡ true → All (λ c. is_space c ≡ false) s
unfolding all_bytes
label_bytes [] h = tt
label_bytes (c ∷ s) h = elim (Bool-cases (label_byte c)) [
  | inl e ↦ (label_byte-not_space c e, label_bytes s (ground arith))
  | inr e ↦ ground arith
]

is_label-bytes : (s : Bytes) → is_label s ≡ true → all_bytes label_byte s ≡ true
unfolding is_label all_bytes
is_label-bytes [] h = refl
is_label-bytes (c ∷ s) h = ground arith

labels : (ls : List Bytes) → all_labels ls ≡ true → All (All (λ c. is_space c ≡ false)) ls
unfolding all_labels
labels [] h = tt
labels (l ∷ ls) h = elim (Bool-cases (is_label l)) [
  | inl e ↦ (label_bytes l (is_label-bytes l e), labels ls (ground arith))
  | inr e ↦ ground arith
]

-- There is no space in a domain.
is_domain-trim_space : (s : Bytes) → is_domain s ≡ true → trim_space s ≡ s
unfolding is_domain trim_space
is_domain-trim_space s h = trim_both_none is_space s (
    All-split_of (λ c. is_space c ≡ false) b'.' (unfold is_space in refl) s
      (labels (split b'.' s) (ground arith)))

stripped_idem :
    (b : ℕ) (s : Bytes)
    → ((c : ℕ) → (lower c == b) ≡ (c == b))
    → trim_space (stripped b s) ≡ stripped b s
    → stripped b (stripped b s) ≡ stripped b s
stripped_idem b s same_byte h =
    ap (λ t. to_lower (trim_both (λ c. c == b) t)) h
    ∙ (ap to_lower
          (trim_both-to_lower (λ c. c == b) same_byte (trim_both (λ c. c == b) (trim_space s)))
        ∙ (to_lower_idem (trim_both (λ c. c == b) (trim_both (λ c. c == b) (trim_space s)))
            ∙ ap to_lower (trim_both_idem (λ c. c == b) (trim_space s))))

lower-dot : (c : ℕ) → (lower c == b'.') ≡ (c == b'.')
unfolding lower
lower-dot c = ground arith

lower-at : (c : ℕ) → (lower c == b'@') ≡ (c == b'@')
unfolding lower
lower-at c = ground arith

-- A setting that is empty or a domain.
optional_domain : (s : Bytes) → (not (is_empty s) && not (is_domain s)) ≡ false → trim_space s ≡ s
optional_domain [] h = unfold trim_space in refl
optional_domain (c ∷ s) h = is_domain-trim_space (c ∷ s) (ground arith)

-- A mode that has been read once is read the same again.
pub mode_idem : (s t : Smtp) → t.tls_mode ≡ mode s → t.implicit_tls ≡ false → mode t ≡ mode s
unfolding mode same
mode_idem s t h i = ground arith

normalize_tls_idem : (t : Tls) → normalize_tls (normalize_tls t) ≡ normalize_tls t
unfolding normalize_tls
normalize_tls_idem t = rw (trim_space_idem t.cert, trim_space_idem t.key) refl

normalize_smtp_idem : (s : Smtp) → normalize_smtp (normalize_smtp s) ≡ normalize_smtp s
unfolding normalize_smtp
normalize_smtp_idem s =
    rw
      (
        trim_space_idem s.addr,
        trim_space_idem s.sender,
        trim_space_idem s.username,
        trim_space_idem s.helo,
        mode_idem s (normalize_smtp s) refl refl,
      )
      refl

public_scheme_idem : (s : Bytes) → public_scheme (public_scheme s) ≡ public_scheme s
unfolding same to_lower trim_space
public_scheme_idem s = elim (Bool-cases (same (cleaned s) (codes "https"))) [
  | inl e ↦ rw e refl
  | inr e ↦ rw e refl
]

access_mode_idem : (m : Bytes) → access_mode (access_mode m) ≡ access_mode m
unfolding same
access_mode_idem m = ground arith

sso_mode_idem : (m : Bytes) → sso_mode (sso_mode m) ≡ sso_mode m
unfolding same
sso_mode_idem m = ground arith

-- The names in a gateway that validateGateway accepts.
validate_gateway-names :
    (g : Gateway)
    → validate_gateway g ≡ ok tt
    → (trim_space g.base_domain ≡ g.base_domain) × (trim_space g.host ≡ g.host)
unfolding validate_gateway
validate_gateway-names g h =
    let base : (not (is_empty g.base_domain) && not (is_domain g.base_domain)) ≡ false =
      ground arith in
    let host : (not (is_empty g.host) && not (is_domain g.host)) ≡ false = ground arith in
    (optional_domain g.base_domain base, optional_domain g.host host)

normalize_gateway_idem :
    (g : Gateway)
    → validate_gateway (normalize_gateway g) ≡ ok tt
    → normalize_gateway (normalize_gateway g) ≡ normalize_gateway g
unfolding normalize_gateway
normalize_gateway_idem g h =
    let (base, host) = validate_gateway-names (normalize_gateway g) h in
    rw
      (
        to_lower-trim_space_idem g.url_mode,
        stripped_idem b'.' g.base_domain lower-dot base,
        stripped_idem b'.' g.host lower-dot host,
        trim_space_idem g.public_port,
        public_scheme_idem g.public_scheme,
      )
      refl

module _ (libs : Libs) where
  validate_lists-domain :
      (c : Config) → validate_lists libs c ≡ ok tt → trim_space c.default_domain ≡ c.default_domain
  unfolding validate_lists
  validate_lists-domain c h = optional_domain c.default_domain (ground arith)

  -- What a configuration that Validate accepts says about its names.
  validate-names :
      (c : Config)
      → validate libs c ≡ ok tt
      → (trim_space c.default_domain ≡ c.default_domain) × (validate_gateway c.gateway ≡ ok tt)
  unfolding validate
  validate-names c h =
      let (lists, rest) =
        both_ok (validate_lists libs c)
          (validate_gateway c.gateway >> (validate_tls libs c.tls >> validate_smtp libs c.smtp))
          h in
      let (gateway, _) =
        both_ok (validate_gateway c.gateway) (validate_tls libs c.tls >> validate_smtp libs c.smtp)
          rest in
      (validate_lists-domain c lists, gateway)

  nonnegative_idem : (n : ℤ) → nonnegative (nonnegative n) ≡ nonnegative n
  nonnegative_idem (pos n) = refl
  nonnegative_idem (negsuc n) = refl

  -- A copy of a configuration in normal form that Validate accepts is that configuration.
  pub clone-normalize_config :
      (c : Config)
      → validate libs (normalize_config c) ≡ ok tt
      → clone (normalize_config c) ≡ normalize_config c
  unfolding clone normalize_config
  clone-normalize_config c h =
      let (_, gateway) = validate-names (normalize_config c) h in
      rw
        (
          normalize_gateway_idem c.gateway gateway,
          normalize_tls_idem c.tls,
          normalize_smtp_idem c.smtp,
        )
        refl

  -- Normalising a configuration again changes nothing where Validate accepts it in its normal form.
  pub normalize_config_idem :
      (c : Config)
      → validate libs (normalize_config c) ≡ ok tt
      → normalize_config (normalize_config c) ≡ normalize_config c
  unfolding normalize_config
  normalize_config_idem c h =
      let (domain, gateway) = validate-names (normalize_config c) h in
      rw
        (
          stripped_idem b'@' c.default_domain lower-at domain,
          clean_patterns_idem c.allowed_users,
          clean_patterns_idem c.admins,
          access_mode_idem c.access.mode,
          clean_patterns_idem c.access.sites,
          sso_mode_idem c.sso.mode,
          clean_patterns_idem c.sso.hosts,
          normalize_header_rules_idem c.headers,
          nonnegative_idem c.policy.session_minutes,
          normalize_groups_idem c.bookmarks,
          normalize_gateway_idem c.gateway gateway,
          normalize_tls_idem c.tls,
          normalize_smtp_idem c.smtp,
        )
        refl
