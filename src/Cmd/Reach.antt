-- ===== src/Cmd/Reach.antt =====
-- The two phases of the guard together, with the store as its site policy.
use wvpn.Base.{
  ◌≡◌, ◌⊎◌, ◌↔◌, inl, inr, refl, Bool, true, false, not, ◌&&◌, List, [], ◌∷◌, Option, some, Result,
  ok, err, arith, is_empty, ◌>>=◌, ◌>>◌, reject_if, any, Option-cases,
}
use wvpn.Text.{Bytes}
use wvpn.Net.{Addr, without_port, Prefix, contains_addr, unmap}
use wvpn.Store.Sites
use wvpn.Store.Sites.{
  Policy, AccessMode, SiteRules, match_host, match_addr, no_rules, match_literal, plain_host,
  covers,
}
use wvpn.Webvpn.Guard.{
  SiteCheck, SitePolicy, Guard, GuardError, check_target, check_name, target_name, check_dial_addr,
  check_site, check_dial_site, check_addr, check_literal, host_matches, empty_host,
  not_on_allowlist, on_denylist,
}
use wvpn.Cmd.{site_policy, reach}

module _ (parse_addr : Bytes → Option Addr) where
  -- What the site list means: a denylist closes what it matches by name or by address, an allowlist
  -- opens only what it matches by one of them.
  abbrev pub SiteOpen : AccessMode → SiteRules → Bytes → Addr → Type 0
  SiteOpen AccessMode.off r name a = Unit
  SiteOpen AccessMode.denylist r name a =
      (match_host parse_addr r (without_port name) ≡ false) × (match_addr r a ≡ false)
  SiteOpen AccessMode.allowlist r name a =
      (match_host parse_addr r (without_port name) ≡ true) ⊎ (match_addr r a ≡ true)

  -- Rules that are empty match nothing.
  match_addr-no_nets : (r : SiteRules) (a : Addr) → is_empty r.nets ≡ true → match_addr r a ≡ false
  unfolding match_addr
  match_addr-no_nets r a e = by_nets r.nets e
    where
      by_nets :
          (ps : List Prefix) → is_empty ps ≡ true → any (λ p. contains_addr p (unmap a)) ps ≡ false
      by_nets [] e = refl
      by_nets (p ∷ ps) e = cc

  any_empty : {A : Type 0} (f : A → Bool) (xs : List A) → is_empty xs ≡ true → any f xs ≡ false
  any_empty f [] e = refl
  any_empty f (x ∷ xs) e = cc

  match_literal-no_nets :
      (r : SiteRules) (host : Bytes)
      → is_empty r.nets ≡ true
      → match_literal parse_addr r host ≡ false
  unfolding match_literal
  match_literal-no_nets r host e = elim (Option-cases (parse_addr host)) [
    | inl none' ↦ rw (none', match_literal) refl
    | inr (a, some') ↦ rw (some', match_literal) (match_addr-no_nets r a e)
  ]

  match_host-no_rules :
      (r : SiteRules) (host : Bytes) → no_rules r ≡ true → match_host parse_addr r host ≡ false
  unfolding match_host no_rules
  match_host-no_rules r host e =
      rw
        (
          any_empty (covers (plain_host host)) r.hosts (ground arith),
          match_literal-no_nets r (plain_host host) (ground arith),
        )
        refl

  -- The site policy's say in both phases.
  site_phases : Bytes → Addr → Policy → Result GuardError (Unit {0})
  site_phases name a p = do
    check ← check_site parse_addr false name (some (site_policy parse_addr p))
    check_dial_site a check (some (site_policy parse_addr p))

  no_rules-nets : (r : SiteRules) → no_rules r ≡ true → is_empty r.nets ≡ true
  unfolding no_rules
  no_rules-nets r e = ground arith

  site_phases_iff :
      (m : AccessMode) (r : SiteRules) (name : Bytes) (a : Addr)
      → (site_phases name a (record { mode = m; rules = r }) ≡ ok tt) ↔ SiteOpen m r name a
  unfolding site_phases check_site check_dial_site site_policy Sites.requires_match
      Sites.has_addr_rules Sites.host_verdict Sites.addr_verdict
  site_phases_iff AccessMode.off r name a = (λ h. tt, λ h. refl)
  site_phases_iff AccessMode.denylist r name a = (
    λ h. (
      ground (
        arith,
        match_host-no_rules r (without_port name),
        match_addr-no_nets r a,
        no_rules-nets r,
      ),
      ground (
        arith,
        match_host-no_rules r (without_port name),
        match_addr-no_nets r a,
        no_rules-nets r,
      ),
    ),
    λ h. ground arith,
  )
  site_phases_iff AccessMode.allowlist r name a = (
    λ h.
        ground (
          arith,
          match_host-no_rules r (without_port name),
          match_addr-no_nets r a,
          no_rules-nets r,
        ),
    λ h.
        ground (
          arith,
          match_host-no_rules r (without_port name),
          match_addr-no_nets r a,
          no_rules-nets r,
        ),
  )

  -- Sequences of checks pass when each of them does.
  module _ {A : Type 0} (f : A → Result GuardError (Unit {0})) where
    then_ok :
        (l : Result GuardError (Unit {0})) (r : Result GuardError A)
        → (((l >> r) >>= f) ≡ ok tt) ↔ ((l ≡ ok tt) × ((r >>= f) ≡ ok tt))
    then_ok (ok tt) r = (λ h. (refl, h), λ h. h.1)
    then_ok (err e) r = (λ h. cc, λ h. cc)

    check_between :
        (m : Result GuardError A) (k : Result GuardError (Unit {0}))
        → ((m >>= λ c. k >> f c) ≡ ok tt) ↔ ((k ≡ ok tt) × ((m >>= f) ≡ ok tt))
    check_between (ok c) (ok tt) = (λ h. (refl, h), λ h. h.1)
    check_between (ok c) (err e) = (λ h. cc, λ h. cc)
    check_between (err x) (ok tt) = (λ h. cc, λ h. cc)
    check_between (err x) (err e) = (λ h. cc, λ h. cc)

  reject_ok : (b : Bool) (e : GuardError) → (reject_if b e ≡ ok tt) ↔ (b ≡ false)
  reject_ok true e = (λ h. cc, λ h. cc)
  reject_ok false e = (λ h. refl, λ h. refl)

  listed_iff :
      (hosts : List Bytes) (m : Bool)
      → ((not (is_empty hosts) && not m) ≡ false) ↔ ((hosts ≡ []) ⊎ (m ≡ true))
  listed_iff [] m = (λ h. inl refl, λ h. refl)
  listed_iff (x ∷ hosts) m = (λ h. ground arith, λ h. ground arith)

  -- With administrators exempt, what the site policy says in both phases.
  site_part_iff :
      (p : Policy) (bypass : Bool) (name : Bytes) (a : Addr)
      → ((check_site parse_addr bypass name (some (site_policy parse_addr p)) >>= λ check.
            check_dial_site a check (some (site_policy parse_addr p)))
          ≡ ok tt)
        ↔ ((bypass ≡ true) ⊎ SiteOpen p.mode p.rules name a)
  site_part_iff p true name a = (λ h. inl refl, λ h. unfold check_site check_dial_site in refl)
  site_part_iff p false name a = (
    λ h. inr ((site_phases_iff p.mode p.rules name a).0 (unfold site_phases in h)),
    λ h. elim h [
      | inl e ↦ cc
      | inr o ↦ unfold site_phases in (site_phases_iff p.mode p.rules name a).1 o
    ],
  )

  -- When a request may reach an address: the operator's lists, the address policy and, but for
  -- administrators, the site list.
  pub record IsAdmitted (g : Guard) (p : Policy) (host : Bytes) (a : Addr) (bypass : Bool)
      : Type 0 where
    pub named : is_empty (target_name parse_addr host) ≡ false
    pub listed :
        (g.allow_hosts ≡ []) ⊎ (host_matches (target_name parse_addr host) g.allow_hosts ≡ true)
    pub not_denied : host_matches (target_name parse_addr host) g.deny_hosts ≡ false
    pub literal : check_literal parse_addr g (target_name parse_addr host) ≡ ok tt
    pub address : check_addr g a ≡ ok tt
    pub site : (bypass ≡ true) ⊎ SiteOpen p.mode p.rules (target_name parse_addr host) a

  -- The two phases let a request through exactly when it is admitted.
  pub reach_iff :
      (g : Guard) (p : Policy) (host : Bytes) (a : Addr) (bypass : Bool)
      → (reach parse_addr (record g { site = some (site_policy parse_addr p) }) host a bypass
          ≡ ok tt)
        ↔ IsAdmitted g p host a bypass
  unfolding reach check_target check_name check_dial_addr
  reach_iff g p host a bypass = (
    λ h.
        let (n, h1) = (then_ok dial (reject_if (is_empty name) empty_host) _).0 h in
        let (l, h2) = (then_ok dial (reject_if unlisted not_on_allowlist) _).0 h1 in
        let (d, h3) = (then_ok dial (reject_if denied on_denylist) _).0 h2 in
        let (i, h4) =
          (then_ok dial (check_literal parse_addr g name) (check_site parse_addr bypass name pol)).0
            h3 in
        let (c, h5) =
          (check_between (λ c. check_dial_site a c pol) (check_site parse_addr bypass name pol)
              (check_addr g a)).0
            h4 in
        record {
          named = (reject_ok _ _).0 n;
          listed = (listed_iff g.allow_hosts _).0 ((reject_ok _ _).0 l);
          not_denied = (reject_ok _ _).0 d;
          literal = i;
          address = c;
          site = (site_part_iff p bypass name a).0 h5;
        },
    λ h. (then_ok dial (reject_if (is_empty name) empty_host) _).1 (
      (reject_ok _ _).1 h.named,
      (then_ok dial (reject_if unlisted not_on_allowlist) _).1 (
        (reject_ok _ _).1 ((listed_iff g.allow_hosts _).1 h.listed),
        (then_ok dial (reject_if denied on_denylist) _).1 (
          (reject_ok _ _).1 h.not_denied,
          (then_ok dial (check_literal parse_addr g name) (check_site parse_addr bypass name pol)).1
              (
                h.literal,
                (check_between (λ c. check_dial_site a c pol)
                      (check_site parse_addr bypass name pol) (check_addr g a)).1
                    (h.address, (site_part_iff p bypass name a).1 h.site),
              ),
        ),
      ),
    ),
  )
    where
      name : Bytes
      name = target_name parse_addr host

      pol : Option SitePolicy
      pol = some (site_policy parse_addr p)

      dial : SiteCheck → Result GuardError (Unit {0})
      dial = λ check. check_dial_addr (record g { site = pol }) a check

      unlisted : Bool
      unlisted = not (is_empty g.allow_hosts) && not (host_matches name g.allow_hosts)

      denied : Bool
      denied = host_matches name g.deny_hosts
