-- ===== src/Store/Headers/Safety.antt =====
-- What reaches a request: no rule that was accepted can carry a second header or one that is the
-- gateway's to set, and none is lost on the way.
use wvpn.Base.{
  passed, both_ok, ℕ, ◌≤◌, ◌≡◌, ◌≢◌, refl, ap, ◌∙◌, Bool, true, false, not, ◌||◌, List, [], ◌∷◌,
  Option, arith, Result, ok, err, is_empty, ltb, length, any, All, map, Bool-cases, inl, inr, ◌⊎◌,
}
use wvpn.Text.{Bytes, same}
use wvpn.Text.Laws.{same_iff}
use wvpn.Net.{Addr, Prefix, without_port}
use wvpn.Store.Sites.{SiteError, SiteRules, parse_sites, match_host, all_bytes}
use wvpn.Store.Headers.{
  HeaderRule, empty_site, bad_site, empty_name, bad_name, reserved, empty_value, long_value,
  bad_value, too_many_rules, max_header_value, max_header_name_len, max_header_rules,
  reserved_headers, token_byte, value_byte, valid_header_name, valid_header_value, site_parses,
  is_ok, compiled, validate_header_rule, validate_each, validate_header_rules, Compiled,
  compile_header_rules, matching, headers_for,
}

All-all_bytes : (p : ℕ → Bool) (s : Bytes) → all_bytes p s ≡ true → All (λ c. p c ≡ true) s
unfolding all_bytes
All-all_bytes p [] h = tt
All-all_bytes p (c ∷ s) h = ground (arith, All-all_bytes p s)

-- A byte that cannot end a header's line: no control character but the tab.
abbrev pub Printable : ℕ → Type 0
Printable c = ((32 ≤ c) ⊎ (c ≡ 9)) × (c ≢ 127)

All-value_byte : (s : Bytes) → All (λ c. value_byte c ≡ true) s → All Printable s
unfolding value_byte
All-value_byte [] h = tt
All-value_byte (c ∷ s) (p, h) = (ground arith, All-value_byte s h)

not-false : (b : Bool) → not b ≡ false → b ≡ true
not-false true h = refl
not-false false h = ground arith

either_false : (a b : Bool) → (a || b) ≡ false → (a ≡ false) × (b ≡ false)
either_false false b h = (refl, h)
either_false true b h = ground arith

in_length : (m n : ℕ) → ltb m n ≡ false → n ≤ m
in_length m n h = ground arith

valid_tokens : (s : Bytes) → not (valid_header_name s) ≡ false → All (λ c. token_byte c ≡ true) s
unfolding valid_header_name
valid_tokens s h = All-all_bytes token_byte s (ground arith)

valid_values : (s : Bytes) → not (valid_header_value s) ≡ false → All Printable s
unfolding valid_header_value
valid_values s h = All-value_byte s (All-all_bytes value_byte s (not-false _ h))

none_of : (x : Bytes) (hs : List Bytes) → any (λ h. same h x) hs ≡ false → All (λ h. h ≢ x) hs
none_of x [] h = tt
none_of x (y ∷ hs) h = (ground (arith, same_iff y x), none_of x hs (ground arith))

module _ (parse_prefix : Bytes → Option Prefix) (parse_addr : Bytes → Option Addr)
    (canonical : Bytes → Bytes) where
  -- A name that is a token and not the gateway's own, and a value that stays on its line.
  abbrev pub Safe : Bytes → Bytes → Type 0
  Safe name value =
      (is_empty name ≡ false)
      × All (λ c. token_byte c ≡ true) name
      × (length name ≤ max_header_name_len)
      × All (λ h. h ≢ canonical name) reserved_headers
      × (is_empty value ≡ false)
      × All Printable value
      × (length value ≤ max_header_value)

  rule_Safe :
      (r : HeaderRule)
      → validate_header_rule parse_prefix parse_addr canonical r ≡ ok tt
      → (site_parses parse_prefix parse_addr canonical r.site ≡ true) × Safe r.name r.value
  unfolding validate_header_rule
  rule_Safe r h =
      let (a, h1) = passed (is_empty r.site) empty_site _ h in
      let (b, h2) =
        passed (not (site_parses parse_prefix parse_addr canonical r.site)) bad_site _ h1 in
      let (c, h3) = passed (is_empty r.name) empty_name _ h2 in
      let (d, h4) =
        passed (ltb max_header_name_len (length r.name) || not (valid_header_name r.name)) bad_name
          _ h3 in
      let (e, h5) = passed (any (λ h. same h (canonical r.name)) reserved_headers) reserved _ h4 in
      let (f, h6) = passed (is_empty r.value) empty_value _ h5 in
      let (g, h7) = passed (ltb max_header_value (length r.value)) long_value _ h6 in
      let (i, h8) = passed (not (valid_header_value r.value)) bad_value _ h7 in
      (
        not-false _ b,
        (
          c,
          valid_tokens r.name (either_false _ _ d).1,
          in_length _ _ (either_false _ _ d).0,
          none_of (canonical r.name) reserved_headers e,
          f,
          valid_values r.value i,
          in_length _ _ g,
        ),
      )

  -- The headers of accepted rules, as they are set on a request.
  abbrev pub SafeAll : List (Bytes × Bytes) → Type 0
  SafeAll = All (λ h. Safe h.0 h.1)

  matching-compiled :
      (site : Result SiteError SiteRules) (r : HeaderRule)
      (rest : List (Compiled parse_prefix parse_addr canonical)) (host : Bytes)
      → Safe r.name r.value
      → SafeAll (matching parse_prefix parse_addr canonical rest host)
      → SafeAll (
          matching parse_prefix parse_addr canonical
            (compiled parse_prefix parse_addr canonical site r rest)
            host)
  unfolding matching
  matching-compiled (err e) r rest host s h = h
  matching-compiled (ok site) r rest host s h =
      elim (Bool-cases (match_host parse_addr site host)) [ inl m ↦ rw m (s, h) | inr m ↦ rw m h ]

  matching_Safe :
      (rules : List HeaderRule) (host : Bytes)
      → validate_each parse_prefix parse_addr canonical rules ≡ ok tt
      → SafeAll (
          matching parse_prefix parse_addr canonical
            (compile_header_rules parse_prefix parse_addr canonical rules)
            host)
  unfolding validate_each compile_header_rules matching
  matching_Safe [] host h = tt
  matching_Safe (r ∷ rules) host h =
      let (first, rest) = both_ok (validate_header_rule parse_prefix parse_addr canonical r) _ h in
      matching-compiled (parse_sites parse_prefix (r.site ∷ [])) r
        (compile_header_rules parse_prefix parse_addr canonical rules) host (rule_Safe r first).1
        (matching_Safe rules host rest)

  -- Every header that HeadersFor gives for a target, from rules that validateHeaderRules accepts, has a
  -- token of at most maxHeaderNameLen bytes for a name, which is not one of the gateway's own, and a
  -- value of one to MaxHeaderValue bytes, none of them a control character but the tab.
  pub headers_for-SafeAll :
      (rules : List HeaderRule) (host : Bytes)
      → validate_header_rules parse_prefix parse_addr canonical rules ≡ ok tt
      → SafeAll (
          headers_for parse_prefix parse_addr canonical
            (compile_header_rules parse_prefix parse_addr canonical rules)
            host)
  unfolding validate_header_rules headers_for
  headers_for-SafeAll rules host h =
      matching_Safe rules (without_port host)
        (passed (ltb max_header_rules (length rules)) too_many_rules _ h).1

  abbrev pub pair : Bytes → Bytes → Bytes × Bytes
  pair name value = (name, value)

  kept_rule :
      (site : Result SiteError SiteRules) (r : HeaderRule)
      (rest : List (Compiled parse_prefix parse_addr canonical))
      → is_ok site ≡ true
      → map (λ c. pair c.name c.value) (compiled parse_prefix parse_addr canonical site r rest)
        ≡ pair r.name r.value ∷ map (λ c. pair c.name c.value) rest
  kept_rule (ok site) r rest h = refl
  kept_rule (err e) r rest h = ground arith

  kept_rules :
      (rules : List HeaderRule)
      → validate_each parse_prefix parse_addr canonical rules ≡ ok tt
      → map
          (λ c. pair c.name c.value)
          (compile_header_rules parse_prefix parse_addr canonical rules)
        ≡ map (λ r. pair r.name r.value) rules
  unfolding validate_each compile_header_rules
  kept_rules [] h = refl
  kept_rules (r ∷ rules) h =
      let (first, rest) = both_ok (validate_header_rule parse_prefix parse_addr canonical r) _ h in
      kept_rule (parse_sites parse_prefix (r.site ∷ [])) r _ (rule_Safe r first).0
      ∙ ap (λ t. pair r.name r.value ∷ t) (kept_rules rules rest)

  -- Compiling loses no accepted rule and keeps their order.
  pub compile_header_rules-kept :
      (rules : List HeaderRule)
      → validate_header_rules parse_prefix parse_addr canonical rules ≡ ok tt
      → map
          (λ c. pair c.name c.value)
          (compile_header_rules parse_prefix parse_addr canonical rules)
        ≡ map (λ r. pair r.name r.value) rules
  unfolding validate_header_rules
  compile_header_rules-kept rules h =
      kept_rules rules (passed (ltb max_header_rules (length rules)) too_many_rules _ h).1
