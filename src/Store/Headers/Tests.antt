-- ===== src/Store/Headers/Tests.antt =====
-- Runs of the header rules.
use wvpn.Base.{◌≡◌, refl, List, [], ◌∷◌, Option, none, ok, err}
use wvpn.Text.{Bytes, codes, texts}
use wvpn.Net.{Addr, Prefix, without_port}
use wvpn.Store.Sites.{parse_sites, match_host}
use wvpn.Store.Headers.{
  HeaderRule, validate_header_rules, compile_header_rules, headers_for, normalize_header_rules,
  bad_value, reserved, valid_header_name, valid_header_value,
}
use wvpn.Store.Headers.Safety.{SafeAll, headers_for-SafeAll}

abbrev no_prefix : Bytes → Option Prefix
no_prefix s = none

abbrev no_addr : Bytes → Option Addr
no_addr s = none

-- A canonical form that is enough for the names below.
abbrev as_is : Bytes → Bytes
as_is s = s

abbrev some_rules : List HeaderRule
some_rules =
    record { site = codes "*.x.cn"; name = codes "X-Env"; value = codes "test" }
    ∷ record { site = codes "y.cn"; name = codes "X-Key"; value = codes "k" }
    ∷ []

rule_runs :
    (validate_header_rules no_prefix no_addr as_is some_rules ≡ ok tt)
    × (validate_header_rules no_prefix no_addr as_is
          (record { site = codes "x"; name = codes "Host"; value = codes "v" } ∷ [])
        ≡ err reserved)
    × (validate_header_rules no_prefix no_addr as_is
          (record { site = codes "x"; name = codes "A"; value = 13 ∷ 10 ∷ [] } ∷ [])
        ≡ err bad_value)
    × (normalize_header_rules (
          record { site = codes " X "; name = codes "A"; value = [] }
          ∷ record { site = []; name = codes " "; value = [] }
          ∷ [])
        ≡ record { site = codes "x"; name = codes "A"; value = [] } ∷ [])
unfolding validate_header_rules normalize_header_rules texts parse_sites valid_header_name
    valid_header_value
rule_runs = (refl, refl, refl, refl)

headers_for_run :
    headers_for no_prefix no_addr as_is
      (compile_header_rules no_prefix no_addr as_is some_rules)
      (codes "a.x.cn:80")
    ≡ (codes "X-Env", codes "test") ∷ []
unfolding headers_for compile_header_rules texts parse_sites match_host without_port
headers_for_run = refl

headers_for-SafeAll_example : SafeAll no_prefix no_addr as_is (
    headers_for no_prefix no_addr as_is
      (compile_header_rules no_prefix no_addr as_is some_rules)
      (codes "a.x.cn:80"))
headers_for-SafeAll_example =
    headers_for-SafeAll no_prefix no_addr as_is some_rules (codes "a.x.cn:80")
      (unfold validate_header_rules texts parse_sites valid_header_name valid_header_value in refl)
