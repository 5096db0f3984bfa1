-- ===== src/Auth/Gate/Tests.antt =====
-- Runs of the gate.
use wvpn.Base.{◌≡◌, refl, true, false, [], Option, some, ◌∷◌}
use wvpn.Text.{Bytes, codes, texts}
use wvpn.Auth.Gate.{
  Place, Parts, PageRequest, wants_html, require, to_login, unauthenticated, safe_next,
}

abbrev place : Place
place = record { login_origin = codes "https://app.gw.cn"; next_domain = codes "gw.cn" }

abbrev pathlike : Bytes → Option Parts
pathlike s = some (record { scheme = []; host = []; hostname = [] })

abbrev on_gateway : Bytes → Option Parts
on_gateway s =
    some (record { scheme = codes "https"; host = codes "x.gw.cn:1"; hostname = codes "x.gw.cn" })

abbrev page : PageRequest
page = record {
  method = codes "GET";
  requested_with = [];
  fetch_dest = codes "document";
  accept = [];
  tls = true;
  forwarded_proto = [];
  host = codes "x.gw.cn";
  uri = codes "/a";
}

gate_runs :
    (wants_html page ≡ true)
    × (wants_html (record page { method = codes "POST" }) ≡ false)
    × (require (λ s. s) place false false page
        ≡ to_login (codes "https://app.gw.cn/login?next=https://x.gw.cn/a"))
    × (require (λ s. s) place false true (record page { fetch_dest = codes "empty" })
        ≡ unauthenticated)
    × (safe_next pathlike place (codes "//evil") ≡ codes "https://app.gw.cn/")
    × (safe_next pathlike place (b'/' ∷ 92 ∷ codes "evil") ≡ b'/' ∷ 92 ∷ codes "evil")
    × (safe_next on_gateway place (codes "https://x.gw.cn:1/a") ≡ codes "https://x.gw.cn:1/a")
unfolding require safe_next texts
gate_runs = (refl, refl, refl, refl, refl, refl, refl)
