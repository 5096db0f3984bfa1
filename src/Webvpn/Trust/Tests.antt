-- ===== src/Webvpn/Trust/Tests.antt =====
-- Runs of the store of certificates and of the redirect.
use wvpn.Base.{
  ◌≡◌, ◌↔◌, refl, ◌⊎◌, true, false, List, [], ◌∷◌, Option, none, some, arith, if◌then◌else◌,
}
use wvpn.Text.{Bytes, codes, same, texts}
use wvpn.Net.{without_port}
use wvpn.Dict.{lookup, insert, delete, sweep}
use wvpn.Webvpn.Codec.{host_only}
use wvpn.Webvpn.Trust.{offer, confirm, trusted, dial_tls, safe_return}
use wvpn.Webvpn.Trust.History.{
  Step, offers, confirms, after, Confirmed, dial_tls-Confirmed, trusted-confirm, empty_store,
}
use wvpn.Webvpn.Trust.Redirect.{On, safe_return_iff}

abbrev some_steps : List Step
some_steps = confirms 9 (codes "h:443") (codes "AA") ∷ offers 5 (codes "h:443") (codes "AA") ∷ []

dial_tls-Confirmed_example :
    (false ≡ true) ⊎ ((false ≡ true) ⊎ Confirmed (codes "h:443") (codes "AA") some_steps)
dial_tls-Confirmed_example =
    dial_tls-Confirmed false false (codes "h:443") (codes "AA") some_steps refl
      (unfold after offer confirm trusted dial_tls texts lookup insert delete sweep in refl)

trusted-confirm_example :
    ((confirm 9 (codes "h:443") (codes "AA") (offer 5 (codes "h:443") (codes "AA") empty_store)).1
      ≡ true)
    × (trusted
          (codes "h:443")
          (codes "BB")
          (confirm 9
            (codes "h:443")
            (codes "AA")
            (offer 5 (codes "h:443") (codes "AA") empty_store)).0
        ≡ (if same (codes "h:443") (codes "h:443")
            then same (codes "AA") (codes "BB")
            else trusted (codes "h:443") (codes "BB") empty_store))
trusted-confirm_example =
    trusted-confirm 5 9 (codes "h:443") (codes "AA") (codes "h:443") (codes "BB") empty_store
      (omega arith) refl

-- A parser that knows one URL.
abbrev one_url : Bytes → Option (Bytes × Bytes)
one_url s = if same s (codes "https://x.y.z/") then some (codes "https", codes "x.y.z") else none

safe_return_run :
    (safe_return one_url (codes "https://x.y.z/") (codes "gw.y.z:8080") ≡ codes "https://x.y.z/")
    × (safe_return one_url (codes "https://x.y.z/") (codes "gw.other:8080") ≡ codes "/")
    × (safe_return one_url (codes "/a") (codes "gw") ≡ codes "/a")
    × (safe_return one_url (codes "//a") (codes "gw") ≡ codes "/")
unfolding safe_return texts host_only without_port
safe_return_run = (refl, refl, refl, refl)

safe_return_iff_example :
    (safe_return one_url (codes "https://x.y.z/") (codes "gw.z") ≡ codes "https://x.y.z/")
    ↔ On one_url (codes "z") (codes "https://x.y.z/")
safe_return_iff_example =
    safe_return_iff one_url (codes "https://x.y.z/") (codes "gw.z") (codes "gw") (codes "z") refl
      (unfold texts in refl) refl (omega arith, (omega arith, tt))
      (unfold host_only texts without_port in refl)
