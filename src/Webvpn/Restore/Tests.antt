-- ===== src/Webvpn/Restore/Tests.antt =====
-- Runs of restoring.
use wvpn.Base.{◌≤◌, ◌<◌, ◌≡◌, ◌⊎◌, refl, true, false, none, some, suc, length}
use wvpn.Text.{codes, texts}
use wvpn.Store.Config.{pos, negsuc}
use wvpn.Webvpn.Proxy.Samples.{site, handler}
use wvpn.Webvpn.Restore.{
  Body, abs_url, replace_urls, restore_targets, restore_query, restore_body, max_restore_body,
}
use wvpn.Webvpn.Restore.Parameters.{names, names-restore_query}
use wvpn.Webvpn.Restore.Buffer.{restore_body_cases}

restore_runs :
    (abs_url (codes "HTTPS://a/b c") ≡ some (codes "HTTPS://a/b"))
    × (abs_url (codes "http:// x") ≡ none)
    × (replace_urls (λ m. codes "U") 0 (codes "a http://b c") ≡ codes "a U c")
    × (restore_targets handler none (codes "x.cn") (codes "see https://x.cn/p")
        ≡ codes "see https://x.cn/p")
unfolding abs_url replace_urls restore_targets texts
restore_runs = (refl, refl, refl, refl)

names-restore_query_example :
    names (restore_query handler (some site) (codes "x.cn") (codes "u=https://gw.cn/&v=2"))
    ≡ names (codes "u=https://gw.cn/&v=2")
names-restore_query_example =
    names-restore_query handler (some site) (codes "x.cn") (λ v. tt) (codes "u=https://gw.cn/&v=2")

abbrev form : Body
form = record { present = true; content_length = negsuc 0; bytes = codes "u=1"; fails = false }

restore_body_cases_example :
    let content_type = codes "application/x-www-form-urlencoded" in
    let out = restore_body handler none (codes "gw.cn") content_type form in
    (((3 ≤ max_restore_body)
        × (out ≡ record form {
          bytes = restore_query handler none (codes "gw.cn") (codes "u=1");
          content_length = pos (length (restore_query handler none (codes "gw.cn") (codes "u=1")));
        }))
      ⊎ ((max_restore_body < 3) × (length out.bytes ≡ suc max_restore_body)))
restore_body_cases_example =
    restore_body_cases handler none (codes "gw.cn") (codes "application/x-www-form-urlencoded") form
      0 refl refl (unfold texts in refl) refl
