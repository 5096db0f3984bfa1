-- ===== src/Webvpn/Pages/Tests.antt =====
-- Runs of the memory of pages.
use wvpn.Base.{◌≡◌, refl, true, false, List, [], ◌∷◌, some, arith}
use wvpn.Text.{codes, same, texts}
use wvpn.Dict.{lookup, insert, sweep}
use wvpn.Webvpn.Pages.{record_page, current, is_document_request, max_pages}
use wvpn.Webvpn.Pages.Trail.{Visit, after, newest_document, IsSteady, record_page-newest_document}

abbrev some_visits : List Visit
some_visits =
    record { at = 3; key = codes "b"; target = codes "https://other/"; document = true }
    ∷ record { at = 2; key = codes "a"; target = codes "https://x/logo.png"; document = false }
    ∷ record { at = 1; key = codes "a"; target = codes "https://x/"; document = true }
    ∷ []

abbrev next_visit : Visit
next_visit = record { at = 4; key = codes "a"; target = codes "https://x/next"; document = true }

page_runs :
    ((record_page 4 (codes "a") (some (codes "https://x/next")) true (after some_visits)).1
      ≡ some (codes "https://x/"))
    × ((current 4 (codes "b") (after some_visits)).1 ≡ some (codes "https://other/"))
    × (is_document_request (codes "GET") (codes "iframe") (codes "text/html") ≡ false)
    × (is_document_request (codes "GET") [] (codes "a,text/html") ≡ true)
unfolding after record_page current texts lookup insert sweep max_pages is_document_request
page_runs = (refl, refl, refl, refl)

record_page-newest_document_example :
    (record_page 4 (codes "a") (some (codes "https://x/next")) true (after some_visits)).1
    ≡ newest_document (codes "a") some_visits
record_page-newest_document_example =
    record_page-newest_document next_visit some_visits
      (unfold after record_page max_pages texts lookup insert sweep in
        (omega arith, refl, (omega arith, refl, (omega arith, refl, (omega arith, refl, tt)))))
      (unfold IsSteady same in
        (omega arith, (omega arith, (omega arith, (omega arith, (omega arith, tt))))))
