-- ===== src/Webvpn/Jars/Tests.antt =====
-- Runs of the table of jars.
use wvpn.Base.{◌≡◌, refl, true, List, [], ◌∷◌, none, some}
use wvpn.Text.{codes, texts}
use wvpn.Dict.{lookup, insert, sweep}
use wvpn.Webvpn.Jars.{get, lookup_jar, session_key, max_jars, jar_pairs}
use wvpn.Webvpn.Jars.Isolation.{Use, gets, looks, after, get-get}

abbrev some_uses : List Use
some_uses = looks 3 (codes "a") ∷ gets 2 (codes "b") true ∷ gets 1 (codes "a") true ∷ []

jar_runs :
    ((get 4 (codes "b") true (after some_uses)).1 ≡ some 1)
    × ((get 4 (codes "c") true (after some_uses)).1 ≡ some 2)
    × ((lookup_jar 4 (codes "c") (after some_uses)).1 ≡ none)
unfolding after get lookup_jar texts lookup insert sweep max_jars
jar_runs = (refl, refl, refl)

session_key_run : session_key (λ s. s) (codes "wvsid") (codes "x=1; wvsid=tok; y") ≡ codes "tok"
unfolding session_key texts
session_key_run = refl

jar_pairs_run :
    jar_pairs (codes "a" ∷ []) ((codes "a", codes "1") ∷ (codes "b", codes "2") ∷ [])
    ≡ codes "b=2" ∷ []
unfolding jar_pairs texts
jar_pairs_run = refl

get-get_example : codes "b" ≡ codes "b"
get-get_example =
    get-get 4 5 (codes "b") (codes "b") true true some_uses 1
      (unfold after get lookup_jar texts lookup insert sweep max_jars in refl)
      (unfold after get lookup_jar texts lookup insert sweep max_jars in refl)
