-- ===== src/Store/Glob/Tests.antt =====
-- The glob theorems at concrete patterns, and runs of the matcher.
use wvpn.Base.{◌≡◌, ◌≢◌, ◌↔◌, refl, true, false, none, arith}
use wvpn.Text.{codes}
use wvpn.Store.Glob.{glob_loop, rounds, glob_match, match_pattern}
use wvpn.Store.Glob.Reference.{Matches}
use wvpn.Store.Glob.Laws.{glob_loop_ends}
use wvpn.Store.Glob.Complete.{glob_match_iff, glob_match_star_text}

glob_tests :
    (glob_match (codes "*@a.b") (codes "x@a@a.b") ≡ true)
    × (glob_match (codes "*@a.b") (codes "x@a.bc") ≡ false)
    × (glob_match (codes "a?c*") (codes "abc") ≡ true)
    × (match_pattern (codes " *@A.b ") (codes "X@a.B") ≡ true)
    × (match_pattern (codes "*") (codes "") ≡ false)
unfolding glob_match match_pattern
glob_tests = (refl, refl, refl, refl, refl)

glob_loop_ends_example :
    glob_loop (rounds (codes "*a*b") (codes "aab")) (codes "*a*b") (codes "aab") none ≢ none
glob_loop_ends_example = glob_loop_ends (codes "*a*b") (codes "aab")

glob_match_iff_example :
    (glob_match (codes "*@a.b") (codes "x@a.b") ≡ true) ↔ Matches (codes "*@a.b") (codes "x@a.b")
glob_match_iff_example = glob_match_iff (codes "*@a.b") (codes "x@a.b") (omega arith)

glob_match_star_text_example :
    (glob_match (codes "*") (codes "*@a") ≡ false) × Matches (codes "*") (codes "*@a")
glob_match_star_text_example = glob_match_star_text b'@' (codes "a")
