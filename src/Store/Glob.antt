-- ===== src/Store/Glob.antt =====
-- internal/store/store.go: MatchPattern, globMatch and matchAny.
pub mod Laws
pub mod Complete
pub mod Reference
mod Tests
use wvpn.Base.{
  ℕ, zero, suc, ◌+◌, ◌*◌, Bool, true, false, ◌||◌, ◌&&◌, List, [], ◌∷◌, Option, none, some, ◌==◌,
  if◌then◌else◌, length, is_empty,
}
use wvpn.Text.{Bytes, to_lower, trim_space}

-- The tail of globMatch: the rest of the pattern is stars.
unfoldable pub only_stars : Bytes → Bool
only_stars [] = true
only_stars (c ∷ p) = c == b'*' && only_stars p

-- The pattern behind the last star and the text at `mark`, once there has been a star.
abbrev pub Star : Type 0
Star = Option (Bytes × Bytes)

-- `case star >= 0`: the mark moves on by one byte, and the match is tried again from there.
unfoldable pub retry : (Bytes → Bytes → Star → Option Bool) → Star → Option Bool
retry again none = some false
retry again (some (sp, [])) = some false
retry again (some (sp, _ ∷ ms)) = again sp ms (some (sp, ms))

-- The loop of globMatch. The indices pi, si, star + 1 and mark are the suffixes that they start;
-- `none` means that the fuel ran out.
unfoldable pub glob_loop : ℕ → Bytes → Bytes → Star → Option Bool
glob_loop zero p s star = none
glob_loop (suc f) p [] star = some (only_stars p)
glob_loop (suc f) [] (d ∷ s) star = retry (glob_loop f) star
glob_loop (suc f) (c ∷ p) (d ∷ s) star =
    let both = glob_loop f p s star in
    let open_star = glob_loop f p (d ∷ s) (some (p, d ∷ s)) in
    let back = retry (glob_loop f) star in
    if c == b'?' || c == d then both else if c == b'*' then open_star else back

-- Rounds that suffice for this pattern and text.
abbrev pub rounds : Bytes → Bytes → ℕ
rounds p s = suc ((length s + 1) * (length p + 1) + length p)

abbrev pub answer : Option Bool → Bool
answer none = false
answer (some b) = b

unfoldable pub glob_match : Bytes → Bytes → Bool
unfolding glob_loop retry only_stars
glob_match p s = answer (glob_loop (rounds p s) p s none)

unfoldable pub match_pattern : Bytes → Bytes → Bool
unfolding to_lower trim_space
match_pattern pattern email =
    let p = to_lower (trim_space pattern) in
    let e = to_lower (trim_space email) in
    if is_empty p || is_empty e then false else glob_match p e

unfoldable pub match_any : List Bytes → Bytes → Bool
match_any [] email = false
match_any (p ∷ ps) email = match_pattern p email || match_any ps email
