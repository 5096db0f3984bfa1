-- ===== src/Store/Config/Patterns.antt =====
-- A text matches itself, and a pattern list still matches what one of its patterns was before it was
-- cleaned.
use wvpn.Base.{
  ℕ, zero, suc, ◌<◌, ◌≡◌, refl, true, false, ◌||◌, [], ◌∷◌, ◌++◌, List, length, arith, is_empty,
  any, some, none,
}
use wvpn.Text.{Bytes, same}
use wvpn.Text.Laws.{same→eq}
use wvpn.Text.Case.{to_lower-trim_space_idem}
use wvpn.Store.Glob.{only_stars, Star, glob_loop, rounds, glob_match, match_pattern, match_any}
use wvpn.Store.Config.{cleaned, clean_loop, clean_patterns}

glob_loop_self : (f : ℕ) (s : Bytes) (star : Star) → length s < f → glob_loop f s s star ≡ some true
unfolding glob_loop only_stars
glob_loop_self zero s star h = elim h [ ]
glob_loop_self (suc f) [] star h = refl
glob_loop_self (suc f) (c ∷ s) star h = ground (arith, glob_loop_self f s star)

glob_match_self : (s : Bytes) → glob_match s s ≡ true
unfolding glob_match
glob_match_self s = rw (glob_loop_self (rounds s s) s none (grind arith)) refl

match_pattern-cleaned :
    (s : Bytes) → is_empty (cleaned s) ≡ false → match_pattern (cleaned s) s ≡ true
unfolding match_pattern
match_pattern-cleaned s h = rw (to_lower-trim_space_idem s, h, glob_match_self (cleaned s)) refl

clean_loop-match :
    (a : Bytes)
    → is_empty (cleaned a) ≡ false
    → (xs seen : List Bytes)
    → (any (λ q. same q (cleaned a)) seen || match_any (clean_loop seen (xs ++ (a ∷ []))) a) ≡ true
unfolding clean_loop match_any
clean_loop-match a h [] seen = ground (arith, match_pattern-cleaned a h)
clean_loop-match a h (x ∷ xs) seen = ground (
  arith,
  clean_loop-match a h xs seen,
  clean_loop-match a h xs (cleaned x ∷ seen),
  same→eq (cleaned x) (cleaned a),
  match_pattern-cleaned a h,
)

-- What stands at the end of a list of patterns matches the cleaned list.
pub match_any-clean_patterns :
    (a : Bytes) (xs : List Bytes)
    → is_empty (cleaned a) ≡ false
    → match_any (clean_patterns (xs ++ (a ∷ []))) a ≡ true
unfolding clean_patterns
match_any-clean_patterns a xs h = clean_loop-match a h xs []
