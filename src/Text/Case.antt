-- ===== src/Text/Case.antt =====
-- Trimming, lower case, and texts in which neither changes anything.
use wvpn.Base.{ℕ, ◌≡◌, refl, ap, ◌∙◌, Bool, false, [], ◌∷◌, arith, is_empty, All}
use wvpn.Text.{Bytes, trim_left, trim_right, trim_both, trim_space, is_space, lower, to_lower}
use wvpn.Text.Laws.{to_lower_idem}
use wvpn.Text.Trim.{trim_space_idem}

module _ (drops : ℕ → Bool) (same_drops : (c : ℕ) → drops (lower c) ≡ drops c) where
  trim_left-to_lower : (s : Bytes) → trim_left drops (to_lower s) ≡ to_lower (trim_left drops s)
  unfolding trim_left to_lower
  trim_left-to_lower [] = refl
  trim_left-to_lower (c ∷ s) = ground (arith, same_drops c, trim_left-to_lower s)

  is_empty-to_lower : (s : Bytes) → is_empty (to_lower s) ≡ is_empty s
  unfolding to_lower
  is_empty-to_lower [] = refl
  is_empty-to_lower (c ∷ s) = refl

  trim_right-to_lower : (s : Bytes) → trim_right drops (to_lower s) ≡ to_lower (trim_right drops s)
  unfolding trim_right to_lower
  trim_right-to_lower [] = refl
  trim_right-to_lower (c ∷ s) =
      ground (arith, same_drops c, trim_right-to_lower s, is_empty-to_lower (trim_right drops s))

  pub trim_both-to_lower : (s : Bytes) → trim_both drops (to_lower s) ≡ to_lower (trim_both drops s)
  unfolding trim_both
  trim_both-to_lower s =
      ap (trim_right drops) (trim_left-to_lower s) ∙ trim_right-to_lower (trim_left drops s)

is_space-lower : (c : ℕ) → is_space (lower c) ≡ is_space c
unfolding is_space lower
is_space-lower c = ground arith

pub trim_space-to_lower : (s : Bytes) → trim_space (to_lower s) ≡ to_lower (trim_space s)
unfolding trim_space
trim_space-to_lower s = trim_both-to_lower is_space is_space-lower s

-- strings.ToLower(strings.TrimSpace(s)), twice.
pub to_lower-trim_space_idem :
    (s : Bytes) → to_lower (trim_space (to_lower (trim_space s))) ≡ to_lower (trim_space s)
to_lower-trim_space_idem s =
    ap to_lower (trim_space-to_lower (trim_space s))
    ∙ (to_lower_idem (trim_space (trim_space s)) ∙ ap to_lower (trim_space_idem s))

-- No byte is dropped.
module _ (drops : ℕ → Bool) where
  left_none : (s : Bytes) → All (λ c. drops c ≡ false) s → trim_left drops s ≡ s
  unfolding trim_left
  left_none [] h = refl
  left_none (c ∷ s) (e, h) = rw e refl

  right_none : (s : Bytes) → All (λ c. drops c ≡ false) s → trim_right drops s ≡ s
  unfolding trim_right
  right_none [] h = refl
  right_none (c ∷ s) (e, h) = ground (arith, right_none s h)

  pub trim_both_none : (s : Bytes) → All (λ c. drops c ≡ false) s → trim_both drops s ≡ s
  unfolding trim_both
  trim_both_none s h = ap (trim_right drops) (left_none s h) ∙ right_none s h
