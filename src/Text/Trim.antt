-- ===== src/Text/Trim.antt =====
-- Trimming: a trimmed text stays as it is, and white space at its ends is dropped.
use wvpn.Base.{
  ℕ, ◌≡◌, ◌≢◌, refl, ap, subst, ◌∙◌, Bool, false, and_false, ◌&&◌, [], ◌∷◌, ◌++◌, arith, Bool-cases,
  inl, inr, is_empty,
}
use wvpn.Text.{Bytes, trim_left, trim_right, trim_both, trim_space, is_space}
use wvpn.Text.Laws.{Lacks}

module _ (drops : ℕ → Bool) where
  pub trim_right_idem : (s : Bytes) → trim_right drops (trim_right drops s) ≡ trim_right drops s
  unfolding trim_right
  trim_right_idem [] = refl
  trim_right_idem (c ∷ s) = elim (Bool-cases (drops c && is_empty (trim_right drops s))) [
    | inl e ↦ rw e
    | inr e ↦ rw (e, trim_right) (rw (trim_right_idem s, e))
  ]

  -- The first byte, if there is one, is kept.
  abbrev pub KeepsHead : Bytes → Type 0
  KeepsHead [] = Unit
  KeepsHead (c ∷ s) = drops c ≡ false

  pub trim_left-KeepsHead : (s : Bytes) → KeepsHead (trim_left drops s)
  unfolding trim_left
  trim_left-KeepsHead [] = tt
  trim_left-KeepsHead (c ∷ s) = elim (Bool-cases (drops c)) [
    | inl e ↦ rw e (trim_left-KeepsHead s)
    | inr e ↦ rw e e
  ]

  pub trim_right-KeepsHead : (s : Bytes) → KeepsHead s → KeepsHead (trim_right drops s)
  unfolding trim_right
  trim_right-KeepsHead [] h = tt
  trim_right-KeepsHead (c ∷ s) h = rw h h

  pub trim_left_of_KeepsHead : (s : Bytes) → KeepsHead s → trim_left drops s ≡ s
  unfolding trim_left
  trim_left_of_KeepsHead [] h = refl
  trim_left_of_KeepsHead (c ∷ s) h = rw h

  pub trim_both_idem : (s : Bytes) → trim_both drops (trim_both drops s) ≡ trim_both drops s
  unfolding trim_both
  trim_both_idem s =
      ap (trim_right drops) (
        trim_left_of_KeepsHead _ (trim_right-KeepsHead (trim_left drops s) (trim_left-KeepsHead s)))
      ∙ trim_right_idem (trim_left drops s)

  pub trim_right-append :
      (x y : Bytes) → trim_right drops y ≢ [] → trim_right drops (x ++ y) ≡ x ++ trim_right drops y
  unfolding trim_right
  trim_right-append [] y h = refl
  trim_right-append (c ∷ x) y h =
      rw (trim_right-append x y h, not_empty x (trim_right drops y) h, and_false (drops c))
    where
      not_empty : (x r : Bytes) → r ≢ [] → is_empty (x ++ r) ≡ false
      not_empty [] [] h = absurd (h refl)
      not_empty [] (_ ∷ _) h = refl
      not_empty (_ ∷ _) r h = refl

  pub trim_left-Lacks : (b : ℕ) (s : Bytes) → Lacks b s → Lacks b (trim_left drops s)
  unfolding trim_left
  trim_left-Lacks b [] h = tt
  trim_left-Lacks b (c ∷ s) h = ground (arith, trim_left-Lacks b s h.1)

  pub trim_right-Lacks : (b : ℕ) (s : Bytes) → Lacks b s → Lacks b (trim_right drops s)
  unfolding trim_right
  trim_right-Lacks b [] h = tt
  trim_right-Lacks b (c ∷ s) h = ground (arith, trim_right-Lacks b s h.1)

pub trim_space-Lacks : (b : ℕ) (s : Bytes) → Lacks b s → Lacks b (trim_space s)
unfolding trim_space trim_both
trim_space-Lacks b s h =
    trim_right-Lacks is_space b (trim_left is_space s) (trim_left-Lacks is_space b s h)

pub trim_space_idem : (s : Bytes) → trim_space (trim_space s) ≡ trim_space s
unfolding trim_space
trim_space_idem s = trim_both_idem is_space s

-- A trimmed text.
abbrev pub IsTrimmed : Bytes → Type 0
IsTrimmed s = trim_space s ≡ s

-- A blank in front is dropped.
pub trim_space_blank : (s : Bytes) → trim_space (b' ' ∷ s) ≡ trim_space s
unfolding trim_space trim_both trim_left is_space
trim_space_blank s = refl

-- A text that starts with no space and ends trimmed is trimmed.
pub IsTrimmed-intro : (s : Bytes) → KeepsHead is_space s → trim_right is_space s ≡ s → IsTrimmed s
unfolding trim_space trim_both
IsTrimmed-intro s h e = rw (trim_left_of_KeepsHead is_space s h) e

pub trim_space-KeepsHead : (s : Bytes) → KeepsHead is_space (trim_space s)
unfolding trim_space trim_both
trim_space-KeepsHead s =
    trim_right-KeepsHead is_space (trim_left is_space s) (trim_left-KeepsHead is_space s)

pub trim_right-trim_space : (s : Bytes) → trim_right is_space (trim_space s) ≡ trim_space s
unfolding trim_space trim_both
trim_right-trim_space s = trim_right_idem is_space (trim_left is_space s)

pub IsTrimmed-trim_right : (s : Bytes) → IsTrimmed s → trim_right is_space s ≡ s
IsTrimmed-trim_right s h = subst (λ x. trim_right is_space x ≡ x) h (trim_right-trim_space s)
