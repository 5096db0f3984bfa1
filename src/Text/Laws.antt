-- ===== src/Text/Laws.antt =====
-- Laws of the text functions.
use wvpn.Base.{ℕ, ◌≡◌, ◌≢◌, ◌↔◌, refl, true, false, [], ◌∷◌, ◌++◌, arith, All, Bool-cases, inl, inr}
use wvpn.Text.{Bytes, same, cut, lower, to_lower}

pub same_refl : (s : Bytes) → same s s ≡ true
unfolding same
same_refl [] = refl
same_refl (a ∷ s) = ground (arith, same_refl s)

pub same→eq : (s t : Bytes) → same s t ≡ true → s ≡ t
unfolding same
same→eq [] [] h = refl
same→eq [] (b ∷ t) h = cc
same→eq (a ∷ s) [] h = cc
same→eq (a ∷ s) (b ∷ t) h = ground (arith, same→eq s t)

pub same_iff : (s t : Bytes) → (same s t ≡ true) ↔ (s ≡ t)
same_iff s t = (same→eq s t, λ e. subst_same e)
  where
    subst_same : s ≡ t → same s t ≡ true
    subst_same e = rw e (same_refl t)

-- No byte of the text is `b`.
abbrev pub Lacks : ℕ → Bytes → Type 0
Lacks b = All (λ c. c ≢ b)

pub Lacks-append : (b : ℕ) (s t : Bytes) → Lacks b s → Lacks b t → Lacks b (s ++ t)
Lacks-append b [] t h k = k
Lacks-append b (c ∷ s) t (n, h) k = (n, Lacks-append b s t h k)

pub cut_at : (sep : ℕ) (s t : Bytes) → Lacks sep s → cut sep (s ++ sep ∷ t) ≡ (s, t, true)
unfolding cut
cut_at sep [] t h = ground arith
cut_at sep (c ∷ s) t (p, h) = ground (arith, cut_at sep s t h)

pub cut_none : (sep : ℕ) (s : Bytes) → Lacks sep s → cut sep s ≡ (s, [], false)
unfolding cut
cut_none sep [] h = refl
cut_none sep (c ∷ s) (p, h) = ground (arith, cut_none sep s h)

pub lower_idem : (c : ℕ) → lower (lower c) ≡ lower c
unfolding lower
lower_idem c = ground arith

pub to_lower_idem : (s : Bytes) → to_lower (to_lower s) ≡ to_lower s
unfolding to_lower
to_lower_idem [] = refl
to_lower_idem (c ∷ s) = cc (lower_idem c, to_lower_idem s)

pub same-false : (s t : Bytes) → s ≢ t → same s t ≡ false
same-false s t n = elim (Bool-cases (same s t)) [ inl e ↦ absurd (n (same→eq s t e)) | inr e ↦ e ]

pub ne_of_same : (s t : Bytes) → same s t ≡ false → s ≢ t
ne_of_same s t h e = cc ((same_iff s t).1 e)
