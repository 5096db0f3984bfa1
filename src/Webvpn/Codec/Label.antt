-- ===== src/Webvpn/Codec/Label.antt =====
-- A hostname that is spelled as a label is read back.
mod Tests
use wvpn.Base.{
  ℕ, ◌≡◌, ◌≢◌, refl, ap, sym, subst, ◌∙◌, Bool, true, false, not, List, [], ◌∷◌, ◌++◌, arith, ◌==◌,
  if◌then◌else◌, Bool-cases, inl, inr,
}
use wvpn.Text.{Bytes, codes}
use wvpn.Webvpn.Codec.{replace_all, escape, unescape}

-- The text does not start with "-" or ".".
abbrev pub Undashed : Bytes → Type 0
Undashed [] = Unit
Undashed (c ∷ s) = (c ≢ b'-') × (c ≢ b'.')

-- No "." has a "-" or another "." behind it, which no name that DNS serves has.
abbrev pub Separated : Bytes → Type 0
Separated [] = Unit
Separated (c ∷ s) = (c ≡ b'.' → Undashed s) × Separated s

escape-dash : (s : Bytes) → escape (b'-' ∷ s) ≡ b'-' ∷ b'-' ∷ escape s
unfolding escape replace_all
escape-dash s = refl

escape-dot : (s : Bytes) → escape (b'.' ∷ s) ≡ b'-' ∷ escape s
unfolding escape replace_all
escape-dot s = refl

escape_plain : (c : ℕ) (s : Bytes) → c ≢ b'-' → c ≢ b'.' → escape (c ∷ s) ≡ c ∷ escape s
unfolding escape replace_all
escape_plain c s h k = ground arith

unescape_plain : (c : ℕ) (s : Bytes) → c ≢ b'-' → unescape (c ∷ s) ≡ c ∷ unescape s
unfolding unescape
unescape_plain c [] h = ground arith
unescape_plain c (d ∷ s) h = ground arith

unescape-dashes : (s : Bytes) → unescape (b'-' ∷ b'-' ∷ s) ≡ b'-' ∷ unescape s
unfolding unescape
unescape-dashes s = refl

unescape-dot : (c : ℕ) (s : Bytes) → c ≢ b'-' → unescape (b'-' ∷ c ∷ s) ≡ b'.' ∷ unescape (c ∷ s)
unfolding unescape
unescape-dot c s h = ground arith

first_plain : (s : Bytes) → Undashed s → unescape (b'-' ∷ escape s) ≡ b'.' ∷ unescape (escape s)
first_plain [] h = unfold escape unescape replace_all in refl
first_plain (c ∷ s) (h, k) =
    ap (λ t. unescape (b'-' ∷ t)) (escape_plain c s h k)
    ∙ (unescape-dot c (escape s) h ∙ ap (λ t. b'.' ∷ unescape t) (sym (escape_plain c s h k)))

-- The loop of decodeLabel gives the hostname back that encodeLabel has spelled, where no "." has a "-"
-- or another "." behind it.
pub unescape-escape :
    (hostname : Bytes) → Separated hostname → unescape (escape hostname) ≡ hostname
unescape-escape [] h = unfold escape unescape replace_all in refl
unescape-escape (c ∷ s) (u, h) = elim (Bool-cases (c == b'-')) [
  | inl e ↦
      let q : c ≡ b'-' = ground arith in
      subst (λ k. unescape (escape (k ∷ s)) ≡ k ∷ s) (sym q)
        (ap unescape (escape-dash s)
          ∙ (unescape-dashes (escape s) ∙ ap (λ t. b'-' ∷ t) (unescape-escape s h)))
  | inr e ↦ elim (Bool-cases (c == b'.')) [
    | inl f ↦
        let q : c ≡ b'.' = ground arith in
        subst (λ k. unescape (escape (k ∷ s)) ≡ k ∷ s) (sym q)
          (ap unescape (escape-dot s)
            ∙ (first_plain s (u q) ∙ ap (λ t. b'.' ∷ t) (unescape-escape s h)))
    | inr f ↦
        ap unescape (escape_plain c s (ground arith) (ground arith))
        ∙ (unescape_plain c (escape s) (ground arith) ∙ ap (λ t. c ∷ t) (unescape-escape s h))
  ]
]
