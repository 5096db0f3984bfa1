-- ===== src/Text/Parts.antt =====
-- Splitting what `join` put together.
use wvpn.Base.{
  ℕ, ◌≡◌, ◌≢◌, refl, sym, ap, subst, ◌∙◌, true, false, List, [], ◌∷◌, ◌++◌, arith, All, map,
  Bool-cases, inl, inr, ◌==◌,
}
use wvpn.Text.{Bytes, split, join, onto_first, cut}
use wvpn.Text.Laws.{Lacks}

-- The parts as they stand between the separators of a joined text: all but the first behind a gap.
abbrev pub gapped : Bytes → List Bytes → List Bytes
gapped gap [] = [] ∷ []
gapped gap (p ∷ ps) = p ∷ map (λ q. gap ++ q) ps

pub split-Lacks : (sep : ℕ) (p : Bytes) → Lacks sep p → split sep p ≡ p ∷ []
unfolding split
split-Lacks sep [] h = refl
split-Lacks sep (c ∷ p) h = ground (arith, split-Lacks sep p h.1)

pub split-append :
    (sep : ℕ) (p s : Bytes) → Lacks sep p → split sep (p ++ sep ∷ s) ≡ p ∷ split sep s
unfolding split
split-append sep [] s h = ground arith
split-append sep (c ∷ p) s h = ground (arith, split-append sep p s h.1)

split_gap :
    (sep : ℕ) (gap s : Bytes) (p : Bytes) (ps : List Bytes)
    → Lacks sep gap
    → split sep s ≡ p ∷ ps
    → split sep (gap ++ s) ≡ (gap ++ p) ∷ ps
unfolding split
split_gap sep [] s p ps h e = e
split_gap sep (c ∷ gap) s p ps h e = ground (arith, split_gap sep gap s p ps h.1)

pub split-join :
    (sep : ℕ) (gap : Bytes) (ps : List Bytes)
    → Lacks sep gap
    → All (Lacks sep) ps
    → split sep (join (sep ∷ gap) ps) ≡ gapped gap ps
unfolding join
split-join sep gap [] g h = unfold split in refl
split-join sep gap (p ∷ []) g h = split-Lacks sep p h.0
split-join sep gap (p ∷ q ∷ ps) g h =
    split-append sep p (gap ++ join (sep ∷ gap) (q ∷ ps)) h.0
    ∙ ap (λ r. p ∷ r)
        (split_gap sep gap (join (sep ∷ gap) (q ∷ ps)) q (map (λ q. gap ++ q) ps) g
          (split-join sep gap (q ∷ ps) g h.1))

pub split-All-Lacks : (sep : ℕ) (s : Bytes) → All (Lacks sep) (split sep s)
unfolding split
split-All-Lacks sep [] = (tt, tt)
split-All-Lacks sep (c ∷ s) = elim (Bool-cases (c == sep)) [
  | inl e ↦ rw e (tt, split-All-Lacks sep s)
  | inr e ↦ rw e (onto sep (ground arith) (split sep s) (split-All-Lacks sep s))
]
  where
    onto :
        (sep : ℕ)
        → c ≢ sep
        → (ps : List Bytes) → All (Lacks sep) ps
        → All (Lacks sep) (onto_first c ps)
    onto sep n [] h = ((n, tt), tt)
    onto sep n (p ∷ ps) h = ((n, h.0), h.1)

-- What stands before the separator lacks it, and the two halves spell the text.
pub cut-Lacks : (sep : ℕ) (s : Bytes) → Lacks sep (cut sep s).0
unfolding cut
cut-Lacks sep [] = tt
cut-Lacks sep (c ∷ s) = ground (arith, cut-Lacks sep s)

pub cut_found :
    (sep : ℕ) (s : Bytes) → (cut sep s).2 ≡ true → s ≡ (cut sep s).0 ++ (sep ∷ (cut sep s).1)
unfolding cut
cut_found sep [] h = cc
cut_found sep (c ∷ s) h = ground (arith, cut_found sep s)

-- Each half lacks what the text lacks.
pub cut-Lacks_of :
    (sep b : ℕ) (s : Bytes) → Lacks b s → Lacks b (cut sep s).0 × Lacks b (cut sep s).1
unfolding cut
cut-Lacks_of sep b [] h = (tt, tt)
cut-Lacks_of sep b (c ∷ s) h = ground (arith, cut-Lacks_of sep b s h.1)

All-onto_first :
    (Q : ℕ → Type 0) (c : ℕ) (ps : List Bytes)
    → All (All Q) (onto_first c ps)
    → Q c × All (All Q) ps
All-onto_first Q c [] ((q, _), _) = (q, tt)
All-onto_first Q c (p ∷ ps) ((q, h), k) = (q, (h, k))

split_here : (sep c : ℕ) (s : Bytes) → (c == sep) ≡ true → split sep (c ∷ s) ≡ [] ∷ split sep s
unfolding split
split_here sep c s e = rw e refl

split_later :
    (sep c : ℕ) (s : Bytes) → (c == sep) ≡ false → split sep (c ∷ s) ≡ onto_first c (split sep s)
unfolding split
split_later sep c s e = rw e refl

-- What holds of the separator and in every part holds in the whole.
pub All-split_of :
    (Q : ℕ → Type 0) (sep : ℕ) → Q sep → (s : Bytes) → All (All Q) (split sep s) → All Q s
All-split_of Q sep q [] h = tt
All-split_of Q sep q (c ∷ s) h = elim (Bool-cases (c == sep)) [
  | inl e ↦
      let h' = subst (All (All Q)) (split_here sep c s e) h in
      let same_byte : c ≡ sep = ground arith in
      (subst Q (sym same_byte) q, All-split_of Q sep q s h'.1)
  | inr e ↦
      let (p, k) =
        All-onto_first Q c (split sep s) (subst (All (All Q)) (split_later sep c s e) h) in
      (p, All-split_of Q sep q s k)
]
