-- ===== src/Store/Glob/Complete.antt =====
-- globMatch finds every match, in a text that holds no star of its own.
use wvpn.Base.{
  ℕ, zero, suc, ◌+◌, ◌≡◌, ◌≢◌, ◌↔◌, inl, inr, refl, sym, ap, subst, ◌∙◌, Bool, true, false, ◌||◌,
  [], ◌∷◌, Option, none, some, ◌==◌, length, drop, arith, Bool-cases,
}
use wvpn.Text.{Bytes, codes}
use wvpn.Text.Laws.{Lacks}
use wvpn.Store.Glob.{only_stars, Star, retry, glob_loop, rounds, answer, glob_match}
use wvpn.Store.Glob.Reference.{Matches, end, one, run}
use wvpn.Store.Glob.Laws.{Later, Hope, glob_loop_ends, glob_match_sound}

-- The first `k` bytes of the pattern behind the star are no stars.
abbrev Literal : ℕ → Bytes → Type 0
Literal zero sp = Unit
Literal (suc k) [] = ⊥
Literal (suc k) (c ∷ sp) = (c ≢ b'*') × Literal k sp

-- The loop stands `k` bytes behind the last star, in the pattern and in the text.
abbrev Stands : Bytes → Bytes → Star → Type 0
Stands p s none = Unit
Stands p s (some (sp, ms)) =
    (k : ℕ) × Literal k sp × (drop k sp ≡ p) × (drop k ms ≡ s) × Lacks b'*' ms

drop-nil : (j : ℕ) → drop {A = ℕ} j [] ≡ []
drop-nil zero = refl
drop-nil (suc j) = refl

drop-drop : (i j : ℕ) (s : Bytes) → drop i (drop j s) ≡ drop (j + i) s
drop-drop i zero s = rw (add_zero i) refl
  where
    add_zero : (n : ℕ) → zero + n ≡ n
    add_zero n = omega arith
drop-drop i (suc j) [] = drop-nil i ∙ sym (drop-nil (suc j + i))
drop-drop i (suc j) (c ∷ s) = rw (suc_add i j) (drop-drop i j s)
  where
    suc_add : (n m : ℕ) → suc m + n ≡ suc (m + n)
    suc_add n m = omega arith

drop_swap : (i j : ℕ) (s : Bytes) → drop i (drop j s) ≡ drop j (drop i s)
drop_swap i j s = drop-drop i j s ∙ ap (λ n. drop n s) (omega arith) ∙ sym (drop-drop j i s)

drop-suc : (k d : ℕ) (ms s : Bytes) → drop k ms ≡ d ∷ s → drop (suc k) ms ≡ s
drop-suc zero d [] s h = cc
drop-suc zero d (m ∷ ms) s h = cc
drop-suc (suc k) d [] s h = cc
drop-suc (suc k) d (m ∷ ms) s h = drop-suc k d ms s h

Literal-suc :
    (k c : ℕ) (sp p : Bytes) → Literal k sp → drop k sp ≡ c ∷ p → c ≢ b'*' → Literal (suc k) sp
Literal-suc zero c [] p l h n = cc
Literal-suc zero c (x ∷ sp) p l h n = (λ e. n (cc), tt)
Literal-suc (suc k) c [] p l h n = cc
Literal-suc (suc k) c (x ∷ sp) p l h n = (l.0, Literal-suc k c sp p l.1 h n)

-- A match runs through a literal stretch byte by byte.
Matches-drop : (k : ℕ) (sp x : Bytes) → Literal k sp → Matches sp x → Matches (drop k sp) (drop k x)
Matches-drop zero sp x l m = m
Matches-drop (suc k) [] x l m = absurd l
Matches-drop (suc k) (c ∷ sp) x l (one n e m) = Matches-drop k sp _ l.1 m
Matches-drop (suc k) (c ∷ sp) x l (run e j m) = absurd (l.0 e)

-- So what the last star still offers is offered from here.
Later-here :
    (p s sp ms : Bytes)
    → Stands p s (some (sp, ms))
    → Later (some (sp, ms))
    → (j : ℕ) × Matches p (drop (suc j) s)
Later-here p s sp ms (k, l, ep, es, _) (j, m) = (
  j,
  subst (λ x. Matches x (drop (suc j) s)) ep
      (subst (Matches (drop k sp)) (drop_swap k (suc j) ms ∙ ap (drop (suc j)) es)
        (Matches-drop k sp (drop (suc j) ms) l m)),
)

Matches-star : (p s : Bytes) → Matches (b'*' ∷ p) s → (j : ℕ) × Matches p (drop j s)
Matches-star p s (one n e m) = absurd (n refl)
Matches-star p s (run e j m) = (j, m)

open_star_Hope : (p s : Bytes) (j : ℕ) → Matches p (drop j s) → Hope p s (some (p, s))
open_star_Hope p s zero m = inl m
open_star_Hope p s (suc j) m = inr (j, m)

star_Hope :
    (p s : Bytes) (star : Star)
    → Stands (b'*' ∷ p) s star
    → Hope (b'*' ∷ p) s star
    → Hope p s (some (p, s))
star_Hope p s star st (inl m) = let (j, m') = Matches-star p s m in open_star_Hope p s j m'
star_Hope p s none st (inr later) = absurd later
star_Hope p s (some (sp, ms)) st (inr later) =
    let (j, m) = Later-here (b'*' ∷ p) s sp ms st later in
    let (i, m') = Matches-star p (drop (suc j) s) m in
    open_star_Hope p s (suc j + i) (subst (Matches p) (drop-drop i (suc j) s) m')

only_stars_complete : (p : Bytes) → Matches p [] → only_stars p ≡ true
unfolding only_stars
only_stars_complete [] m = refl
only_stars_complete (c ∷ p) (run e j m) =
    ground (arith, only_stars_complete p (subst (Matches p) (drop-nil j) m))

Hope-nil : (p : Bytes) (star : Star) → Stands p [] star → Hope p [] star → Matches p []
Hope-nil p star st (inl m) = m
Hope-nil p none st (inr later) = absurd later
Hope-nil p (some (sp, ms)) st (inr later) = (Later-here p [] sp ms st later).1

abbrev Succeeds : ℕ → Type 0
Succeeds f =
    (p s : Bytes) (star : Star)
    → Lacks b'*' s
    → Stands p s star
    → Hope p s star
    → glob_loop f p s star ≢ some false

retry_complete :
    (f d : ℕ) (p s : Bytes) (star : Star)
    → Succeeds f
    → Stands p (d ∷ s) star
    → Later star
    → retry (glob_loop f) star ≢ some false
unfolding retry
retry_complete f d p s none ih st later = absurd later
retry_complete f d p s (some (sp, [])) ih (k, _, _, es, _) later = absurd (ne k es)
  where
    ne : (k : ℕ) → drop k [] ≡ d ∷ s → ⊥
    ne zero e = cc
    ne (suc k) e = cc
retry_complete f d p s (some (sp, m ∷ ms)) ih (k, _, _, _, lacks) (j, later) =
    ih sp ms (some (sp, ms)) lacks.1 (0, tt, refl, refl, lacks.1) (hope j later)
  where
    hope : (j : ℕ) → Matches sp (drop j ms) → Hope sp ms (some (sp, ms))
    hope zero now = inl now
    hope (suc j) m = inr (j, m)

pair_Hope :
    (c d : ℕ) (p s : Bytes) (star : Star) → c ≢ b'*' → Hope (c ∷ p) (d ∷ s) star → Hope p s star
pair_Hope c d p s star n (inl (one _ _ m)) = inl m
pair_Hope c d p s star n (inl (run e _ _)) = absurd (n e)
pair_Hope c d p s star n (inr later) = inr later

pair_Stands :
    (c d : ℕ) (p s : Bytes) (star : Star) → c ≢ b'*' → Stands (c ∷ p) (d ∷ s) star → Stands p s star
pair_Stands c d p s none n st = tt
pair_Stands c d p s (some (sp, ms)) n (k, l, ep, es, lacks) =
    (suc k, Literal-suc k c sp p l ep n, drop-suc k c sp p ep, drop-suc k d ms s es, lacks)

must_retry :
    (c d : ℕ) (p s : Bytes) (star : Star)
    → (c == b'?' || c == d) ≡ false
    → c ≢ b'*'
    → Hope (c ∷ p) (d ∷ s) star
    → Later star
must_retry c d p s star t n (inl (one _ e _)) = absurd (ground arith)
must_retry c d p s star t n (inl (run e _ _)) = absurd (n e)
must_retry c d p s star t n (inr later) = later

complete_loop : (f : ℕ) → Succeeds f
unfolding glob_loop
complete_loop zero p s star h st hope = cc
complete_loop (suc f) p [] star h st hope = cc (only_stars_complete p (Hope-nil p star st hope))
complete_loop (suc f) [] (d ∷ s) star h st (inl m) = elim m [ ]
complete_loop (suc f) [] (d ∷ s) star h st (inr later) =
    retry_complete f d [] s star (complete_loop f) st later
complete_loop (suc f) (c ∷ p) (d ∷ s) star h st hope = elim (Bool-cases (c == b'?' || c == d)) [
  | inl e ↦
      let n : c ≢ b'*' = ne e in
      rw e (
        complete_loop f p s star h.1 (pair_Stands c d p s star n st)
          (pair_Hope c d p s star n hope))
  | inr e ↦ elim (Bool-cases (c == b'*')) [
    | inl k ↦
        rw (e, k)
          (complete_loop f p (d ∷ s) (some (p, d ∷ s)) h (0, tt, refl, refl, h)
            (star_Hope p (d ∷ s) star (subst (λ x. Stands (x ∷ p) (d ∷ s) star) (is_star k) st)
              (subst (λ x. Hope (x ∷ p) (d ∷ s) star) (is_star k) hope)))
    | inr k ↦
        let n : c ≢ b'*' = ground arith in
        rw (e, k)
          (retry_complete f d (c ∷ p) s star (complete_loop f) st
            (must_retry c d p s star e n hope))
  ]
]
  where
    ne : (c == b'?' || c == d) ≡ true → c ≢ b'*'
    ne e = ground (arith, h.0)

    is_star : (c == b'*') ≡ true → c ≡ b'*'
    is_star k = ground arith

answer-true : (o : Option Bool) → o ≢ none → o ≢ some false → answer o ≡ true
answer-true none h k = absurd (h refl)
answer-true (some true) h k = refl
answer-true (some false) h k = absurd (k refl)

-- globMatch accepts a text with no star in it exactly when the pattern means it.
pub glob_match_iff : (p s : Bytes) → Lacks b'*' s → (glob_match p s ≡ true) ↔ Matches p s
glob_match_iff p s h = (glob_match_sound p s, complete)
  where
    complete : Matches p s → glob_match p s ≡ true
    complete m =
        unfold glob_match in
        answer-true (glob_loop (rounds p s) p s none) (glob_loop_ends p s)
          (complete_loop (rounds p s) p s none h tt (inl m))

star_text_loop :
    (f c : ℕ) (s : Bytes) → glob_loop (suc (suc f)) (codes "*") (b'*' ∷ c ∷ s) none ≡ some false
unfolding glob_loop retry
star_text_loop f c s = refl

drop_all : (s : Bytes) → drop (length s) s ≡ []
drop_all [] = refl
drop_all (c ∷ s) = drop_all s

-- A star in the text is matched as a byte first: the pattern "*" then accepts no longer text,
-- although it means any.
pub glob_match_star_text :
    (c : ℕ) (s : Bytes)
    → (glob_match (codes "*") (b'*' ∷ c ∷ s) ≡ false) × Matches (codes "*") (b'*' ∷ c ∷ s)
glob_match_star_text c s = (
  (unfold glob_match in
      (ap (λ n. answer (glob_loop n (codes "*") (b'*' ∷ c ∷ s) none)) (two s)
        ∙ ap answer (star_text_loop (length s + length s + 6) c s))),
  run refl (length (b'*' ∷ c ∷ s)) (subst (Matches []) (sym (drop_all (b'*' ∷ c ∷ s))) end),
)
  where
    two : (s : Bytes) → rounds (codes "*") (b'*' ∷ c ∷ s) ≡ suc (suc (length s + length s + 6))
    two s = omega arith
