-- ===== src/Store/Glob/Laws.antt =====
-- globMatch ends, and decides what the pattern means.
use wvpn.Base.{
  ℕ, zero, suc, ◌+◌, ◌*◌, ◌≤◌, ◌<◌, ◌≡◌, ◌≢◌, ◌⊎◌, inl, inr, refl, sym, subst, Bool, true, ◌||◌, [],
  ◌∷◌, Option, none, some, ◌==◌, length, drop, arith, Bool-cases,
}
use wvpn.Text.{Bytes}
use wvpn.Store.Glob.{only_stars, Star, retry, glob_loop, rounds, answer, glob_match}
use wvpn.Store.Glob.Reference.{Matches, end, one, run}

-- How far the loop may still go: each round either eats pattern or moves the mark.
abbrev marked : Bytes → Star → ℕ
marked s none = suc (length s)
marked s (some (sp, ms)) = length ms

abbrev Fits : ℕ → Bytes → Bytes → Star → Type 0
Fits w p s none = length p ≤ w
Fits w p s (some (sp, ms)) = (length p ≤ w) × (length sp ≤ w) × (length s ≤ length ms)

mul_mono : (a b w : ℕ) → a ≤ b → a * w ≤ b * w
mul_mono a b w h = grind arith

glob_loop-ne-none :
    (f w : ℕ) (p s : Bytes) (star : Star)
    → Fits w p s star
    → marked s star * (w + 1) + length p < f
    → glob_loop f p s star ≢ none
unfolding glob_loop retry
glob_loop-ne-none zero w p s star h lt = elim lt [ ]
glob_loop-ne-none (suc f) w p [] star h lt = cc
glob_loop-ne-none (suc f) w [] (d ∷ s) none h lt = cc
glob_loop-ne-none (suc f) w [] (d ∷ s) (some (sp, [])) h lt = cc
glob_loop-ne-none (suc f) w [] (d ∷ s) (some (sp, m ∷ ms)) h lt =
    glob_loop-ne-none f w sp ms (some (sp, ms)) (omega arith) (omega arith)
glob_loop-ne-none (suc f) w (c ∷ p) (d ∷ s) none h lt =
    ground
      (arith, glob_loop-ne-none f w p s none, glob_loop-ne-none f w p (d ∷ s) (some (p, d ∷ s)))
glob_loop-ne-none (suc f) w (c ∷ p) (d ∷ s) (some (sp, [])) h lt = ground (
  arith,
  glob_loop-ne-none f w p s (some (sp, [])),
  glob_loop-ne-none f w p (d ∷ s) (some (p, d ∷ s)),
)
glob_loop-ne-none (suc f) w (c ∷ p) (d ∷ s) (some (sp, m ∷ ms)) h lt = ground (
  arith,
  glob_loop-ne-none f w p s (some (sp, m ∷ ms)),
  glob_loop-ne-none f w p (d ∷ s) (some (p, d ∷ s)),
  mul_mono (suc (length s)) (suc (length ms)) (w + 1),
  glob_loop-ne-none f w sp ms (some (sp, ms)),
)

-- The loop of globMatch ends within the rounds that it is given.
pub glob_loop_ends : (p s : Bytes) → glob_loop (rounds p s) p s none ≢ none
glob_loop_ends p s = glob_loop-ne-none (rounds p s) (length p) p s none (omega arith) (omega arith)

-- What is left to try: the text at hand, or the last star a byte or more further on.
abbrev pub Later : Star → Type 0
Later none = ⊥
Later (some (sp, ms)) = (k : ℕ) × Matches sp (drop (suc k) ms)

abbrev pub Hope : Bytes → Bytes → Star → Type 0
Hope p s star = Matches p s ⊎ Later star

only_stars_sound : (p : Bytes) → only_stars p ≡ true → Matches p []
unfolding only_stars
only_stars_sound [] h = end
only_stars_sound (c ∷ p) h = run (ground arith) 0 (only_stars_sound p (ground arith))

sound_retry :
    (f : ℕ) (star : Star)
    → ((p s : Bytes) (st : Star) → glob_loop f p s st ≡ some true → Hope p s st)
    → retry (glob_loop f) star ≡ some true
    → Later star
unfolding retry
sound_retry f none ih h = cc
sound_retry f (some (sp, [])) ih h = cc
sound_retry f (some (sp, m ∷ ms)) ih h = elim (ih sp ms (some (sp, ms)) h) [
  | inl now ↦ (0, now)
  | inr (k, later) ↦ (suc k, later)
]

sound_star : (p s : Bytes) → Hope p s (some (p, s)) → Matches (b'*' ∷ p) s
sound_star p s (inl now) = run refl 0 now
sound_star p s (inr (k, later)) = run refl (suc k) later

sound_pair :
    (c d : ℕ) (p s : Bytes) (star : Star)
    → (c == b'?' || c == d) ≡ true
    → Hope p s star
    → Hope (c ∷ p) (d ∷ s) star
sound_pair c d p s star t (inr later) = inr later
sound_pair c d p s star t (inl m) = elim (Bool-cases (c == b'*')) [
  | inl e ↦ inl (run (ground arith) 1 m)
  | inr e ↦ inl (one (ground arith) (ground arith) m)
]

sound_loop : (f : ℕ) (p s : Bytes) (star : Star) → glob_loop f p s star ≡ some true → Hope p s star
unfolding glob_loop
sound_loop zero p s star h = cc
sound_loop (suc f) p [] star h = inl (only_stars_sound p (cc))
sound_loop (suc f) [] (d ∷ s) star h = inr (sound_retry f star (sound_loop f) h)
sound_loop (suc f) (c ∷ p) (d ∷ s) star h = elim (Bool-cases (c == b'?' || c == d)) [
  | inl e ↦ sound_pair c d p s star e (sound_loop f p s star (rw e at h))
  | inr e ↦ elim (Bool-cases (c == b'*')) [
    | inl k ↦
        let c_star : c ≡ b'*' = ground arith in
        inl (
          subst (λ x. Matches (x ∷ p) (d ∷ s)) (sym c_star)
            (sound_star p (d ∷ s) (sound_loop f p (d ∷ s) (some (p, d ∷ s)) (rw (e, k) at h))))
    | inr k ↦ inr (sound_retry f star (sound_loop f) (rw (e, k) at h))
  ]
]

some_of_answer : (o : Option Bool) → answer o ≡ true → o ≡ some true
some_of_answer none h = cc
some_of_answer (some b) h = cc

-- Whatever globMatch accepts, the pattern means.
pub glob_match_sound : (p s : Bytes) → glob_match p s ≡ true → Matches p s
unfolding glob_match
glob_match_sound p s h =
    elim (sound_loop (rounds p s) p s none (some_of_answer (glob_loop (rounds p s) p s none) h)) [
      | inl m ↦ m
      | inr impossible ↦ absurd impossible
    ]
