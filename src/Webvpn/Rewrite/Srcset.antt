-- ===== src/Webvpn/Rewrite/Srcset.antt =====
-- internal/webvpn/rewrite.go: Srcset, and that its loop ends. The index i is the suffix that it starts; each
-- round takes one unit of fuel.
use wvpn.Base.{
  ℕ, zero, suc, ◌≤◌, ◌<◌, ◌≡◌, ◌≢◌, refl, sym, subst, Bool, true, false, not, ◌&&◌, ◌||◌, [], ◌∷◌,
  ◌++◌, Option, none, some, if◌then◌else◌, is_empty, ◌==◌, length, arith, Bool-cases, inl, inr, ◌⊎◌,
}
use wvpn.Text.{Bytes}
use wvpn.Webvpn.Url.{Url}
use wvpn.Webvpn.Rewrite.{Rewriter, ref}

-- isSpace of rewrite.go
unfoldable pub is_html_space : ℕ → Bool
is_html_space c = c == b' ' || (c == 9 || (c == 10 || (c == 13 || c == 12)))

-- The bytes from here on that pass a test, and the rest.
unfoldable pub span : (ℕ → Bool) → Bytes → Bytes × Bytes
span p [] = ([], [])
span p (c ∷ s) = let (run, rest) = span p s in if p c then (c ∷ run, rest) else ([], c ∷ s)

-- The candidate without the commas at its end, and those.
unfoldable pub strip_commas : Bytes → Bytes × Bytes
strip_commas [] = ([], [])
strip_commas (c ∷ s) =
    let (candidate, commas) = strip_commas s in
    if is_empty candidate && c == b',' then ([], c ∷ commas) else (c ∷ candidate, commas)

abbrev pub onto_text : Bytes → Option Bytes → Option Bytes
onto_text s none = none
onto_text s (some t) = some (s ++ t)

abbrev pub separates : ℕ → Bool
separates c = is_html_space c || c == b','

abbrev pub ref_or : Rewriter → Url → Bytes → Bytes
ref_or rw base candidate = let r = ref rw candidate base in if is_empty r then candidate else r

-- The loop of Srcset; `none` means that the fuel ran out.
unfoldable pub srcset_loop : Rewriter → Url → ℕ → Bytes → Option Bytes
unfolding span strip_commas is_html_space ref
srcset_loop rw base zero v = none
srcset_loop rw base (suc f) v =
    let (separators, here) = span separates v in
    let (word, behind) = span (λ c. not (is_html_space c)) here in
    let (candidate, commas) = strip_commas word in
    let (descriptor, next) = span (λ c. not (c == b',')) behind in
    let ended = srcset_loop rw base f behind in
    let described = srcset_loop rw base f next in
    if is_empty here
    then some separators
    else if not (is_empty commas)
    then onto_text (separators ++ (ref_or rw base candidate ++ commas)) ended
    else onto_text (separators ++ (ref_or rw base candidate ++ descriptor)) described

abbrev pub text_of : Option Bytes → Bytes
text_of none = []
text_of (some t) = t

-- Srcset
unfoldable pub srcset : Rewriter → Url → Bytes → Bytes
unfolding srcset_loop
srcset rw base v = text_of (srcset_loop rw base (suc (length v)) v)

length-span : (p : ℕ → Bool) (s : Bytes) → length (span p s).1 ≤ length s
unfolding span
length-span p [] = omega arith
length-span p (c ∷ s) = ground (arith, length-span p s)

-- What a span stops at does not pass the test.
span_stop : (p : ℕ → Bool) (s : Bytes) (c : ℕ) (t : Bytes) → (span p s).1 ≡ c ∷ t → p c ≡ false
unfolding span
span_stop p [] c t e = cc
span_stop p (d ∷ s) c t e = elim (Bool-cases (p d)) [
  | inl k ↦ span_stop p s c t (rw k at e)
  | inr k ↦ ground arith
]

span_short : (p : ℕ → Bool) (c : ℕ) (s : Bytes) → p c ≡ true → length (span p (c ∷ s)).1 ≤ length s
unfolding span
span_short p c s e = ground (arith, length-span p s)

onto_text-some : (s : Bytes) (o : Option Bytes) → o ≢ none → onto_text s o ≢ none
onto_text-some s none h = h
onto_text-some s (some t) h = cc

filled : (s : Bytes) → (is_empty s ≡ true) ⊎ ((c : ℕ) × (t : Bytes) × (s ≡ c ∷ t))
filled [] = inl refl
filled (c ∷ t) = inr (c, t, refl)

if-ne-none : (b : Bool) (x y : Option Bytes) → x ≢ none → y ≢ none → (if b then x else y) ≢ none
if-ne-none true x y h k = h
if-ne-none false x y h k = k

-- A candidate is not empty, so that a round makes the text shorter.
candidate_short :
    (v : Bytes) (c : ℕ) (t : Bytes)
    → (span separates v).1 ≡ c ∷ t
    → length (span (λ d. not (is_html_space d)) (span separates v).1).1 < length v
unfolding is_html_space
candidate_short v c t e =
    let solid : separates c ≡ false = span_stop separates v c t e in
    let word : not (is_html_space c) ≡ true = ground arith in
    let short = span_short (λ d. not (is_html_space d)) c t word in
    let whole = length-span separates v in
    subst (λ s. length (span (λ d. not (is_html_space d)) s).1 < length v) (sym e)
      (let size : length (c ∷ t) ≤ length v = subst (λ s. length s ≤ length v) e whole in
        omega arith)

module _ (rw' : Rewriter) (base : Url) where
  -- The loop of Srcset ends: a round for each byte of the text, and one more, are enough.
  pub srcset_loop_ends : (f : ℕ) (v : Bytes) → length v < f → srcset_loop rw' base f v ≢ none
  unfolding srcset_loop
  srcset_loop_ends zero v h = elim h [ ]
  srcset_loop_ends (suc f) v h =
      let here = (span separates v).1 in
      let behind = (span (λ c. not (is_html_space c)) here).1 in
      let next = (span (λ c. not (c == b',')) behind).1 in
      elim (filled here) [
        | inl e ↦ rw e (λ k. cc)
        | inr (c, t, e) ↦
            let short = candidate_short v c t e in
            let shorter = length-span (λ c. not (c == b',')) behind in
            let word = (span (λ d. not (is_html_space d)) here).0 in
            let candidate = ref_or rw' base (strip_commas word).0 in
            let commas = (strip_commas word).1 in
            let descriptor = (span (λ d. not (d == b',')) behind).0 in
            let ended = (span separates v).0 ++ (candidate ++ commas) in
            let described = (span separates v).0 ++ (candidate ++ descriptor) in
            if-ne-none (is_empty here) (some (span separates v).0)
              (if not (is_empty commas)
                then onto_text ended (srcset_loop rw' base f behind)
                else onto_text described (srcset_loop rw' base f next))
              (λ k. cc)
              (if-ne-none (not (is_empty commas)) (onto_text ended (srcset_loop rw' base f behind))
                (onto_text described (srcset_loop rw' base f next))
                (onto_text-some ended _ (srcset_loop_ends f behind (omega arith)))
                (onto_text-some described _ (srcset_loop_ends f next (omega arith))))
      ]
