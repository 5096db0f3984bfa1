-- ===== src/Webvpn/Restore/Parameters.antt =====
-- restoreQuery keeps the parameters of a query, their names and their order.
use wvpn.Base.{
  ℕ, ◌≡◌, refl, sym, ap, subst, ◌∙◌, false, not, ◌&&◌, ◌||◌, List, [], ◌∷◌, ◌++◌, Option, arith,
  is_empty, map, Bool-cases, Option-cases, inl, inr, ◌⊎◌, ◌==◌, All,
}
use wvpn.Text.{Bytes, codes, cut, split, join, same, onto_first, contains, to_lower}
use wvpn.Text.Laws.{Lacks, Lacks-append, cut_at}
use wvpn.Text.Parts.{split-join, gapped, split-All-Lacks}
use wvpn.Webvpn.Url.{Url}
use wvpn.Webvpn.Proxy.{Handler}
use wvpn.Webvpn.Restore.{restore_pair, restore_query, restore_targets}

-- The name of a parameter.
abbrev pub name_of : Bytes → Bytes
name_of pair = (cut b'=' pair).0

-- The names of the parameters of a query, in order.
unfoldable pub names : Bytes → List Bytes
unfolding split cut
names query = map name_of (split b'&' query)

cut-Lacks : (sep : ℕ) (s : Bytes) → Lacks sep (cut sep s).0
unfolding cut
cut-Lacks sep [] = tt
cut-Lacks sep (c ∷ s) = elim (Bool-cases (c == sep)) [
  | inl e ↦ rw e tt
  | inr e ↦ rw e (ground arith, cut-Lacks sep s)
]

cut-Lacks_other : (b sep : ℕ) (s : Bytes) → Lacks b s → Lacks b (cut sep s).0
unfolding cut
cut-Lacks_other b sep [] h = tt
cut-Lacks_other b sep (c ∷ s) (n, h) = elim (Bool-cases (c == sep)) [
  | inl e ↦ rw e tt
  | inr e ↦ rw e (n, cut-Lacks_other b sep s h)
]

no_gap : (ps : List Bytes) → map (λ q. [] ++ q) ps ≡ ps
no_gap [] = refl
no_gap (p ∷ ps) = ap (λ t. p ∷ t) (no_gap ps)

gapped-none : (ps : List Bytes) → is_empty ps ≡ false → gapped [] ps ≡ ps
gapped-none [] h = cc
gapped-none (p ∷ ps) h = ap (λ t. p ∷ t) (no_gap ps)

split-filled : (sep : ℕ) (s : Bytes) → is_empty (split sep s) ≡ false
unfolding split
split-filled sep [] = refl
split-filled sep (c ∷ s) = ground (arith, onto-filled c (split sep s))
  where
    onto-filled : (c : ℕ) (ps : List Bytes) → is_empty (onto_first c ps) ≡ false
    onto-filled c [] = refl
    onto-filled c (p ∷ ps) = refl

module _ (h : Handler) (page : Option Url) (browser_host : Bytes)
    (escaped : (v : Bytes) → Lacks b'&' (h.lib.query_escape v)) where
  -- A parameter is kept, or its value is another one.
  Kept : Bytes → Bytes → Type 0
  Kept pair out =
      (out ≡ pair) ⊎ ((v : Bytes) × (out ≡ name_of pair ++ (b'=' ∷ h.lib.query_escape v)))

  restore_pair-Kept : (pair : Bytes) → Kept pair (restore_pair h page browser_host pair)
  unfolding restore_pair Kept
  restore_pair-Kept pair = elim (Bool-cases (cut b'=' pair).2) [
    | inr f ↦ inl (rw (restore_pair, f) refl)
    | inl f ↦ elim (Option-cases (h.lib.query_unescape (cut b'=' pair).1)) [
      | inl e ↦ inl (rw (restore_pair, f, e) refl)
      | inr (decoded, e) ↦
          elim (Bool-cases (same (restore_targets h page browser_host decoded) decoded)) [
            | inl k ↦ inl (rw (restore_pair, f, e, k) refl)
            | inr k ↦
                inr (restore_targets h page browser_host decoded, rw (restore_pair, f, e, k) refl)
          ]
    ]
  ]

  name_of-restore_pair :
      (pair : Bytes) → name_of (restore_pair h page browser_host pair) ≡ name_of pair
  unfolding Kept
  name_of-restore_pair pair = elim (restore_pair-Kept pair) [
    | inl e ↦ ap name_of e
    | inr (v, e) ↦
        ap name_of e
        ∙ ap (λ x. x.0) (cut_at b'=' (name_of pair) (h.lib.query_escape v) (cut-Lacks b'=' pair))
  ]

  restore_pair-Lacks :
      (pair : Bytes) → Lacks b'&' pair → Lacks b'&' (restore_pair h page browser_host pair)
  unfolding Kept
  restore_pair-Lacks pair l = elim (restore_pair-Kept pair) [
    | inl e ↦ subst (Lacks b'&') (sym e) l
    | inr (v, e) ↦ subst (Lacks b'&') (sym e) (
        Lacks-append b'&' (name_of pair) (b'=' ∷ h.lib.query_escape v)
          (cut-Lacks_other b'&' b'=' pair l) ((omega arith), escaped v))
  ]

  All-Lacks :
      (ps : List Bytes)
      → All (Lacks b'&') ps
      → All (Lacks b'&') (map (restore_pair h page browser_host) ps)
  All-Lacks [] l = tt
  All-Lacks (p ∷ ps) (a, l) = (restore_pair-Lacks p a, All-Lacks ps l)

  all_names :
      (ps : List Bytes) → map name_of (map (restore_pair h page browser_host) ps) ≡ map name_of ps
  all_names [] = refl
  all_names (p ∷ ps) = cc (name_of-restore_pair p, all_names ps)

  filled_map :
      (ps : List Bytes) → is_empty (map (restore_pair h page browser_host) ps) ≡ is_empty ps
  filled_map [] = refl
  filled_map (p ∷ ps) = refl

  -- Where no escaped value contains "&", the query that restoreQuery makes has the parameters of the one
  -- that it is given: the same names in the same order.
  pub names-restore_query :
      (raw : Bytes) → names (restore_query h page browser_host raw) ≡ names raw
  unfolding names restore_query
  names-restore_query raw =
      let ps = split b'&' raw in
      let rs = map (restore_pair h page browser_host) ps in
      let parts : split b'&' (join (codes "&") rs) ≡ rs =
        split-join b'&' [] rs tt (All-Lacks ps (split-All-Lacks b'&' raw))
        ∙ gapped-none rs (filled_map ps ∙ split-filled b'&' raw) in
      let changed : names (join (codes "&") rs) ≡ names raw =
        ap (map name_of) parts ∙ all_names ps in
      elim (Bool-cases (
        is_empty raw
        || (not (contains raw (codes "://")) && not (contains (to_lower raw) (codes "%3a"))))) [
          | inl e ↦ rw (restore_query, e) refl
          | inr e ↦ rw (restore_query, e) changed
        ]
