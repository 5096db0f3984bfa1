-- ===== src/Text.antt =====
-- Go's package `strings` on byte strings, as far as the gateway uses it. A string is the list of
-- its bytes. Case and white space are the ASCII ones: other bytes are neither letters nor space.
pub mod Laws
pub mod Trim
pub mod Parts
pub mod Case
use Prim.Native.Char.{code}
use Prim.Native.String.{String}
use wvpn.Base.{
  ℕ, ◌+◌, Bool, true, false, ◌&&◌, ◌||◌, not, List, [], ◌∷◌, ◌++◌, map, leb, ◌==◌, if◌then◌else◌,
  is_empty, length, drop, ◌-◌, ltb,
}

abbrev pub Bytes : Type 0
Bytes = List ℕ

-- The bytes of a literal, which are its code points where it is ASCII.
abbrev pub codes : String → Bytes
codes String.[] = []
codes (String.◌∷◌ c s) = code c ∷ codes s

-- s == t
unfoldable pub same : Bytes → Bytes → Bool
same [] [] = true
same [] (_ ∷ _) = false
same (_ ∷ _) [] = false
same (a ∷ s) (b ∷ t) = a == b && same s t

unfoldable pub has_prefix : Bytes → Bytes → Bool
has_prefix s [] = true
has_prefix [] (_ ∷ _) = false
has_prefix (a ∷ s) (b ∷ p) = a == b && has_prefix s p

unfoldable pub trim_prefix : Bytes → Bytes → Bytes
unfolding has_prefix
trim_prefix s p = if has_prefix s p then drop (length p) s else s

unfoldable pub has_suffix : Bytes → Bytes → Bool
unfolding same
has_suffix s p = not (ltb (length s) (length p)) && same (drop (length s - length p) s) p

abbrev pub take : ℕ → Bytes → Bytes
take ℕ.zero s = []
take (ℕ.suc n) [] = []
take (ℕ.suc n) (c ∷ s) = c ∷ take n s

unfoldable pub trim_suffix : Bytes → Bytes → Bytes
unfolding has_suffix
trim_suffix s p = if has_suffix s p then take (length s - length p) s else s

-- strings.Cut at a separator of one byte: before, after, found.
unfoldable pub cut : ℕ → Bytes → Bytes × Bytes × Bool
cut sep [] = ([], [], false)
cut sep (c ∷ s) =
    let (before, after, found) = cut sep s in
    if c == sep then ([], s, true) else (c ∷ before, after, found)

abbrev pub onto_first : ℕ → List Bytes → List Bytes
onto_first c [] = (c ∷ []) ∷ []
onto_first c (p ∷ ps) = (c ∷ p) ∷ ps

-- strings.Split at a separator of one byte: one part more than there are separators.
unfoldable pub split : ℕ → Bytes → List Bytes
split sep [] = [] ∷ []
split sep (c ∷ s) = let rest = split sep s in if c == sep then [] ∷ rest else onto_first c rest

unfoldable pub join : Bytes → List Bytes → Bytes
join sep [] = []
join sep (p ∷ []) = p
join sep (p ∷ q ∷ ps) = p ++ (sep ++ join sep (q ∷ ps))

-- '\t', '\n', '\v', '\f', '\r' and ' '.
unfoldable pub is_space : ℕ → Bool
is_space c = (leb 9 c && leb c 13) || c == 32

module _ (drops : ℕ → Bool) where
  unfoldable pub trim_left : Bytes → Bytes
  trim_left [] = []
  trim_left (c ∷ s) = if drops c then trim_left s else c ∷ s

  unfoldable pub trim_right : Bytes → Bytes
  trim_right [] = []
  trim_right (c ∷ s) = let rest = trim_right s in if drops c && is_empty rest then [] else c ∷ rest

  unfoldable pub trim_both : Bytes → Bytes
  unfolding trim_left trim_right
  trim_both s = trim_right (trim_left s)

unfoldable pub trim_space : Bytes → Bytes
unfolding trim_both is_space
trim_space s = trim_both is_space s

unfoldable pub lower : ℕ → ℕ
lower c = if leb b'A' c && leb c b'Z' then c + 32 else c

unfoldable pub to_lower : Bytes → Bytes
unfolding lower
to_lower s = map lower s

-- strings.EqualFold
unfoldable pub equal_fold : Bytes → Bytes → Bool
unfolding same to_lower
equal_fold s t = same (to_lower s) (to_lower t)

unfoldable pub contains_byte : ℕ → Bytes → Bool
contains_byte b [] = false
contains_byte b (c ∷ s) = c == b || contains_byte b s

-- strings.Contains
unfoldable pub contains : Bytes → Bytes → Bool
unfolding has_prefix
contains [] p = is_empty p
contains (c ∷ s) p = has_prefix (c ∷ s) p || contains s p

-- What a run on concrete texts computes with.
unfoldable pub texts : Unit {0}
unfolding same has_prefix trim_prefix has_suffix trim_suffix cut split join trim_space to_lower
    equal_fold contains_byte contains trim_both
texts = tt
