-- ===== src/Store/Config/Domain.antt =====
-- internal/store/store.go: domainRe and patternRe, and the ports that strconv.Atoi reads.
use wvpn.Base.{
  ℕ, ◌+◌, ◌*◌, ◌-◌, Bool, true, false, not, ◌&&◌, ◌||◌, List, [], ◌∷◌, Option, none, some,
  if◌then◌else◌, is_empty, leb, ◌==◌,
}
use wvpn.Text.{Bytes, codes, split, contains_byte}
use wvpn.Store.Sites.{all_bytes}

-- [a-z0-9]
unfoldable pub alnum : ℕ → Bool
alnum c = (leb b'a' c && leb c b'z') || (leb b'0' c && leb c b'9')

-- [a-z0-9\-]
unfoldable pub label_byte : ℕ → Bool
unfolding alnum
label_byte c = alnum c || c == b'-'

abbrev pub last_alnum : Bytes → Bool
last_alnum [] = false
last_alnum (c ∷ []) = alnum c
last_alnum (_ ∷ c ∷ s) = last_alnum (c ∷ s)

-- [a-z0-9]([a-z0-9\-]*[a-z0-9])?
unfoldable pub is_label : Bytes → Bool
unfolding label_byte alnum all_bytes
is_label [] = false
is_label (c ∷ s) = alnum c && all_bytes label_byte (c ∷ s) && last_alnum (c ∷ s)

unfoldable pub all_labels : List Bytes → Bool
unfolding is_label
all_labels [] = true
all_labels (l ∷ ls) = is_label l && all_labels ls

abbrev pub at_least_two : List Bytes → Bool
at_least_two (_ ∷ _ ∷ _) = true
at_least_two _ = false

-- domainRe: two labels or more, with a dot between each two.
unfoldable pub is_domain : Bytes → Bool
unfolding all_labels split
is_domain s = at_least_two (split b'.' s) && all_labels (split b'.' s)

-- [a-z0-9!#$%&'*+/=?^_`{|}~.\-@\[\]]
unfoldable pub pattern_byte : ℕ → Bool
unfolding alnum contains_byte
pattern_byte c = alnum c || contains_byte c (codes "!#$%&'*+/=?^_`{|}~.-@[]")

-- patternRe
unfoldable pub is_pattern : Bytes → Bool
unfolding pattern_byte all_bytes
is_pattern s = not (is_empty s) && all_bytes pattern_byte s

-- The digits of a number, most significant first, behind the digits that have been read.
unfoldable pub decimal_loop : ℕ → Bytes → Option ℕ
decimal_loop n [] = some n
decimal_loop n (c ∷ s) =
    let rest = decimal_loop (n * 10 + (c - b'0')) s in
    if leb b'0' c && leb c b'9' then rest else none

abbrev pub decimal : Bytes → Option ℕ
decimal [] = none
decimal (c ∷ s) = decimal_loop 0 (c ∷ s)

-- strconv.Atoi where the value is not negative; a negative one is `none` here.
unfoldable pub atoi : Bytes → Option ℕ
unfolding decimal_loop
atoi [] = none
atoi (c ∷ s) = if c == b'+' then decimal s else decimal (c ∷ s)

-- n, err := strconv.Atoi(s); err == nil && n >= 1 && n <= 65535
unfoldable pub is_port : Bytes → Bool
unfolding atoi
is_port s = elim (atoi s) [ none ↦ false | some n ↦ leb 1 n && leb n 65535 ]
