-- ===== src/Webvpn/Cookie/Return.antt =====
-- Which cookies of a browser's Cookie header reach the site.
use wvpn.Base.{
  ◌≡◌, ◌≢◌, refl, ap, ◌∙◌, true, false, List, [], ◌∷◌, ◌++◌, map, arith, All, is_empty,
  if◌then◌else◌,
}
use wvpn.Text.{Bytes, codes, has_prefix, trim_prefix, cut, split, join, trim_space}
use wvpn.Text.Laws.{Lacks, cut_at}
use wvpn.Text.Trim.{IsTrimmed, trim_space_blank}
use wvpn.Text.Parts.{gapped, split-join}
use wvpn.Webvpn.Cookie.{
  cookie_prefix, gateway_cookie_name, site_cookie_name, our_pair, our_pairs, our_cookies,
}

-- A cookie as the browser holds it: one that the gateway wrote, under the site's name and value, or
-- one from outside the tunnel.
pub data Held : Type 0 where
  written : Bytes → Bytes → Held
  foreign : Bytes → Bytes → Held

-- The pair that the browser sends, and the pairs that the site is to see.
abbrev pub shown : Held → Bytes
shown (written name value) = gateway_cookie_name name ++ (b'=' ∷ value)
shown (foreign name value) = name ++ (b'=' ∷ value)

abbrev pub site_pairs : List Held → List Bytes
site_pairs [] = []
site_pairs (written name value ∷ hs) = (name ++ (b'=' ∷ value)) ∷ site_pairs hs
site_pairs (foreign name value ∷ hs) = site_pairs hs

abbrev pub IsToken : Bytes → Type 0
IsToken name = IsTrimmed name × Lacks b'=' name × (name ≢ [])

-- What a browser sends: a trimmed pair with no semicolon, whose name holds no "=". A foreign name
-- does not start with the gateway's prefix.
abbrev pub IsSent : Held → Type 0
IsSent (written name value) =
    IsToken (gateway_cookie_name name)
    × IsTrimmed (shown (written name value))
    × Lacks b';' (shown (written name value))
IsSent (foreign name value) =
    IsToken name
    × IsTrimmed (shown (foreign name value))
    × Lacks b';' (shown (foreign name value))
    × (has_prefix name cookie_prefix ≡ false)

has_prefix-append : (p s : Bytes) → has_prefix (p ++ s) p ≡ true
unfolding has_prefix
has_prefix-append [] [] = refl
has_prefix-append [] (c ∷ s) = refl
has_prefix-append (c ∷ p) s = ground (arith, has_prefix-append p s)

site_cookie_name-prefix :
    (name : Bytes) → site_cookie_name (gateway_cookie_name name) ≡ (name, true)
unfolding site_cookie_name trim_prefix
site_cookie_name-prefix name = rw (has_prefix-append cookie_prefix name) refl

our_pair_written :
    (name value : Bytes)
    → IsSent (written name value)
    → our_pair (shown (written name value)) ≡ (name ++ (b'=' ∷ value)) ∷ []
unfolding our_pair
our_pair_written name value ((token, plain, _), trimmed, _) =
    rw
      (
        trimmed,
        cut_at b'=' (gateway_cookie_name name) value plain,
        token,
        site_cookie_name-prefix name,
      )
      refl

our_pair_foreign :
    (name value : Bytes) → IsSent (foreign name value) → our_pair (shown (foreign name value)) ≡ []
unfolding our_pair site_cookie_name
our_pair_foreign name value ((token, plain, _), trimmed, _, strange) =
    rw (trimmed, cut_at b'=' name value plain, token, strange) refl

-- A part that stands behind a blank is read like the part.
our_pairs-gapped : (ps : List Bytes) → our_pairs (map (λ q. codes " " ++ q) ps) ≡ our_pairs ps
unfolding our_pairs our_pair
our_pairs-gapped [] = refl
our_pairs-gapped (p ∷ ps) = rw (trim_space_blank p, our_pairs-gapped ps) refl

our_pairs-shown : (hs : List Held) → All IsSent hs → our_pairs (map shown hs) ≡ site_pairs hs
unfolding our_pairs
our_pairs-shown [] h = refl
our_pairs-shown (written name value ∷ hs) h =
    rw (our_pair_written name value h.0, our_pairs-shown hs h.1) refl
our_pairs-shown (foreign name value ∷ hs) h =
    rw (our_pair_foreign name value h.0, our_pairs-shown hs h.1) refl

shown-Lacks : (hs : List Held) → All IsSent hs → All (Lacks b';') (map shown hs)
shown-Lacks [] h = tt
shown-Lacks (written name value ∷ hs) h = (h.0.2, shown-Lacks hs h.1)
shown-Lacks (foreign name value ∷ hs) h = (h.0.2, shown-Lacks hs h.1)

our_pairs-gapped_all : (ps : List Bytes) → our_pairs (gapped (codes " ") ps) ≡ our_pairs ps
unfolding our_pairs
our_pairs-gapped_all [] = unfold cut trim_space in refl
our_pairs-gapped_all (p ∷ ps) = ap (λ r. our_pair p ++ r) (our_pairs-gapped ps)

-- Of the cookies that a browser sends, the site gets exactly those that the gateway wrote, in order,
-- under the site's own names and with their values byte for byte.
pub our_cookies-shown :
    (hs : List Held)
    → All IsSent hs
    → our_cookies (join (codes "; ") (map shown hs)) ≡ join (codes "; ") (site_pairs hs)
unfolding our_cookies
our_cookies-shown hs h = pick (join (codes "; ") (map shown hs)) (site_pairs hs) (
    ap our_pairs (split-join b';' (codes " ") (map shown hs) (omega arith) (shown-Lacks hs h))
    ∙ our_pairs-gapped_all (map shown hs)
    ∙ our_pairs-shown hs h)
  where
    pick :
        (s : Bytes) (ps : List Bytes)
        → our_pairs (split b';' s) ≡ ps
        → (if is_empty s then s else join (codes "; ") (our_pairs (split b';' s)))
          ≡ join (codes "; ") ps
    pick [] ps e = rw (← e) (unfold our_pairs split join cut trim_space in refl)
    pick (c ∷ s) ps e = rw e refl
