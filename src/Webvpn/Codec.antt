-- ===== src/Webvpn/Codec.antt =====
-- internal/webvpn/codec.go: names of hosts, how HostCodec spells one as a label, and what a codec is.
-- PlainCodec, WRDCodec and HostCodec are child modules.
pub mod Label
pub mod Plain
pub mod Wrd
pub mod Host
mod Tests
use wvpn.Base.{ℕ, Bool, not, ◌||◌, ◌==◌, List, [], ◌∷◌, ◌++◌, if◌then◌else◌, Option}
use wvpn.Text.{Bytes, codes, trim_suffix, trim_both, to_lower}
use wvpn.Net.{without_port}
use wvpn.Webvpn.Url.{Url}

-- Codec. `encode` gives the empty text for what it cannot represent, and `decode` nothing for a request
-- that is not its own.
pub record Codec : Type 0 where
  pub name : Bytes
  pub claims : Bytes → Bytes → Bool
  pub encode : Url → Bytes
  pub decode : Bytes → Bytes → Bytes → Option Url

-- hostOnly
unfoldable pub host_only : Bytes → Bytes
unfolding trim_suffix trim_both to_lower without_port
host_only host =
    to_lower (trim_both (λ c. c == b'[' || c == b']') (trim_suffix (without_port host) (codes ".")))

-- strings.ReplaceAll of one byte.
unfoldable pub replace_all : ℕ → Bytes → Bytes → Bytes
replace_all b by [] = []
replace_all b by (c ∷ s) = if c == b then by ++ replace_all b by s else c ∷ replace_all b by s

-- The hostname in encodeLabel: "-" is doubled, and then "." becomes "-".
unfoldable pub escape : Bytes → Bytes
unfolding replace_all
escape hostname = replace_all b'.' (codes "-") (replace_all b'-' (codes "--") hostname)

-- The loop of decodeLabel.
unfoldable pub unescape : Bytes → Bytes
unescape [] = []
unescape (c ∷ []) = if c == b'-' then b'.' ∷ [] else c ∷ []
unescape (c ∷ d ∷ s) =
    let pair = unescape s in
    let single = unescape (d ∷ s) in
    if not (c == b'-') then c ∷ single else if d == b'-' then b'-' ∷ pair else b'.' ∷ single
