-- ===== src/Net.antt =====
-- What the gateway uses of Go's packages `net` and `net/netip`: host:port texts, addresses, prefixes.

use wvpn.Base.{
  ℕ, ◌+◌, ◌-◌, ◌*◌, ◌/◌, ◌^◌, ◌%◌, Bool, true, false, not, ◌&&◌, ◌||◌, [], ◌∷◌, Option, none, some,
  ◌==◌, if◌then◌else◌, leb, is_empty,
}
use wvpn.Text.{Bytes, contains_byte, cut}

-- Before and after the last occurrence of a byte.
unfoldable pub cut_last : ℕ → Bytes → Option (Bytes × Bytes)
unfolding contains_byte
cut_last sep [] = none
cut_last sep (c ∷ s) = elim (cut_last sep s) [
  | some (before, after) ↦ some (c ∷ before, after)
  | none ↦ if c == sep then some ([], s) else none
]

-- The bracketed form, behind its "[": the host ends at the first "]", and ":port" follows.
unfoldable pub split_bracketed : Bytes → Option (Bytes × Bytes)
unfolding contains_byte
split_bracketed s =
    let (host, rest, found) = cut b']' s in
    if not found then none else elim rest [
      | [] ↦ none
      | c ∷ port ↦
          if (c == b':' && not (contains_byte b':' port))
            && not (contains_byte b'[' host || contains_byte b'[' port || contains_byte b']' port)
          then some (host, port)
          else none
    ]

unfoldable pub split_plain : Bytes → Option (Bytes × Bytes)
unfolding cut_last
split_plain s = elim (cut_last b':' s) [
  | none ↦ none
  | some (host, port) ↦
      if contains_byte b':' host || contains_byte b'[' s || contains_byte b']' s
      then none
      else some (host, port)
]

-- net.SplitHostPort; `none` is its error.
unfoldable pub split_host_port : Bytes → Option (Bytes × Bytes)
unfolding split_bracketed split_plain
split_host_port [] = none
split_host_port (c ∷ s) = if c == b'[' then split_bracketed s else split_plain (c ∷ s)

-- if h, _, err := net.SplitHostPort(host); err == nil { host = h }
unfoldable pub without_port : Bytes → Bytes
unfolding split_host_port
without_port s = elim (split_host_port s) [ none ↦ s | some (host, _) ↦ host ]

-- netip.Addr: the zero value, 32 bits, or 128 bits and a zone, which is empty where there is none.
pub data Addr : Type 0 where
  invalid : Addr
  v4 : ℕ → Addr
  v6 : ℕ → Bytes → Addr

-- The leading bits of a 128-bit address.
abbrev high_bits : ℕ → ℕ → ℕ
high_bits bits a = a / 2 ^ (128 - bits)

unfoldable pub is_4_in_6 : Addr → Bool
is_4_in_6 (v6 a _) = high_bits 96 a == 0xffff
is_4_in_6 _ = false

unfoldable pub unmap : Addr → Addr
unfolding is_4_in_6
unmap (v6 a zone) = if is_4_in_6 (v6 a zone) then v4 (a % 2 ^ 32) else v6 a zone
unmap a = a

unfoldable pub is_valid : Addr → Bool
is_valid invalid = false
is_valid _ = true

-- IsUnspecified compares the whole address, so that "::" with a zone is not unspecified.
unfoldable pub is_unspecified : Addr → Bool
is_unspecified invalid = false
is_unspecified (v4 a) = a == 0
is_unspecified (v6 a zone) = a == 0 && is_empty zone

unfoldable pub is_link_local_unicast : Addr → Bool
is_link_local_unicast invalid = false
is_link_local_unicast (v4 a) = a / 2 ^ 16 == 0xa9fe
is_link_local_unicast (v6 a _) = high_bits 10 a == 0x3fa

-- Of the first 16 bits, those that netip masks by 0xff0f.
abbrev scope : ℕ → ℕ
scope a = high_bits 16 a / 256 * 256 + high_bits 16 a % 16

unfoldable pub is_link_local_multicast : Addr → Bool
is_link_local_multicast invalid = false
is_link_local_multicast (v4 a) = a / 2 ^ 8 == 0xe00000
is_link_local_multicast (v6 a _) = scope a == 0xff02

unfoldable pub is_interface_local_multicast : Addr → Bool
is_interface_local_multicast (v6 a _) = scope a == 0xff01
is_interface_local_multicast _ = false

unfoldable pub is_multicast : Addr → Bool
is_multicast invalid = false
is_multicast (v4 a) = a / 2 ^ 28 == 0xe
is_multicast (v6 a _) = high_bits 8 a == 0xff

unfoldable pub is_loopback : Addr → Bool
is_loopback invalid = false
is_loopback (v4 a) = a / 2 ^ 24 == 127
is_loopback (v6 a _) = a == 1

unfoldable pub is_private : Addr → Bool
is_private invalid = false
is_private (v4 a) = a / 2 ^ 24 == 10 || a / 2 ^ 20 == 0xac1 || a / 2 ^ 16 == 0xc0a8
is_private (v6 a _) = high_bits 7 a == 0x7e

-- netip.Prefix: the address and the number of its bits that count.
pub record Prefix : Type 0 where
  pub addr : Addr
  pub bits : ℕ

-- Prefix.Contains, which no address with a zone passes.
unfoldable pub contains_addr : Prefix → Addr → Bool
contains_addr p (v4 a) = elim p.addr [
  | v4 b ↦ leb p.bits 32 && a / 2 ^ (32 - p.bits) == b / 2 ^ (32 - p.bits)
  | _ ↦ false
]
contains_addr p (v6 a zone) = elim p.addr [
  | v6 b _ ↦ is_empty zone && (leb p.bits 128 && a / 2 ^ (128 - p.bits) == b / 2 ^ (128 - p.bits))
  | _ ↦ false
]
contains_addr p invalid = false

-- Prefix.Masked
unfoldable pub masked : Prefix → Prefix
masked p = elim p.addr [
  | invalid ↦ p
  | v4 b ↦ record p { addr = v4 (b / 2 ^ (32 - p.bits) * 2 ^ (32 - p.bits)) }
  | v6 b _ ↦ record p { addr = v6 (b / 2 ^ (128 - p.bits) * 2 ^ (128 - p.bits)) [] }
]
