-- ===== src/Webvpn/Trust.antt =====
-- internal/webvpn/tls.go: the store of confirmed certificates, and what dialTLS, serveTrust and
-- safeReturn make of it. Time is a number of nanoseconds.
pub mod History
pub mod Redirect
mod Tests
use wvpn.Base.{
  ℕ, ◌+◌, Bool, true, false, not, ◌&&◌, ◌||◌, List, [], ◌∷◌, ◌++◌, Option, none, some,
  if◌then◌else◌, is_empty, ltb, leb, ◌==◌,
}
use wvpn.Text.{Bytes, codes, same, has_prefix, has_suffix, cut, equal_fold}
use wvpn.Webvpn.Codec.{host_only}
use wvpn.Dict.{Dict, lookup, insert, delete, sweep}

abbrev pub offer_ttl : ℕ
offer_ttl = 600_000_000_000

pub record Offer : Type 0 where
  pub fingerprint : Bytes
  pub seen : ℕ

pub record TrustStore : Type 0 where
  pub pinned : Dict Bytes
  pub offered : Dict Offer

-- now.Sub(seen) > offerTTL
abbrev pub stale : ℕ → Offer → Bool
stale now o = ltb (o.seen + offer_ttl) now

-- offer
unfoldable pub offer : ℕ → Bytes → Bytes → TrustStore → TrustStore
unfolding sweep insert
offer now host fp t = record {
  pinned = t.pinned;
  offered =
      insert host (record { fingerprint = fp; seen = now })
        (sweep (λ o. not (stale now o)) t.offered);
}

-- confirm
unfoldable pub confirm : ℕ → Bytes → Bytes → TrustStore → TrustStore × Bool
unfolding lookup delete insert same
confirm now host fp t = elim (lookup host t.offered) [
  | none ↦ (t, false)
  | some o ↦
      if not (same o.fingerprint fp) || stale now o
      then (t, false)
      else (record { pinned = insert host fp t.pinned; offered = delete host t.offered }, true)
]

-- trusted: t.pinned[host] is "" where nothing is pinned.
unfoldable pub trusted : Bytes → Bytes → TrustStore → Bool
unfolding lookup same
trusted host fp t = elim (lookup host t.pinned) [ none ↦ is_empty fp | some p ↦ same p fp ]

pub data Dialed : Type 0 where
  connected no_certificate : Dialed
  untrusted : Bytes → Dialed

-- dialTLS after the handshake: the fingerprint of the leaf, none where no certificate was presented,
-- and whether its chain verifies.
unfoldable pub dial_tls : Bool → Bytes → Option Bytes → Bool → TrustStore → Dialed
unfolding trusted
dial_tls true addr leaf verifies t = connected
dial_tls false addr none verifies t = no_certificate
dial_tls false addr (some fp) verifies t =
    if verifies || trusted addr fp t then connected else untrusted fp

pub data TrustReply : Type 0 where
  method_not_allowed bad_origin bad_request gone : TrustReply
  see_other : Bytes → TrustReply

-- The gateway's own name minus its first label.
unfoldable pub suffix_of : Bytes → Bytes
unfolding cut
suffix_of host = let (before, after, found) = cut b'.' host in if found then after else host

-- host == base || strings.HasSuffix(host, "."+base), where base is not empty.
unfoldable pub within : Bytes → Bytes → Bool
unfolding same has_suffix
within base host = not (is_empty base) && (same host base || has_suffix host (codes "." ++ base))

-- What url.Parse makes of an absolute URL: its scheme and its host with the port.
module _ (parse_url : Bytes → Option (Bytes × Bytes)) where
  -- The end of safeReturn, for a URL that does not start with a slash.
  unfoldable pub safe_absolute : Bytes → Bytes → Bytes
  unfolding within same host_only
  safe_absolute next base = elim (parse_url next) [
    | none ↦ codes "/"
    | some (scheme, host) ↦
        if (same scheme (codes "http") || same scheme (codes "https"))
          && within base (host_only host)
        then next
        else codes "/"
  ]

  -- safeReturn
  unfoldable pub safe_return : Bytes → Bytes → Bytes
  unfolding has_prefix host_only suffix_of safe_absolute
  safe_return next gateway_host =
      if is_empty next || has_prefix next (codes "//")
      then codes "/"
      else if has_prefix next (codes "/")
      then next
      else safe_absolute next (suffix_of (host_only gateway_host))

  -- serveTrust: whether the method is POST, the Origin header, the Host header, and the form's host,
  -- fingerprint and next, none where it does not parse.
  unfoldable pub serve_trust :
      ℕ
      → Bool
      → Bytes
      → Bytes
      → Option (Bytes × Bytes × Bytes)
      → TrustStore
      → TrustStore × TrustReply
  unfolding confirm safe_return same equal_fold
  serve_trust now false origin host form t = (t, method_not_allowed)
  serve_trust now true origin host form t =
      let from_here =
        is_empty origin
        || same origin (codes "null")
        || elim (parse_url origin) [ none ↦ false | some (scheme, h) ↦ equal_fold h host ] in
      if not from_here then (t, bad_origin) else elim form [
        | none ↦ (t, bad_request)
        | some (target, fp, next) ↦
            let (after, pinned) = confirm now target fp t in
            (after, (if pinned then see_other (safe_return next host) else gone))
      ]
