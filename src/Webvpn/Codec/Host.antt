-- ===== src/Webvpn/Codec/Host.antt =====
-- internal/webvpn/codec.go: HostCodec, which spells a target as a label of a wildcard domain.
use wvpn.Base.{
  ℕ, Bool, true, false, not, ◌&&◌, ◌||◌, [], ◌∷◌, ◌++◌, Option, none, some, if◌then◌else◌, is_empty,
  length, drop, ltb, ◌==◌, ◌+◌,
}
use wvpn.Text.{
  Bytes, codes, same, has_suffix, trim_suffix, trim_prefix, contains_byte, trim_space, trim_both,
  to_lower,
}
use wvpn.Store.Config.{stripped}
use wvpn.Store.Config.Domain.{is_port}
use wvpn.Store.Sites.{all_bytes}
use wvpn.Webvpn.Url.{
  Url, UrlLib, scheme_supported, is_tls_scheme, default_port, assemble, path_query,
}
use wvpn.Webvpn.Codec.{Codec, host_only, escape, unescape}
use wvpn.Webvpn.Codec.Plain.{plain_match, plain_encode}
use wvpn.Webvpn.Codec.Wrd.{is_digits}

pub record HostCodec : Type 0 where
  pub base : Bytes
  pub portal : Bytes
  pub port : Bytes
  pub tls : Bool

-- NewHostCodec
unfoldable pub new_host_codec : Bytes → Bytes → Bytes → Bool → Option HostCodec
unfolding trim_space trim_both to_lower contains_byte
new_host_codec base portal port tls =
    let name = stripped b'.' base in
    let own = stripped b'.' portal in
    if is_empty name || not (contains_byte b'.' name)
    then none
    else some (record {
      base = name;
      portal = if is_empty own then codes "app." ++ name else own;
      port = port;
      tls = tls;
    })

-- encodeLabel
unfoldable pub encode_label : Bytes → Bytes → Bool → Bytes
unfolding escape
encode_label hostname port tls =
    escape hostname
    ++ ((if not (is_empty port) then codes "-p" ++ port else [])
        ++ (if tls then codes "-s" else []))

abbrev pub port_tail : Bytes → Bool
port_tail [] = false
port_tail (c ∷ s) = c == b'p' && is_digits s

abbrev pub onto_label : ℕ → Option (Bytes × Bytes) → Option (Bytes × Bytes)
onto_label c none = none
onto_label c (some (label, port)) = some (c ∷ label, port)

-- labelPortRe: the label before the suffix, and the port. The flag says that no "-" stands before.
unfoldable pub label_port : Bool → Bytes → Option (Bytes × Bytes)
unfolding all_bytes
label_port fresh [] = none
label_port fresh (c ∷ s) =
    let later = label_port (not (c == b'-')) s in
    if fresh && c == b'-' && port_tail s then some ([], drop 1 s) else onto_label c later

-- decodeLabel
unfoldable pub decode_label : Bytes → Bytes × Bytes × Bool
unfolding has_suffix trim_suffix label_port unescape
decode_label label =
    let tls = has_suffix label (codes "-s") && not (has_suffix label (codes "--s")) in
    let short = if tls then trim_suffix label (codes "-s") else label in
    elim (label_port true short) [
      | none ↦ (unescape short, [], tls)
      | some (name, port) ↦ (unescape name, port, tls)
    ]

-- maxLabel
abbrev pub max_label : ℕ
max_label = 63

-- net.JoinHostPort
abbrev pub join_host_port : Bytes → Bytes → Bytes
join_host_port host port =
    if contains_byte b':' host
    then codes "[" ++ (host ++ (codes "]:" ++ port))
    else host ++ (b':' ∷ port)

-- gatewayScheme
unfoldable pub gateway_scheme : HostCodec → Bytes → Bytes
unfolding same
gateway_scheme c target =
    if same target (codes "ws") || same target (codes "wss")
    then if c.tls then codes "wss" else codes "ws"
    else if c.tls
    then codes "https"
    else codes "http"

-- isGatewayHost
unfoldable pub is_gateway_host : HostCodec → Bytes → Bool
unfolding host_only same has_suffix
is_gateway_host c host =
    let h = host_only host in same h c.base || (same h c.portal || has_suffix h (b'.' ∷ c.base))

-- Match
unfoldable pub host_match : HostCodec → Bytes → Bytes → Bool
unfolding plain_match host_only same has_suffix
host_match c host path =
    let h = host_only host in
    if plain_match host path
    then false
    else if same h c.portal
    then false
    else has_suffix h (b'.' ∷ c.base) && ltb (length c.base + 1) (length h)

module _ (lib : UrlLib) where
  abbrev pub encoded_port : Url → Bytes
  encoded_port u = if default_port u.scheme (lib.port u.host) then [] else lib.port u.host

  abbrev pub target_label : Url → Bytes
  target_label u = encode_label (lib.hostname u.host) (encoded_port u) (is_tls_scheme u.scheme)

  -- Encode
  unfoldable pub host_encode : HostCodec → Url → Bytes
  unfolding scheme_supported is_gateway_host contains_byte plain_encode default_port encode_label
      is_tls_scheme same gateway_scheme path_query
  host_encode c u =
      let label = target_label u in
      let host = label ++ (b'.' ∷ c.base) in
      let shown = if not (is_empty c.port) then join_host_port host c.port else host in
      if is_empty u.host || not (scheme_supported u.scheme)
      then []
      else if is_gateway_host c (lib.hostname u.host)
      then []
      else if contains_byte b':' (lib.hostname u.host)
      then plain_encode u
      else if ltb max_label (length label)
      then plain_encode u
      else if same host c.portal
      then plain_encode u
      else gateway_scheme c u.scheme ++ (codes "://" ++ (shown ++ path_query u))

  -- Decode
  unfoldable pub host_decode : HostCodec → Bytes → Bytes → Bytes → Option Url
  unfolding host_only same has_suffix trim_suffix contains_byte decode_label is_port trim_prefix
      assemble
  host_decode c host path query =
      let h = host_only host in
      let label = trim_suffix h (b'.' ∷ c.base) in
      let (hostname, port, tls) = decode_label label in
      let scheme = if tls then codes "https" else codes "http" in
      let tail = trim_prefix path (codes "/") in
      if same h c.portal || not (has_suffix h (b'.' ∷ c.base))
      then none
      else if is_empty label || contains_byte b'.' label
      then none
      else if is_empty port
      then assemble lib scheme hostname tail query
      else if not (is_port port)
      then none
      else assemble lib scheme (join_host_port hostname port) tail query

  unfoldable pub host_codec : HostCodec → Codec
  unfolding host_match host_encode host_decode
  host_codec c = record {
    name = codes "subdomain";
    claims = host_match c;
    encode = host_encode c;
    decode = host_decode c;
  }
