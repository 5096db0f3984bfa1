-- ===== src/Webvpn/Codec/Wrd.antt =====
-- internal/webvpn/codec.go: WRDCodec. The block cipher, in the mode CFB, and hex are given.
use wvpn.Base.{
  Bool, true, false, not, ◌&&◌, ◌||◌, [], ◌∷◌, ◌++◌, Option, none, some, if◌then◌else◌, is_empty,
  length, drop, leb,
}
use wvpn.Text.{Bytes, codes, has_prefix, contains_byte, cut, take, trim_prefix}
use wvpn.Store.Sites.{all_bytes}
use wvpn.Store.Config.Domain.{is_port}
use wvpn.Webvpn.Url.{Url, UrlLib, scheme_supported, default_port, assemble, path_query}
use wvpn.Webvpn.Codec.{Codec}

-- The stream that CFB makes of a text under an IV, in both directions, and hex.
pub record Cipher : Type 0 where
  pub encrypt : Bytes → Bytes → Bytes
  pub decrypt : Bytes → Bytes → Bytes
  pub to_hex : Bytes → Bytes
  pub of_hex : Bytes → Option Bytes
  pub iv : Bytes

abbrev pub is_digits : Bytes → Bool
is_digits s = not (is_empty s) && leb (length s) 5 && all_bytes (λ c. leb b'0' c && leb c b'9') s

-- wrdSchemeRe: the scheme, and the port, which is empty where there is none.
unfoldable pub wrd_scheme : Bytes → Option (Bytes × Bytes)
unfolding cut scheme_supported all_bytes
wrd_scheme seg =
    let (scheme, port, found) = cut b'-' seg in
    if not (scheme_supported scheme)
    then none
    else if not found
    then some (scheme, [])
    else if is_digits port
    then some (scheme, port)
    else none

-- Match
unfoldable pub wrd_match : Bytes → Bytes → Bool
unfolding cut trim_prefix wrd_scheme
wrd_match host path =
    let (seg, _, _) = cut b'/' (trim_prefix path (codes "/")) in
    elim (wrd_scheme seg) [ none ↦ false | some _ ↦ true ]

module _ (lib : UrlLib) (cipher : Cipher) where
  -- encryptHost
  unfoldable pub encrypt_host : Bytes → Bytes
  encrypt_host host = cipher.to_hex cipher.iv ++ cipher.to_hex (cipher.encrypt cipher.iv host)

  -- decryptHost, on bytes of which none is above 0x7e where the host is taken.
  unfoldable pub decrypt_host : Bytes → Option Bytes
  unfolding all_bytes
  decrypt_host s = elim (cipher.of_hex s) [
    | none ↦ none
    | some raw ↦
        let host = cipher.decrypt (take 16 raw) (drop 16 raw) in
        if leb (length raw) 16
        then none
        else if all_bytes (λ c. leb 0x21 c && leb c 0x7e) host
        then some host
        else none
  ]

  -- Encode
  unfoldable pub wrd_encode : Url → Bytes
  unfolding scheme_supported default_port encrypt_host path_query
  wrd_encode u =
      let port = lib.port u.host in
      if is_empty u.host || not (scheme_supported u.scheme)
      then []
      else b'/'
        ∷ (u.scheme
            ++ ((if not (is_empty port) && not (default_port u.scheme port)
                  then b'-' ∷ port
                  else [])
                ++ (b'/' ∷ (encrypt_host (lib.hostname u.host) ++ path_query u))))

  abbrev pub bracketed : Bytes → Bytes
  bracketed host =
      if contains_byte b':' host && not (has_prefix host (codes "["))
      then codes "[" ++ (host ++ codes "]")
      else host

  -- Decode
  unfoldable pub wrd_decode : Bytes → Bytes → Bytes → Option Url
  unfolding cut trim_prefix wrd_scheme decrypt_host contains_byte has_prefix is_port assemble
  wrd_decode host path query =
      let (seg, rest, _) = cut b'/' (trim_prefix path (codes "/")) in
      let (enc, tail, _) = cut b'/' rest in
      elim (wrd_scheme seg) [
        | none ↦ none
        | some (scheme, port) ↦ elim (decrypt_host enc) [
          | none ↦ none
          | some name ↦
              if is_empty port
              then assemble lib scheme (bracketed name) tail query
              else if not (is_port port)
              then none
              else assemble lib scheme (bracketed name ++ (b':' ∷ port)) tail query
        ]
      ]

  unfoldable pub wrd_codec : Codec
  unfolding wrd_match wrd_encode wrd_decode
  wrd_codec = record {
    name = codes "wrd";
    claims = wrd_match;
    encode = wrd_encode;
    decode = wrd_decode;
  }
