-- ===== src/Webvpn/Restore.antt =====
-- internal/webvpn/restore.go: gateway addresses in the parameters of a request are put back to the
-- addresses that they stand for.
pub mod Parameters
pub mod Buffer
mod Tests
use wvpn.Base.{
  ℕ, zero, suc, ◌+◌, ◌-◌, Bool, true, false, not, ◌&&◌, ◌||◌, List, [], ◌∷◌, ◌++◌, Option, none,
  some, if◌then◌else◌, is_empty, ◌==◌, ltb, length, map, drop,
}
use wvpn.Text.{
  Bytes, codes, same, has_prefix, has_suffix, equal_fold, to_lower, contains, cut, split, join,
  take, trim_space,
}
use wvpn.Store.Config.{ℤ, pos, negsuc}
use wvpn.Webvpn.Url.{Url}
use wvpn.Webvpn.Codec.{host_only}
use wvpn.Webvpn.Codec.Plain.{plain_decode}
use wvpn.Webvpn.Codec.Host.{is_gateway_host}
use wvpn.Webvpn.Proxy.{
  Handler, Addressing, plainly, hidden, by_name, codec, ReqInfo, referer_target, or_else,
}

-- browserPage
unfoldable pub browser_page : Handler → ReqInfo → Bytes → Url
unfolding referer_target
browser_page h info referer = elim (or_else (referer_target h referer) info.page) [
  | some page ↦ page
  | none ↦ info.target
]

-- The bytes that absURLRe takes behind the scheme.
unfoldable pub url_byte : ℕ → Bool
url_byte c = not (
    c == 9
    || (c == 10
        || (c == 12
            || (c == 13
                || (c == b' '
                    || (c == b'"' || (c == 39 || (c == b'<' || (c == b'>' || c == 92)))))))))

unfoldable pub url_run : Bytes → Bytes
unfolding url_byte
url_run [] = []
url_run (c ∷ s) = let rest = url_run s in if url_byte c then c ∷ rest else []

abbrev pub with_run : Bytes → Bytes → Option Bytes
with_run scheme run = if is_empty run then none else some (scheme ++ run)

-- absURLRe at the start of a text.
unfoldable pub abs_url : Bytes → Option Bytes
unfolding to_lower has_prefix url_run
abs_url s =
    if has_prefix (to_lower s) (codes "https://")
    then with_run (take 8 s) (url_run (drop 8 s))
    else if has_prefix (to_lower s) (codes "http://")
    then with_run (take 7 s) (url_run (drop 7 s))
    else none

-- absURLRe.ReplaceAllStringFunc; the number is how many bytes of the last match are still to come.
unfoldable pub replace_urls : (Bytes → Bytes) → ℕ → Bytes → Bytes
unfolding abs_url
replace_urls f n [] = []
replace_urls f (suc n) (c ∷ s) = replace_urls f n s
replace_urls f zero (c ∷ s) = elim (abs_url (c ∷ s)) [
  | none ↦ c ∷ replace_urls f zero s
  | some m ↦ f m ++ replace_urls f (length m - 1) s
]

-- addressedToGateway
unfoldable pub addressed_to_gateway : Handler → Bytes → Bytes → Bool
unfolding equal_fold host_only is_gateway_host
addressed_to_gateway h host browser_host =
    if equal_fold (host_only host) (host_only browser_host) then true else elim h.addressing [
      | by_name c ↦ is_gateway_host c host
      | plainly ↦ false
      | hidden cipher ↦ false
    ]

-- sameShapeAs
unfoldable pub same_shape_as : Url → Url → Url
unfolding same has_suffix
same_shape_as src decoded =
    if same decoded.path (codes "/") && not (has_suffix src.path (codes "/"))
    then record decoded { path = [] }
    else decoded

-- realAddress
unfoldable pub real_address : Handler → Url → Option Url → Bytes → Option Url
unfolding addressed_to_gateway plain_decode codec same_shape_as
real_address h u page browser_host =
    if not (addressed_to_gateway h u.host browser_host)
    then none
    else elim (plain_decode h.lib u.host u.path u.query) [
      | some t ↦ some (same_shape_as u t)
      | none ↦ elim ((codec h.lib h.addressing).decode u.host u.path u.query) [
        | some t ↦ some (same_shape_as u t)
        | none ↦ elim page [
          | none ↦ none
          | some p ↦ some (record u { scheme = p.scheme; host = p.host })
        ]
      ]
    ]

-- The function that restoreTargets replaces a match by.
unfoldable pub restore_url : Handler → Option Url → Bytes → Bytes → Bytes
unfolding real_address
restore_url h page browser_host m = elim (h.lib.parse m) [
  | none ↦ m
  | some u ↦
      if is_empty u.host
      then m
      else elim (real_address h u page browser_host) [ none ↦ m | some real ↦ h.lib.print real ]
]

-- restoreTargets
unfoldable pub restore_targets : Handler → Option Url → Bytes → Bytes → Bytes
unfolding contains replace_urls restore_url
restore_targets h page browser_host s =
    if not (contains s (codes "://"))
    then s
    else replace_urls (restore_url h page browser_host) zero s

-- One round of restoreQuery's loop.
unfoldable pub restore_pair : Handler → Option Url → Bytes → Bytes → Bytes
unfolding cut restore_targets same
restore_pair h page browser_host pair =
    let (name, value, found) = cut b'=' pair in
    if not found then pair else elim (h.lib.query_unescape value) [
      | none ↦ pair
      | some decoded ↦
          let restored = restore_targets h page browser_host decoded in
          if same restored decoded then pair else name ++ (b'=' ∷ h.lib.query_escape restored)
    ]

-- restoreQuery
unfoldable pub restore_query : Handler → Option Url → Bytes → Bytes → Bytes
unfolding contains to_lower split join restore_pair
restore_query h page browser_host raw =
    if is_empty raw
      || (not (contains raw (codes "://")) && not (contains (to_lower raw) (codes "%3a")))
    then raw
    else join (codes "&") (map (restore_pair h page browser_host) (split b'&' raw))

-- maxRestoreBody
unfoldable pub max_restore_body : ℕ
max_restore_body = 1048576

-- A request's body: whether there is one, the length it is said to have, its bytes, and whether reading
-- it fails.
pub record Body : Type 0 where
  pub present : Bool
  pub content_length : ℤ
  pub bytes : Bytes
  pub fails : Bool

-- r.ContentLength == 0 || r.ContentLength > maxRestoreBody
abbrev pub out_of_reach : ℤ → Bool
out_of_reach (pos n) = n == 0 || ltb max_restore_body n
out_of_reach (negsuc n) = false

abbrev pub is_form : Bytes → Bool
is_form content_type =
    let (media_type, _, _) = cut b';' content_type in
    same (trim_space (to_lower media_type)) (codes "application/x-www-form-urlencoded")

-- restoreBody: the body that goes to the site.
unfoldable pub restore_body : Handler → Option Url → Bytes → Bytes → Body → Body
unfolding cut trim_space to_lower same restore_query
restore_body h page browser_host content_type b =
    let read = take (suc max_restore_body) b.bytes in
    let restored = restore_query h page browser_host read in
    if not b.present || out_of_reach b.content_length
    then b
    else if not (is_form content_type)
    then b
    else if b.fails || ltb max_restore_body (length read)
    then record b { bytes = read }
    else record b { bytes = restored; content_length = pos (length restored) }
