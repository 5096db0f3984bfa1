-- ===== src/Webvpn/Codec/Tests.antt =====
-- Runs of the codecs.
use wvpn.Base.{◌≡◌, refl, true, false, [], none, some, ◌++◌}
use wvpn.Text.{codes, texts}
use wvpn.Webvpn.Url.{scheme_supported, bad_host, parse_user_input}
use wvpn.Webvpn.Codec.{replace_all}
use wvpn.Webvpn.Codec.Plain.{plain_match, plain_path, plain_encode, plain_decode}
use wvpn.Webvpn.Codec.Plain.RoundTrip.{written_tail, plain_decode-plain_path}
use wvpn.Webvpn.Codec.Wrd.{wrd_scheme, wrd_match}
use wvpn.Webvpn.Codec.Host.{
  HostCodec, new_host_codec, encode_label, decode_label, host_match, host_encode,
}
use wvpn.Webvpn.Proxy.Samples.{lib, site}

abbrev wildcard : HostCodec
wildcard = record { base = codes "gw.cn"; portal = codes "app.gw.cn"; port = []; tls = true }

label_runs :
    (encode_label (codes "git-scm.com") (codes "8443") true ≡ codes "git--scm-com-p8443-s")
    × (decode_label (codes "git--scm-com-p8443-s") ≡ (codes "git-scm.com", codes "8443", true))
    × (decode_label (codes "a-p-com") ≡ (codes "a.p.com", [], false))
    × (new_host_codec (codes " GW.cn. ") [] [] true ≡ some wildcard)
    × (host_match wildcard (codes "app.gw.cn:443") (codes "/") ≡ false)
    × (host_match wildcard (codes "x-cn-s.gw.cn") (codes "/") ≡ true)
    × (host_encode lib wildcard site ≡ codes "https://x-cn-s.gw.cn/a?u=1&v=2")
unfolding encode_label decode_label new_host_codec host_match host_encode texts
label_runs = (refl, refl, refl, refl, refl, refl, refl)

wrd_runs :
    (wrd_scheme (codes "https-8080") ≡ some (codes "https", codes "8080"))
    × (wrd_scheme (codes "https-") ≡ none)
    × (wrd_scheme (codes "ftp") ≡ none)
    × (wrd_match [] (codes "/http/abc") ≡ true)
unfolding wrd_scheme wrd_match texts
wrd_runs = (refl, refl, refl, refl)

plain_runs :
    (plain_encode site ≡ codes "/p/https/x.cn/a?u=1&v=2")
    × (plain_decode lib [] (codes "/p/ftp/x.cn/a") [] ≡ none)
    × (parse_user_input lib (codes " x.cn ") ≡ some site)
unfolding plain_encode plain_decode parse_user_input texts
plain_runs = (refl, refl, refl)

plain_decode-plain_path_example :
    (plain_encode site ≡ plain_path site ++ written_tail site)
    × (plain_match (codes "gw.cn") (plain_path site) ≡ true)
    × (plain_decode lib (codes "gw.cn") (plain_path site) (codes "u=1&v=2") ≡ some site)
plain_decode-plain_path_example =
    plain_decode-plain_path lib site site (codes "gw.cn") (unfold scheme_supported texts in refl)
      (unfold bad_host texts in refl) (unfold replace_all in refl) refl refl
