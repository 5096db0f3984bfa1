-- ===== src/Webvpn/Rewrite/Tests.antt =====
-- Runs of the rewriter.
use wvpn.Base.{◌≡◌, ◌≢◌, refl, Bool, false, [], ◌∷◌, ◌++◌, Option, none, some, arith}
use wvpn.Text.{Bytes, codes, texts}
use wvpn.Webvpn.Codec.Plain.{plain_codec}
use wvpn.Webvpn.Proxy.Samples.{lib, site}
use wvpn.Webvpn.Rewrite.{Rewriter, js_related, js_all, parse_js_scope, ref, unquoted, js_origin}
use wvpn.Webvpn.Rewrite.Srcset.{srcset_loop, srcset, strip_commas, srcset_loop_ends}
use wvpn.Webvpn.Rewrite.Document.{Tag, start, text, html}
use wvpn.Webvpn.Rewrite.Document.Splice.{html_once}

abbrev rewriter : Rewriter
rewriter = record {
  lib = lib;
  codec = plain_codec lib;
  scope = js_related;
  origin = codes "https://gw.cn";
  registrable = λ h. none;
  replace_origins = λ f s. s;
  replace_css_urls = λ f s. s;
  replace_css_imports = λ f s. s;
}

ref_runs :
    (ref rewriter (codes " #top") site ≡ [])
    × (ref rewriter (codes "mailto:a@b") site ≡ [])
    × (ref rewriter (codes "b.png") site ≡ codes "/p/https/x.cn/a?u=1&v=2")
    × (parse_js_scope (codes " All") ≡ some js_all)
    × (unquoted (codes "'a'") ≡ (codes "'", codes "a"))
    × (strip_commas (codes "a,b,,") ≡ (codes "a,b", codes ",,"))
    × (srcset rewriter site (codes "#a 1x, #b,") ≡ codes "#a 1x, #b,")
    × (js_origin rewriter site (codes "https://x.cn") (codes "HTTPS") (codes "x.cn")
        ≡ codes "https://gw.cn/p/https/x.cn")
unfolding ref parse_js_scope unquoted strip_commas srcset js_origin plain_codec texts
ref_runs = (refl, refl, refl, refl, refl, refl, refl, refl)

srcset_loop_ends_example : srcset_loop rewriter site 4 (codes "a,b") ≢ none
srcset_loop_ends_example = srcset_loop_ends rewriter site 4 (codes "a,b") (omega arith)

abbrev no_refresh : Bytes → Option (Bytes × Bytes)
no_refresh s = none

abbrev print_tag : Bool → Tag → Bytes
print_tag closed t = t.name

html_once_example :
    let ts =
      start false (record { name = codes "head"; attrs = [] }) (codes "<head>")
      ∷ text (codes "x")
      ∷ [] in
    (before : Bytes) × (after : Bytes) × (html rewriter no_refresh print_tag (codes "S") site ts
      ≡ before ++ (codes "S" ++ after))
    × (html rewriter no_refresh print_tag [] site ts ≡ before ++ after)
html_once_example =
    html_once rewriter no_refresh print_tag (codes "S") site
      (start false (record { name = codes "head"; attrs = [] }) (codes "<head>")
        ∷ text (codes "x")
        ∷ [])
      refl
