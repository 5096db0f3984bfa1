-- ===== src/Webvpn/Codec/Label/Tests.antt =====
-- Runs of the spelling of labels.
use wvpn.Base.{◌≡◌, refl}
use wvpn.Text.{codes}
use wvpn.Webvpn.Codec.{replace_all, escape, unescape}

label_runs :
    (escape (codes "git-scm.com") ≡ codes "git--scm-com")
    × (unescape (codes "git--scm-com") ≡ codes "git-scm.com")
    × (unescape (escape (codes "a.-b")) ≡ codes "a-.b")
unfolding escape unescape replace_all
label_runs = (refl, refl, refl)
