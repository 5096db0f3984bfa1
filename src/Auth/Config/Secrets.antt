-- ===== src/Auth/Config/Secrets.antt =====
-- The console never sees a stored secret, and does not lose one by saving what it was shown.
use wvpn.Base.{◌≡◌, refl, ap, false, Option, is_empty}
use wvpn.Text.{Bytes}
use wvpn.Store.Config.{mode, Config}
use wvpn.Store.Config.Normal.{mode_idem}
use wvpn.Auth.Config.{view_of, merge}

module _ (S : Type 0) (summary : Bytes → Bytes → Option S) where
  abbrev pub with_password : Bytes → Config → Config
  with_password p c = record c { smtp = record c.smtp { password = p } }

  -- Two configurations that differ in nothing but a password that is set look the same.
  pub view_of-with_password :
      (c : Config) (p q : Bytes)
      → is_empty p ≡ false
      → is_empty q ≡ false
      → view_of S summary (with_password p c) ≡ view_of S summary (with_password q c)
  unfolding view_of
  view_of-with_password c p q a b = rw (a, b) refl

  -- Saving the view unchanged keeps the password, the certificate, the key, and the mode that mail is
  -- sent in, and the view itself.
  pub merge-view_of :
      (c : Config)
      → let saved = merge S (view_of S summary c) c in
        (saved.smtp.password ≡ c.smtp.password)
        × (saved.tls.key ≡ c.tls.key)
        × (saved.tls.cert ≡ c.tls.cert)
        × (mode saved.smtp ≡ mode c.smtp)
        × (view_of S summary saved ≡ view_of S summary c)
  unfolding merge view_of mode
  merge-view_of c =
      let saved = merge S (view_of S summary c) c in
      let settled : mode saved.smtp ≡ mode c.smtp = mode_idem c.smtp saved.smtp refl refl in
      (
        refl,
        refl,
        refl,
        settled,
        ap
            (λ k. record (view_of S summary c) {
              smtp = record (view_of S summary c).smtp { tls_mode = k };
            })
            settled,
      )
