-- ===== src/Auth/Mailer/Secrecy.antt =====
-- A password does not cross the wire in the clear unless the settings allow it, and where they insist on
-- encryption nothing does.
use wvpn.Base.{◌≡◌, refl, Bool, true, false, ◌||◌, ok, arith}
use wvpn.Auth.Mailer.{
  SmtpMailer, mailer_mode, Mechanism, plain, login, cram_md5, Step, dial, dial_tls, greet, hello,
  start_tls, mail, rcpt, send, quit, authenticate, Server, pick_auth, smtp_send,
}
use wvpn.Auth.Mailer.Conversation.{holds, is_secure, is_calm, smtp_send-holds}

-- The password is shown on an encrypted connection only, or where that is allowed.
abbrev pub discreet : SmtpMailer → Bool → Step → Bool
discreet m sealed (authenticate plain) = sealed || m.allow_plaintext_auth
discreet m sealed (authenticate login) = sealed || m.allow_plaintext_auth
discreet m sealed _ = true

-- Neither credentials nor any part of the message are sent unencrypted.
abbrev pub confidential : Bool → Step → Bool
confidential sealed (authenticate _) = sealed
confidential sealed mail = sealed
confidential sealed rcpt = sealed
confidential sealed send = sealed
confidential sealed _ = true

calm_discreet :
    (m : SmtpMailer) (sealed : Bool) (step : Step)
    → is_calm step ≡ true
    → discreet m sealed step ≡ true
calm_discreet m sealed (authenticate plain) h = cc
calm_discreet m sealed (authenticate login) h = cc
calm_discreet m sealed (authenticate cram_md5) h = refl
calm_discreet m sealed dial h = refl
calm_discreet m sealed dial_tls h = refl
calm_discreet m sealed greet h = refl
calm_discreet m sealed hello h = refl
calm_discreet m sealed start_tls h = refl
calm_discreet m sealed mail h = refl
calm_discreet m sealed rcpt h = refl
calm_discreet m sealed send h = refl
calm_discreet m sealed quit h = refl

pick_auth-discreet :
    (m : SmtpMailer) (server : Server) (sealed : Bool) (mechanism : Mechanism)
    → pick_auth m server sealed ≡ ok mechanism
    → discreet m sealed (authenticate mechanism) ≡ true
unfolding pick_auth
pick_auth-discreet m server sealed cram_md5 h = refl
pick_auth-discreet m server sealed plain h = ground arith
pick_auth-discreet m server sealed login h = ground arith

calm_confidential :
    (sealed : Bool) (step : Step) → is_calm step ≡ true → confidential sealed step ≡ true
calm_confidential sealed (authenticate _) h = cc
calm_confidential sealed mail h = cc
calm_confidential sealed rcpt h = cc
calm_confidential sealed send h = cc
calm_confidential sealed dial h = refl
calm_confidential sealed dial_tls h = refl
calm_confidential sealed greet h = refl
calm_confidential sealed hello h = refl
calm_confidential sealed start_tls h = refl
calm_confidential sealed quit h = refl

-- No password is shown on a connection that is not encrypted, unless the settings allow that.
pub smtp_send-discreet :
    (m : SmtpMailer) (server : Server) → holds (discreet m) false (smtp_send m server).0 ≡ true
smtp_send-discreet m server =
    smtp_send-holds (discreet m) m server
      (λ sealed mechanism e _. pick_auth-discreet m server sealed mechanism e)
      (refl, refl, refl, refl) (λ _. (refl, refl, refl, refl)) (calm_discreet m)

-- In the modes that insist on encryption nothing of the message and no credentials are sent before the
-- connection is encrypted.
pub smtp_send-confidential :
    (m : SmtpMailer) (server : Server)
    → is_secure (mailer_mode m) ≡ true
    → holds confidential false (smtp_send m server).0 ≡ true
smtp_send-confidential m server h =
    smtp_send-holds confidential m server (λ sealed mechanism _ e. e) (refl, refl, refl, refl)
      (λ e. cc) calm_confidential
