-- ===== src/Auth/Mailer/Tests.antt =====
-- Conversations with a mail server.
use wvpn.Base.{◌≡◌, refl, Bool, true, false, [], ◌∷◌, none, some, ok, err}
use wvpn.Text.{Bytes, codes, texts}
use wvpn.Net.{split_host_port}
use wvpn.Store.Config.Samples.{plain_config}
use wvpn.Auth.Mailer.{
  SmtpMailer, mailer_mode, login, dial, greet, start_tls, authenticate, mail, rcpt, send, quit,
  Server, plaintext_refused, no_starttls, not_configured, smtp_send, store_send,
}
use wvpn.Auth.Mailer.Conversation.{holds}
use wvpn.Auth.Mailer.Secrecy.{discreet, confidential, smtp_send-discreet, smtp_send-confidential}

-- A relay that takes everything and offers AUTH LOGIN.
abbrev relay : Bool → Server
relay starttls = record {
  takes = λ step. true;
  offers_starttls = starttls;
  mechanisms = λ encrypted. some (codes "LOGIN" ∷ []);
  takes_data = true;
  takes_message = true;
}

abbrev client : Bytes → SmtpMailer
client tls_mode = record {
  addr = codes "mx.x.cn:587";
  sender = codes "gw@x.cn";
  username = codes "gw";
  password = codes "pw";
  tls_mode = tls_mode;
  allow_plaintext_auth = false;
  helo = [];
  insecure_skip_verify = false;
}

send_runs :
    (smtp_send (client (codes "auto")) (relay true)
      ≡ (dial ∷ greet ∷ start_tls ∷ authenticate login ∷ mail ∷ rcpt ∷ send ∷ quit ∷ [], ok tt))
    × (smtp_send (client (codes "auto")) (relay false) ≡ (dial ∷ greet ∷ [], err plaintext_refused))
    × (smtp_send (client (codes "require")) (relay false) ≡ (dial ∷ greet ∷ [], err no_starttls))
    × (store_send plain_config.smtp none (relay true) ≡ ([], err not_configured))
unfolding smtp_send store_send split_host_port texts
send_runs = (refl, refl, refl, refl)

smtp_send-discreet_example :
    holds
      (discreet (client (codes "auto")))
      false
      (smtp_send (client (codes "auto")) (relay true)).0
    ≡ true
smtp_send-discreet_example = smtp_send-discreet (client (codes "auto")) (relay true)

smtp_send-confidential_example :
    holds confidential false (smtp_send (client (codes "require")) (relay true)).0 ≡ true
smtp_send-confidential_example =
    smtp_send-confidential (client (codes "require")) (relay true)
      (unfold mailer_mode texts in refl)
