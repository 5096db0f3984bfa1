-- ===== src/Auth/Mailer.antt =====
-- internal/auth/mailer.go: StoreMailer and SMTPMailer. A conversation with a server is a list of the
-- steps that the client has taken; how the server answers each of them is given.
pub mod Conversation
pub mod Secrecy
mod Tests
use wvpn.Base.{
  ℕ, zero, suc, Bool, true, false, not, ◌&&◌, ◌||◌, List, [], ◌∷◌, ◌++◌, Option, none, some, Result,
  ok, err, if◌then◌else◌, is_empty, any,
}
use wvpn.Text.{Bytes, codes, same}
use wvpn.Net.{split_host_port}
use wvpn.Store.Config.{Smtp, is_tls_mode, mode}

-- SMTPMailer without its timeout.
pub record SmtpMailer : Type 0 where
  pub addr : Bytes
  pub sender : Bytes
  pub username : Bytes
  pub password : Bytes
  pub tls_mode : Bytes
  pub allow_plaintext_auth : Bool
  pub helo : Bytes
  pub insecure_skip_verify : Bool

-- mode of SMTPMailer
unfoldable pub mailer_mode : SmtpMailer → Bytes
unfolding same
mailer_mode m = if is_tls_mode m.tls_mode then m.tls_mode else codes "auto"

pub data Mechanism : Type 0 where
  plain login cram_md5 : Mechanism

pub data MailError : Type 0 where
  bad_addr dial_failed greeting_failed helo_refused starttls_failed no_starttls no_auth : MailError
  plaintext_refused no_mechanism auth_failed sender_refused recipient_refused : MailError
  data_refused write_failed message_refused quit_failed not_configured : MailError

-- What the client does on the connection.
pub data Step : Type 0 where
  dial dial_tls greet hello start_tls mail rcpt send quit : Step
  authenticate : Mechanism → Step

-- How the server answers: whether each step succeeds, whether it offers STARTTLS, and the mechanisms
-- that it offers, in upper case, if it offers AUTH, on a connection that is encrypted or not.
pub record Server : Type 0 where
  pub takes : Step → Bool
  pub offers_starttls : Bool
  pub mechanisms : Bool → Option (List Bytes)
  -- w.Write and w.Close of the message.
  pub takes_data : Bool
  pub takes_message : Bool

abbrev pub offers : List Bytes → Bytes → Bool
offers mechs name = any (λ m. same m name) mechs

-- pickAuth
unfoldable pub pick_auth : SmtpMailer → Server → Bool → Result MailError Mechanism
unfolding same
pick_auth m server encrypted = elim (server.mechanisms encrypted) [
  | none ↦ err no_auth
  | some mechs ↦
      if not encrypted && offers mechs (codes "CRAM-MD5")
      then ok cram_md5
      else if not encrypted && not m.allow_plaintext_auth
      then err plaintext_refused
      else if offers mechs (codes "PLAIN")
      then ok plain
      else if offers mechs (codes "LOGIN")
      then ok login
      else if offers mechs (codes "CRAM-MD5")
      then ok cram_md5
      else err no_mechanism
]

-- The steps so far, and the outcome.
abbrev pub Talk : Type 0
Talk = List Step × Result MailError (Unit {0})

-- Takes a step and goes on where the server takes it, in the words of the error where it does not.
abbrev pub after : Server → Step → MailError → Talk → Talk
after server step why (rest, result) =
    if server.takes step then (step ∷ rest, result) else (step ∷ [], err why)

-- The part of Send from MAIL on.
unfoldable pub deliver : Server → Talk
deliver server = after server mail sender_refused (
    after server rcpt recipient_refused (
      after server send data_refused (
        if not server.takes_data
        then ([], err write_failed)
        else if not server.takes_message
        then ([], err message_refused)
        else after server quit quit_failed ([], ok tt))))

-- The part of Send from the credentials on.
unfoldable pub sign_on : SmtpMailer → Server → Bool → Talk
unfolding pick_auth deliver
sign_on m server encrypted =
    if not (is_empty m.username) || not (is_empty m.password)
    then elim (pick_auth m server encrypted) [
      | err why ↦ ([], err why)
      | ok mechanism ↦ after server (authenticate mechanism) auth_failed (deliver server)
    ]
    else deliver server

-- The part of Send from the choice of STARTTLS on, on a connection that is encrypted from the start
-- in the implicit mode.
unfoldable pub encrypt : SmtpMailer → Server → Talk
unfolding mailer_mode same sign_on
encrypt m server =
    if same (mailer_mode m) (codes "auto") || same (mailer_mode m) (codes "require")
    then if server.offers_starttls
      then after server start_tls starttls_failed (sign_on m server true)
      else if same (mailer_mode m) (codes "require")
      then ([], err no_starttls)
      else sign_on m server false
    else sign_on m server (same (mailer_mode m) (codes "implicit"))

-- Send of SMTPMailer
unfoldable pub smtp_send : SmtpMailer → Server → Talk
unfolding split_host_port mailer_mode same encrypt
smtp_send m server = elim (split_host_port m.addr) [
  | none ↦ ([], err bad_addr)
  | some host ↦
      let connect = if same (mailer_mode m) (codes "implicit") then dial_tls else dial in
      after server connect dial_failed (
        after server greet greeting_failed (
          if not (is_empty m.helo)
          then after server hello helo_refused (encrypt m server)
          else encrypt m server))
]

-- Configured of SMTP
abbrev pub configured : Smtp → Bool
configured s = not (is_empty s.addr) && not (is_empty s.sender)

abbrev pub mailer_of : Smtp → SmtpMailer
mailer_of s = record {
  addr = s.addr;
  sender = s.sender;
  username = s.username;
  password = s.password;
  tls_mode = mode s;
  allow_plaintext_auth = s.allow_plaintext_auth;
  helo = s.helo;
  insecure_skip_verify = s.insecure_skip_verify;
}

-- Send of StoreMailer, on the mail service that the store holds; `fallback` is what the other mailer does.
unfoldable pub store_send : Smtp → Option Talk → Server → Talk
unfolding mode smtp_send
store_send s fallback server =
    if not (configured s)
    then elim fallback [ none ↦ ([], err not_configured) | some talk ↦ talk ]
    else smtp_send (mailer_of s) server

-- Start and Next of plainAuth: what goes over the wire, and what a challenge is answered with.
abbrev pub plain_start : Bytes → Bytes → Bytes
plain_start username password = (0 ∷ username) ++ (0 ∷ password)

abbrev pub plain_next : Bool → Option Bytes
plain_next true = none
plain_next false = some []

-- Next of loginAuth, at the step that it stands at; Start sets the step to 0.
unfoldable pub login_next : Bytes → Bytes → ℕ → Bool → ℕ × Option Bytes
login_next username password step false = (step, some [])
login_next username password zero true = (1, some username)
login_next username password (suc zero) true = (2, some password)
login_next username password (suc (suc n)) true = (suc (suc (suc n)), none)
