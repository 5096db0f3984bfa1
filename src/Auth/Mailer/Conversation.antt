-- ===== src/Auth/Mailer/Conversation.antt =====
-- What holds of every step of a conversation with a mail server, step by step along Send.
use wvpn.Base.{
  ◌≡◌, refl, sym, subst, Bool, true, false, not, ◌&&◌, ◌||◌, List, [], ◌∷◌, none, some, ok, arith,
  Bool-cases, Option-cases, Result-cases, inl, inr, is_empty, if◌then◌else◌,
}
use wvpn.Text.{Bytes, codes, same}
use wvpn.Text.Laws.{same→eq}
use wvpn.Net.{split_host_port}
use wvpn.Store.Config.{mode}
use wvpn.Auth.Mailer.{
  SmtpMailer, mailer_mode, Mechanism, Step, dial, dial_tls, greet, hello, start_tls, mail, rcpt,
  send, quit, authenticate, Server, MailError, auth_failed, starttls_failed, helo_refused,
  greeting_failed, dial_failed, pick_auth, Talk, after, deliver, sign_on, encrypt, smtp_send,
}

-- Whether the connection is encrypted after a step, given whether it was before.
abbrev pub seal : Bool → Step → Bool
seal sealed dial_tls = true
seal sealed start_tls = true
seal sealed _ = sealed

-- Whether a rule holds of each step of a conversation, given whether the connection is encrypted when
-- the step is taken.
module _ (rule : Bool → Step → Bool) where
  unfoldable pub holds : Bool → List Step → Bool
  holds sealed [] = true
  holds sealed (step ∷ rest) = rule sealed step && holds (seal sealed step) rest

  after-holds :
      (server : Server) (step : Step) (why : MailError) (sealed : Bool) (talk : Talk)
      → rule sealed step ≡ true
      → holds (seal sealed step) talk.0 ≡ true
      → holds sealed (after server step why talk).0 ≡ true
  unfolding holds
  after-holds server step why sealed (rest, result) a b = ground arith

  deliver-holds :
      (server : Server) (sealed : Bool)
      → rule sealed mail ≡ true
      → rule sealed rcpt ≡ true
      → rule sealed send ≡ true
      → rule sealed quit ≡ true
      → holds sealed (deliver server).0 ≡ true
  unfolding deliver holds
  deliver-holds server sealed a b c d = ground arith

-- The steps before the credentials.
abbrev pub is_calm : Step → Bool
is_calm dial = true
is_calm dial_tls = true
is_calm greet = true
is_calm hello = true
is_calm start_tls = true
is_calm _ = false

-- The modes that insist on encryption.
abbrev pub is_secure : Bytes → Bool
is_secure mode = same mode (codes "require") || same mode (codes "implicit")

starttls-not_implicit :
    (mode : Bytes)
    → (same mode (codes "auto") || same mode (codes "require")) ≡ true
    → same mode (codes "implicit") ≡ false
unfolding same
starttls-not_implicit mode h = elim (Bool-cases (same mode (codes "auto"))) [
  | inl e ↦ rw (same→eq mode (codes "auto") e) refl
  | inr e ↦ rw (same→eq mode (codes "require") (ground arith)) refl
]

module _ (rule : Bool → Step → Bool) (m : SmtpMailer) (server : Server)
    (picked : (sealed : Bool) (mechanism : Mechanism)
      → pick_auth m server sealed ≡ ok mechanism
      → rule sealed mail ≡ true
      → rule sealed (authenticate mechanism) ≡ true) where
  -- The rule allows the message.
  abbrev Sends : Bool → Type 0
  Sends sealed =
      (rule sealed mail ≡ true)
      × (rule sealed rcpt ≡ true)
      × (rule sealed send ≡ true)
      × (rule sealed quit ≡ true)

  sign_on-holds :
      (sealed : Bool) → Sends sealed → holds rule sealed (sign_on m server sealed).0 ≡ true
  unfolding sign_on holds
  sign_on-holds sealed (a, b, c, d) =
      let delivered = deliver-holds rule server sealed a b c d in
      elim (Bool-cases (not (is_empty m.username) || not (is_empty m.password))) [
        | inr e ↦ rw e delivered
        | inl e ↦ elim (Result-cases (pick_auth m server sealed)) [
          | inl (why, p) ↦ rw (e, p) refl
          | inr (mechanism, p) ↦
              rw (e, p)
                (after-holds rule server (authenticate mechanism) auth_failed sealed
                  (deliver server) (picked sealed mechanism p a) delivered)
        ]
      ]

  module _ (encrypted : Sends true) (clear : is_secure (mailer_mode m) ≡ false → Sends false)
      (calm : (sealed : Bool) (step : Step) → is_calm step ≡ true → rule sealed step ≡ true) where
    encrypt-holds : holds rule (same (mailer_mode m) (codes "implicit")) (encrypt m server).0 ≡ true
    unfolding encrypt holds
    encrypt-holds =
        let mode = mailer_mode m in
        elim (Bool-cases (same mode (codes "auto") || same mode (codes "require"))) [
          | inr e ↦
              let at : Bool → Type 0 = λ b. holds rule b (sign_on m server b).0 ≡ true in
              rw e (elim (Bool-cases (same mode (codes "implicit"))) [
                | inl i ↦ subst at (sym i) (sign_on-holds true encrypted)
                | inr i ↦ subst at (sym i) (sign_on-holds false (clear (ground arith)))
              ])
          | inl e ↦
              rw (e, starttls-not_implicit mode e)
                (elim (Bool-cases server.offers_starttls) [
                  | inl o ↦ rw o (
                      after-holds rule server start_tls starttls_failed false
                        (sign_on m server true) (calm false start_tls refl)
                        (sign_on-holds true encrypted))
                  | inr o ↦ elim (Bool-cases (same mode (codes "require"))) [
                    | inl r ↦ rw (o, r) refl
                    | inr r ↦
                        let clear_mode : is_secure mode ≡ false =
                          rw (r, starttls-not_implicit mode e) refl in
                        rw (o, r) (sign_on-holds false (clear clear_mode))
                  ]
                ])
        ]

    connected :
        (implicit : Bool) (talk : Talk)
        → holds rule implicit talk.0 ≡ true
        → holds rule false (after server (if implicit then dial_tls else dial) dial_failed talk).0
          ≡ true
    connected true talk h =
        after-holds rule server dial_tls dial_failed false talk (calm false dial_tls refl) h
    connected false talk h =
        after-holds rule server dial dial_failed false talk (calm false dial refl) h

    greeted :
        (helo sealed : Bool) (talk : Talk)
        → holds rule sealed talk.0 ≡ true
        → holds rule sealed
            (after server greet greeting_failed
              (if helo then after server hello helo_refused talk else talk)).0
          ≡ true
    greeted true sealed talk h =
        after-holds rule server greet greeting_failed sealed (after server hello helo_refused talk)
          (calm sealed greet refl)
          (after-holds rule server hello helo_refused sealed talk (calm sealed hello refl) h)
    greeted false sealed talk h =
        after-holds rule server greet greeting_failed sealed talk (calm sealed greet refl) h

    smtp_send-none : split_host_port m.addr ≡ none → holds rule false (smtp_send m server).0 ≡ true
    unfolding smtp_send holds
    smtp_send-none e = rw (smtp_send, e, holds) refl

    smtp_send-some :
        (host : Bytes × Bytes)
        → split_host_port m.addr ≡ some host
        → smtp_send m server
          ≡ after server
              (if same (mailer_mode m) (codes "implicit") then dial_tls else dial)
              dial_failed
              (after server greet greeting_failed (
                if not (is_empty m.helo)
                then after server hello helo_refused (encrypt m server)
                else encrypt m server))
    unfolding smtp_send
    smtp_send-some host e = rw (smtp_send, e) refl

    pub smtp_send-holds : holds rule false (smtp_send m server).0 ≡ true
    smtp_send-holds = elim (Option-cases (split_host_port m.addr)) [
      | inl e ↦ smtp_send-none e
      | inr (host, e) ↦
          let implicit = same (mailer_mode m) (codes "implicit") in
          subst (λ (t : Talk). holds rule false t.0 ≡ true) (sym (smtp_send-some host e))
            (connected implicit _
              (greeted (not (is_empty m.helo)) implicit (encrypt m server) encrypt-holds))
    ]
