-- ===== src/Auth/Tests.antt =====
-- Runs of the sign-in on a small gateway, and the theorems about it on what those runs hold.
use wvpn.Base.{
  ℕ, ◌+◌, ◌-◌, ◌*◌, ◌/◌, ◌≤◌, ◌≡◌, ◌≢◌, ◌↔◌, refl, true, false, List, [], ◌∷◌, none, some, arith,
  length, if◌then◌else◌,
}
use wvpn.Text.{Bytes, codes, same, texts}
use wvpn.Text.Laws.{ne_of_same}
use wvpn.Dict.{Dict, lookup, insert, delete}
use wvpn.Auth.Model.{
  Options, Directory, Std, Session, Manager, Request, wait, code_sent, signed_in, session_ttl,
  session_cookie, hash_code, second, minute,
}
use wvpn.Auth.Limit.{rate_burst, trim_hits, rate_limited}
use wvpn.Auth.Limit.Window.{Event, request, janitor, let_through, let_through-budget}
use wvpn.Auth.Limit.Recovery.{table, rate_limited-recovers}
use wvpn.Auth.Sessions.{session_for, logout, touch}
use wvpn.Auth.Sessions.Table.{Found, session_for-Found, session_for-logout}
use wvpn.Auth.SignIn.{check_code, verify_for, request_for}
use wvpn.Auth.SignIn.Codes.{Good, try_codes, try_codes-locked}
use wvpn.Auth.SignIn.Proof.{Admitted, verify_for_iff, verify_for-once, request_for-again}
use wvpn.Auth.SignIn.RoundTrip.{session_for-sign_in}

abbrev some_std : Std
some_std = record { sha256 = λ s. s; parse_addr = λ s. none; url_host = λ s. some s }

abbrev some_options : Options
some_options = record {
  session_ttl = 60 * minute;
  code_ttl = 5 * minute;
  resend_interval = minute;
  max_attempts = 2;
  trust_proxy_headers = false;
  setup_token = codes "s3cret";
}

abbrev alice : Bytes
alice = codes "a@x.cn"

abbrev mallory : Bytes
mallory = codes "m@y.cn"

abbrev some_directory : Directory
some_directory = record {
  normalize_email = λ s. some s;
  allowed = λ s. same s alice;
  is_admin = λ s. false;
  session_minutes = 0;
  has_admins = true;
}

abbrev some_request : Request
some_request = record {
  origin = [];
  host = codes "gw";
  remote_addr = codes "1.2.3.4:5";
  real_ip = [];
  forwarded_for = [];
  user_agent = codes "curl";
  cookies = [];
}

abbrev fresh : Manager
fresh = record { sessions = []; codes = []; ip_hits = []; setup_open = true }

abbrev pending : Manager
pending = record {
  sessions = [];
  ip_hits = [];
  setup_open = true;
  codes =
      (alice, record { hash = codes "a@x.cn:123456"; expires = 300; sent_at = 0; attempts = 0 })
      ∷ [];
}

abbrev one_session : Session
one_session = record {
  id = codes "i1";
  email = alice;
  admin = false;
  created = 0;
  expires = 60 * minute;
  ip = codes "1.2.3.4";
  user_agent = codes "curl";
  token = codes "t1";
}

abbrev old_session : Session
old_session = record {
  id = codes "i2";
  email = alice;
  admin = false;
  created = 0;
  expires = 5;
  ip = codes "1.2.3.4";
  user_agent = codes "curl";
  token = codes "t2";
}

abbrev some_sessions : Dict Session
some_sessions = (codes "t2", old_session) ∷ (codes "t1", one_session) ∷ []

abbrev both_cookies : List (Bytes × Bytes)
both_cookies = (session_cookie, codes "t2") ∷ (session_cookie, codes "t1") ∷ []

abbrev signed_on : Manager
signed_on = record { sessions = some_sessions; codes = []; ip_hits = []; setup_open = false }

-- Two requests of one address, a sweep between them and a request of another.
abbrev some_events : List Event
some_events = request 1 (codes "a") ∷ janitor 2 ∷ request 3 (codes "b") ∷ request 3 (codes "a") ∷ []

let_through_run : let_through (codes "a") some_events [] [] ≡ 1 ∷ 3 ∷ []
unfolding let_through texts lookup insert
let_through_run = refl

let_through-budget_example :
    length (trim_hits 4 (let_through (codes "a") some_events [] [])) ≤ rate_burst
let_through-budget_example =
    let_through-budget (codes "a") 0 4 some_events
      (omega arith, (omega arith, (omega arith, (omega arith, omega arith))))

rate_limited-recovers_example :
    (rate_limited 900_000_000_004 (codes "a") (table some_events [])).1 ≡ false
rate_limited-recovers_example =
    rate_limited-recovers (codes "a") 0 4 900_000_000_004 some_events
      (omega arith, (omega arith, (omega arith, (omega arith, omega arith)))) (omega arith)

-- The expired token is passed over and deleted; the next one is found.
session_for_run :
    session_for some_options some_directory 10 both_cookies some_sessions
    ≡ ((codes "t1", one_session) ∷ [], some one_session)
unfolding session_for texts lookup insert delete
session_for_run = refl

session_for-Found_example :
    (s : Session) × Found 10 both_cookies some_sessions s
    × (one_session ≡ touch some_options some_directory 10 s)
    × (s.expires ≤ one_session.expires)
    × (10 + session_ttl some_options some_directory / 2 ≤ one_session.expires)
session_for-Found_example =
    session_for-Found some_options some_directory 10 both_cookies some_sessions one_session
      (unfold lookup texts in (refl, (refl, tt)))
      (unfold session_for texts lookup insert delete in refl)

session_for-logout_example :
    (session_for some_options some_directory 10 both_cookies (logout both_cookies some_sessions)).1
    ≡ none
session_for-logout_example =
    session_for-logout some_options some_directory 10 both_cookies some_sessions
      (unfold lookup texts in (refl, (refl, tt)))

verify_for_iff_example :
    ((verify_for some_std some_options some_directory 7 alice
        (codes "123456")
        some_request
        (some (codes "t"))
        (some (codes "i"))
        pending).1
      ≡ signed_in (codes "t") (60 * minute) false)
    ↔ (Good some_std some_options some_directory 7 alice (codes "123456") pending.codes
        × Admitted some_std some_options some_directory alice
            (some (codes "t"))
            (some (codes "i"))
            (codes "t")
            (60 * minute)
            false)
verify_for_iff_example =
    verify_for_iff some_std some_options some_directory 7 alice (codes "123456") some_request
      (some (codes "t")) (some (codes "i")) pending (codes "t") (60 * minute) false

verify_for-once_example :
    (verify_for some_std some_options some_directory 8 alice
      (codes "123456")
      some_request
      (some (codes "u"))
      (some (codes "j"))
      (verify_for some_std some_options some_directory 7 alice
        (codes "123456")
        some_request
        (some (codes "t"))
        (some (codes "i"))
        pending).0).1
    ≢ signed_in (codes "u") (60 * minute) false
verify_for-once_example =
    verify_for-once some_std some_options some_directory 7 8 alice (codes "123456") (codes "123456")
      some_request some_request (some (codes "t")) (some (codes "i")) (some (codes "u"))
      (some (codes "j")) pending (codes "t") (codes "u") (60 * minute) (60 * minute) false false
      (unfold lookup texts in (refl, tt)) (unfold verify_for texts lookup insert delete in refl)

abbrev guesses : List (ℕ × Bytes)
guesses = (5, codes "000000") ∷ (6, codes "000001") ∷ []

try_codes-locked_example :
    (check_code some_std some_options some_directory 7 alice
      (codes "123456")
      (try_codes some_std some_options some_directory alice guesses pending.codes)).1
    ≢ none
try_codes-locked_example =
    try_codes-locked some_std some_options some_directory alice
      (record { hash = codes "a@x.cn:123456"; expires = 300; sent_at = 0; attempts = 0 }) guesses 7
      (codes "123456") pending.codes (unfold lookup texts in (refl, tt))
      (unfold lookup texts in refl)
      (
        ne_of_same _ _ (unfold texts hash_code in refl),
        (ne_of_same _ _ (unfold texts hash_code in refl), tt),
      )
      (omega arith)

request_for-again_example :
    ((request_for some_std some_options some_directory 0 mallory (some (codes "1")) fresh).1
      ≡ code_sent 60 300)
    × ((request_for some_std some_options some_directory 5 mallory
          (some (codes "2"))
          (request_for some_std some_options some_directory 0 mallory (some (codes "1")) fresh).0).1
        ≡ (if same mallory alice then wait ((0 + minute - 5) / second) else code_sent 60 300))
request_for-again_example =
    request_for-again some_std some_options some_directory 0 5 mallory (codes "1")
      (some (codes "2")) fresh (unfold lookup in refl) (omega arith)

session_for-sign_in_example :
    let (held, _, mail) =
      request_for some_std some_options some_directory 0 alice (some (codes "123456")) fresh in
    let entered =
      verify_for some_std some_options some_directory 9 alice
        (codes "123456")
        some_request
        (some (codes "t"))
        (some (codes "i"))
        held in
    (mail ≡ some (alice, codes "123456"))
    × (entered.1 ≡ signed_in (codes "t") (60 * minute) false)
    × ((s : Session) × ((session_for some_options some_directory 70
            ((session_cookie, codes "t") ∷ [])
            entered.0.sessions).1
          ≡ some s)
        × (s.email ≡ alice))
unfolding session_ttl
session_for-sign_in_example =
    session_for-sign_in some_std some_options some_directory 0 9 70 alice (codes "123456")
      (codes "t") (codes "i") some_request fresh (unfold texts in refl) (unfold lookup in refl)
      (omega arith) (omega arith) refl (unfold session_ttl in omega arith)
