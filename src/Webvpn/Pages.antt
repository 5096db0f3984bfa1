-- ===== src/Webvpn/Pages.antt =====
-- internal/webvpn/pages.go: the last two documents that each browser navigated to. A page is its URL;
-- a nil URL is `none`.
pub mod Trail
mod Tests
use wvpn.Base.{
  ℕ, ◌+◌, Bool, true, false, not, ◌||◌, List, [], ◌∷◌, ◌++◌, Option, none, some, if◌then◌else◌,
  is_empty, ltb, leb, length,
}
use wvpn.Text.{Bytes, codes, same, equal_fold, contains}
use wvpn.Net.{without_port}
use wvpn.Dict.{Dict, lookup, insert, sweep}

abbrev pub page_idle_ttl : ℕ
page_idle_ttl = 7_200_000_000_000

unfoldable pub max_pages : ℕ
max_pages = 20000

pub record PageEntry : Type 0 where
  pub cur : Option Bytes
  pub prev : Option Bytes
  pub touched : ℕ

-- The condition of sweepLocked, turned round.
abbrev pub fresh : ℕ → PageEntry → Bool
fresh now e = not (ltb (e.touched + page_idle_ttl) now)

-- The end of record, for the entry of the browser.
abbrev pub file_page : ℕ → Bytes → Bool → PageEntry → PageEntry × Option Bytes
file_page now target false e = (record { cur = e.cur; prev = e.prev; touched = now }, e.cur)
file_page now target true e = (record { cur = some target; prev = e.cur; touched = now }, e.cur)

abbrev pub no_pages : PageEntry
no_pages = record { cur = none; prev = none; touched = 0 }

-- record
unfoldable pub record_page :
    ℕ → Bytes → Option Bytes → Bool → Dict PageEntry → Dict PageEntry × Option Bytes
unfolding lookup insert sweep
record_page now key none document m = (m, none)
record_page now key (some target) document m =
    let swept = sweep (fresh now) m in
    if is_empty key then (m, none) else elim (lookup key m) [
      | some e ↦
          (insert key (file_page now target document e).0 m, (file_page now target document e).1)
      | none ↦ if leb max_pages (length swept) then (swept, none) else (
        insert key (file_page now target document no_pages).0 swept,
        (file_page now target document no_pages).1,
      )
    ]

-- current
unfoldable pub current : ℕ → Bytes → Dict PageEntry → Dict PageEntry × Option Bytes
unfolding lookup insert
current now key m = if is_empty key then (m, none) else elim (lookup key m) [
  | none ↦ (m, none)
  | some e ↦ (insert key (record { cur = e.cur; prev = e.prev; touched = now }) m, e.cur)
]

-- isDocumentRequest, of the method and the headers Sec-Fetch-Dest and Accept.
unfoldable pub is_document_request : Bytes → Bytes → Bytes → Bool
unfolding equal_fold same contains
is_document_request method dest accept =
    if not (is_empty dest)
    then equal_fold dest (codes "document")
    else if same method (codes "GET") || same method (codes "POST")
    then contains accept (codes "text/html")
    else false

-- browserKey, of the session's key, the remote address and the user agent. The argument is jarKey.
unfoldable pub browser_key : (Bytes → Bytes) → Bytes → Bytes → Bytes → Bytes
unfolding without_port
browser_key jar_key session_key remote_addr user_agent =
    if not (is_empty session_key)
    then session_key
    else jar_key (codes "anonymous" ++ (0 ∷ (without_port remote_addr ++ (0 ∷ user_agent))))
