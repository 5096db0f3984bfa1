-- ===== src/Webvpn/Pages/Trail.antt =====
-- What record answers, against the list of the documents that the browser has navigated to.
use wvpn.Base.{
  ℕ, ◌+◌, ◌≤◌, ◌<◌, ◌≡◌, refl, ◌∙◌, Bool, true, false, List, [], ◌∷◌, Option, none, some, arith,
  if◌then◌else◌, is_empty, Option-cases, Bool-cases, inl, inr, length,
}
use wvpn.Text.{Bytes, same}
use wvpn.Text.Laws.{same_iff}
use wvpn.Dict.{Dict, lookup, sweep}
use wvpn.Dict.Laws.{
  Distinct, lookup-insert, lookup-sweep, insert-Distinct, sweep-Distinct, length-sweep,
}
use wvpn.Webvpn.Pages.{PageEntry, page_idle_ttl, max_pages, fresh, file_page, no_pages, record_page}

-- A request of a browser for a target, and whether it navigates to it.
pub record Visit : Type 0 where
  pub at : ℕ
  pub key : Bytes
  pub target : Bytes
  pub document : Bool

-- The memory after these visits, the newest first.
unfoldable pub after : List Visit → Dict PageEntry
after [] = []
after (v ∷ visits) = (record_page v.at v.key (some v.target) v.document (after visits)).0

-- The document that the browser is on: the target of its newest navigation.
unfoldable pub newest_document : Bytes → List Visit → Option Bytes
newest_document key [] = none
newest_document key (v ∷ visits) =
    let rest = newest_document key visits in
    if same v.key key then (if v.document then some v.target else rest) else rest

-- Before each visit the memory held fewer than maxPages browsers, and each carried a key.
abbrev pub HasRoom : List Visit → Type 0
HasRoom [] = Unit
HasRoom (v ∷ visits) =
    (length (after visits) < max_pages) × (is_empty v.key ≡ false) × HasRoom visits

-- The browser has not been away for longer than pageIdleTTL up to `end`: from each of its visits to its
-- next, and from its last to `end`, no more than that passes, and the visits of other browsers in between
-- are not later than that next visit, or `end`.
unfoldable pub IsSteady : Bytes → ℕ → List Visit → Type 0
IsSteady key end [] = Unit
IsSteady key end (v ∷ visits) = (v.at ≤ end) × elim (same v.key key) [
  | true ↦ (end ≤ v.at + page_idle_ttl) × IsSteady key v.at visits
  | false ↦ IsSteady key end visits
]

abbrev cur_of : Option PageEntry → Option Bytes
cur_of none = none
cur_of (some e) = e.cur

-- The entry that record works on.
abbrev entry_of : Option PageEntry → PageEntry
entry_of none = no_pages
entry_of (some e) = e

entry_cur : (o : Option PageEntry) → (entry_of o).cur ≡ cur_of o
entry_cur none = refl
entry_cur (some e) = refl

file_page_touched :
    (now : ℕ) (target : Bytes) (document : Bool) (e : PageEntry)
    → (file_page now target document e).0.touched ≡ now
file_page_touched now target true e = refl
file_page_touched now target false e = refl

file_page_cur :
    (now : ℕ) (target : Bytes) (document : Bool) (e : PageEntry)
    → (file_page now target document e).0.cur ≡ (if document then some target else e.cur)
file_page_cur now target true e = refl
file_page_cur now target false e = refl

no_entry : (key : Bytes) (e : PageEntry) → lookup key [] ≡ some e → ⊥
unfolding lookup
no_entry key e h = cc

-- At `end`, the entry of the browser is not old.
abbrev IsFresh : Bytes → ℕ → Dict PageEntry → Type 0
IsFresh key end m = (e : PageEntry) → lookup key m ≡ some e → end ≤ e.touched + page_idle_ttl

swept_same :
    (now : ℕ) (key : Bytes) (m : Dict PageEntry)
    → Distinct m
    → IsFresh key now m
    → lookup key (sweep (fresh now) m) ≡ lookup key m
swept_same now key m d r = elim (Option-cases (lookup key m)) [
  | inl n ↦ ground (arith, lookup-sweep (fresh now) key m d)
  | inr (e, l) ↦ ground (arith, lookup-sweep (fresh now) key m d, r e l)
]

-- One call of record, where the memory has room, on the entry of any browser that is not old.
filed :
    (v : Visit) (m : Dict PageEntry) (key : Bytes)
    → Distinct m
    → IsFresh key v.at m
    → length m < max_pages
    → is_empty v.key ≡ false
    → let (after_it, answer) = record_page v.at v.key (some v.target) v.document m in
      (answer ≡ (entry_of (lookup v.key m)).cur)
      × (lookup key after_it ≡ (
          if same v.key key
          then some (file_page v.at v.target v.document (entry_of (lookup v.key m))).0
          else lookup key m))
      × Distinct after_it
unfolding record_page
filed v m key d r l e =
    let swept = sweep (fresh v.at) m in
    elim (Option-cases (lookup v.key m)) [
      | inl n ↦ ground (
        arith,
        length-sweep (fresh v.at) m,
        swept_same v.at key m d r,
        lookup-insert v.key key (file_page v.at v.target v.document no_pages).0 swept,
        insert-Distinct v.key (file_page v.at v.target v.document no_pages).0 swept
            (sweep-Distinct (fresh v.at) m d),
      )
      | inr (p, i) ↦ ground (
        arith,
        lookup-insert v.key key (file_page v.at v.target v.document p).0 m,
        insert-Distinct v.key (file_page v.at v.target v.document p).0 m d,
      )
    ]

record Inv (key : Bytes) (end : ℕ) (visits : List Visit) (m : Dict PageEntry) : Type 0 where
  distinct : Distinct m
  kept : IsFresh key end m
  agrees : cur_of (lookup key m) ≡ newest_document key visits

-- A visit of the browser itself.
Inv-own :
    (key : Bytes) (end : ℕ) (v : Visit) (visits : List Visit) (m : Dict PageEntry)
    → length m < max_pages
    → is_empty v.key ≡ false
    → same v.key key ≡ true
    → end ≤ v.at + page_idle_ttl
    → Inv key v.at visits m
    → Inv key end (v ∷ visits) (record_page v.at v.key (some v.target) v.document m).0
unfolding newest_document
Inv-own key end v visits m l e s t i =
    let (_, found, distinct) = filed v m key i.distinct i.kept l e in
    let touched = file_page_touched v.at v.target v.document (entry_of (lookup v.key m)) in
    record {
      distinct = distinct;
      kept = λ p h. ground (arith, found, touched);
      agrees = ground (
        arith,
        found,
        i.agrees,
        file_page_cur v.at v.target v.document (entry_of (lookup v.key m)),
        entry_cur (lookup v.key m),
        same_iff v.key key,
      );
    }

-- A visit of another browser.
Inv-other :
    (key : Bytes) (end : ℕ) (v : Visit) (visits : List Visit) (m : Dict PageEntry)
    → length m < max_pages
    → is_empty v.key ≡ false
    → same v.key key ≡ false
    → v.at ≤ end
    → Inv key end visits m
    → Inv key end (v ∷ visits) (record_page v.at v.key (some v.target) v.document m).0
unfolding newest_document
Inv-other key end v visits m l e s t i =
    let still : IsFresh key v.at m = λ p h. omega (arith, i.kept p h, t) in
    let (_, found, distinct) = filed v m key i.distinct still l e in
    record {
      distinct = distinct;
      kept = λ p h. ground (arith, found, i.kept p);
      agrees = ground (arith, found, i.agrees);
    }

after-Inv :
    (key : Bytes) (end : ℕ) (visits : List Visit)
    → HasRoom visits
    → IsSteady key end visits
    → Inv key end visits (after visits)
unfolding after newest_document IsSteady
after-Inv key end [] r s = record {
  distinct = tt;
  kept = λ e h. absurd (no_entry key e h);
  agrees = unfold lookup in refl;
}
after-Inv key end (v ∷ visits) (l, e, r) (t, s) = elim (Bool-cases (same v.key key)) [
  | inl k ↦
      let (idle, rest) = rw k at s in
      Inv-own key end v visits (after visits) l e k idle (after-Inv key v.at visits r rest)
  | inr k ↦
      Inv-other key end v visits (after visits) l e k t (after-Inv key end visits r (rw k at s))
]

-- Where the memory held fewer than maxPages browsers before each visit and each visit carries a key,
-- record answers a browser that has not been away for longer than pageIdleTTL between two of its visits
-- with the document that it was on before the request: its newest navigation among all visits so far.
-- Visits of other browsers are there too, at any times up to the browser's next visit.
pub record_page-newest_document :
    (v : Visit) (visits : List Visit)
    → HasRoom (v ∷ visits)
    → IsSteady v.key v.at visits
    → (record_page v.at v.key (some v.target) v.document (after visits)).1
      ≡ newest_document v.key visits
record_page-newest_document v visits (l, e, r) s =
    let i = after-Inv v.key v.at visits r s in
    (filed v (after visits) v.key i.distinct i.kept l e).0
    ∙ (entry_cur (lookup v.key (after visits)) ∙ i.agrees)
