-- ===== src/Auth/Limit/Recovery.antt =====
-- The limiter lets an address through again.
use wvpn.Base.{
  ℕ, ◌+◌, ◌≤◌, ◌≡◌, refl, ap, sym, subst, ◌∙◌, false, List, [], ◌∷◌, ◌++◌, arith, length, leb,
  Bool-cases, inl, inr,
}
use wvpn.Text.{Bytes, same}
use wvpn.Text.Laws.{same→eq}
use wvpn.Dict.{Dict, lookup}
use wvpn.Dict.Laws.{Distinct, insert-Distinct}
use wvpn.Auth.Limit.{
  rate_window, rate_burst, trim_hits, hits_of, limit_step, rate_limited, sweep_hits,
}
use wvpn.Auth.Limit.Window.{
  Event, request, janitor, at, Between, trim_hits-append, trim_hits-trim_hits, limit_step-full,
  limit_step-room, hits_of-sweep_hits, hits_of-insert, sweep_hits-Distinct,
}

-- The table of hits after a sequence of events.
unfoldable pub table : List Event → Dict (List ℕ) → Dict (List ℕ)
unfolding rate_limited sweep_hits
table [] m = m
table (janitor now ∷ es) m = table es (sweep_hits now m)
table (request now ip ∷ es) m = table es (rate_limited now ip m).0

Between-ordered : (start end : ℕ) (es : List Event) → Between start end es → start ≤ end
Between-ordered start end [] b = b
Between-ordered start end (e ∷ es) b = omega (arith, b.0, Between-ordered (at e) end es b.1)

trim_hits-stale : (t now : ℕ) → t + rate_window ≤ now → trim_hits now (t ∷ []) ≡ []
unfolding trim_hits
trim_hits-stale t now h = ground arith

-- A request whose hit is out of the window at `now` leaves a list that is empty then, where it was before.
limit_step-stale :
    (t now : ℕ) (hits : List ℕ)
    → t + rate_window ≤ now
    → trim_hits now hits ≡ []
    → trim_hits now (limit_step t hits).0 ≡ []
limit_step-stale t now hits h e = elim (Bool-cases (leb rate_burst (length (trim_hits t hits)))) [
  | inl full ↦ rw (limit_step-full t hits full) (trim_hits-trim_hits t now hits (omega arith) ∙ e)
  | inr room ↦ rw (limit_step-room t hits room) (
      trim_hits-append now (trim_hits t hits) (t ∷ [])
      ∙ (ap (λ w. w ++ trim_hits now (t ∷ [])) (trim_hits-trim_hits t now hits (omega arith) ∙ e)
          ∙ trim_hits-stale t now h))
]

request-stale :
    (j ip : Bytes) (t now : ℕ) (m : Dict (List ℕ))
    → t + rate_window ≤ now
    → trim_hits now (hits_of j m) ≡ []
    → trim_hits now (hits_of j (rate_limited t ip m).0) ≡ []
unfolding rate_limited
request-stale j ip t now m h e =
    subst (λ hits. trim_hits now hits ≡ [])
      (sym (hits_of-insert j ip (limit_step t (hits_of ip m)).0 m))
      (elim (Bool-cases (same ip j)) [
        | inl s ↦ rw s (
            limit_step-stale t now (hits_of ip m) h
              (subst (λ k. trim_hits now (hits_of k m) ≡ []) (sym (same→eq ip j s)) e))
        | inr s ↦ rw s e
      ])

table-stale :
    (j : Bytes) (start end now : ℕ) (es : List Event) (m : Dict (List ℕ))
    → Distinct m
    → Between start end es
    → end + rate_window ≤ now
    → trim_hits now (hits_of j m) ≡ []
    → trim_hits now (hits_of j (table es m)) ≡ []
unfolding table rate_limited
table-stale j start end now [] m d b h e = e
table-stale j start end now (janitor t ∷ es) m d b h e =
    let early = Between-ordered t end es b.1 in
    table-stale j t end now es (sweep_hits t m) (sweep_hits-Distinct t m d) b.1 h (
      ap (trim_hits now) (hits_of-sweep_hits j t m d)
      ∙ (trim_hits-trim_hits t now (hits_of j m) (omega arith) ∙ e))
table-stale j start end now (request t ip ∷ es) m d b h e =
    let early = Between-ordered t end es b.1 in
    table-stale j t end now es (rate_limited t ip m).0 (insert-Distinct ip _ m d) b.1 h
      (request-stale j ip t now m (omega arith) e)

-- From an empty table, after any sequence of requests of any addresses and sweeps in which time does not
-- run backwards, an address is let through again once a rateWindow has passed since the end of the
-- sequence, however many requests it has made.
pub rate_limited-recovers :
    (j : Bytes) (start end now : ℕ) (es : List Event)
    → Between start end es
    → end + rate_window ≤ now
    → (rate_limited now j (table es [])).1 ≡ false
unfolding rate_limited
rate_limited-recovers j start end now es b h =
    let quiet : trim_hits now (hits_of j (table es [])) ≡ [] =
      table-stale j start end now es [] tt b h (unfold lookup trim_hits in refl) in
    rw (limit_step-room now (hits_of j (table es [])) (rw quiet refl)) refl
