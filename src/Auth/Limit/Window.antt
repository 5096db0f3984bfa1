-- ===== src/Auth/Limit/Window.antt =====
-- How many requests of one address the limiter lets through, over any interleaving of the requests of
-- all addresses with the janitor's sweeps.
use wvpn.Base.{
  ℕ, ◌+◌, ◌≤◌, ◌≡◌, refl, ap, sym, subst, ◌∙◌, Bool, true, false, List, [], ◌∷◌, ◌++◌, arith,
  if◌then◌else◌, keep, length, ltb, leb, Bool-cases, inl, inr, length-append, none, is_empty,
}
use wvpn.Text.{Bytes, same}
use wvpn.Text.Laws.{same→eq}
use wvpn.Dict.{Dict, lookup, insert}
use wvpn.Dict.Laws.{Distinct, insert-Distinct, lookup-insert}
use wvpn.Auth.Limit.{
  rate_window, rate_burst, trim_hits, hits_of, limit_step, rate_limited, sweep_hits,
}

-- What happens to the table of hits, with the time at which it happens.
pub data Event : Type 0 where
  request : ℕ → Bytes → Event
  janitor : ℕ → Event

abbrev pub at : Event → ℕ
at (request now ip) = now
at (janitor now) = now

-- Events whose times do not run backwards, from `start` on and up to `end`.
abbrev pub Between : ℕ → ℕ → List Event → Type 0
Between start end [] = start ≤ end
Between start end (e ∷ es) = (start ≤ at e) × Between (at e) end es

-- The times at which requests of the address `j` were let through, after those in `passed`.
unfoldable pub let_through : Bytes → List Event → Dict (List ℕ) → List ℕ → List ℕ
unfolding rate_limited sweep_hits
let_through j [] m passed = passed
let_through j (janitor now ∷ es) m passed = let_through j es (sweep_hits now m) passed
let_through j (request now ip ∷ es) m passed = let_through j es (rate_limited now ip m).0 (
    if same ip j
    then (if (rate_limited now ip m).1 then passed else passed ++ (now ∷ []))
    else passed)

keep-append : (p : ℕ → Bool) (xs ys : List ℕ) → keep p (xs ++ ys) ≡ keep p xs ++ keep p ys
keep-append p [] ys = refl
keep-append p (x ∷ xs) ys = ground (arith, keep-append p xs ys)

pub trim_hits-append :
    (now : ℕ) (hits more : List ℕ)
    → trim_hits now (hits ++ more) ≡ trim_hits now hits ++ trim_hits now more
unfolding trim_hits
trim_hits-append now hits more = keep-append (λ hit. ltb now (hit + rate_window)) hits more

-- What is out of the window at one time is out at every later time.
pub trim_hits-trim_hits :
    (now t : ℕ) (hits : List ℕ) → now ≤ t → trim_hits t (trim_hits now hits) ≡ trim_hits t hits
unfolding trim_hits
trim_hits-trim_hits now t [] h = refl
trim_hits-trim_hits now t (x ∷ hits) h = ground (arith, trim_hits-trim_hits now t hits)

length-trim_hits :
    (now t : ℕ) (hits : List ℕ) → now ≤ t → length (trim_hits t hits) ≤ length (trim_hits now hits)
unfolding trim_hits
length-trim_hits now t [] h = omega arith
length-trim_hits now t (x ∷ hits) h = ground (arith, length-trim_hits now t hits)

keep_nothing :
    (now : ℕ) (hits : List ℕ) → is_empty (trim_hits now hits) ≡ true → trim_hits now hits ≡ []
unfolding trim_hits
keep_nothing now hits h = ground arith

pub hits_of-sweep_hits :
    (j : Bytes) (now : ℕ) (m : Dict (List ℕ))
    → Distinct m
    → hits_of j (sweep_hits now m) ≡ trim_hits now (hits_of j m)
unfolding lookup sweep_hits trim_hits
hits_of-sweep_hits j now [] d = refl
hits_of-sweep_hits j now ((ip, hits) ∷ m) d = elim (Bool-cases (same ip j)) [
  | inl e ↦ ground (
    arith,
    hits_of-sweep_hits j now m d.1,
    subst (λ k. lookup k m ≡ none) (same→eq ip j e) d.0,
    keep_nothing now hits,
  )
  | inr e ↦ ground (arith, hits_of-sweep_hits j now m d.1)
]

lookup_swept :
    (ip : Bytes) (now : ℕ) (m : Dict (List ℕ))
    → lookup ip m ≡ none
    → lookup ip (sweep_hits now m) ≡ none
unfolding lookup sweep_hits
lookup_swept ip now [] h = refl
lookup_swept ip now ((k, hits) ∷ m) h = ground (arith, lookup_swept ip now m)

-- The table agrees with the log of the requests let through, as far as the window reaches.
record Agrees (now : ℕ) (hits passed : List ℕ) : Type 0 where
  same_window : trim_hits now hits ≡ trim_hits now passed
  in_budget : length (trim_hits now passed) ≤ rate_burst

Agrees-later :
    (now t : ℕ) (hits passed : List ℕ) → now ≤ t → Agrees now hits passed → Agrees t hits passed
Agrees-later now t hits passed h a = record {
  same_window =
      sym (trim_hits-trim_hits now t hits h)
      ∙ (ap (trim_hits t) a.same_window ∙ trim_hits-trim_hits now t passed h);
  in_budget = omega (arith, length-trim_hits now t passed h, a.in_budget);
}

pub limit_step-full :
    (now : ℕ) (hits : List ℕ)
    → leb rate_burst (length (trim_hits now hits)) ≡ true
    → limit_step now hits ≡ (trim_hits now hits, true)
unfolding limit_step
limit_step-full now hits e = rw e refl

pub limit_step-room :
    (now : ℕ) (hits : List ℕ)
    → leb rate_burst (length (trim_hits now hits)) ≡ false
    → limit_step now hits ≡ (trim_hits now hits ++ (now ∷ []), false)
unfolding limit_step
limit_step-room now hits e = rw e refl

trim_hits-single : (now : ℕ) → trim_hits now (now ∷ []) ≡ now ∷ []
unfolding trim_hits
trim_hits-single now = ground arith

Agrees-request :
    (now : ℕ) (hits passed : List ℕ)
    → Agrees now hits passed
    → Agrees now
        (limit_step now hits).0
        (if (limit_step now hits).1 then passed else passed ++ (now ∷ []))
Agrees-request now hits passed a =
    elim (Bool-cases (leb rate_burst (length (trim_hits now hits)))) [
      | inl e ↦ rw (limit_step-full now hits e) (record {
        same_window = trim_hits-trim_hits now now hits (omega arith) ∙ a.same_window;
        in_budget = a.in_budget;
      })
      | inr e ↦ rw (limit_step-room now hits e) (record {
        same_window =
            trim_hits-append now (trim_hits now hits) (now ∷ [])
            ∙ (ap (λ w. w ++ trim_hits now (now ∷ []))
                  (trim_hits-trim_hits now now hits (omega arith) ∙ a.same_window)
                ∙ sym (trim_hits-append now passed (now ∷ [])));
        in_budget = ground (
          arith,
          trim_hits-append now passed (now ∷ []),
          trim_hits-single now,
          length-append (trim_hits now passed) (now ∷ []),
          ap length a.same_window,
        );
      })
    ]

pub sweep_hits-Distinct : (now : ℕ) (m : Dict (List ℕ)) → Distinct m → Distinct (sweep_hits now m)
unfolding sweep_hits
sweep_hits-Distinct now [] d = tt
sweep_hits-Distinct now ((ip, hits) ∷ m) d =
    ground (arith, sweep_hits-Distinct now m d.1, lookup_swept ip now m d.0)

Agrees-swept :
    (j : Bytes) (now : ℕ) (m : Dict (List ℕ)) (passed : List ℕ)
    → Distinct m
    → Agrees now (hits_of j m) passed
    → Agrees now (hits_of j (sweep_hits now m)) passed
Agrees-swept j now m passed d a = record {
  same_window =
      ap (trim_hits now) (hits_of-sweep_hits j now m d)
      ∙ (trim_hits-trim_hits now now (hits_of j m) (omega arith) ∙ a.same_window);
  in_budget = a.in_budget;
}

pub hits_of-insert :
    (j ip : Bytes) (hits : List ℕ) (m : Dict (List ℕ))
    → hits_of j (insert ip hits m) ≡ (if same ip j then hits else hits_of j m)
hits_of-insert j ip hits m = ground (arith, lookup-insert ip j hits m)

Agrees-limited :
    (j ip : Bytes) (now : ℕ) (m : Dict (List ℕ)) (passed : List ℕ)
    → Agrees now (hits_of j m) passed
    → Agrees now (hits_of j (rate_limited now ip m).0) (
        if same ip j
        then (if (rate_limited now ip m).1 then passed else passed ++ (now ∷ []))
        else passed)
unfolding rate_limited
Agrees-limited j ip now m passed a =
    let logged = if (limit_step now (hits_of ip m)).1 then passed else passed ++ (now ∷ []) in
    subst (λ hits. Agrees now hits (if same ip j then logged else passed))
      (sym (hits_of-insert j ip (limit_step now (hits_of ip m)).0 m))
      (elim (Bool-cases (same ip j)) [
        | inl e ↦ rw e (
            Agrees-request now (hits_of ip m) passed
              (subst (λ k. Agrees now (hits_of k m) passed) (sym (same→eq ip j e)) a))
        | inr e ↦ rw e a
      ])

let_through-bounded :
    (j : Bytes) (start end : ℕ) (es : List Event) (m : Dict (List ℕ)) (passed : List ℕ)
    → Distinct m
    → Agrees start (hits_of j m) passed
    → Between start end es
    → length (trim_hits end (let_through j es m passed)) ≤ rate_burst
unfolding let_through rate_limited
let_through-bounded j start end [] m passed d a b = (Agrees-later start end _ _ b a).in_budget
let_through-bounded j start end (janitor now ∷ es) m passed d a b =
    let_through-bounded j now end es (sweep_hits now m) passed (sweep_hits-Distinct now m d)
      (Agrees-swept j now m passed d (Agrees-later start now _ _ b.0 a)) b.1
let_through-bounded j start end (request now ip ∷ es) m passed d a b =
    let_through-bounded j now end es (rate_limited now ip m).0 _ (insert-Distinct ip _ m d)
      (Agrees-limited j ip now m passed (Agrees-later start now _ _ b.0 a)) b.1

-- From an empty table, over every sequence of requests of any addresses and sweeps, in which time does
-- not run backwards: of the requests of one address that rateLimited lets through, at most rateBurst
-- lie in the rateWindow that ends with the sequence.
pub let_through-budget :
    (j : Bytes) (start end : ℕ) (es : List Event)
    → Between start end es
    → length (trim_hits end (let_through j es [] [])) ≤ rate_burst
let_through-budget j start end es b =
    let_through-bounded j start end es [] [] tt
      (record { same_window = unfold lookup in refl; in_budget = unfold trim_hits in omega arith })
      b
