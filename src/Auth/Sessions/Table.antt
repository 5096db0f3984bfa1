-- ===== src/Auth/Sessions/Table.antt =====
-- What the operations on the table do to the sessions that a later request finds.
use wvpn.Base.{
  ℕ, ◌+◌, ◌/◌, ◌≤◌, ◌≡◌, ◌≢◌, refl, sym, ap, subst, ◌∙◌, true, false, not, ◌&&◌, List, [], ◌∷◌,
  none, some, arith, is_empty, Bool-cases, Option-cases, inl, inr, ◌⊎◌,
}
use wvpn.Text.{Bytes, same}
use wvpn.Text.Laws.{same_iff}
use wvpn.Dict.{Dict, lookup, delete, sweep}
use wvpn.Dict.Laws.{
  Distinct, lookup-insert, lookup-delete, lookup-sweep, delete-Distinct, sweep-Distinct,
}
use wvpn.Auth.Model.{Options, Directory, Manager, Session, session_ttl, session_cookie}
use wvpn.Auth.Sessions.{expired, touch, session_for, logout, sweep_manager, revoke}
use wvpn.Auth.Sessions.Lookup.{
  live, first_live, touched, session_for-first_live, first_live-cong, live-sweep,
}

-- One of the cookies carries the session's name and this token.
abbrev pub Carries : Bytes → List (Bytes × Bytes) → Type 0
Carries token [] = ⊥
Carries token ((name, value) ∷ cookies) =
    ((same name session_cookie ≡ true) × (value ≡ token)) ⊎ Carries token cookies

-- The table holds the session, not expired, under a token that the request carries.
abbrev pub Found : ℕ → List (Bytes × Bytes) → Dict Session → Session → Type 0
Found now cookies m s =
    (token : Bytes) × Carries token cookies × (lookup token m ≡ some s) × (expired now s ≡ false)

module _ (now : ℕ) (m : Dict Session) (s : Session) where
  Found-later :
      (cookie : Bytes × Bytes) (cookies : List (Bytes × Bytes))
      → Found now cookies m s
      → Found now (cookie ∷ cookies) m s
  Found-later (name, value) cookies (token, c, l, x) = (token, inr c, l, x)

  pub first_live-Found :
      (cookies : List (Bytes × Bytes)) → first_live now cookies m ≡ some s → Found now cookies m s
  unfolding first_live
  first_live-Found [] h = cc
  first_live-Found ((name, value) ∷ cookies) h =
      elim (Bool-cases (same name session_cookie && not (is_empty value))) [
        | inr e ↦ Found-later _ cookies (first_live-Found cookies (ground arith))
        | inl e ↦ elim (Option-cases (live now value m)) [
          | inl n ↦ Found-later _ cookies (first_live-Found cookies (ground arith))
          | inr (t, l) ↦ (value, inl (ground arith, refl), ground arith, ground arith)
        ]
      ]

min_half : (n : ℕ) → n / 2 ≤ n
min_half n = omega arith

live-lookup :
    (now : ℕ) (j : Bytes) (m : Dict Session) (s : Session)
    → live now j m ≡ some s
    → lookup j m ≡ some s
live-lookup now j m s h = ground arith

-- An active session is not shortened, and has half a lifetime left at the least.
touch-expires :
    (opts : Options) (dir : Directory) (now : ℕ) (s : Session)
    → expired now s ≡ false
    → (s.expires ≤ (touch opts dir now s).expires)
      × (now + session_ttl opts dir / 2 ≤ (touch opts dir now s).expires)
unfolding touch
touch-expires opts dir now s h = ground (arith, min_half (session_ttl opts dir))

-- A live session stays, touched or as it was, whatever request is looked up.
pub session_for-keeps :
    (opts : Options) (dir : Directory) (now : ℕ) (j : Bytes) (s : Session)
    (cookies : List (Bytes × Bytes)) (m : Dict Session)
    → Distinct m
    → live now j m ≡ some s
    → (lookup j (session_for opts dir now cookies m).0 ≡ some s)
      ⊎ (lookup j (session_for opts dir now cookies m).0 ≡ some (touch opts dir now s))
unfolding session_for
session_for-keeps opts dir now j s [] m d h = inl (live-lookup now j m s h)
session_for-keeps opts dir now j s ((name, value) ∷ cookies) m d h =
    elim (Option-cases (lookup value m)) [
      | inl n ↦ ground (arith, session_for-keeps opts dir now j s cookies m d)
      | inr (t, l) ↦ elim (Bool-cases (expired now t)) [
        | inl x ↦ ground (
          arith,
          session_for-keeps opts dir now j s cookies m d,
          session_for-keeps opts dir now j s cookies (delete value m) (delete-Distinct value m d),
          lookup-delete value j m d,
          same_iff value j,
        )
        | inr x ↦ ground (
          arith,
          session_for-keeps opts dir now j s cookies m d,
          lookup-insert value j (touch opts dir now t) m,
          same_iff value j,
        )
      ]
    ]

-- The janitor's sweep is not seen by any request.
pub session_for-sweep :
    (opts : Options) (dir : Directory) (now : ℕ) (cookies : List (Bytes × Bytes)) (m : Manager)
    → Distinct m.sessions
    → (session_for opts dir now cookies (sweep_manager now m).sessions).1
      ≡ (session_for opts dir now cookies m.sessions).1
unfolding sweep_manager
session_for-sweep opts dir now cookies m d =
    let swept = sweep (λ s. not (expired now s)) m.sessions in
    session_for-first_live opts dir now cookies swept (sweep-Distinct _ m.sessions d)
    ∙ (ap (touched opts dir now)
          (first_live-cong now cookies swept m.sessions (λ j. live-sweep now j m.sessions d))
        ∙ sym (session_for-first_live opts dir now cookies m.sessions d))

lookup-logout :
    (j : Bytes) (cookies : List (Bytes × Bytes)) (m : Dict Session)
    → Distinct m
    → lookup j m ≡ none
    → lookup j (logout cookies m) ≡ none
unfolding logout
lookup-logout j [] m d h = h
lookup-logout j ((name, value) ∷ cookies) m d h = elim (Bool-cases (same name session_cookie)) [
  | inl e ↦ ground (
    arith,
    lookup-logout j cookies (delete value m) (delete-Distinct value m d),
    lookup-delete value j m d,
  )
  | inr e ↦ ground (arith, lookup-logout j cookies m d)
]

logout-Carries :
    (token : Bytes) (cookies : List (Bytes × Bytes)) (m : Dict Session)
    → Distinct m
    → Carries token cookies
    → lookup token (logout cookies m) ≡ none
unfolding logout
logout-Carries token [] m d c = elim c [ ]
logout-Carries token ((name, value) ∷ cookies) m d (inl (e, q)) = ground (
  arith,
  lookup-logout token cookies (delete value m) (delete-Distinct value m d),
  lookup-delete value token m d,
  same_iff value token,
)
logout-Carries token ((name, value) ∷ cookies) m d (inr c) = ground (
  arith,
  logout-Carries token cookies m d c,
  logout-Carries token cookies (delete value m) (delete-Distinct value m d) c,
)

logout-Distinct :
    (cookies : List (Bytes × Bytes)) (m : Dict Session) → Distinct m → Distinct (logout cookies m)
unfolding logout
logout-Distinct [] m d = d
logout-Distinct ((name, value) ∷ cookies) m d = ground (
  arith,
  logout-Distinct cookies (delete value m) (delete-Distinct value m d),
  logout-Distinct cookies m d,
)

touch-id :
    (opts : Options) (dir : Directory) (now : ℕ) (s : Session) → (touch opts dir now s).id ≡ s.id
unfolding touch
touch-id opts dir now s = ground arith

not_revoked :
    (id : Bytes) (s : Session) (token : Bytes) (m : Dict Session)
    → Distinct m
    → lookup token (sweep (λ s. not (same s.id id)) m) ≡ some s
    → s.id ≢ id
not_revoked id s token m d h =
    ground (arith, lookup-sweep (λ s. not (same s.id id)) token m d, same_iff s.id id)

some-inj : (s t : Session) → some s ≡ some t → s ≡ t
some-inj s t h = cc

module _ (opts : Options) (dir : Directory) (now : ℕ) (cookies : List (Bytes × Bytes)) where
  -- A session that SessionFor returns is one that the table holds under a token of the request's
  -- session cookies and that has not expired, touched: it expires no earlier than before, and has half
  -- a lifetime left at the least.
  pub session_for-Found :
      (m : Dict Session) (t : Session)
      → Distinct m
      → (session_for opts dir now cookies m).1 ≡ some t
      → (s : Session) × Found now cookies m s
        × (t ≡ touch opts dir now s)
        × (s.expires ≤ t.expires)
        × (now + session_ttl opts dir / 2 ≤ t.expires)
  session_for-Found m t d h = elim (Option-cases (first_live now cookies m)) [
    | inl n ↦ ground (arith, session_for-first_live opts dir now cookies m d)
    | inr (s, l) ↦
        let (token, c, k, x) = first_live-Found now m s cookies l in
        let eq : t ≡ touch opts dir now s = some-inj t (touch opts dir now s) (
          sym h
          ∙ (session_for-first_live opts dir now cookies m d ∙ ap (touched opts dir now) l)) in
        (
          s,
          (token, c, k, x),
          eq,
          subst (λ u. s.expires ≤ u.expires) (sym eq) (touch-expires opts dir now s x).0,
          subst (λ u. now + session_ttl opts dir / 2 ≤ u.expires) (sym eq)
              (touch-expires opts dir now s x).1,
        )
  ]

  -- After handleLogout, the cookies of the request that it answered name no live session.
  pub session_for-logout :
      (m : Dict Session)
      → Distinct m
      → (session_for opts dir now cookies (logout cookies m)).1 ≡ none
  session_for-logout m d =
      elim (Option-cases (session_for opts dir now cookies (logout cookies m)).1) [
        | inl n ↦ n
        | inr (t, l) ↦
            let (s, (token, c, k, x), eq, _, _) =
              session_for-Found (logout cookies m) t (logout-Distinct cookies m d) l in
            ground (arith, logout-Carries token cookies m d c)
      ]

  -- After handleRevokeSession, no request is given a session with the revoked id.
  pub session_for-revoke :
      (id : Bytes) (m : Manager) (t : Session)
      → Distinct m.sessions
      → is_empty id ≡ false
      → (session_for opts dir now cookies (revoke (some id) m).0.sessions).1 ≡ some t
      → t.id ≢ id
  session_for-revoke id m t d e h =
      let kept_of = sweep (λ s. not (same s.id id)) m.sessions in
      let table : (revoke (some id) m).0.sessions ≡ kept_of = unfold revoke in rw e refl in
      let (s, (token, c, k, x), eq, _, _) =
        session_for-Found kept_of t (sweep-Distinct _ m.sessions d)
          (sym (ap (λ a. (session_for opts dir now cookies a).1) table) ∙ h) in
      λ q.
        not_revoked id s token m.sessions d k
          (sym (touch-id opts dir now s) ∙ (ap (λ u. u.id) (sym eq) ∙ q))
