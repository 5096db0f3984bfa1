-- ===== src/Auth/Sessions/Lookup.antt =====
-- What SessionFor finds, against a search of the table as it was.
use wvpn.Base.{
  ℕ, ◌≡◌, refl, subst, true, not, ◌&&◌, List, [], ◌∷◌, Option, none, some, arith, if◌then◌else◌,
  is_empty, Bool-cases, Option-cases, inl, inr,
}
use wvpn.Text.{Bytes, same}
use wvpn.Text.Laws.{same→eq}
use wvpn.Dict.{Dict, lookup, delete, sweep}
use wvpn.Dict.Laws.{Distinct, lookup-delete, lookup-sweep, delete-Distinct}
use wvpn.Auth.Model.{Options, Directory, Session, session_cookie}
use wvpn.Auth.Sessions.{expired, touch, session_for}

-- The session of a token, unless it has expired.
abbrev pub live : ℕ → Bytes → Dict Session → Option Session
live now token m = elim (lookup token m) [
  | none ↦ none
  | some s ↦ if expired now s then none else some s
]

abbrev pub or_else : Option Session → Option Session → Option Session
or_else none rest = rest
or_else (some s) rest = some s

-- The session of the first of the cookies that carries the session's name and a live token.
unfoldable pub first_live : ℕ → List (Bytes × Bytes) → Dict Session → Option Session
first_live now [] m = none
first_live now ((name, value) ∷ cookies) m =
    if same name session_cookie && not (is_empty value)
    then or_else (live now value m) (first_live now cookies m)
    else first_live now cookies m

abbrev pub touched : Options → Directory → ℕ → Option Session → Option Session
touched opts dir now none = none
touched opts dir now (some s) = some (touch opts dir now s)

module _ (now : ℕ) where
  -- Two tables with the same live sessions give the same answer.
  pub first_live-cong :
      (cookies : List (Bytes × Bytes)) (m t : Dict Session)
      → ((j : Bytes) → live now j m ≡ live now j t)
      → first_live now cookies m ≡ first_live now cookies t
  unfolding first_live
  first_live-cong [] m t h = refl
  first_live-cong ((name, value) ∷ cookies) m t h = rw (h value, first_live-cong cookies m t h) refl

  live-delete :
      (value j : Bytes) (s : Session) (m : Dict Session)
      → Distinct m
      → lookup value m ≡ some s
      → expired now s ≡ true
      → live now j (delete value m) ≡ live now j m
  live-delete value j s m d h e = elim (Bool-cases (same value j)) [
    | inl q ↦
        ground
          (arith, lookup-delete value j m d, subst (λ k. lookup k m ≡ some s) (same→eq value j q) h)
    | inr q ↦ ground (arith, lookup-delete value j m d)
  ]

  pub live-sweep :
      (j : Bytes) (m : Dict Session)
      → Distinct m
      → live now j (sweep (λ s. not (expired now s)) m) ≡ live now j m
  live-sweep j m d = ground (arith, lookup-sweep (λ s. not (expired now s)) j m d)

module _ (opts : Options) (dir : Directory) (now : ℕ) where
  pub session_for-first_live :
      (cookies : List (Bytes × Bytes)) (m : Dict Session)
      → Distinct m
      → (session_for opts dir now cookies m).1 ≡ touched opts dir now (first_live now cookies m)
  unfolding session_for first_live
  session_for-first_live [] m d = refl
  session_for-first_live ((name, value) ∷ cookies) m d = elim (Option-cases (lookup value m)) [
    | inl n ↦ ground (arith, session_for-first_live cookies m d)
    | inr (s, l) ↦ elim (Bool-cases (expired now s)) [
      | inl x ↦ ground (
        arith,
        session_for-first_live cookies m d,
        session_for-first_live cookies (delete value m) (delete-Distinct value m d),
        first_live-cong now cookies (delete value m) m (λ j. live-delete now value j s m d l x),
      )
      | inr x ↦ ground (arith, session_for-first_live cookies m d)
    ]
  ]
