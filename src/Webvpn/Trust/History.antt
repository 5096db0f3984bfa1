-- ===== src/Webvpn/Trust/History.antt =====
-- What has happened before a certificate is trusted, over every sequence of offers and confirmations.
use wvpn.Base.{
  ℕ, ◌+◌, ◌≤◌, ◌≡◌, refl, subst, Bool, true, false, not, ◌||◌, List, [], ◌∷◌, some, arith,
  if◌then◌else◌, is_empty, Bool-cases, Option-cases, inl, inr, ◌⊎◌,
}
use wvpn.Text.{Bytes, same}
use wvpn.Text.Laws.{same→eq, same_refl, same_iff}
use wvpn.Dict.{lookup, sweep}
use wvpn.Dict.Laws.{
  Distinct, lookup-insert, lookup-delete, lookup-sweep, lookup-insert_self, insert-Distinct,
  delete-Distinct, sweep-Distinct,
}
use wvpn.Webvpn.Trust.{
  offer_ttl, Offer, TrustStore, stale, offer, confirm, trusted, dial_tls, connected,
}

-- Who calls the store: serveUntrusted offers, serveTrust confirms.
pub data Step : Type 0 where
  offers : ℕ → Bytes → Bytes → Step
  confirms : ℕ → Bytes → Bytes → Step

abbrev pub empty_store : TrustStore
empty_store = record { pinned = []; offered = [] }

-- The store after these steps, the newest first.
unfoldable pub after : List Step → TrustStore
after [] = empty_store
after (offers now host fp ∷ steps) = offer now host fp (after steps)
after (confirms now host fp ∷ steps) = (confirm now host fp (after steps)).0

-- The certificate was shown for the host at a time from which `now` is within offerTTL.
pub data Shown (now : ℕ) (host fp : Bytes) : List Step → Type 0 where
  shown :
      (seen : ℕ) (steps : List Step)
      → now ≤ seen + offer_ttl
      → Shown now host fp (offers seen host fp ∷ steps)
  before :
      (step : Step) (steps : List Step) → Shown now host fp steps → Shown now host fp (step ∷ steps)

-- The certificate was confirmed for the host after it had been shown for it.
pub data Confirmed (host fp : Bytes) : List Step → Type 0 where
  confirmed :
      (now : ℕ) (steps : List Step)
      → Shown now host fp steps
      → Confirmed host fp (confirms now host fp ∷ steps)
  before :
      (step : Step) (steps : List Step) → Confirmed host fp steps → Confirmed host fp (step ∷ steps)

after-Distinct : (steps : List Step) → Distinct (after steps).offered
unfolding after offer confirm
after-Distinct [] = tt
after-Distinct (offers now host fp ∷ steps) =
    insert-Distinct host _ _ (sweep-Distinct _ (after steps).offered (after-Distinct steps))
after-Distinct (confirms now host fp ∷ steps) =
    ground (
      arith,
      after-Distinct steps,
      delete-Distinct host (after steps).offered (after-Distinct steps),
    )

no_entry {ℓ} : {A : Type ℓ} (a : A) → lookup {V = A} [] [] ≡ some a → ⊥
unfolding lookup
no_entry a h = cc

offered-offer :
    (now : ℕ) (target fp host : Bytes) (o : Offer) (t : TrustStore)
    → Distinct t.offered
    → lookup host (offer now target fp t).offered ≡ some o
    → ((target ≡ host) × (fp ≡ o.fingerprint) × (now ≡ o.seen)) ⊎ (lookup host t.offered ≡ some o)
unfolding offer
offered-offer now target fp host o t d h = elim (Bool-cases (same target host)) [
  | inl e ↦ inl (
    same→eq target host e,
    ground (
      arith,
      lookup-insert target host (record { fingerprint = fp; seen = now })
          (sweep (λ o. not (stale now o)) t.offered),
    ),
    ground (
      arith,
      lookup-insert target host (record { fingerprint = fp; seen = now })
          (sweep (λ o. not (stale now o)) t.offered),
    ),
  )
  | inr e ↦ inr (
      ground (
        arith,
        lookup-insert target host (record { fingerprint = fp; seen = now })
            (sweep (λ o. not (stale now o)) t.offered),
        lookup-sweep (λ o. not (stale now o)) host t.offered d,
      ))
]

offered-confirm :
    (now : ℕ) (target fp host : Bytes) (o : Offer) (t : TrustStore)
    → Distinct t.offered
    → lookup host (confirm now target fp t).0.offered ≡ some o
    → lookup host t.offered ≡ some o
unfolding confirm
offered-confirm now target fp host o t d h = ground (arith, lookup-delete target host t.offered d)

pinned-confirm :
    (now : ℕ) (target p host fp : Bytes) (t : TrustStore)
    → lookup host (confirm now target p t).0.pinned ≡ some fp
    → ((target ≡ host)
        × (p ≡ fp)
        × ((o : Offer) × (lookup host t.offered ≡ some o)
            × (o.fingerprint ≡ fp)
            × (now ≤ o.seen + offer_ttl)))
      ⊎ (lookup host t.pinned ≡ some fp)
unfolding confirm
pinned-confirm now target p host fp t h = elim (Option-cases (lookup target t.offered)) [
  | inl n ↦ inr (ground arith)
  | inr (o, l) ↦ elim (Bool-cases (not (same o.fingerprint p) || stale now o)) [
    | inl r ↦ inr (ground arith)
    | inr r ↦ elim (Bool-cases (same target host)) [
      | inl e ↦
          let eq = same→eq target host e in
          let to_p : p ≡ fp = ground (arith, lookup-insert target host p t.pinned) in
          inl (
            eq,
            to_p,
            (
              o,
              subst (λ k. lookup k t.offered ≡ some o) eq l,
              ground (arith, same_iff o.fingerprint p),
              ground arith,
            ),
          )
      | inr e ↦ inr (ground (arith, lookup-insert target host p t.pinned))
    ]
  ]
]

-- Whatever is on offer was shown.
offered-Shown :
    (now : ℕ) (host : Bytes) (o : Offer) (steps : List Step)
    → lookup host (after steps).offered ≡ some o
    → now ≤ o.seen + offer_ttl
    → Shown now host o.fingerprint steps
unfolding after offer confirm
offered-Shown now host o [] h t = absurd (no_entry o h)
offered-Shown now host o (offers seen target fp ∷ steps) h t =
    elim (offered-offer seen target fp host o (after steps) (after-Distinct steps) h) [
      | inl (e, q, w) ↦ rw (e, q, w) (shown o.seen steps t)
      | inr l ↦ before _ steps (offered-Shown now host o steps l t)
    ]
offered-Shown now host o (confirms at target fp ∷ steps) h t = before _ steps (
    offered-Shown now host o steps
      (offered-confirm at target fp host o (after steps) (after-Distinct steps) h) t)

pinned-Confirmed :
    (host fp : Bytes) (steps : List Step)
    → lookup host (after steps).pinned ≡ some fp
    → Confirmed host fp steps
unfolding after offer confirm
pinned-Confirmed host fp [] h = absurd (no_entry fp h)
pinned-Confirmed host fp (offers seen target p ∷ steps) h =
    before _ steps (pinned-Confirmed host fp steps h)
pinned-Confirmed host fp (confirms now target p ∷ steps) h =
    elim (pinned-confirm now target p host fp (after steps) h) [
      | inl (e, q, (o, l, f, t)) ↦
          rw (e, q)
            (confirmed now steps
              (subst (λ k. Shown now host k steps) f (offered-Shown now host o steps l t)))
      | inr l ↦ before _ steps (pinned-Confirmed host fp steps l)
    ]

-- Whatever is trusted was confirmed.
trusted-Confirmed :
    (host fp : Bytes) (steps : List Step)
    → is_empty fp ≡ false
    → trusted host fp (after steps) ≡ true
    → Confirmed host fp steps
unfolding trusted
trusted-Confirmed host fp steps e h = elim (Option-cases (lookup host (after steps).pinned)) [
  | inl n ↦ ground arith
  | inr (p, l) ↦
      subst (λ k. Confirmed host k steps) (same→eq p fp (ground arith))
        (pinned-Confirmed host p steps l)
]

-- When dialTLS, after any offers and confirmations, takes a connection on which a certificate with a
-- fingerprint that is not empty was presented, then the operator has turned verification off, or the chain
-- verifies, or the certificate was, with this fingerprint and for this address, confirmed within offerTTL
-- of being shown.
pub dial_tls-Confirmed :
    (insecure verifies : Bool) (addr fp : Bytes) (steps : List Step)
    → is_empty fp ≡ false
    → dial_tls insecure addr (some fp) verifies (after steps) ≡ connected
    → (insecure ≡ true) ⊎ ((verifies ≡ true) ⊎ Confirmed addr fp steps)
unfolding dial_tls
dial_tls-Confirmed true verifies addr fp steps e h = inl refl
dial_tls-Confirmed false true addr fp steps e h = inr (inl refl)
dial_tls-Confirmed false false addr fp steps e h =
    elim (Bool-cases (trusted addr fp (after steps))) [
      | inl t ↦ inr (inr (trusted-Confirmed addr fp steps e t))
      | inr n ↦ ground arith
    ]

-- A confirmation that follows the offer within offerTTL succeeds, and then exactly the confirmed
-- certificate is trusted for the host, and for other hosts what was.
pub trusted-confirm :
    (now later : ℕ) (host fp target other : Bytes) (t : TrustStore)
    → later ≤ now + offer_ttl
    → is_empty other ≡ false
    → let (held, pinned) = confirm later host fp (offer now host fp t) in
      (pinned ≡ true)
      × (trusted target other held
          ≡ (if same host target then same fp other else trusted target other t))
unfolding trusted confirm offer
trusted-confirm now later host fp target other t h e =
    let fresh : Offer = record { fingerprint = fp; seen = now } in
    ground (
      arith,
      lookup-insert_self host fresh (sweep (λ o. not (stale now o)) t.offered),
      same_refl fp,
      lookup-insert host target fp t.pinned,
    )
