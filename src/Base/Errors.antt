-- ===== src/Base/Errors.antt =====
-- Results of fallible code. `E` is the component's own type of errors.
use mathlib.Core.Path.{◌≡◌, refl}
use mathlib.Core.Logic.{◌⊎◌, inl, inr}
use mathlib.Core.Bool.{Bool, true, false}

pub data Result {ℓ κ} (E : Type ℓ) (A : Type κ) : Type (ℓ ⊔ κ) where
  err : E → Result E A
  ok : A → Result E A

infixl 5 ◌>>=◌ ◌>>◌
abbrev pub ◌>>=◌ {ℓ κ μ} :
    {E : Type ℓ} {A : Type κ} {B : Type μ} → Result E A → (A → Result E B) → Result E B
err why >>= next = err why
ok value >>= next = next value

abbrev pub ◌>>◌ {ℓ κ} : {E : Type ℓ} {B : Type κ} → Result E (Unit {0}) → Result E B → Result E B
err why >> rest = err why
ok done >> rest = rest

-- `if test { return err }`.
abbrev pub reject_if {ℓ} : {E : Type ℓ} → Bool → E → Result E (Unit {0})
reject_if false why = ok tt
reject_if true why = err why

-- A guard that has been passed.
pub passed :
    {E : Type 0} (b : Bool) (why : E) (rest : Result E (Unit {0}))
    → (reject_if b why >> rest) ≡ ok tt
    → (b ≡ false) × (rest ≡ ok tt)
passed false why rest h = (refl, h)
passed true why rest h = cc

-- One step of a loop that stops at the first error.
pub both_ok :
    {E : Type 0} (first rest : Result E (Unit {0}))
    → (first >> rest) ≡ ok tt
    → (first ≡ ok tt) × (rest ≡ ok tt)
both_ok (err e) rest h = cc
both_ok (ok tt) rest h = (refl, h)

pub Result-cases {ℓ κ} :
    {E : Type ℓ} {A : Type κ} (r : Result E A) → ((e : E) × (r ≡ err e)) ⊎ ((a : A) × (r ≡ ok a))
Result-cases (err e) = inl (e, refl)
Result-cases (ok a) = inr (a, refl)
