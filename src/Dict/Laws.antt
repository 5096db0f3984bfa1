-- ===== src/Dict/Laws.antt =====
-- A dictionary holds each key once, and every operation is seen through `lookup`.
use wvpn.Base.{suc, ◌≤◌, ◌≡◌, refl, Bool, [], ◌∷◌, Option, none, some, arith, if◌then◌else◌, length}
use wvpn.Text.{Bytes, same}
use wvpn.Text.Laws.{same_refl, same_iff}
use wvpn.Dict.{Dict, lookup, insert, delete, sweep}

module _ {V : Type 0} where
  abbrev pub Distinct : Dict V → Type 0
  Distinct [] = Unit
  Distinct ((k, v) ∷ m) = (lookup k m ≡ none) × Distinct m

  pub lookup-insert :
      (key j : Bytes) (v : V) (m : Dict V)
      → lookup j (insert key v m) ≡ (if same key j then some v else lookup j m)
  unfolding lookup insert
  lookup-insert key j v [] = refl
  lookup-insert key j v ((k, w) ∷ m) =
      ground (arith, lookup-insert key j v m, same_iff k key, same_iff k j, same_iff key j)

  pub lookup-insert_self : (key : Bytes) (v : V) (m : Dict V) → lookup key (insert key v m) ≡ some v
  lookup-insert_self key v m = rw (lookup-insert key key v m, same_refl key) refl

  pub lookup-delete :
      (key j : Bytes) (m : Dict V)
      → Distinct m
      → lookup j (delete key m) ≡ (if same key j then none else lookup j m)
  unfolding lookup delete
  lookup-delete key j [] d = ground arith
  lookup-delete key j ((k, w) ∷ m) d =
      ground (arith, lookup-delete key j m d.1, same_iff k key, same_iff k j, same_iff key j)

  abbrev pub kept : (V → Bool) → Option V → Option V
  kept stays none = none
  kept stays (some v) = if stays v then some v else none

  pub lookup-sweep :
      (stays : V → Bool) (j : Bytes) (m : Dict V)
      → Distinct m
      → lookup j (sweep stays m) ≡ kept stays (lookup j m)
  unfolding lookup sweep
  lookup-sweep stays j [] d = refl
  lookup-sweep stays j ((k, v) ∷ m) d = ground (arith, lookup-sweep stays j m d.1, same_iff k j)

  pub insert-Distinct : (key : Bytes) (v : V) (m : Dict V) → Distinct m → Distinct (insert key v m)
  unfolding insert
  insert-Distinct key v [] d = (unfold lookup in refl, tt)
  insert-Distinct key v ((k, w) ∷ m) d =
      ground (
        arith,
        insert-Distinct key v m d.1,
        lookup-insert key k v m,
        same_iff k key,
        same_iff key k,
      )

  pub delete-Distinct : (key : Bytes) (m : Dict V) → Distinct m → Distinct (delete key m)
  unfolding delete
  delete-Distinct key [] d = tt
  delete-Distinct key ((k, w) ∷ m) d =
      ground (arith, delete-Distinct key m d.1, lookup-delete key k m d.1)

  pub sweep-Distinct : (stays : V → Bool) (m : Dict V) → Distinct m → Distinct (sweep stays m)
  unfolding sweep
  sweep-Distinct stays [] d = tt
  sweep-Distinct stays ((k, v) ∷ m) d =
      ground (arith, sweep-Distinct stays m d.1, lookup-sweep stays k m d.1)

  pub length-insert : (key : Bytes) (v : V) (m : Dict V) → length (insert key v m) ≤ suc (length m)
  unfolding insert
  length-insert key v [] = omega arith
  length-insert key v ((k, w) ∷ m) = ground (arith, length-insert key v m)

  pub length-insert_known :
      (key : Bytes) (v w : V) (m : Dict V)
      → lookup key m ≡ some w
      → length (insert key v m) ≡ length m
  unfolding insert lookup
  length-insert_known key v w [] h = cc
  length-insert_known key v w ((k, x) ∷ m) h = ground (arith, length-insert_known key v w m)

  pub length-delete : (key : Bytes) (m : Dict V) → length (delete key m) ≤ length m
  unfolding delete
  length-delete key [] = omega arith
  length-delete key ((k, w) ∷ m) = ground (arith, length-delete key m)

  pub length-sweep : (stays : V → Bool) (m : Dict V) → length (sweep stays m) ≤ length m
  unfolding sweep
  length-sweep stays [] = omega arith
  length-sweep stays ((k, v) ∷ m) = ground (arith, length-sweep stays m)
