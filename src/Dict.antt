-- ===== src/Dict.antt =====
-- Go maps keyed by strings, as association lists. A range loop that deletes is `sweep`.
pub mod Laws
use wvpn.Base.{Bool, List, [], ◌∷◌, Option, none, some, if◌then◌else◌}
use wvpn.Text.{Bytes, same}

abbrev pub Dict {ℓ} : Type ℓ → Type ℓ
Dict V = List (Bytes × V)

module _ {ℓ} {V : Type ℓ} where
  -- v, ok := m[key]
  unfoldable pub lookup : Bytes → Dict V → Option V
  lookup key [] = none
  lookup key ((k, v) ∷ m) = if same k key then some v else lookup key m

  -- m[key] = v
  unfoldable pub insert : Bytes → V → Dict V → Dict V
  insert key v [] = (key, v) ∷ []
  insert key v ((k, w) ∷ m) = if same k key then (k, v) ∷ m else (k, w) ∷ insert key v m

  -- delete(m, key)
  unfoldable pub delete : Bytes → Dict V → Dict V
  delete key [] = []
  delete key ((k, w) ∷ m) = if same k key then m else (k, w) ∷ delete key m

  -- for k, v := range m { if !stays(v) { delete(m, k) } }
  unfoldable pub sweep : (V → Bool) → Dict V → Dict V
  sweep stays [] = []
  sweep stays ((k, v) ∷ m) = if stays v then (k, v) ∷ sweep stays m else sweep stays m
