-- ===== src/Auth/Limit.antt =====
-- internal/auth/manager.go: trimHits and rateLimited.
pub mod Window
pub mod Recovery
use wvpn.Base.{
  ℕ, ◌+◌, ◌*◌, Bool, true, false, List, [], ◌∷◌, ◌++◌, Option, none, some, if◌then◌else◌, keep,
  length, ltb, leb, is_empty,
}
use wvpn.Text.{Bytes}
use wvpn.Dict.{Dict, lookup, insert}
use wvpn.Auth.Model.{minute}

abbrev pub rate_window : ℕ
rate_window = 900_000_000_000

abbrev pub rate_burst : ℕ
rate_burst = 30

-- trimHits with the cutoff now - rateWindow: a hit stays while now < hit + rateWindow.
unfoldable pub trim_hits : ℕ → List ℕ → List ℕ
trim_hits now hits = keep (λ hit. ltb now (hit + rate_window)) hits

abbrev pub hits_of : Bytes → Dict (List ℕ) → List ℕ
hits_of ip m = elim (lookup ip m) [ none ↦ [] | some hits ↦ hits ]

-- One request against the list of one address: the list afterwards, and whether it is over budget.
unfoldable pub limit_step : ℕ → List ℕ → List ℕ × Bool
unfolding trim_hits
limit_step now hits =
    if leb rate_burst (length (trim_hits now hits))
    then (trim_hits now hits, true)
    else (trim_hits now hits ++ (now ∷ []), false)

-- rateLimited
unfoldable pub rate_limited : ℕ → Bytes → Dict (List ℕ) → Dict (List ℕ) × Bool
unfolding limit_step
rate_limited now ip m = let (hits, over) = limit_step now (hits_of ip m) in (insert ip hits m, over)

-- The range loop of sweep over ipHits: an address with no hit in the window is forgotten.
unfoldable pub sweep_hits : ℕ → Dict (List ℕ) → Dict (List ℕ)
unfolding trim_hits
sweep_hits now [] = []
sweep_hits now ((ip, hits) ∷ m) =
    let rest = sweep_hits now m in
    if is_empty (trim_hits now hits) then rest else (ip, trim_hits now hits) ∷ rest
