-- ===== src/Store/Glob/Reference.antt =====
-- What a glob pattern means: "*" is any run of bytes, "?" is any byte, another byte is itself.
use wvpn.Base.{ℕ, ◌≡◌, ◌≢◌, ◌⊎◌, [], ◌∷◌, drop}
use wvpn.Text.{Bytes}

pub data Matches : Bytes → Bytes → Type 0 where
  end : Matches [] []
  one :
      {c d : ℕ} {p s : Bytes}
      → c ≢ b'*'
      → (c ≡ b'?') ⊎ (c ≡ d)
      → Matches p s
      → Matches (c ∷ p) (d ∷ s)
  run : {c : ℕ} {p s : Bytes} → c ≡ b'*' → (j : ℕ) → Matches p (drop j s) → Matches (c ∷ p) s
