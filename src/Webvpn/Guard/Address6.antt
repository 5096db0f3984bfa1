-- ===== src/Webvpn/Guard/Address6.antt =====
-- Which IPv6 addresses CheckAddr lets through, as ranges of numbers.
use wvpn.Base.{ℕ, ◌-◌, ◌*◌, ◌^◌, ◌<◌, ◌≢◌, ◌⊎◌, []}
use wvpn.Text.{Bytes}
use wvpn.Webvpn.Guard.{Guard}
use wvpn.Webvpn.Guard.Address.{Outside}

-- Outside what no setting opens: :: without a zone, fe80::/10 and ff00::/8.
pub record IsConnectable6 (a : ℕ) (zone : Bytes) : Type 0 where
  pub specified : (a ≢ 0) ⊎ (zone ≢ [])
  pub routed : Outside (0xfe80 * 2 ^ 112) (0xfec0 * 2 ^ 112 - 1) a
  pub single : a < 0xff00 * 2 ^ 112

-- Outside what is closed unless private targets are permitted: ::1 and fc00::/7, in any zone.
pub record IsRemote6 (a : ℕ) : Type 0 where
  pub not_loopback : a ≢ 1
  pub not_local : Outside (0xfc00 * 2 ^ 112) (0xfe00 * 2 ^ 112 - 1) a
