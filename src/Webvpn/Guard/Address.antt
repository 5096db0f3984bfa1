-- ===== src/Webvpn/Guard/Address.antt =====
-- Which addresses CheckAddr lets through, as ranges of numbers.
use wvpn.Base.{ℕ, ◌+◌, ◌*◌, ◌^◌, ◌<◌, ◌/◌, ◌≡◌, ◌≢◌, ◌⊎◌, ap, arith, eq→==}
use wvpn.Text.{Bytes}
use wvpn.Net.{v4, v6, unmap, is_4_in_6}
use wvpn.Webvpn.Guard.{Guard, check_unmapped, check_addr}

-- first.x.y.z to last.x.y.z, both ends included.
abbrev pub Outside : ℕ → ℕ → ℕ → Type 0
Outside first last a = (a < first) ⊎ (last < a)

-- a.b.c.d
abbrev pub dotted : ℕ → ℕ → ℕ → ℕ → ℕ
dotted a b c d = ((a * 256 + b) * 256 + c) * 256 + d

-- Outside what no setting opens: 0.0.0.0, 169.254.0.0/16 and 224.0.0.0/4.
pub record IsConnectable (a : ℕ) : Type 0 where
  pub specified : a ≢ 0
  pub routed : Outside (dotted 169 254 0 0) (dotted 169 254 255 255) a
  pub single : Outside (dotted 224 0 0 0) (dotted 239 255 255 255) a

-- Outside what is closed unless private targets are permitted: 127.0.0.0/8, 10.0.0.0/8, 172.16.0.0/12,
-- 192.168.0.0/16 and 100.64.0.0/10.
pub record IsRemote (a : ℕ) : Type 0 where
  pub not_loopback : Outside (dotted 127 0 0 0) (dotted 127 255 255 255) a
  pub not_ten : Outside (dotted 10 0 0 0) (dotted 10 255 255 255) a
  pub not_172 : Outside (dotted 172 16 0 0) (dotted 172 31 255 255) a
  pub not_192 : Outside (dotted 192 168 0 0) (dotted 192 168 255 255) a
  pub not_cgnat : Outside (dotted 100 64 0 0) (dotted 100 127 255 255) a

-- An IPv4 address that a resolver returns in IPv6 clothes is judged like the address itself.
pub check_addr-4_in_6 :
    (g : Guard) (a : ℕ) (zone : Bytes)
    → a < 2 ^ 32
    → check_addr g (v6 (0xffff * 2 ^ 32 + a) zone) ≡ check_addr g (v4 a)
unfolding check_addr unmap is_4_in_6
check_addr-4_in_6 g a zone h =
    rw (eq→== ((0xffff * 2 ^ 32 + a) / 2 ^ 32) 0xffff (omega arith))
      (ap (λ n. check_unmapped g.allow_private (v4 n)) (omega arith))
