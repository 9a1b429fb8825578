-- ===== src/Codec/Bytes.antt =====
-- The words and bit masks of the wire format, as arithmetic.
use Prim.Native.Nat.{bit_and}
use trtp_network.Prelude.{
  ℕ, ◌/◌, ◌%◌, ◌^◌, ◌<◌, ◌≡◌, refl, true, ◌&&◌, ◌==◌, arith, passes, passes-at,
}
use trtp_network.Codec.{Endian, little, big, net16, net32, from_net, host32, from_host}

pub from_net-net16 : (n : ℕ) → n < 2 ^ 16 → from_net (net16 n) ≡ n
from_net-net16 n h = omega arith

pub from_net-net32 : (n : ℕ) → n < 2 ^ 32 → from_net (net32 n) ≡ n
from_net-net32 n h = omega arith

pub from_host-host32 : (e : Endian) (n : ℕ) → n < 2 ^ 32 → from_host e (host32 e n) ≡ n
from_host-host32 little n h = omega arith
from_host-host32 big n h = omega arith

mask_table :
    passes
      (λ b.
        bit_and b 0xc0 / 64 == b / 64
        && (bit_and b 0x20 / 32 == b / 32 % 2 && bit_and b 0x1f == b % 32))
      256
    ≡ true
unfolding passes
mask_table = refl

-- The masks of `pkt_decode` cut the first byte into its three fields.
pub masks :
    (b : ℕ)
    → b < 256
    → (bit_and b 0xc0 / 2 ^ 6 ≡ b / 64)
      × (bit_and b 0x20 / 2 ^ 5 ≡ b / 32 % 2)
      × (bit_and b 0x1f ≡ b % 32)
masks b h = ground (arith, passes-at _ 256 b h mask_table)
