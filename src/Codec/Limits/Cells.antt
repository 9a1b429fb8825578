-- ===== src/Codec/Limits/Cells.antt =====
-- The bytes of a datagram in memory.
use mathlib.Core.Path.{subst}
use mathlib.Core.Option.{some-injective}
use trtp_network.Prelude.{
  ℕ, ◌+◌, ◌*◌, ◌/◌, ◌%◌, ◌≤◌, ◌<◌, ◌≡◌, ◌≢◌, ◌⊎◌, refl, List, [], ◌∷◌, Option, none, some, arith,
  length, ltb, get_elem?, load, if◌then◌else◌,
}
use trtp_network.Packet.{Pkt, Status, e_length}
use trtp_network.Codec.{from_net}
use trtp_network.Codec.Decode.{IsMistyped}

-- The run ends, inside every object, with a status that satisfies `P`.
abbrev pub Returns : (Status → Type 0) → Option (Status × Pkt) → Type 0
Returns P none = ⊥
Returns P (some (s, p)) = P s

abbrev pub Any : Status → Type 0
Any s = Unit

abbrev pub NotLength : Status → Type 0
NotLength s = s ≢ e_length

-- The header's cells, for memory that holds them.
pub record Header (bytes : List ℕ) : Type 0 where
  pub first : ℕ
  pub raw : List ℕ
  pub seq : ℕ
  pub stamp : List ℕ
  pub eight : List ℕ
  pub crc : List ℕ
  pub at0 : get_elem? bytes 0 ≡ some first
  pub at1 : load bytes 1 2 ≡ some raw
  pub at3 : get_elem? bytes 3 ≡ some seq
  pub at4 : load bytes 4 4 ≡ some stamp
  pub at08 : load bytes 0 8 ≡ some eight
  pub at8 : load bytes 8 4 ≡ some crc

unfoldable pub header_cells : (bytes : List ℕ) → 12 ≤ length bytes → Header bytes
unfolding load
header_cells (a ∷ b ∷ c ∷ d ∷ f ∷ g ∷ h ∷ i ∷ j ∷ k ∷ l ∷ m ∷ rest) fits = record {
  first = a;
  raw = b ∷ c ∷ [];
  seq = d;
  stamp = f ∷ g ∷ h ∷ i ∷ [];
  eight = a ∷ b ∷ c ∷ d ∷ f ∷ g ∷ h ∷ i ∷ [];
  crc = j ∷ k ∷ l ∷ m ∷ [];
  at0 = refl;
  at1 = refl;
  at3 = refl;
  at4 = refl;
  at08 = refl;
  at8 = refl;
}
header_cells _ fits = absurd (omega arith)

abbrev pub IsBytes : List ℕ → Type 0
IsBytes [] = Unit
IsBytes (b ∷ bs) = (b < 256) × IsBytes bs

-- The length field of a datagram in memory, and the length that `pkt_decode` into `q` goes by.
abbrev pub length_of : List ℕ → ℕ
length_of (a ∷ b ∷ c ∷ bs) = b * 256 + c
length_of bs = 0

abbrev pub stored_length : List ℕ → Pkt → ℕ
stored_length bytes q = if ltb 512 (length_of bytes) then q.length_field else length_of bytes

pub first_byte-lt : (bytes : List ℕ) {b : ℕ} → IsBytes bytes → get_elem? bytes 0 ≡ some b → b < 256
first_byte-lt [] ok h = absurd (cc)
first_byte-lt (x ∷ bytes) ok h = ground arith

pub from_net-length_of :
    (bytes raw : List ℕ) → load bytes 1 2 ≡ some raw → from_net raw ≡ length_of bytes
unfolding load
from_net-length_of [] raw h = absurd (cc)
from_net-length_of (a ∷ []) raw h = absurd (cc)
from_net-length_of (a ∷ b ∷ []) raw h = absurd (cc)
from_net-length_of (a ∷ b ∷ c ∷ bs) raw h =
    subst (λ r. from_net r ≡ b * 256 + c) (some-injective _ _ h) (omega arith)

pub Nat-cases : (a b : ℕ) → (a ≡ b) ⊎ (a ≢ b)
Nat-cases a b = omega arith

pub typed_cases : (b : ℕ) → IsMistyped b ⊎ ((b / 32 % 2 ≡ 0) ⊎ (b / 64 ≡ 1))
typed_cases b = omega arith
