-- ===== src/Tests/Data.antt =====
-- The machine, the packets and the checksum of the examples.
use trtp_network.Prelude.{
  ℕ, ◌+◌, ◌*◌, ◌%◌, ◌^◌, ◌<◌, refl, inl, List, [], ◌∷◌, true, Option, none, some, arith,
}
use trtp_network.Packet.{Pkt, null, wild, block}
use trtp_network.Codec.{Zlib, little}
use trtp_network.Codec.Encode.{HasPayload}
use trtp_network.Codec.RoundTrip.{IsSendable}
use trtp_network.Build.{Machine}
use trtp_network.Receiver.InOrder.{HasMemory}
use trtp_network.Receiver.Transfer.{IsLast}

abbrev pub total : List ℕ → ℕ
total [] = 7
total (b ∷ bs) = b + 3 * total bs

abbrev pub sum32 : ℕ → Option (List ℕ) → ℕ
sum32 c none = c % 2 ^ 32
sum32 c (some bytes) = (c + total bytes) % 2 ^ 32

pub sum32-lt : (c : ℕ) (bytes : Option (List ℕ)) → sum32 c bytes < 2 ^ 32
sum32-lt c none = omega arith
sum32-lt c (some bytes) = omega arith

abbrev pub zlib : Zlib
zlib = record { crc32 = sum32; crc32-lt = sum32-lt }

-- A packet as `malloc` may hand it out.
abbrev pub blank : Pkt
blank = record {
  type = 2;
  tr = 1;
  window = 19;
  length_field = 300;
  seqnum = 77;
  timestamp = 123456;
  crc1 = 1;
  payload = wild;
  crc2 = 2;
}

abbrev pub machine : Machine
machine = record {
  zlib = zlib;
  endian = little;
  pkt_new = λ n. some blank;
  room = λ n. true;
  clock = λ n. 1000 * n;
}

pub memory : HasMemory machine
memory = record { fresh = λ n. (blank, refl); payload = λ n. refl }

abbrev pub hello : List ℕ
hello = 104 ∷ 105 ∷ 10 ∷ []

abbrev pub data_pkt : ℕ → Pkt
data_pkt n = record {
  type = 1;
  tr = 0;
  window = 4;
  length_field = 3;
  seqnum = n;
  timestamp = 1000;
  crc1 = 0;
  payload = block hello;
  crc2 = 0;
}

abbrev pub last_pkt : Pkt
last_pkt = record (data_pkt 2) { length_field = 0; payload = null }

pub data_pkt-IsSendable : (n : ℕ) → n < 256 → IsSendable (data_pkt n)
data_pkt-IsSendable n h = record { stored = omega arith; typed = inl refl; short = omega arith }

pub hello-HasPayload : (n : ℕ) → HasPayload (data_pkt n) hello
hello-HasPayload n = (refl, λ h. refl)

pub last_pkt-IsLast : IsLast last_pkt
last_pkt-IsLast = record {
  sendable = record { stored = omega arith; typed = inl refl; short = omega arith };
  typed = refl;
  holds = (refl, λ h. absurd (omega arith));
}
