-- ===== src/Codec/Sound.antt =====
-- `pkt_decode` accepts nothing but datagrams of `pkt_encode`.
mod Payload
mod Fields
pub use Payload.{from_host-lt}
use Payload.{net32-from_net, host32-from_host, result-injective}
use mathlib.Core.List.{append-nil}
use mathlib.Core.Path.{subst}
use mathlib.Core.Option.{some-injective}
use trtp_network.Prelude.{
  ℕ, ◌+◌, ◌^◌, ◌≡◌, ◌≢◌, ap₂, List, ◌++◌, Option, none, load, load-prefix, load-append-add,
  load-within, length-append,
}
use trtp_network.Packet.{Pkt, block, Status}
use trtp_network.Codec.{Zlib, Endian, little, big, net32, host32, header_bytes}
use trtp_network.Codec.Encode.{HasPayload, sealed_header, wire}
use trtp_network.Codec.Decode.{decode_payload-empty, decode_payload-match, decode_payload-corrupt}
use trtp_network.Codec.RoundTrip.{IsSendable}
use trtp_network.Codec.Limits.{decode_payload_past}

-- The memory starts with the datagram of the sendable packet `p`.
pub record IsDatagram (z : Zlib) (e : Endian) (bytes : List ℕ) (p : Pkt) : Type 0 where
  pub body : List ℕ
  pub rest : List ℕ
  pub sendable : IsSendable p
  pub has : HasPayload p body
  pub is_wire : bytes ≡ wire z e p body ++ rest
