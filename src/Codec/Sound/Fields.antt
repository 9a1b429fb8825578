-- ===== src/Codec/Sound/Fields.antt =====
-- The header of an accepted packet.
use trtp_network.Prelude.{
  ℕ, ◌/◌, ◌%◌, ◌≤◌, ◌≡◌, ◌≢◌, ◌⊎◌, ap, ap₂, ◌∙◌, List, [], ◌∷◌, ◌++◌, Option, some, arith, length,
}
use trtp_network.Packet.{Pkt, Status, pkt_ok}
use trtp_network.Codec.{Zlib, calculate_crc32, Endian, from_net, from_host, net32, header_bytes}
use trtp_network.Codec.Encode.{sealed_header}
use trtp_network.Codec.Decode.{with_first, with_stamp}
use trtp_network.Codec.RoundTrip.{IsSendable}
use trtp_network.Codec.Limits.{IsBytes}
use trtp_network.Codec.Sound.Payload.{
  net32-from_net, host32-from_host, from_host-lt, result-injective,
}

-- The packet that the first twelve bytes of a datagram describe.
abbrev pub header_pkt : Endian → Pkt → ℕ → ℕ → ℕ → ℕ → List ℕ → List ℕ → Pkt
header_pkt e q a b c d ts crc =
    with_stamp (record (with_first q a) { length_field = from_net (b ∷ c ∷ []) }) d (from_host e ts)
      (from_net crc)

module _ (z : Zlib) (e : Endian) (q p' : Pkt) (a b c d t0 t1 t2 t3 : ℕ) (crc : List ℕ) where
  abbrev pub eight : List ℕ
  eight = a ∷ b ∷ c ∷ d ∷ t0 ∷ t1 ∷ t2 ∷ t3 ∷ []

  abbrev P : Pkt
  P = header_pkt e q a b c d (t0 ∷ t1 ∷ t2 ∷ t3 ∷ []) crc

  header_bytes_back : IsBytes eight → header_bytes e P ≡ eight
  header_bytes_back ok = ground (arith, host32-from_host e t0 t1 t2 t3 ok.1.1.1.1)

  pub sealed_back :
      IsBytes eight
      → IsBytes crc
      → length crc ≡ 4
      → calculate_crc32 z eight ≡ from_net crc
      → p' ≡ record P { payload = p'.payload; crc2 = p'.crc2 }
      → sealed_header z e p' ≡ eight ++ crc
  sealed_back ok crc_ok four same stored =
      ap₂ (λ h k. h ++ net32 (calculate_crc32 z k)) back back
      ∙ ap (λ k. eight ++ k) (ap net32 same ∙ net32-from_net crc four crc_ok)
    where
      back : header_bytes e p' ≡ eight
      back = ap (header_bytes e) stored ∙ header_bytes_back ok

  pub IsSendable-back :
      IsBytes eight
      → (a / 32 % 2 ≡ 0) ⊎ (a / 64 ≡ 1)
      → from_net (b ∷ c ∷ []) ≤ 512
      → p' ≡ record P { payload = p'.payload; crc2 = p'.crc2 }
      → IsSendable p'
  IsSendable-back ok typed short stored = rw stored (record {
    stored = omega (arith, from_host-lt e t0 t1 t2 t3 ok.1.1.1.1);
    typed = typed;
    short = short;
  })

pub not_ok :
    {t : Status} {r p : Pkt}
    → t ≢ pkt_ok
    → ◌≡◌ {A = Option (Status × Pkt)} (some (t, r)) (some (pkt_ok, p))
    → ⊥
not_ok ne h = ne ((result-injective h).0)

-- An accepted datagram has passed the checks of the header.
