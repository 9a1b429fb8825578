-- ===== src/Build.antt =====
-- src/put_on_pkt.c, and what the program takes from the machine that it runs on.
use trtp_network.Prelude.{
  [], ◌∷◌, ℕ, zero, suc, ◌+◌, ◌%◌, ◌^◌, List, Bool, Option, none, some, ltb, ◌==◌, if◌then◌else◌,
  ◌>>=◌, load,
}
use trtp_network.Prelude.Int.{ℤ, pos, to_word}
use trtp_network.Packet.{
  Pkt, ptype_data, ptype_ack, ptype_nack, pkt_set_type, pkt_set_tr, pkt_set_window, pkt_set_seqnum,
  pkt_set_length, pkt_set_timestamp, pkt_set_payload,
}
use trtp_network.Codec.{Zlib, Endian, pkt_encode}
pub mod Wire

-- The surroundings of one run. `pkt_new n` is what the n-th allocated `struct pkt` holds when `malloc`
-- hands it out, since `pkt_new` does not initialise it, and `none` if `malloc` fails; `room n` says
-- whether there is memory for a payload of that packet; `clock n` is the n-th reading of `clock ()`.
pub record Machine : Type 0 where
  pub zlib : Zlib
  pub endian : Endian
  pub pkt_new : ℕ → Option Pkt
  pub room : ℕ → Bool
  pub clock : ℕ → ℕ

-- `read` into the buffer: a longer datagram is cut, and the buffer keeps what it held behind a shorter one.
abbrev pub overwrite : List ℕ → List ℕ → List ℕ
overwrite buf [] = buf
overwrite [] (b ∷ bs) = []
overwrite (x ∷ buf) (b ∷ bs) = b ∷ overwrite buf bs

abbrev pub read_into : List ℕ → Option (List ℕ) → List ℕ
read_into buf none = buf
read_into buf (some bytes) = overwrite buf bytes

-- The values of the parameter `type` of `put_on_pkt`, and the type that it stands for.
pub data Kind : Type 0 where
  data_kind ack_kind nack_kind : Kind

-- `pkt_set_payload` on the memory at `payload`, where `none` is NULL. A length above 512 is refused
-- before anything is read.
unfoldable pub copy_payload : Bool → Pkt → Option (List ℕ) → ℕ → Option Pkt
copy_payload room p payload length =
    if ltb 512 length
    then some p
    else (do memory ← payload; bytes ← load memory 0 length; some (pkt_set_payload room p bytes).1)

-- The type and, for data, the payload.
unfoldable pub put_kind : Bool → Kind → Pkt → Option (List ℕ) → ℕ → Option Pkt
unfolding copy_payload
put_kind room data_kind p payload length =
    let p' = (pkt_set_type p ptype_data).1 in
    if ltb 0 length then copy_payload room p' payload (length % 2 ^ 16) else some p'
put_kind room ack_kind p payload length = some (pkt_set_type p ptype_ack).1
put_kind room nack_kind p payload length = some (pkt_set_type p ptype_nack).1

-- The fields that `put_on_pkt` sets first. The conversions to the parameter types of the setters are
-- written out, and a value that a setter refuses leaves the field as `malloc` handed it out.
unfoldable pub put_fields : Pkt → ℤ → ℤ → ℕ → Pkt
put_fields p window length timestamp =
    let p1 = (pkt_set_tr p 0).1 in
    let p2 = (pkt_set_window p1 (to_word 8 window)).1 in
    let p3 = (pkt_set_length p2 (to_word 16 length)).1 in (pkt_set_timestamp p3 timestamp).1

-- `put_on_pkt`: the new packet, the buffer and `*len`. `length > 0` is the test on the `int`; every
-- caller passes a length from 0 on.
unfoldable pub put_on_pkt :
    Zlib
    → Endian
    → Bool
    → Option Pkt
    → List ℕ
    → Option (List ℕ)
    → ℤ
    → ℤ
    → ℕ
    → Kind
    → ℕ
    → Option (Pkt × List ℕ × ℕ)
put_on_pkt z e room fresh buf payload seqnum window length kind timestamp = do
  p ← fresh
  p' ← put_kind room kind (put_fields p window (pos length) timestamp) payload length
  let p'' = (pkt_set_seqnum p' (to_word 8 seqnum)).1
  r ← pkt_encode z e p'' buf
  some (p'', r.1, r.2)
