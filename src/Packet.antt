-- ===== src/Packet.antt =====
-- src/packet_implem.c, src/packet_interface.h: `struct pkt`, its accessors and its destructor.
-- The other files read the fields of the record where the code calls the getters.
use trtp_network.Prelude.{
  ℕ, ◌^◌, ◌<◌, List, Bool, true, false, Option, none, some, ltb, ◌==◌, ◌&&◌, not, if◌then◌else◌,
  length,
}

-- `pkt_status_code`
pub data Status : Type 0 where
  pkt_ok e_type e_tr e_length e_crc e_window : Status
  e_seqnum e_nomem e_noheader e_unconsistent : Status

-- `ptypes_t`
abbrev pub ptype_data : ℕ
ptype_data = 1

abbrev pub ptype_ack : ℕ
ptype_ack = 2

abbrev pub ptype_nack : ℕ
ptype_nack = 3

abbrev pub max_payload_size : ℕ
max_payload_size = 512

-- The pointer `payload`: `wild` is an indeterminate or dangling address, `block` an allocation that
-- the packet owns, with its bytes.
pub data Payload : Type 0 where
  null wild : Payload
  block : List ℕ → Payload

-- `struct pkt`; the fields `type`, `tr` and `window` are bit fields of 2, 1 and 5 bits.
pub record Pkt : Type 0 where
  pub type : ℕ
  pub tr : ℕ
  pub window : ℕ
  pub length_field : ℕ
  pub seqnum : ℕ
  pub timestamp : ℕ
  pub crc1 : ℕ
  pub payload : Payload
  pub crc2 : ℕ

-- The setters take the value at the width of their parameter, and return their status beside the
-- packet.
unfoldable pub pkt_set_type : Pkt → ℕ → Status × Pkt
pkt_set_type p type = if ltb 3 type then (e_type, p) else (pkt_ok, record p { type = type })

unfoldable pub pkt_set_tr : Pkt → ℕ → Status × Pkt
pkt_set_tr p tr =
    if not (tr == 0) && not (tr == 1) then (e_tr, p) else (pkt_ok, record p { tr = tr })

unfoldable pub pkt_set_window : Pkt → ℕ → Status × Pkt
pkt_set_window p window =
    if ltb 31 window then (e_window, p) else (pkt_ok, record p { window = window })

unfoldable pub pkt_set_seqnum : Pkt → ℕ → Status × Pkt
pkt_set_seqnum p seqnum = (pkt_ok, record p { seqnum = seqnum })

unfoldable pub pkt_set_length : Pkt → ℕ → Status × Pkt
pkt_set_length p n = if ltb 512 n then (e_length, p) else (pkt_ok, record p { length_field = n })

unfoldable pub pkt_set_timestamp : Pkt → ℕ → Status × Pkt
pkt_set_timestamp p t = (pkt_ok, record p { timestamp = t })

unfoldable pub pkt_set_crc1 : Pkt → ℕ → Status × Pkt
pkt_set_crc1 p c = (pkt_ok, record p { crc1 = c })

unfoldable pub pkt_set_crc2 : Pkt → ℕ → Status × Pkt
pkt_set_crc2 p c = (pkt_ok, record p { crc2 = c })

-- `bytes` are the `length` bytes at `data`, and `room` says whether `malloc` finds memory for them.
-- A copy of the old pointer is lost, and an allocation failure leaves NULL behind.
unfoldable pub pkt_set_payload : Bool → Pkt → List ℕ → Status × Pkt
pkt_set_payload room p bytes =
    if ltb 512 (length bytes)
    then (e_length, p)
    else if room
    then (pkt_ok, record p { payload = block bytes })
    else (e_nomem, record p { payload = null })

-- `free` of the payload pointer: NULL is ignored, a wild pointer is a fault.
abbrev pub free_payload : Payload → Option (Unit {0})
free_payload null = some tt
free_payload wild = none
free_payload (block bytes) = some tt

abbrev pub is_null : Payload → Bool
is_null null = true
is_null wild = false
is_null (block bytes) = false

-- `pkt_del`: `none` where it frees a wild pointer. The packet itself is the caller's to forget.
unfoldable pub pkt_del : Pkt → Option (Unit {0})
pkt_del p =
    if ltb 0 p.length_field && not (is_null p.payload) then free_payload p.payload else some tt

-- What the widths of the fields guarantee of every packet in memory.
pub record IsStored (p : Pkt) : Type 0 where
  pub type_fits : p.type < 4
  pub tr_fits : p.tr < 2
  pub window_fits : p.window < 32
  pub length_fits : p.length_field < 2 ^ 16
  pub seqnum_fits : p.seqnum < 256
  pub timestamp_fits : p.timestamp < 2 ^ 32

-- The getters.
abbrev pkt_get_type : Pkt → ℕ
pkt_get_type p = p.type

abbrev pkt_get_tr : Pkt → ℕ
pkt_get_tr p = p.tr

abbrev pkt_get_window : Pkt → ℕ
pkt_get_window p = p.window

abbrev pkt_get_seqnum : Pkt → ℕ
pkt_get_seqnum p = p.seqnum

abbrev pkt_get_length : Pkt → ℕ
pkt_get_length p = p.length_field

abbrev pkt_get_timestamp : Pkt → ℕ
pkt_get_timestamp p = p.timestamp

abbrev pkt_get_crc1 : Pkt → ℕ
pkt_get_crc1 p = p.crc1

abbrev pkt_get_crc2 : Pkt → ℕ
pkt_get_crc2 p = p.crc2

abbrev pkt_get_payload : Pkt → Payload
pkt_get_payload p = p.payload
