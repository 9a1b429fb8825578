-- ===== src/Sender/Asked.antt =====
-- src/read_write_loop_sender.c: the packet of a request stands in the buffer, and is sent again.
use trtp_network.Prelude.{
  ℕ, ◌+◌, ◌%◌, ◌<◌, ◌≡◌, refl, ap, ◌∙◌, List, [], ◌∷◌, ◌++◌, false, some, arith, length, ◌||◌,
  get_elem?,
}
use trtp_network.Prelude.Int.{pos, negsuc, eq_ℤ}
use trtp_network.Packet.{Pkt, null}
use trtp_network.Codec.Encode.{wire}
use trtp_network.Build.{Machine}
use trtp_network.Heap.{Ptr, find_buffer}
use trtp_network.Receiver.Window.{Item}
use trtp_network.Sender.{Sender}
use trtp_network.Sender.Next.{Flying, transmit-wire, buffered_lem}
use trtp_network.Sender.Content.{Place, standing, find_buffer-at}
use trtp_network.Sender.Pace.{InPace, piece_in_buffer}
use trtp_network.Sender.Steps.{resend_nack, transmit, buffered}

-- What the receiver asks for packet `n` with.
abbrev pub nack_pkt : ℕ → ℕ → Pkt
nack_pkt n t = record {
  type = 3;
  tr = 0;
  window = 4;
  length_field = 0;
  seqnum = n % 256;
  timestamp = t;
  crc1 = 0;
  payload = null;
  crc2 = 0;
}

-- The state with a request for packet `j`.
abbrev pub asked : Sender → ℕ → Sender
asked s j = record s { nack = pos j; nack_received = s.nack_received + 1 }

-- One packet of the buffer, number `n`, is sent, and the request is forgotten.
pub record Resent (m : Machine) (s s' : Sender) (n f w j : ℕ) (whole : List ℕ) (items : List Item)
    (beyond : List Ptr) : Type 0 where
  pub pkt : Pkt
  pub body : List ℕ
  pub flying : Flying j whole pkt body
  pub sent : s'.sent ≡ s.sent ++ (wire m.zlib m.endian pkt body ∷ [])
  pub pace : InPace s' n f w whole items beyond
  pub update_kept : s'.buffer_update ≡ s.buffer_update

-- The state after the packet was sent again.
abbrev answered : Sender → List ℕ → List ℕ → Sender
answered s out d = record s {
  buffer = out;
  sent = s.sent ++ (d ∷ []);
  nack_sent = s.nack_sent + 1;
  data_sent = s.data_sent + 1;
  nack = negsuc 0;
  nack_received = s.nack_received + 1;
}

InPace-answered :
    {s : Sender} {n f w : ℕ} {whole : List ℕ} {items : List Item} {beyond : List Ptr}
    (out d : List ℕ)
    → length out ≡ 512
    → InPace s n f w whole items beyond
    → InPace (answered s out d) n f w whole items beyond
InPace-answered out d sized pace = record {
  slots_are = pace.slots_are;
  fifty = pace.fifty;
  buffered = pace.buffered;
  distinct = pace.distinct;
  below = pace.below;
  acked = record {
    address = pace.acked.address;
    packet = pace.acked.packet;
    kept = pace.acked.kept;
    live = pace.acked.live;
    numbered = pace.acked.numbered;
    freeable = pace.acked.freeable;
    old = pace.acked.old;
    apart = pace.acked.apart;
  };
  base_is = pace.base_is;
  next_is = pace.next_is;
  window_is = pace.window_is;
  quiet_nack = refl;
  count_is = pace.count_is;
  sized = sized;
  in_buffer = pace.in_buffer;
  in_file = pace.in_file;
}

resend_nack-runs :
    (m : Machine) (s s' : Sender) (j : ℕ) (a : Ptr)
    → j < 256
    → buffered (asked s j) j ≡ some a
    → transmit m (asked s j) a ≡ some s'
    → resend_nack m (asked s j)
      ≡ some (record s' {
        nack_sent = s'.nack_sent + 1;
        data_sent = s'.data_sent + 1;
        nack = negsuc 0;
      })
unfolding resend_nack
resend_nack-runs m s s' j a byte found ran = rw (no_value j byte, found, ran)
  where
    no_value : (j : ℕ) → j < 256 → (eq_ℤ (pos j) (negsuc 0) || eq_ℤ (pos j) (pos 256)) ≡ false
    no_value j h = ground arith

module _ (m : Machine) where
  -- Any of the fifty packets in the buffer is sent again on request.
  pub resend_nack-Resent :
      (s : Sender) (n f w i : ℕ) (whole : List ℕ) (items : List Item) (beyond : List Ptr)
      → InPace s n f w whole items beyond
      → i < 50
      → (s' : Sender) × (resend_nack m (asked s ((n + i) % 256)) ≡ some s')
        × Resent m s s' n f w (n + i) whole items beyond
  resend_nack-Resent s n f w i whole items beyond pace few =
      let at : Place s.heap n i items beyond =
        standing s.heap n i items beyond pace.buffered (omega (arith, pace.fifty)) in
      let t =
        transmit-wire m (asked s ((n + i) % 256)) at.address at.packet at.body at.live
          at.carries.holds at.carries.short pace.sized in
      let d : List ℕ = wire m.zlib m.endian at.packet at.body in
      (
        answered s t.0 d,
        resend_nack-runs m s _ ((n + i) % 256) (some at.address) (omega arith)
            (buffered_lem (asked s ((n + i) % 256)) ((n + i) % 256) i (some at.address)
              (ap (λ l. find_buffer s.heap l ((n + i) % 256) 50) pace.slots_are
                ∙ find_buffer-at s.heap n i 50 items beyond pace.buffered
                    (omega (arith, pace.fifty)) (omega (arith, pace.fifty)) few)
              (ap (λ l. get_elem? l i) pace.slots_are ∙ at.at))
            t.2,
        record {
          pkt = at.packet;
          body = at.body;
          flying = record {
            carries = at.carries;
            is_piece = piece_in_buffer pace i at.body few at.is_piece;
          };
          sent = refl;
          pace = InPace-answered t.0 d t.1 pace;
          update_kept = refl;
        },
      )
