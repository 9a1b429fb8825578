-- ===== src/Sender/Next.antt =====
-- src/read_write_loop_sender.c: one packet of the window is sent.
use trtp_network.Prelude.{
  ℕ, suc, ◌+◌, ◌%◌, ◌^◌, ◌≤◌, ◌<◌, ◌≡◌, refl, sym, ap, ◌∙◌, List, [], ◌∷◌, ◌++◌, false, some, arith,
  length, get_elem?, drop, length-append, length-drop, take-append,
}
use trtp_network.Packet.{Pkt, pkt_set_timestamp}
use trtp_network.Codec.Encode.{HasPayload, wire, length-wire, length-sealed_header, pkt_encode-wire}
use trtp_network.Build.{Machine}
use trtp_network.Heap.{Ptr, update, deref, find_buffer}
use trtp_network.Receiver.Window.{Item, pointers}
use trtp_network.Sender.{Sender, clock32}
use trtp_network.Sender.Content.{
  Apart, Carries, Buffered-stamp, find_buffer-at, Place, standing, differ,
}
use trtp_network.Sender.Pace.{InPace, piece, piece_in_buffer}
use trtp_network.Sender.Steps.{buffered, transmit, stamp, send_next}

-- The clock stays below half a second, so that no timeout is due.
pub record IsSwift (m : Machine) : Type 0 where
  pub below : (k : ℕ) → m.clock k < 500000

wire_fits :
    (m : Machine) (p : Pkt) (body : List ℕ)
    → length body ≤ 488
    → length (wire m.zlib m.endian p body) ≤ 512
wire_fits m p [] h = omega (arith, length-sealed_header m.zlib m.endian p)
wire_fits m p (b ∷ bs) h = omega (arith, length-wire m.zlib m.endian p (b ∷ bs) (omega arith))

-- `transmit` of a live packet hands its datagram to `write`.
pub transmit-wire :
    (m : Machine) (s : Sender) (a : ℕ) (p : Pkt) (body : List ℕ)
    → s.heap a ≡ some p
    → HasPayload p body
    → length body ≤ 488
    → length s.buffer ≡ 512
    → (out : List ℕ) × (length out ≡ 512)
      × (transmit m s (some a)
          ≡ some (record s { buffer = out; sent = s.sent ++ (wire m.zlib m.endian p body ∷ []) }))
unfolding transmit deref
transmit-wire m s a p body live has short sized =
    let d : List ℕ = wire m.zlib m.endian p body in
    (
      d ++ drop (length d) s.buffer,
      omega (
        arith,
        sized,
        length-append d (drop (length d) s.buffer),
        length-drop (length d) s.buffer,
        wire_fits m p body short,
      ),
      (rw (
        live,
        pkt_encode-wire m.zlib m.endian p body s.buffer has
            (omega (arith, sized, wire_fits m p body short)),
        take-append d (drop (length d) s.buffer),
      )),
    )

-- One packet that was sent: its number is `n`, and it carries that piece of the file.
pub record Flying (n : ℕ) (whole : List ℕ) (p : Pkt) (body : List ℕ) : Type 0 where
  pub carries : Carries p n body
  pub is_piece : body ≡ piece n whole

-- What `send_next` does.
pub record SentOne (m : Machine) (s s' : Sender) (n f w : ℕ) (whole : List ℕ) (items : List Item)
    (beyond : List Ptr) : Type 0 where
  pub pkt : Pkt
  pub body : List ℕ
  pub flying : Flying (n + f) whole pkt body
  pub sent : s'.sent ≡ s.sent ++ (wire m.zlib m.endian pkt body ∷ [])
  pub kept : (a : ℕ) → Apart a items → s'.heap a ≡ s.heap a
  pub pace : InPace s' n (suc f) w whole items beyond

pub buffered_lem :
    (s : Sender) (seq i : ℕ) (a : Ptr)
    → find_buffer s.heap s.slots seq 50 ≡ some (some i)
    → get_elem? s.slots i ≡ some a
    → buffered s seq ≡ some a
unfolding buffered
buffered_lem s seq i a found at = rw (found, at)

buffered-at :
    (s : Sender) (n f w : ℕ) (whole : List ℕ) (items : List Item) (beyond : List Ptr)
    → InPace s n f w whole items beyond
    → f < 50
    → (at : Place s.heap n f items beyond)
    → buffered s (s.nextseqnum % 256) ≡ some (some at.address)
buffered-at s n f w whole items beyond pace few at =
    buffered_lem s (s.nextseqnum % 256) f (some at.address)
      (ap (λ l. find_buffer s.heap l (s.nextseqnum % 256) 50) pace.slots_are
        ∙ ap (λ j. find_buffer s.heap (pointers items ++ beyond) (j % 256) 50) pace.next_is
        ∙ find_buffer-at s.heap n f 50 items beyond pace.buffered (omega (arith, pace.fifty))
            (omega (arith, pace.fifty)) few)
      (ap (λ l. get_elem? l f) pace.slots_are ∙ at.at)

module _ (m : Machine) (swift : IsSwift m) where
  clock32-lt : (s : Sender) → clock32 m s < 500000
  clock32-lt s = omega (arith, swift.below s.ticks)

  pub send_next-SentOne :
      (s : Sender) (n f w : ℕ) (whole : List ℕ) (items : List Item) (beyond : List Ptr)
      → InPace s n f w whole items beyond
      → f < 50
      → (s' : Sender) × (send_next m s ≡ some s') × SentOne m s s' n f w whole items beyond
  unfolding send_next stamp pkt_set_timestamp
  send_next-SentOne s n f w whole items beyond pace few =
      let at : Place s.heap n f items beyond =
        standing s.heap n f items beyond pace.buffered (omega (arith, pace.fifty)) in
      let t =
        transmit-wire m s at.address at.packet at.body at.live at.carries.holds at.carries.short
          pace.sized in
      (
        record s {
          buffer = t.0;
          sent = s.sent ++ (wire m.zlib m.endian at.packet at.body ∷ []);
          heap = update s.heap at.address (some (record at.packet { timestamp = clock32 m s }));
          ticks = s.ticks + 1 + 1;
          data_sent = s.data_sent + 1;
          last_pkt_sent = m.clock (s.ticks + 1) % 2 ^ 32;
          buffer_update = false;
          nextseqnum = s.nextseqnum + 1;
        },
        (rw (buffered-at s n f w whole items beyond pace few at, t.2, at.live)),
        record {
          pkt = at.packet;
          body = at.body;
          flying = record {
            carries = at.carries;
            is_piece = piece_in_buffer pace f at.body few at.is_piece;
          };
          sent = refl;
          kept = λ a apart. (rw (differ at.address a (λ e. at.elsewhere a apart (sym e))));
          pace = record {
            slots_are = pace.slots_are;
            fifty = pace.fifty;
            buffered =
                Buffered-stamp s.heap n at.address (clock32 m s) at.packet items at.live
                  (clock32-lt s) pace.buffered;
            distinct = pace.distinct;
            below = pace.below;
            acked = record {
              address = pace.acked.address;
              packet = pace.acked.packet;
              kept = pace.acked.kept;
              live =
                  rw
                    (differ at.address pace.acked.address
                      (λ e. at.elsewhere pace.acked.address pace.acked.apart (sym e)))
                    pace.acked.live;
              numbered = pace.acked.numbered;
              freeable = pace.acked.freeable;
              old = pace.acked.old;
              apart = pace.acked.apart;
            };
            base_is = pace.base_is;
            next_is = omega (arith, pace.next_is);
            window_is = pace.window_is;
            quiet_nack = pace.quiet_nack;
            count_is = pace.count_is;
            sized = t.1;
            in_buffer = pace.in_buffer;
            in_file = pace.in_file;
          };
        },
      )
