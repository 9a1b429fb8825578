-- ===== src/Receiver/InOrder.antt =====
-- The receiver on a transfer without loss or reordering.
mod Place
pub mod Incoming
mod Read
mod Answer
pub use Place.{
  length-overwrite, place_free, put_at, HasMemory, InStep, later, positive, not_nack, receive_good,
  not_minus_one,
}
use Place.{later-lt, length-overwrite, accept_other, placed, place-first}
pub use Read.{ack_pkt, Progress}
use Read.{datagram, got, got_fields, got-HasPayload, noted_r, read_step, after, receive-due}
pub use Incoming.{receive-places, sized_noted, stamped_noted}
pub use Answer.{round-runs, control_sent, send_control-sends, answer_ack-runs}
use Answer.{sent, final, answer_ack-due, final-InStep}
use mathlib.Core.List.{append-nil}
use trtp_network.Prelude.{
  ==_self, ℕ, suc, ◌+◌, ◌%◌, ◌^◌, ◌≤◌, ◌<◌, ◌≡◌, ◌≢◌, refl, ap, ◌∙◌, List, [], ◌∷◌, ◌++◌, true,
  false, none, some, arith, length, get_elem?, put, ltb, if◌then◌else◌, ◌>>=◌, drop, ◌==◌,
}
use trtp_network.Prelude.Int.{pos, negsuc, ◌+ℤ◌, sub_ℕ, rem, eq_ℤ}
use trtp_network.Packet.{Pkt, null, pkt_ok}
use trtp_network.Codec.{pkt_decode}
use trtp_network.Codec.Encode.{HasPayload, wire, length-wire}
use trtp_network.Codec.RoundTrip.{IsSendable, received, received-HasPayload, pkt_decode-wire}
use trtp_network.Build.{Machine, read_into, overwrite, ack_kind, data_kind, Kind, put_on_pkt}
use trtp_network.Build.Wire.{Delivered, made, put_on_pkt-control-Delivered, overwrite_lem}
use trtp_network.Heap.{Ptr, update}
use trtp_network.Receiver.{Receiver, real_window, clear_and_fill_buffer_r}
use trtp_network.Receiver.Steps.{
  Round, ready, receive, accept_packet, place, answer_ack, send_control, round, again,
}
use trtp_network.Receiver.Window.{Item, clear_and_fill_buffer_r-slides, delivered}

module _ (m : Machine) (memory : HasMemory m) where
  -- A round in which `poll` reports both events and the datagram of `p` arrives.
  abbrev pub arrival : Pkt → List ℕ → ℕ → Round
  arrival p body now = record {
    input = ready;
    output = ready;
    datagram = some (wire m.zlib m.endian p body);
    now = now;
  }

  module _ (r : Receiver) (n : ℕ) (beyond : List Ptr) (p : Pkt) (body : List ℕ) (now : ℕ)
      (step : InStep r n beyond) (ok : IsSendable p) (typed : p.type ≡ 1) (seq : p.seqnum ≡ n)
      (has : HasPayload p body) (full : 0 < length body) (fits : length body ≤ 496) where
    abbrev g : Pkt
    g = got m memory r n beyond step p body ok typed seq has full fits

    abbrev s : Receiver
    s = after m memory r n beyond step p body ok typed seq has full fits

    live : s.heap r.next ≡ some g
    unfolding after placed
    live = rw (==_self r.next)

    held : HasPayload g body
    held = got-HasPayload m memory r n beyond step p body ok typed seq has full fits

    window_of : s.slots ≡ some r.next ∷ none ∷ none ∷ none ∷ none ∷ beyond
    unfolding after placed
    window_of = refl

    places_of : s.free_place ≡ pos 3
    unfolding after placed
    places_of = refl

    nack_of : s.nack ≡ negsuc 0
    unfolding after placed noted_r
    nack_of = step.no_nack

    due_of : s.partial_ack ≡ pos ((n + 1) % 256)
    unfolding after placed
    due_of = refl

    base_of : (s.base_r + 1) % 4 ≡ (n + 1) % 256 % 4
    unfolding after placed
    base_of = omega arith

    sized_of : length s.buffer ≡ 512
    unfolding after placed
    sized_of = (read_step m memory r n beyond step p body ok typed seq has full fits).sized

    stamped_of : s.last_time_pkt < 2 ^ 32
    unfolding after placed
    stamped_of = (read_step m memory r n beyond step p body ok typed seq has full fits).stamped

    abbrev next_state : Receiver
    next_state =
        final m memory s r.next ((n + 1) % 256) now beyond g body window_of live held places_of
          nack_of due_of (omega arith) base_of sized_of stamped_of

    progress : Progress m r next_state n beyond p.timestamp body
    unfolding after placed noted_r
    progress = record {
      in_step =
          final-InStep m memory s r.next ((n + 1) % 256) now beyond g body window_of live held
            places_of nack_of due_of (omega arith) base_of sized_of stamped_of;
      output = ap (λ b. r.stdout ++ b) (append-nil body);
      clock_kept = ap (later r.last_time_pkt) stamp_same;
      answer =
          ap
            (λ t.
              r.sent
              ++ (wire m.zlib m.endian (ack_pkt ((n + 1) % 256) (later r.last_time_pkt t)) [] ∷ []))
            stamp_same;
    }
      where
        stamp_same : g.timestamp ≡ p.timestamp
        stamp_same = (got_fields m memory r n beyond step p body ok typed seq has full fits).3

    -- The packet that is due, with a payload of at most 496 bytes: the round writes its payload to
    -- the output, answers with the acknowledgement of the next number and a free window, and leaves the
    -- receiver ready for the next packet.
    pub round-due :
        (r' : Receiver) × (round m r (arrival p body now) ≡ some (again, r'))
        × Progress m r r' n beyond p.timestamp body
    round-due = (
      next_state,
      round-runs m r s next_state (arrival p body now) refl refl
          (receive-due m memory r n beyond step p body ok typed seq has full fits) (rw nack_of)
          (answer_ack-due m memory s r.next ((n + 1) % 256) now beyond g body window_of live held
            places_of nack_of due_of (omega arith) base_of sized_of stamped_of),
      progress,
    )
