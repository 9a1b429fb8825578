-- ===== src/Receiver/Counters.antt =====
-- src/read_write_loop.c: what the counters of the receiver say of its run.
mod Input
pub use Input.{Tally, tally, IsBalanced}
use Input.{Alike, clear-Alike, Good, Open, drop_packet-Good, Fine, accept_packet-Good}
use trtp_network.Prelude.{
  ℕ, zero, suc, ◌+◌, ◌-◌, ◌%◌, ◌≤◌, ◌<◌, ◌≡◌, refl, sym, ap, ◌∙◌, List, [], ◌∷◌, ◌++◌, Bool, true,
  false, Option, none, some, arith, length, if◌then◌else◌, ◌>>=◌, ◌==◌, length-append, Ends,
  Ends-any, Ends-done, ltb, take, ◌||◌, ◌^◌, ◌&&◌, not, Ends-bind, Ends-if, Ends-option, get_elem?,
  put,
}
use trtp_network.Prelude.Int.{ℤ, pos, negsuc, ◌+ℤ◌, rem, sub_ℕ, eq_ℤ}
use trtp_network.Packet.{Pkt, pkt_del, pkt_set_length}
use trtp_network.Heap.{deref, free_pkt, update, first_empty_place, shift_slots}
use trtp_network.Build.{Machine, Kind, put_on_pkt, read_into, ack_kind, nack_kind}
use trtp_network.Codec.{pkt_decode}
use mathlib.Core.Path.{subst}
use trtp_network.Receiver.{
  Receiver, print_slots, fwrite_bytes, deliver, deliver_one, clear_and_fill_buffer_r,
}
use trtp_network.Receiver.Steps.{
  Round, Next, again, stop, left, Revents, quiet, ready, other, drop_packet, is_null_at, index,
  flush, is_ok, place, accept_packet, receive, send_control, answer_nack, answer_ack, input_half,
  output_half, round, read_write_loop,
}

receive-Good :
    (m : Machine) (r : Receiver) (bytes : Option (List ℕ)) → Good r → Ends Fine (receive m r bytes)
unfolding receive
receive-Good m r bytes b = Ends-any Fine (m.pkt_new r.next) _ λ fresh.
    Ends-any Fine (pkt_decode m.zlib m.endian (m.room r.next) (read_into r.buffer bytes) 512 fresh)
      _
      λ d.
        Ends-if Fine (not (is_ok d.0) || d.1.type == 3) _ _
          (Ends-bind Good Fine (drop_packet read_in d.1) _ (drop_packet-Good read_in d.1 ready_in)
            λ r' k. Ends-done Fine (false, r') k)
          (accept_packet-Good read_in r.next d.1 ready_in)
  where
    read_in : Receiver
    read_in = record r {
      buffer = read_into r.buffer bytes;
      next = r.next + 1;
      data_received = r.data_received + 1;
    }

    ready_in : Open read_in
    ready_in = (
      record {
        all_sent = b.all_sent;
        kinds = b.kinds;
        duplicates = b.duplicates;
        ignored_received = omega (arith, b.ignored_received);
      },
      omega (arith, b.ignored_received),
    )

-- One datagram more, not yet counted.
abbrev SentOne : Receiver → Receiver → Type 0
SentOne r r' = tally r' ≡ record (tally r) { sent = length r.sent + 1 }

send_control-SentOne :
    (m : Machine) (r : Receiver) (n : ℤ) (kind : Kind) → Ends (SentOne r) (send_control m r n kind)
unfolding send_control
send_control-SentOne m r n kind =
    Ends-any (SentOne r)
      (put_on_pkt m.zlib m.endian (m.room r.next) (m.pkt_new r.next) r.buffer none n r.free_place 0
        kind r.last_time_pkt)
      _
      λ s. Ends-any (SentOne r) (pkt_del s.0) _ λ u.
        Ends-done (SentOne r)
          (record r { buffer = s.1; next = r.next + 1; sent = r.sent ++ (take s.2 s.1 ∷ []) })
          (ap (λ n. record (tally r) { sent = n }) (length-append r.sent (take s.2 s.1 ∷ [])))

counted-nack :
    (t : Tally)
    → IsBalanced t
    → IsBalanced
        (record t { sent = t.sent + 1; data_sent = t.data_sent + 1; nack_sent = t.nack_sent + 1 })
counted-nack t b = record {
  all_sent = omega (arith, b.all_sent);
  kinds = omega (arith, b.kinds);
  duplicates = b.duplicates;
  ignored_received = b.ignored_received;
}

counted-ack :
    (t : Tally)
    → IsBalanced t
    → IsBalanced
        (record t { sent = t.sent + 1; data_sent = t.data_sent + 1; ack_sent = t.ack_sent + 1 })
counted-ack t b = record {
  all_sent = omega (arith, b.all_sent);
  kinds = omega (arith, b.kinds);
  duplicates = b.duplicates;
  ignored_received = b.ignored_received;
}

answer_nack-Good : (m : Machine) (r : Receiver) → Good r → Ends Good (answer_nack m r)
unfolding answer_nack
answer_nack-Good m r b = Ends-if Good (eq_ℤ r.nack (negsuc 0)) _ _ (Ends-done Good r b) (
    Ends-bind (SentOne r) Good (send_control m r r.nack nack_kind) _
      (send_control-SentOne m r r.nack nack_kind)
      λ r' e.
        Ends-done Good
          (record r' {
            nack_sent = r'.nack_sent + 1;
            data_sent = r'.data_sent + 1;
            nack = negsuc 0;
          })
          (subst
            (λ t.
              IsBalanced (record t { nack_sent = t.nack_sent + 1; data_sent = t.data_sent + 1 }))
            (sym e) (counted-nack (tally r) b)))

answer_ack-Good : (m : Machine) (r : Receiver) (now : ℕ) → Good r → Ends Good (answer_ack m r now)
unfolding answer_ack
answer_ack-Good m r now b =
    Ends-if Good (eq_ℤ r.partial_ack (negsuc 0) || not (eq_ℤ r.nack (negsuc 0))) _ _
      (Ends-done Good r b)
      (Ends-bind (Alike r) Good (clear_and_fill_buffer_r r) _ (clear-Alike r) λ r1 e1.
        Ends-bind (SentOne r1) Good (send_control m r1 r1.partial_ack ack_kind) _
          (send_control-SentOne m r1 r1.partial_ack ack_kind)
          λ r2 e2.
            Ends-done Good
              (record r2 {
                ack_sent = r2.ack_sent + 1;
                data_sent = r2.data_sent + 1;
                base_r = if eq_ℤ r2.partial_ack (pos 0) then 0 else r2.base_r;
                partial_ack = negsuc 0;
                last_timestamp = now % 2 ^ 32;
              })
              (subst
                (λ t.
                  IsBalanced (record t { ack_sent = t.ack_sent + 1; data_sent = t.data_sent + 1 }))
                (sym e2) (counted-ack (tally r1) (subst IsBalanced (sym e1) b))))

abbrev Right : Next × Receiver → Type 0
Right i = Good i.1

input_half-Good : (m : Machine) (r : Receiver) (t : Round) → Good r → Ends Right (input_half m r t)
unfolding input_half
input_half-Good m r t b = by_events t.input
  where
    by_events :
        (e : Revents)
        → Ends Right (elim e [
          | quiet ↦ some (again, r)
          | other ↦ some (stop, r)
          | ready ↦ receive m r t.datagram >>= λ d. some (if d.0 then left else again, d.1)
        ])
    by_events quiet = Ends-done Right (again, r) b
    by_events other = Ends-done Right (stop, r) b
    by_events ready =
        Ends-bind Fine Right (receive m r t.datagram) _ (receive-Good m r t.datagram b)
          λ d k. Ends-done Right (if d.0 then left else again, d.1) k

output_half-Good :
    (m : Machine) (r : Receiver) (t : Round) (next : Next)
    → Good r
    → Ends Right (output_half m r t next)
unfolding output_half
output_half-Good m r t next b = by_events t.output
  where
    by_events :
        (e : Revents)
        → Ends Right (elim e [
          | quiet ↦ some (next, r)
          | other ↦ some (stop, r)
          | ready ↦ answer_nack m r >>= λ r1. answer_ack m r1 t.now >>= λ r2. some (next, r2)
        ])
    by_events quiet = Ends-done Right (next, r) b
    by_events other = Ends-done Right (stop, r) b
    by_events ready = Ends-bind Good Right (answer_nack m r) _ (answer_nack-Good m r b) λ r1 k.
        Ends-bind Good Right (answer_ack m r1 t.now) _ (answer_ack-Good m r1 t.now k)
          λ r2 l. Ends-done Right (next, r2) l

pub round-Good : (m : Machine) (r : Receiver) (t : Round) → Good r → Ends Right (round m r t)
unfolding round
round-Good m r t b =
    Ends-bind Right Right (input_half m r t) _ (input_half-Good m r t b) λ i k. after i k
  where
    after :
        (i : Next × Receiver)
        → Right i
        → Ends Right (elim i.0 [ left ↦ some i | _ ↦ output_half m i.1 t i.0 ])
    after (left, r') k = Ends-done Right (left, r') k
    after (again, r') k = output_half-Good m r' t again k
    after (stop, r') k = output_half-Good m r' t stop k

loop-Good :
    (m : Machine) (ts : List Round) (r : Receiver) → Good r → Ends Right (read_write_loop m r ts)
unfolding read_write_loop
loop-Good m [] r b = Ends-done Right (again, r) b
loop-Good m (t ∷ ts) r b =
    Ends-bind Right Right (round m r t) _ (round-Good m r t b) λ i k. after (loop-Good m ts) i k
  where
    after :
        ((r' : Receiver) → Good r' → Ends Right (read_write_loop m r' ts))
        → (i : Next × Receiver) → Right i
        → Ends Right (elim i.0 [ again ↦ read_write_loop m i.1 ts | _ ↦ some i ])
    after more (again, r') k = more r' k
    after more (left, r') k = Ends-done Right (left, r') k
    after more (stop, r') k = Ends-done Right (stop, r') k

-- Whatever arrives, in whatever order, with whatever content: as long as no access faults, the
-- counters stay balanced. Every datagram that was sent is counted, as an acknowledgement or as a
-- negative one, and the duplicates are among the packets ignored, which are among those received.
pub read_write_loop-IsBalanced :
    (m : Machine) (ts : List Round) (r : Receiver)
    → IsBalanced (tally r)
    → Ends (λ i. IsBalanced (tally i.1)) (read_write_loop m r ts)
read_write_loop-IsBalanced m ts r b = loop-Good m ts r b
