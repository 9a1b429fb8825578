-- ===== src/Receiver/Wrap.antt =====
-- src/read_write_loop.c: packet 255 that overtakes packet 254.
use trtp_network.Prelude.{
  false, ℕ, ◌+◌, ◌%◌, ◌^◌, ◌≤◌, ◌<◌, ◌≡◌, ◌≢◌, refl, ap, ◌∙◌, List, [], ◌∷◌, ◌++◌, none, some,
  arith, length, get_elem?, put, if◌then◌else◌, ◌==◌, ==_self,
}
use trtp_network.Prelude.Int.{pos, negsuc, ◌+ℤ◌, rem, eq_ℤ}
use trtp_network.Packet.{Pkt}
use trtp_network.Codec.Encode.{HasPayload, wire}
use trtp_network.Codec.RoundTrip.{IsSendable}
use trtp_network.Build.{Machine, ack_kind, data_kind, put_on_pkt}
use trtp_network.Build.Wire.{made, Delivered}
use trtp_network.Heap.{Ptr}
use trtp_network.Receiver.{Receiver, real_window, clear_and_fill_buffer_r}
use trtp_network.Receiver.Steps.{round, receive, place, send_control, again}
use trtp_network.Receiver.InOrder.{
  later, HasMemory, InStep, arrival, place_free, put_at, control_sent, send_control-sends,
  answer_ack-runs, round-runs,
}
use trtp_network.Receiver.InOrder.Incoming
use trtp_network.Receiver.Reassembly.Idle.{clear_and_fill_buffer_r-idle}

module _ (m : Machine) (memory : HasMemory m) (r : Receiver) (beyond : List Ptr)
    (step : InStep r 254 beyond) (p : Pkt) (body : List ℕ) (now : ℕ) (ok : IsSendable p)
    (typed : p.type ≡ 1) (seq : p.seqnum ≡ 255) (has : HasPayload p body) (full : 0 < length body)
    (fits : length body ≤ 496) where
  abbrev g : Pkt
  g = Incoming.got m memory r step.sized p body ok typed has full fits

  g_seq : g.seqnum ≡ 255
  g_seq = (Incoming.got_fields m memory r step.sized p body ok typed has full fits).0 ∙ seq

  g_has : HasPayload g body
  g_has = Incoming.got-HasPayload m memory r step.sized p body ok typed has full fits

  abbrev slots : List Ptr
  slots = none ∷ some r.next ∷ none ∷ none ∷ none ∷ beyond

  abbrev s : Receiver
  s = put_at (Incoming.noted m memory r (wire m.zlib m.endian p body) g.timestamp) r.next g slots

  base_is : s.base_r ≡ 2
  base_is = kept g.seqnum r.base_r g_seq ∙ step.base
    where
      kept : (k b : ℕ) → k ≡ 255 → (if k == 0 then 0 else b) ≡ b
      kept k b h = ground arith

  received : receive m r (some (wire m.zlib m.endian p body)) ≡ some (false, s)
  unfolding rem put
  received = Incoming.receive-places m memory r step.sized p body ok typed has full fits s (
      place_free (Incoming.noted m memory r (wire m.zlib m.endian p body) g.timestamp) r.next g 1
        slots (rw (base_is, g_seq) refl) (ap (λ l. get_elem? l 1) step.empty)
        (ap (λ l. put l 1 (some r.next)) step.empty))

  abbrev cleared : Receiver
  cleared = record s { base_r = (s.base_r + 0) % real_window; slots = slots }

  clears : clear_and_fill_buffer_r s ≡ some cleared
  clears =
      clear_and_fill_buffer_r-idle s (some r.next) none none (none ∷ beyond) refl
        ((g, rw (==_self r.next)), tt)

  places : cleared.free_place ≡ pos 3
  places = rw step.places (unfold ◌+ℤ◌ in refl)

  due : cleared.partial_ack ≡ pos 0
  due = rw g_seq

  sized : length cleared.buffer ≡ 512
  sized = Incoming.sized_noted m memory r step.sized p body ok typed has full fits

  stamped : cleared.last_time_pkt < 2 ^ 32
  stamped = Incoming.stamped_noted m memory r step.sized p body ok typed has full fits step.stamped

  wide : 12 ≤ length cleared.buffer
  wide = omega (arith, sized)

  control : ack_kind ≢ data_kind
  control h = cc

  abbrev fresh : Pkt
  fresh = (memory.fresh cleared.next).0

  sent :
      Delivered m.zlib m.endian
        (made fresh ack_kind 0 3 [] cleared.last_time_pkt)
        []
        cleared.buffer
        (put_on_pkt m.zlib m.endian
          (m.room cleared.next)
          (some fresh)
          cleared.buffer
          none
          (pos 0)
          (pos 3)
          0
          ack_kind
          cleared.last_time_pkt)
  sent =
      control_sent m cleared 0 3 fresh ack_kind (memory.fresh cleared.next).1 places (omega arith)
        stamped control wide

  abbrev handed : Receiver
  handed = record cleared {
    buffer = sent.out;
    next = cleared.next + 1;
    sent =
        cleared.sent
        ++ (wire m.zlib m.endian (made fresh ack_kind 0 3 [] cleared.last_time_pkt) [] ∷ []);
  }

  sends : send_control m cleared cleared.partial_ack ack_kind ≡ some handed
  unfolding sent
  sends =
      ap (λ n. send_control m cleared n ack_kind) due
      ∙ send_control-sends m cleared 0 3 fresh ack_kind (memory.fresh cleared.next).1 places
          (omega arith) stamped control wide

  abbrev after : Receiver
  after = record handed {
    ack_sent = handed.ack_sent + 1;
    data_sent = handed.data_sent + 1;
    base_r = if eq_ℤ handed.partial_ack (pos 0) then 0 else handed.base_r;
    partial_ack = negsuc 0;
    last_timestamp = now % 2 ^ 32;
  }

  runs : round m r (arrival m memory p body now) ≡ some (again, after)
  runs = round-runs m r s after (arrival m memory p body now) refl refl received (rw step.no_nack) (
      answer_ack-runs m s cleared handed now (ap (λ x. eq_ℤ x (negsuc 0)) due) (rw step.no_nack)
        clears sends)

  base_lost : after.base_r ≡ 0
  base_lost = ap (λ x. if eq_ℤ x (pos 0) then 0 else handed.base_r) due

  answered :
      after.sent
      ≡ r.sent
        ++ (wire m.zlib m.endian
              (made
                (memory.fresh (r.next + 1)).0
                ack_kind
                0
                3
                []
                (later r.last_time_pkt p.timestamp))
              []
            ∷ [])
  answered =
      ap
        (λ t.
          r.sent
          ++ (wire m.zlib m.endian
                (made (memory.fresh (r.next + 1)).0 ack_kind 0 3 [] (later r.last_time_pkt t)) []
              ∷ []))
        (Incoming.got_fields m memory r step.sized p body ok typed has full fits).3

  -- With packet 254 due and an empty window, packet 255 comes first: the round then sends one
  -- datagram, the acknowledgement of number 0, and has the base of the window at 0, so that packet 254
  -- goes to the entry behind that of packet 255, and the first entry stays free.
  pub round-wrap :
      (a : ℕ) (due_pkt : Pkt)
      → due_pkt.seqnum ≡ 254
      → (r1 : Receiver) × (r2 : Receiver) × (round m r (arrival m memory p body now)
          ≡ some (again, r1))
        × (r1.sent
            ≡ r.sent
              ++ (wire m.zlib m.endian
                    (made
                      (memory.fresh (r.next + 1)).0
                      ack_kind
                      0
                      3
                      []
                      (later r.last_time_pkt p.timestamp))
                    []
                  ∷ []))
        × (r1.base_r ≡ 0)
        × (place r1 a due_pkt ≡ some r2)
        × (r2.slots ≡ none ∷ some r.next ∷ some a ∷ none ∷ none ∷ beyond)
  unfolding rem put
  round-wrap a due_pkt e = (
    after,
    put_at after a due_pkt (none ∷ some r.next ∷ some a ∷ none ∷ none ∷ beyond),
    runs,
    answered,
    base_lost,
    place_free after a due_pkt 2 (none ∷ some r.next ∷ some a ∷ none ∷ none ∷ beyond)
        (rw (e, base_lost) refl) refl refl,
    refl,
  )
