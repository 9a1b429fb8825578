-- ===== src/Receiver/Counters/Input.antt =====
-- What the branch on POLLIN does to the counters.
use trtp_network.Prelude.{
  ℕ, zero, suc, ◌+◌, ◌-◌, ◌%◌, ◌≤◌, ◌<◌, ◌≡◌, refl, ◌∙◌, ◌++◌, Bool, true, false, none, some, arith,
  length, if◌then◌else◌, ◌==◌, Ends, Ends-any, Ends-done, ltb, ◌&&◌, Ends-bind, Ends-if,
  Ends-option, get_elem?, put,
}
use trtp_network.Prelude.Int.{pos, negsuc, ◌+ℤ◌, rem, sub_ℕ}
use trtp_network.Packet.{Pkt, pkt_del, pkt_set_length}
use trtp_network.Heap.{deref, free_pkt, update, first_empty_place, shift_slots}
use trtp_network.Receiver.{
  Receiver, print_slots, fwrite_bytes, deliver, deliver_one, clear_and_fill_buffer_r,
}
use trtp_network.Receiver.Steps.{drop_packet, is_null_at, index, flush, place, accept_packet}

-- The datagrams sent, and the counters that the code keeps.
pub record Tally : Type 0 where
  pub sent : ℕ
  pub data_sent : ℕ
  pub ack_sent : ℕ
  pub nack_sent : ℕ
  pub duplicated : ℕ
  pub ignored : ℕ
  pub received : ℕ

abbrev pub tally : Receiver → Tally
tally r = record {
  sent = length r.sent;
  data_sent = r.data_sent;
  ack_sent = r.ack_sent;
  nack_sent = r.nack_sent;
  duplicated = r.packet_duplicated;
  ignored = r.packet_ignored;
  received = r.data_received;
}

-- Every datagram sent is counted, as an acknowledgement or a negative one; a packet that is
-- counted as a duplicate is counted as ignored, and one that is ignored as received.
pub record IsBalanced (t : Tally) : Type 0 where
  pub all_sent : t.sent ≡ t.data_sent
  pub kinds : t.data_sent ≡ t.ack_sent + t.nack_sent
  pub duplicates : t.duplicated ≤ t.ignored
  pub ignored_received : t.ignored ≤ t.received

abbrev pub Alike : Receiver → Receiver → Type 0
Alike r r' = tally r' ≡ tally r

deliver_one-Alike : (r : Receiver) (i : ℕ) → Ends (Alike r) (deliver_one r i)
unfolding deliver_one
deliver_one-Alike r i = Ends-any (Alike r) (get_elem? r.slots i) _ λ a.
    Ends-any (Alike r) (deref r.heap a) _ λ p. Ends-any (Alike r) (fwrite_bytes p) _ λ bytes.
      Ends-any (Alike r) (free_pkt r.heap a) _ λ heap.
        Ends-any (Alike r) (put r.slots i none) _ λ slots.
          Ends-done (Alike r)
            (record r {
              slots = slots;
              heap = heap;
              free_place = r.free_place +ℤ pos 1;
              stdout = r.stdout ++ bytes;
            })
            refl

deliver-Alike : (n i : ℕ) (r r0 : Receiver) → Alike r0 r → Ends (Alike r0) (deliver n i r)
unfolding deliver
deliver-Alike zero i r r0 h = Ends-done (Alike r0) r h
deliver-Alike (suc n) i r r0 h =
    Ends-bind (Alike r) (Alike r0) (deliver_one r i) (λ r'. deliver n (i + 1) r')
      (deliver_one-Alike r i) λ r' k. deliver-Alike n (i + 1) r' r0 (k ∙ h)

pub clear-Alike : (r : Receiver) → Ends (Alike r) (clear_and_fill_buffer_r r)
unfolding clear_and_fill_buffer_r
clear-Alike r = Ends-any (Alike r) (first_empty_place r.slots) _ λ s.
    Ends-bind (Alike r) (Alike r) (deliver s 0 (record r { base_r = (r.base_r + s) % 4 })) _
      (deliver-Alike s 0 (record r { base_r = (r.base_r + s) % 4 }) r refl)
      λ r' h. Ends-any (Alike r) (shift_slots (4 - s) s 0 r'.slots) _ λ slots.
        Ends-any (Alike r) (print_slots 4 r'.heap slots) _
          λ u. Ends-done (Alike r) (record r' { slots = slots }) h

abbrev pub Good : Receiver → Type 0
Good r = IsBalanced (tally r)

-- Balanced, with a packet that was received and not yet judged.
abbrev pub Open : Receiver → Type 0
Open r = Good r × (r.packet_ignored < r.data_received)

pub drop_packet-Good : (r : Receiver) (p : Pkt) → Open r → Ends Good (drop_packet r p)
unfolding drop_packet
drop_packet-Good r p (b, l) =
    Ends-any Good
      (if ltb p.seqnum (0 + 4) && ltb 0 p.seqnum then is_null_at r.slots p.seqnum else some false) _
      λ lost. Ends-any Good (pkt_del (pkt_set_length p 0).1) _ λ u.
        Ends-done Good
          (record r {
            data_truncated = if p.tr == 1 then r.data_truncated + 1 else r.data_truncated;
            nack = if lost then pos p.seqnum else r.nack;
            packet_ignored = r.packet_ignored + 1;
          })
          (record {
            all_sent = b.all_sent;
            kinds = b.kinds;
            duplicates = omega (arith, b.duplicates);
            ignored_received = omega arith;
          })

place-Good : (r : Receiver) (a : ℕ) (p : Pkt) → Open r → Ends Good (place r a p)
unfolding place
place-Good r a p (b, l) =
    Ends-any Good (index (rem (sub_ℕ p.seqnum (if p.seqnum == 0 then 0 else r.base_r)) 4)) _ λ i.
      Ends-any Good (get_elem? r.slots i) _ λ old.
        Ends-option Good old _ _
          (Ends-any Good (put r.slots i (some a)) _ λ slots.
            Ends-done Good
              (record r {
                base_r = if p.seqnum == 0 then 0 else r.base_r;
                slots = slots;
                heap = update r.heap a (some p);
                free_place = r.free_place +ℤ negsuc 0;
                partial_ack = pos ((p.seqnum + 1) % 256);
              })
              b)
          (λ d. Ends-any Good (if p.length_field == 0 then pkt_del p else some tt) _ λ u.
            Ends-done Good
              (record r {
                base_r = if p.seqnum == 0 then 0 else r.base_r;
                packet_ignored = r.packet_ignored + 1;
                packet_duplicated = r.packet_duplicated + 1;
              })
              (record {
                all_sent = b.all_sent;
                kinds = b.kinds;
                duplicates = omega (arith, b.duplicates);
                ignored_received = omega arith;
              }))

abbrev pub Fine : Bool × Receiver → Type 0
Fine d = Good d.1

pub accept_packet-Good : (r : Receiver) (a : ℕ) (p : Pkt) → Open r → Ends Fine (accept_packet r a p)
unfolding accept_packet
accept_packet-Good r a p h =
    Ends-if Fine (p.length_field == 0 && p.type == 1) _ _
      (Ends-any Fine (flush r.heap r.slots r.stdout) _ λ f. Ends-any Fine (pkt_del p) _ λ u.
        Ends-done Fine
          (
            true,
            record r {
              last_time_pkt =
                  if ltb r.last_time_pkt p.timestamp then p.timestamp else r.last_time_pkt;
              heap = f.0;
              stdout = f.1;
            },
          )
          h.0)
      (Ends-bind Good Fine (place (stamped r p) a p) _ (place-Good (stamped r p) a p h)
        λ r' b. Ends-done Fine (false, r') b)
  where
    stamped : Receiver → Pkt → Receiver
    stamped r p = record r {
      last_time_pkt = if ltb r.last_time_pkt p.timestamp then p.timestamp else r.last_time_pkt;
    }
