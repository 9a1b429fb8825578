-- ===== src/Sender/First.antt =====
-- src/read_write_loop_sender.c, `clear_and_fill_buffer`: the first packets of the buffer.
use mathlib.Core.Path.{subst}
use mathlib.Core.Option.{some-injective}
use trtp_network.Prelude.{
  ==_self, ℕ, suc, ◌+◌, ◌<◌, ◌≡◌, refl, sym, ap, ◌∙◌, List, [], ◌∷◌, ◌++◌, Bool, Option, some,
  arith, length, put, take, drop, length-append,
}
use trtp_network.Prelude.Int.{negsuc}
use trtp_network.Packet.{Pkt}
use trtp_network.Build.{Machine}
use trtp_network.Heap.{Ptr, Heap, update}
use trtp_network.Receiver.Window.{Item, pointers, put-behind}
use trtp_network.Receiver.InOrder.{HasMemory}
use trtp_network.Sender.{Sender, insert_packet, insert_packets}
use trtp_network.Sender.Next.{IsSwift}
use trtp_network.Sender.Content.{
  Buffered, Distinct, Below, payloads, Buffered-update, Below-Apart, Below-up, differ,
}
use trtp_network.Sender.Filling.{pieces, left_over, insert_packet-Inserted, new_pkt}
use trtp_network.Sender.Pace.{Acked, pieces-snoc, left_over-next}
use trtp_network.Sender.Snoc.{
  snoc, pointers-snoc, payloads-snoc, length-pointers, Buffered-snoc, Apart-snoc, Below-snoc,
  Distinct-snoc,
}
use trtp_network.Sender.Refill.{new-Carries}

-- The buffer with its first `i` packets, before anything was sent. The entries behind them hold
-- whatever the memory held.
pub record HasFirst (s : Sender) (i : ℕ) (whole : List ℕ) (items : List Item) (behind : List Ptr)
    : Type 0 where
  pub slots_are : s.slots ≡ pointers items ++ behind
  pub count : length items ≡ i
  pub buffered : Buffered s.heap 0 items
  pub distinct : Distinct items
  pub below : Below s.next items
  pub acked : Acked s 0 items
  pub base_is : s.base ≡ 0
  pub next_is : s.nextseqnum ≡ 0
  pub window_is : s.window ≡ 1
  pub quiet_nack : s.nack ≡ negsuc 0
  pub count_is : s.seqnum ≡ i
  pub sized : length s.buffer ≡ 512
  pub unsent : s.sent ≡ []
  pub in_buffer : payloads items ≡ pieces i whole
  pub in_file : s.file ≡ left_over i whole

module _ (m : Machine) (memory : HasMemory m) (swift : IsSwift m) (win : ℕ)
    (narrow : win < 32) where
  insert_packet-HasFirst :
      (refill : Bool) (i : ℕ) (s : Sender) (whole : List ℕ) (items : List Item) (x : Ptr)
      (behind : List Ptr)
      → HasFirst s i whole items (x ∷ behind)
      → (s' : Sender) × (insert_packet m refill win i s ≡ some s')
        × HasFirst s' (i + 1) whole (snoc items s.next (take 488 s.file)) behind
  insert_packet-HasFirst refill i s whole items x behind h =
      let one = insert_packet-Inserted m memory win narrow refill i s (
        omega (
          arith,
          ap length h.slots_are,
          length-append (pointers items) (x ∷ behind),
          length-pointers items,
          h.count,
        )) in
      let new = one.2 in
      let pkt : Pkt = new_pkt m memory win narrow s in
      let apart = Below-Apart s.next items h.below in
      (
        one.0,
        one.1,
        record {
          slots_are =
              some-injective _ _ (
                sym new.written
                ∙ ap (λ l. put l i (some s.next)) h.slots_are
                ∙ ap (λ k. put (pointers items ++ (x ∷ behind)) k (some s.next))
                    (sym (length-pointers items ∙ h.count))
                ∙ put-behind (pointers items) x (some s.next) behind)
              ∙ pointers-snoc items s.next (take 488 s.file) behind;
          count = omega (arith, length-append items ((s.next, take 488 s.file) ∷ []), h.count);
          buffered =
              subst (λ h'. Buffered h' 0 (snoc items s.next (take 488 s.file))) (sym new.heap_is)
                (Buffered-snoc (update s.heap s.next (some pkt)) 0 items s.next (take 488 s.file)
                  pkt (rw (==_self s.next))
                  (new-Carries m memory swift win narrow s (0 + length items)
                    (omega (arith, h.count, h.count_is)))
                  (Buffered-update s.heap 0 s.next (some pkt) items apart h.buffered));
          distinct = Distinct-snoc items s.next (take 488 s.file) h.distinct h.below;
          below =
              Below-snoc (one.0).next items s.next (take 488 s.file)
                (Below-up s.next (one.0).next items (omega (arith, new.next_is)) h.below)
                (omega (arith, new.next_is));
          acked = record {
            address = h.acked.address;
            packet = h.acked.packet;
            kept = new.last_ack_kept ∙ h.acked.kept;
            live =
                ap (λ h'. h' h.acked.address) new.heap_is
                ∙ other_live s.heap s.next h.acked.address (some pkt) h.acked.packet h.acked.old
                    h.acked.live;
            numbered = h.acked.numbered;
            freeable = h.acked.freeable;
            old = omega (arith, new.next_is, h.acked.old);
            apart =
                Apart-snoc h.acked.address items s.next (take 488 s.file) h.acked.apart
                  (λ e. omega (arith, e, h.acked.old));
          };
          base_is = new.base_kept ∙ h.base_is;
          next_is = new.nextseqnum_kept ∙ h.next_is;
          window_is = new.window_kept ∙ h.window_is;
          quiet_nack = new.nack_kept ∙ h.quiet_nack;
          count_is = omega (arith, new.seqnum_is, h.count_is);
          sized = ap length new.buffer_kept ∙ h.sized;
          unsent = new.sent_kept ∙ h.unsent;
          in_buffer =
              payloads-snoc items s.next (take 488 s.file)
              ∙ ap (λ l. l ++ (take 488 s.file ∷ [])) h.in_buffer
              ∙ ap (λ l. pieces i whole ++ (take 488 l ∷ [])) h.in_file
              ∙ pieces-snoc i whole
              ∙ ap (λ k. pieces k whole) (suc_is i);
          in_file = new.file_is ∙ ap (drop 488) h.in_file ∙ left_over-next i whole;
        },
      )
    where
      suc_is : (i : ℕ) → suc i ≡ i + 1
      suc_is i = omega arith

      other_live :
          (h : Heap) (a l : ℕ) (o : Option Pkt) (p : Pkt)
          → l < a
          → h l ≡ some p
          → update h a o l ≡ some p
      other_live h a l o p below live = rw (differ a l (λ e. omega (arith, e, below))) live

  pub insert_packets-HasFirst :
      (refill : Bool) (junk : List Ptr) (i : ℕ) (s : Sender) (whole : List ℕ) (items : List Item)
      (behind : List Ptr)
      → HasFirst s i whole items (junk ++ behind)
      → (s' : Sender) × (all : List Item) × (insert_packets m refill win (length junk) i s
          ≡ some s')
        × HasFirst s' (i + length junk) whole all behind
  unfolding insert_packets
  insert_packets-HasFirst refill [] i s whole items behind h =
      (s, items, refl, subst (λ k. HasFirst s k whole items behind) (plus_zero i) h)
    where
      plus_zero : (i : ℕ) → i ≡ i + 0
      plus_zero i = omega arith
  insert_packets-HasFirst refill (x ∷ junk) i s whole items behind h =
      let one = insert_packet-HasFirst refill i s whole items x (junk ++ behind) h in
      let more =
        insert_packets-HasFirst refill junk (i + 1) one.0 whole
          (snoc items s.next (take 488 s.file)) behind one.2 in
      (
        more.0,
        more.1,
        (rw one.1 more.2),
        subst (λ k. HasFirst more.0 k whole more.1 behind) (shuffle i (length junk)) more.3,
      )
    where
      shuffle : (i n : ℕ) → i + 1 + n ≡ i + suc n
      shuffle i n = omega arith
