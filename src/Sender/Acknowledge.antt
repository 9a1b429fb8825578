-- ===== src/Sender/Acknowledge.antt =====
-- src/read_write_loop_sender.c: the sender receives the acknowledgement of the first packet in
-- flight.
use mathlib.Core.Path.{subst}
use trtp_network.Prelude.{
  get_elem?, ==_self, ℕ, suc, ◌+◌, ◌≤◌, ◌<◌, ◌≡◌, ◌≢◌, refl, sym, ap, ◌∙◌, List, [], ◌∷◌, ◌++◌,
  true, Option, none, some, arith, length, if◌then◌else◌, ◌==◌, take, drop, length-append, ◌||◌,
  ltb,
}
use trtp_network.Packet.{Pkt, pkt_del}
use trtp_network.Build.{Machine}
use trtp_network.Heap.{Ptr, Heap, update, deref, free_pkt}
use trtp_network.Receiver.Window.{Item, pointers}
use trtp_network.Receiver.InOrder.{HasMemory}
use trtp_network.Sender.{Sender, clock32, clear_and_fill_buffer}
use trtp_network.Sender.Next.{IsSwift}
use trtp_network.Sender.Content.{Buffered, Apart, payloads, differ, Buffered-update, Below-up}
use trtp_network.Sender.Filling.{left_over}
use trtp_network.Sender.Pace.{InPace, pieces-along, left_over-next}
use trtp_network.Sender.Snoc.{snoc, Apart-snoc, Below-snoc, Distinct-snoc, payloads-snoc}
use trtp_network.Sender.Refill.{clear_and_fill_buffer-Refilled, all_live}
use trtp_network.Sender.Steps.{delete_acked, handle_ack}
use trtp_network.Sender.Freeing.{free_live, delete_acked-first}

pub handle_ack-runs :
    (m : Machine) (s s2 s3 : Sender) (k : ℕ) (p last : Pkt) (h : Heap)
    → deref s.heap s.last_ack ≡ some last
    → delete_acked
        (record s {
          base = if ltb last.seqnum p.seqnum || p.seqnum == 0 then p.seqnum else s.base;
          rtt_delay = clock32 m s;
          ticks = s.ticks + 1;
          ack_received = s.ack_received + 1;
        })
        p.seqnum
      ≡ some s2
    → clear_and_fill_buffer m p.window s2 ≡ some s3
    → free_pkt s3.heap s3.last_ack ≡ some h
    → handle_ack m s k p
      ≡ some (record s3 {
        window = if ltb s3.window p.window then p.window else s3.window;
        last_valid = p.seqnum;
        pkt_sent = 0;
        free_place_on_buffer = if ltb s3.window p.window then p.window else s3.window;
        heap = update h k (some p);
        last_ack = some k;
      })
unfolding handle_ack
handle_ack-runs m s s2 s3 k p last h known deleted filled freed = rw (known, deleted, filled, freed)

-- The acknowledgement packet `p` with number `k`, from a receiver with a free window, that stands
-- at an address of its own.
pub record Fresh (s : Sender) (k : ℕ) (p : Pkt) (n : ℕ) (items : List Item) : Type 0 where
  pub numbered : p.seqnum ≡ n + 1
  pub free_window : p.window ≡ 4
  pub empty : p.length_field ≡ 0
  pub made : k < s.next
  pub apart : Apart k items

-- What the acknowledgement leads to.
pub record Advanced (s s' : Sender) (n f : ℕ) (whole : List ℕ) (beyond : List Ptr) : Type 0 where
  pub items : List Item
  pub pace : InPace s' (n + 1) f 4 whole items beyond
  pub sent_kept : s'.sent ≡ s.sent
  pub updated : s'.buffer_update ≡ true
  pub address : ℕ
  pub at_front : get_elem? s.slots 0 ≡ some (some address)
  pub freed : s'.heap address ≡ none
  pub apart : Apart address items

pub pkt_del-empty : (p : Pkt) → p.length_field ≡ 0 → pkt_del p ≡ some tt
unfolding pkt_del
pkt_del-empty p h = rw h

pub deref_live :
    (h : Heap) (q : Ptr) (a : ℕ) (p : Pkt) → q ≡ some a → h a ≡ some p → deref h q ≡ some p
unfolding deref
deref_live h q a p e live = rw e live

-- A packet at another address stays through two updates.
live_through :
    (h : Heap) (a b l : ℕ) (o : Option Pkt) (r : Option Pkt) (p : Pkt)
    → l ≢ a
    → l ≢ b
    → h l ≡ some p
    → update (update h a o) b r l ≡ some p
live_through h a b l o r p ha hb live =
    rw (differ b l (λ e. hb (sym e)), differ a l (λ e. ha (sym e))) live

later_base :
    (last n base : ℕ) (k : ℕ)
    → last ≡ n
    → k ≡ n + 1
    → (if ltb last k || k == 0 then k else base) ≡ n + 1
later_base last n base k e h = ground arith

window_four : (w win : ℕ) → w ≤ 4 → win ≡ 4 → (if ltb w win then win else w) ≡ 4
window_four w win h e = ground arith

module _ (m : Machine) (memory : HasMemory m) (swift : IsSwift m) where
  pub handle_ack-Advanced :
      (s : Sender) (n f w k a : ℕ) (p : Pkt) (whole body : List ℕ) (rest : List Item)
      (beyond : List Ptr)
      → (pace : InPace s n (suc f) w whole ((a, body) ∷ rest) beyond)
      → Fresh s k p n ((a, body) ∷ rest)
      → 0 < w
      → w ≤ 4
      → n + 1 < 256
      → (s' : Sender) × (handle_ack m s k p ≡ some s') × Advanced s s' n f whole beyond
  handle_ack-Advanced s n f w k a p whole body rest beyond pace fresh wide small byte =
      let count : length rest ≡ 49 = omega (arith, pace.fifty) in
      let last = pace.acked in
      let s1 : Sender = record s {
        base = if ltb last.packet.seqnum p.seqnum || p.seqnum == 0 then p.seqnum else s.base;
        rtt_delay = clock32 m s;
        ticks = s.ticks + 1;
        ack_received = s.ack_received + 1;
      } in
      let s2 : Sender = record s1 {
        heap = update s.heap a none;
        slots = none ∷ (pointers rest ++ beyond);
      } in
      let held : Buffered s2.heap (n + 1) rest =
        Buffered-update s.heap (n + 1) a none rest pace.distinct.0
          (subst (λ j. Buffered s.heap j rest) (suc_is n) pace.buffered.1) in
      let narrow : p.window < 32 = omega (arith, fresh.free_window) in
      let fill =
        clear_and_fill_buffer-Refilled m memory swift p.window narrow s2 (n + 1) rest beyond refl
          count held pace.below.1 (omega (arith, pace.count_is))
          (omega (arith, pace.window_is, small)) in
      let s3 = fill.0 in
      let r = fill.2 in
      let items : List Item = snoc rest s.next (take 488 s.file) in
      let h3 : Heap = update s3.heap last.address none in
      let alive : s3.heap last.address ≡ some last.packet =
        ap (λ h. h last.address) r.heap_is
        ∙ live_through s.heap a s.next last.address none (some r.pkt) last.packet last.apart.0
            (λ e. omega (arith, e, last.old)) last.live in
      let all : Buffered s3.heap (n + 1) items =
        subst (λ h. Buffered h (n + 1) items) (sym r.heap_is)
          (all_live m memory swift p.window narrow s2 r.pkt (n + 1) rest r.carries count held
            pace.below.1) in
      (
        record s3 {
          window = if ltb s3.window p.window then p.window else s3.window;
          last_valid = p.seqnum;
          pkt_sent = 0;
          free_place_on_buffer = if ltb s3.window p.window then p.window else s3.window;
          heap = update h3 k (some p);
          last_ack = some k;
        },
        handle_ack-runs m s s2 s3 k p last.packet h3
            (deref_live s.heap s.last_ack last.address last.packet last.kept last.live)
            (ap (delete_acked s1) fresh.numbered
              ∙ delete_acked-first s1 n a body rest beyond pace.slots_are count pace.buffered
                  (omega (arith, pace.window_is, wide)) byte)
            fill.1
            (ap (free_pkt s3.heap) (r.last_ack_kept ∙ last.kept)
              ∙ free_live s3.heap last.address last.packet alive last.freeable),
        record {
          items = items;
          pace = record {
            slots_are = r.slots_are;
            fifty = omega (arith, length-append rest ((s.next, take 488 s.file) ∷ []), count);
            buffered =
                Buffered-update h3 (n + 1) k (some p) items
                  (Apart-snoc k rest s.next (take 488 s.file) fresh.apart.1
                    (λ e. omega (arith, e, fresh.made)))
                  (Buffered-update s3.heap (n + 1) last.address none items
                    (Apart-snoc last.address rest s.next (take 488 s.file) last.apart.1
                      (λ e. omega (arith, e, last.old)))
                    all);
            distinct = Distinct-snoc rest s.next (take 488 s.file) pace.distinct.1 pace.below.1;
            below =
                Below-snoc s3.next rest s.next (take 488 s.file)
                  (Below-up s.next s3.next rest (omega (arith, r.next_is)) pace.below.1)
                  (omega (arith, r.next_is));
            acked = record {
              address = k;
              packet = p;
              kept = refl;
              live = rw (==_self k);
              numbered = fresh.numbered;
              freeable = pkt_del-empty p fresh.empty;
              old = omega (arith, r.next_is, fresh.made);
              apart =
                  Apart-snoc k rest s.next (take 488 s.file) fresh.apart.1
                    (λ e. omega (arith, e, fresh.made));
            };
            base_is =
                r.base_kept
                ∙ later_base last.packet.seqnum n s.base p.seqnum last.numbered fresh.numbered;
            next_is = omega (arith, r.nextseqnum_kept, pace.next_is);
            window_is =
                window_four s3.window p.window (omega (arith, r.window_kept, pace.window_is, small))
                  fresh.free_window;
            quiet_nack = r.nack_kept ∙ pace.quiet_nack;
            count_is = omega (arith, r.seqnum_is, pace.count_is);
            sized = ap length r.buffer_kept ∙ pace.sized;
            in_buffer =
                payloads-snoc rest s.next (take 488 s.file)
                ∙ pieces-along n 49 whole s.file body (payloads rest) pace.in_buffer pace.in_file;
            in_file =
                r.file_is
                ∙ ap (drop 488) pace.in_file
                ∙ left_over-next (n + 50) whole
                ∙ ap (λ j. left_over j whole) (shuffle n);
          };
          sent_kept = r.sent_kept;
          updated = r.updated;
          address = a;
          at_front = ap (λ l. get_elem? l 0) pace.slots_are;
          freed =
              rw
                (
                  differ k a fresh.apart.0,
                  differ last.address a last.apart.0,
                  ap (λ h. h a) r.heap_is,
                  differ s.next a (λ e. omega (arith, e, pace.below.0)),
                  ==_self a,
                )
                refl;
          apart =
              Apart-snoc a rest s.next (take 488 s.file) pace.distinct.0
                (λ e. omega (arith, e, pace.below.0));
        },
      )
    where
      shuffle : (n : ℕ) → n + 50 + 1 ≡ n + 1 + 50
      shuffle n = omega arith

      suc_is : (n : ℕ) → suc n ≡ n + 1
      suc_is n = omega arith
