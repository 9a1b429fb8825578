-- ===== src/Sender/Selective.antt =====
-- src/read_write_loop_sender.c: the acknowledgement of a packet that overtook the first in flight.
use mathlib.Core.Path.{subst}
use trtp_network.Prelude.{
  ℕ, suc, ◌+◌, ◌≤◌, ◌<◌, ◌≡◌, refl, sym, ap, ◌∙◌, List, ◌∷◌, ◌++◌, none, some, arith, length,
  if◌then◌else◌, ◌==◌, length-append, ◌||◌, ltb, ==_self,
}
use trtp_network.Packet.{Pkt}
use trtp_network.Build.{Machine}
use trtp_network.Heap.{Ptr, Heap, update, free_pkt}
use trtp_network.Receiver.Window.{Item, pointers}
use trtp_network.Sender.{
  Sender, clock32, print_window, clear_and_fill_buffer, leading_nulls, insert_packets,
}
use trtp_network.Sender.Content.{Buffered, Apart, differ, Buffered-update}
use trtp_network.Sender.Pace.{InPace}
use trtp_network.Sender.Snoc.{length-pointers}
use trtp_network.Sender.Steps.{delete_acked, handle_ack}
use trtp_network.Sender.Freeing.{free_live}
use trtp_network.Sender.Acknowledge.{handle_ack-runs, deref_live}
use trtp_network.Sender.Behind.{
  Buffered-split, Apart-split, Distinct-middle, print_window-gap, shift_none, delete_acked-at,
}

clear_and_fill_buffer-still :
    (m : Machine) (win x : ℕ) (s : Sender) (l : List Ptr)
    → s.slots ≡ some x ∷ l
    → 51 ≤ length s.slots
    → print_window s.window s.heap (some x ∷ l) ≡ some tt
    → clear_and_fill_buffer m win s ≡ some (record s { slots = some x ∷ l })
unfolding clear_and_fill_buffer leading_nulls insert_packets
clear_and_fill_buffer-still m win x s l e enough printed =
    rw e (rw (shift_none (some x ∷ l) enough_at) (rw printed))
  where
    enough_at : 51 ≤ length (some x ∷ l)
    enough_at = subst (λ q. 51 ≤ length q) e enough

-- What an acknowledgement leads to that names the packet behind `pre`, at the address `a`.
pub record FreedBehind (s s' : Sender) (n a : ℕ) (pre post : List Item) (beyond : List Ptr)
    : Type 0 where
  pub freed : s'.heap a ≡ none
  pub slots_are : s'.slots ≡ pointers pre ++ (none ∷ (pointers post ++ beyond))
  pub before : Buffered s'.heap n pre
  pub behind : Buffered s'.heap (n + length pre + 1) post
  pub base_is : s'.base ≡ n + length pre + 1
  pub window_is : s'.window ≡ s.window
  pub next_is : s'.nextseqnum ≡ s.nextseqnum
  pub file_is : s'.file ≡ s.file
  pub sent_is : s'.sent ≡ s.sent

ahead_base :
    (last n j k base : ℕ)
    → last ≡ n
    → k ≡ n + j + 1
    → (if ltb last k || k == 0 then k else base) ≡ n + j + 1
ahead_base last n j k base e h = ground arith

window_kept : (w v : ℕ) → v ≤ w → (if ltb w v then v else w) ≡ w
window_kept w v h = ground arith

module _ (m : Machine) where
  -- The acknowledgement of a packet in the window that is not the first, with a window of at most four
  -- that it does not widen, and while no number wraps: of the packets of the buffer that one is gone
  -- from the heap, and NULL stands in its place; the others stay, and nothing is refilled; but the
  -- base moves on behind it, over the packets before it, which have not been acknowledged.
  pub handle_ack-selective :
      (s : Sender) (n f w k x : ℕ) (p : Pkt) (whole first : List ℕ) (a : ℕ) (body : List ℕ)
      (pre post : List Item) (beyond : List Ptr)
      → InPace s n f w whole (((x, first) ∷ pre) ++ ((a, body) ∷ post)) beyond
      → p.seqnum ≡ n + suc (length pre) + 1
      → p.window ≤ w
      → Apart k (((x, first) ∷ pre) ++ ((a, body) ∷ post))
      → suc (length pre) < w
      → w ≤ 4
      → n + suc (length pre) + 1 < 256
      → 0 < length beyond
      → (s' : Sender) × (handle_ack m s k p ≡ some s')
        × FreedBehind s s' n a ((x, first) ∷ pre) post beyond
  handle_ack-selective s n f w k x p whole first a body pre post beyond pace seq narrow apart within
        small byte spare =
      let front : List Item = (x, first) ∷ pre in
      let tail : List Item = (a, body) ∷ post in
      let last = pace.acked in
      let s1 : Sender = record s {
        base = if ltb last.packet.seqnum p.seqnum || p.seqnum == 0 then p.seqnum else s.base;
        rtt_delay = clock32 m s;
        ticks = s.ticks + 1;
        ack_received = s.ack_received + 1;
      } in
      let gap : List Ptr = pointers front ++ (none ∷ (pointers post ++ beyond)) in
      let s2 : Sender = record s1 { heap = update s.heap a none; slots = gap } in
      let h3 : Heap = update s2.heap last.address none in
      let middle = Distinct-middle front a body post pace.distinct in
      let split = Buffered-split s.heap n front tail pace.buffered in
      let last_apart = Apart-split last.address front tail last.apart in
      let k_apart = Apart-split k front tail apart in
      let alive : s2.heap last.address ≡ some last.packet =
        rw (differ a last.address (λ e. last_apart.1.0 (sym e))) last.live in
      let front2 : Buffered s2.heap n front =
        Buffered-update s.heap n a none front middle.0 split.0 in
      let post2 : Buffered s2.heap (suc (n + length front)) post =
        Buffered-update s.heap (suc (n + length front)) a none post middle.1 split.1.1 in
      let enough : 51 ≤ length gap = omega (
        arith,
        length-append (pointers front) (none ∷ (pointers post ++ beyond)),
        length-append (pointers post) beyond,
        length-pointers pre,
        length-pointers post,
        length-append front tail,
        pace.fifty,
        spare,
      ) in
      let few : s.window ≤ length front + 1 + length post =
        omega (arith, pace.window_is, small, length-append front tail, pace.fifty) in
      (
        record s2 {
          window = if ltb s2.window p.window then p.window else s2.window;
          last_valid = p.seqnum;
          pkt_sent = 0;
          free_place_on_buffer = if ltb s2.window p.window then p.window else s2.window;
          heap = update h3 k (some p);
          last_ack = some k;
        },
        handle_ack-runs m s s2 s2 k p last.packet h3
            (deref_live s.heap s.last_ack last.address last.packet last.kept last.live)
            (ap (delete_acked s1) seq
              ∙ delete_acked-at s1 n w a body front post beyond pace.slots_are pace.fifty
                  pace.buffered (omega (arith, pace.window_is, within)) byte)
            (clear_and_fill_buffer-still m p.window x s2
              (pointers pre ++ (none ∷ (pointers post ++ beyond))) refl enough
              (print_window-gap s.window s2.heap n (suc (n + length front)) front post beyond front2
                post2 few))
            (ap (free_pkt s2.heap) last.kept
              ∙ free_live s2.heap last.address last.packet alive last.freeable),
        record {
          freed = rw (differ k a k_apart.1.0, differ last.address a last_apart.1.0, ==_self a) refl;
          slots_are = refl;
          before =
              Buffered-update h3 n k (some p) front k_apart.0
                (Buffered-update s2.heap n last.address none front last_apart.0 front2);
          behind =
              subst (λ j. Buffered (update h3 k (some p)) j post) (suc_is (n + length front))
                (Buffered-update h3 (suc (n + length front)) k (some p) post k_apart.1.1 (
                  Buffered-update s2.heap (suc (n + length front)) last.address none post
                    last_apart.1.1 post2));
          base_is =
              ahead_base last.packet.seqnum n (length front) p.seqnum s.base last.numbered seq;
          window_is = window_kept s.window p.window (omega (arith, pace.window_is, narrow));
          next_is = refl;
          file_is = refl;
          sent_is = refl;
        },
      )
    where
      suc_is : (n : ℕ) → suc n ≡ n + 1
      suc_is n = omega arith
