-- ===== src/Sender/Refill.antt =====
-- src/read_write_loop_sender.c, `clear_and_fill_buffer` with an acknowledgement in order: the buffer
-- moves on by one packet.
use mathlib.Core.Path.{subst}
use mathlib.Core.Option.{some-injective}
use trtp_network.Prelude.{
  ==_self, ℕ, zero, suc, ◌+◌, ◌%◌, ◌≤◌, ◌<◌, ◌≡◌, refl, sym, ap, ◌∙◌, List, [], ◌∷◌, ◌++◌, true,
  none, some, arith, length, put, take, drop, take-append, length-append, length-take,
}
use trtp_network.Packet.{Pkt}
use trtp_network.Build.{Machine}
use trtp_network.Heap.{Ptr, Heap, update, shift_slots}
use trtp_network.Receiver.Window.{Item, pointers, put-behind}
use trtp_network.Receiver.InOrder.{HasMemory}
use trtp_network.Sender.{
  Sender, clock32, leading_nulls, print_window, insert_packets, clear_and_fill_buffer,
  insert_packet,
}
use trtp_network.Sender.Buffer.{shift_slots-behind}
use trtp_network.Sender.Next.{IsSwift}
use trtp_network.Sender.Content.{Carries, Buffered, Below, Buffered-update, Below-Apart}
use trtp_network.Sender.Filling.{insert_packet-Inserted, new_pkt, made-has}
use trtp_network.Sender.Snoc.{snoc, pointers-snoc, length-pointers, Buffered-snoc}

pub print_window-live :
    (w : ℕ) (h : Heap) (n : ℕ) (items : List Item) (beyond : List Ptr)
    → Buffered h n items
    → w ≤ length items
    → print_window w h (pointers items ++ beyond) ≡ some tt
unfolding print_window
print_window-live zero h n items beyond b l = refl
print_window-live (suc w) h n [] beyond b l = absurd (omega arith)
print_window-live (suc w) h n ((a, body) ∷ items) beyond b l =
    rw b.0.1 (print_window-live w h (suc n) items beyond b.1 (omega arith))

take-past : (k : ℕ) (xs ys : List Ptr) → length xs ≡ k → take k (xs ++ ys) ≡ xs
take-past k xs ys e = rw (sym e) (take-append xs ys)

last_behind :
    (k : ℕ) (xs ys : List Ptr) → length xs ≡ suc k → (x : Ptr) × (drop k (xs ++ ys) ≡ x ∷ ys)
last_behind k [] ys e = absurd (omega arith)
last_behind zero (x ∷ []) ys e = (x, refl)
last_behind zero (x ∷ y ∷ xs) ys e = absurd (omega arith)
last_behind (suc k) (x ∷ xs) ys e = last_behind k xs ys (omega arith)

-- The shift by one place: only the entry behind the others is left over.
pub shift-one :
    (rest : List Item) (beyond : List Ptr)
    → length rest ≡ 49
    → (x : Ptr) × (shift_slots 49 1 0 (none ∷ (pointers rest ++ beyond))
        ≡ some (pointers rest ++ (x ∷ beyond)))
shift-one rest beyond e =
    let x = last_behind 49 (none ∷ pointers rest) beyond (omega (arith, length-pointers rest, e)) in
    (
      x.0,
      shift_slots-behind 49 1 [] (none ∷ (pointers rest ++ beyond)) 1 0 refl refl
            (omega (arith, length-append (pointers rest) beyond, length-pointers rest, e))
          ∙ ap (λ l. some (l ++ drop 49 (none ∷ (pointers rest ++ beyond))))
              (take-past 49 (pointers rest) beyond (length-pointers rest ∙ e))
          ∙ ap (λ l. some (pointers rest ++ l)) x.1,
    )

pub leading-one :
    (rest : List Item) (beyond : List Ptr)
    → length rest ≡ 49
    → leading_nulls (none ∷ (pointers rest ++ beyond)) ≡ some 1
unfolding leading_nulls
leading-one [] beyond e = absurd (omega arith)
leading-one ((a, body) ∷ rest) beyond e = refl

one_packet :
    (m : Machine) (win i : ℕ) (s s' : Sender)
    → insert_packet m true win i s ≡ some s'
    → insert_packets m true win 1 i s ≡ some s'
unfolding insert_packets
one_packet m win i s s' h = rw h

-- `clear_and_fill_buffer` where the first entry alone is NULL.
pub refill-runs :
    (m : Machine) (win : ℕ) (s s' : Sender) (slots : List Ptr)
    → leading_nulls s.slots ≡ some 1
    → shift_slots 49 1 0 s.slots ≡ some slots
    → insert_packet m true win 49 (record s { slots = slots; buffer_update = true }) ≡ some s'
    → print_window s'.window s'.heap s'.slots ≡ some tt
    → clear_and_fill_buffer m win s ≡ some s'
unfolding clear_and_fill_buffer
refill-runs m win s s' slots leading shifted inserted printed = rw (
  leading,
  shifted,
  one_packet m win 49 (record s { slots = slots; buffer_update = true }) s' inserted,
  printed,
)

-- The sender after the refill: the packet `pkt` with the next piece of the file stands at the end.
pub record Refilled (s s' : Sender) (n : ℕ) (rest : List Item) (beyond : List Ptr) : Type 0 where
  pub pkt : Pkt
  pub carries : Carries pkt (n + 49) (take 488 s.file)
  pub slots_are : s'.slots ≡ pointers (snoc rest s.next (take 488 s.file)) ++ beyond
  pub heap_is : s'.heap ≡ update s.heap s.next (some pkt)
  pub next_is : s'.next ≡ s.next + 1
  pub file_is : s'.file ≡ drop 488 s.file
  pub seqnum_is : s'.seqnum ≡ s.seqnum + 1
  pub base_kept : s'.base ≡ s.base
  pub nextseqnum_kept : s'.nextseqnum ≡ s.nextseqnum
  pub window_kept : s'.window ≡ s.window
  pub last_ack_kept : s'.last_ack ≡ s.last_ack
  pub nack_kept : s'.nack ≡ s.nack
  pub buffer_kept : s'.buffer ≡ s.buffer
  pub sent_kept : s'.sent ≡ s.sent
  pub updated : s'.buffer_update ≡ true

module _ (m : Machine) (memory : HasMemory m) (swift : IsSwift m) (win : ℕ)
    (narrow : win < 32) where
  pub new-Carries :
      (s : Sender) (n : ℕ)
      → s.seqnum ≡ n
      → Carries (new_pkt m memory win narrow s) n (take 488 s.file)
  new-Carries s n e = record {
    typed = refl;
    untruncated = refl;
    numbered = ap (λ j. j % 256) e;
    narrow = narrow;
    holds = made-has (memory.fresh s.next).0 s.seqnum win (clock32 m s) (take 488 s.file);
    short = omega (arith, length-take 488 s.file);
    early = omega (arith, swift.below s.ticks);
  }

  pub all_live :
      (s : Sender) (pkt : Pkt) (n : ℕ) (rest : List Item)
      → Carries pkt (n + 49) (take 488 s.file)
      → length rest ≡ 49
      → Buffered s.heap n rest
      → Below s.next rest
      → Buffered (update s.heap s.next (some pkt)) n (snoc rest s.next (take 488 s.file))
  all_live s pkt n rest carries count held below =
      Buffered-snoc (update s.heap s.next (some pkt)) n rest s.next (take 488 s.file) pkt
        (rw (==_self s.next))
        (subst (λ k. Carries pkt (n + k) (take 488 s.file)) (sym count) carries)
        (Buffered-update s.heap n s.next (some pkt) rest (Below-Apart s.next rest below) held)

  -- With the first entry NULL and 49 packets behind it, the buffer moves on by one place, and the
  -- next piece of the file fills the last one.
  pub clear_and_fill_buffer-Refilled :
      (s : Sender) (n : ℕ) (rest : List Item) (beyond : List Ptr)
      → s.slots ≡ none ∷ (pointers rest ++ beyond)
      → length rest ≡ 49
      → Buffered s.heap n rest
      → Below s.next rest
      → s.seqnum ≡ n + 49
      → s.window ≤ 49
      → (s' : Sender) × (clear_and_fill_buffer m win s ≡ some s') × Refilled s s' n rest beyond
  clear_and_fill_buffer-Refilled s n rest beyond slots_are count held below seq small =
      let shifted = shift-one rest beyond count in
      let s1 : Sender = record s {
        slots = pointers rest ++ (shifted.0 ∷ beyond);
        buffer_update = true;
      } in
      let one = insert_packet-Inserted m memory win narrow true 49 s1 (
        omega (
          arith,
          length-append (pointers rest) (shifted.0 ∷ beyond),
          length-pointers rest,
          count,
        )) in
      let i = one.2 in
      let pkt : Pkt = new_pkt m memory win narrow s1 in
      let carries : Carries pkt (n + 49) (take 488 s.file) = new-Carries s1 (n + 49) seq in
      let at_end : (one.0).slots ≡ pointers (snoc rest s.next (take 488 s.file)) ++ beyond =
        some-injective _ _ (sym i.written ∙ put_last rest shifted.0 s.next beyond count)
        ∙ pointers-snoc rest s.next (take 488 s.file) beyond in
      (
        one.0,
        refill-runs m win s one.0 (pointers rest ++ (shifted.0 ∷ beyond))
            (ap leading_nulls slots_are ∙ leading-one rest beyond count)
            (ap (shift_slots 49 1 0) slots_are ∙ shifted.1) one.1
            (ap (λ w. print_window w (one.0).heap (one.0).slots) i.window_kept
              ∙ ap (λ h. print_window s.window h (one.0).slots) i.heap_is
              ∙ ap (print_window s.window (update s.heap s.next (some pkt))) at_end
              ∙ print_window-live s.window (update s.heap s.next (some pkt)) n
                  (snoc rest s.next (take 488 s.file)) beyond
                  (all_live s pkt n rest carries count held below)
                  (omega
                    (arith, length-append rest ((s.next, take 488 s.file) ∷ []), count, small))),
        record {
          pkt = pkt;
          carries = carries;
          slots_are = at_end;
          heap_is = i.heap_is;
          next_is = i.next_is;
          file_is = i.file_is;
          seqnum_is = i.seqnum_is;
          base_kept = i.base_kept;
          nextseqnum_kept = i.nextseqnum_kept;
          window_kept = i.window_kept;
          last_ack_kept = i.last_ack_kept;
          nack_kept = i.nack_kept;
          buffer_kept = i.buffer_kept;
          sent_kept = i.sent_kept;
          updated = i.update_kept;
        },
      )
    where
      put_last :
          (rest : List Item) (x : Ptr) (a : ℕ) (beyond : List Ptr)
          → length rest ≡ 49
          → put (pointers rest ++ (x ∷ beyond)) 49 (some a)
            ≡ some (pointers rest ++ (some a ∷ beyond))
      put_last rest x a beyond e =
          ap (λ k. put (pointers rest ++ (x ∷ beyond)) k (some a)) (sym (length-pointers rest ∙ e))
          ∙ put-behind (pointers rest) x (some a) beyond
