-- ===== src/Sender/Filling.antt =====
-- src/read_write_loop_sender.c, `clear_and_fill_buffer`: the packets that the buffer is filled with
-- are the consecutive pieces of the file.
use mathlib.Core.Path.{transport, subst}
use mathlib.Core.Option.{some-injective}
use mathlib.Core.List.{append-nil, append_assoc, flatten}
use trtp_network.Prelude.{
  ==_self, ℕ, zero, suc, ◌+◌, ◌%◌, ◌^◌, ◌≤◌, ◌<◌, ◌≡◌, refl, sym, ap, ◌∙◌, List, [], ◌∷◌, ◌++◌,
  Bool, true, false, Option, some, arith, length, if◌then◌else◌, ◌==◌, ◌&&◌, put, take, drop,
  length-take, get_elem?, set, put-set, get_elem?-set_self, get_elem?-set_ne,
}
use trtp_network.Prelude.Int.{pos}
use trtp_network.Packet.{Pkt}
use trtp_network.Codec.Encode.{HasPayload}
use trtp_network.Build.{Machine, put_on_pkt, data_kind}
use trtp_network.Build.Wire.{Delivered, made, put_on_pkt-data-Delivered}
use trtp_network.Heap.{Ptr, Heap, update}
use trtp_network.Receiver.InOrder.{HasMemory}
use trtp_network.Sender.{Sender, clock32, scratch, content_size, insert_packet, insert_packets}

-- The first `n` pieces of a file.
abbrev pub pieces : ℕ → List ℕ → List (List ℕ)
pieces zero file = []
pieces (suc n) file = take content_size file ∷ pieces n (drop content_size file)

abbrev pub left_over : ℕ → List ℕ → List ℕ
left_over zero file = file
left_over (suc n) file = left_over n (drop content_size file)

-- The heap holds data packets with these payloads from the address `a` on, numbered from `seq` on.
abbrev pub Stored : Heap → ℕ → ℕ → List (List ℕ) → Type 0
Stored h a seq [] = Unit
Stored h a seq (c ∷ cs) =
    ((p : Pkt) × (h a ≡ some p) × HasPayload p c × (p.type ≡ 1) × (p.seqnum ≡ seq % 256))
    × Stored h (a + 1) (seq + 1) cs

-- `n` entries of the array from the entry `i` on point to `n` addresses in a row from `a` on.
abbrev pub Pointed : List Ptr → ℕ → ℕ → ℕ → Type 0
Pointed slots i a zero = Unit
Pointed slots i a (suc n) = (get_elem? slots i ≡ some (some a)) × Pointed slots (i + 1) (a + 1) n

take-drop : (n : ℕ) (l : List ℕ) → take n l ++ drop n l ≡ l
take-drop zero l = refl
take-drop (suc n) [] = refl
take-drop (suc n) (x ∷ l) = ap (λ r. x ∷ r) (take-drop n l)

-- No byte of the file is lost or changed.
pieces-whole : (n : ℕ) (file : List ℕ) → flatten (pieces n file) ++ left_over n file ≡ file
unfolding flatten
pieces-whole zero file = refl
pieces-whole (suc n) file =
    append_assoc (take content_size file) (flatten (pieces n (drop content_size file)))
      (left_over n (drop content_size file))
    ∙ ap (λ r. take content_size file ++ r) (pieces-whole n (drop content_size file))
    ∙ take-drop content_size file

put-some :
    (l : List Ptr) (i : ℕ) (a : Ptr)
    → i < length l
    → (l' : List Ptr) × (put l i a ≡ some l') × (length l' ≡ length l)
unfolding put
put-some [] i a h = absurd (omega arith)
put-some (x ∷ l) zero a h = (a ∷ l, refl, refl)
put-some (x ∷ l) (suc i) a h =
    let r = put-some l i a (omega arith) in (x ∷ r.0, (rw r.1), ap suc r.2)

pub made-has : (q : Pkt) (n w t : ℕ) (c : List ℕ) → HasPayload (made q data_kind n w c t) c
made-has q n w t [] = (refl, λ h. absurd (omega arith))
made-has q n w t (b ∷ bs) = (refl, λ h. refl)

Stored-along :
    (h : Heap) (n : ℕ) {a a' seq seq' : ℕ} {f f' : List ℕ}
    → a ≡ a'
    → seq ≡ seq'
    → f ≡ f'
    → Stored h a seq (pieces n f)
    → Stored h a' seq' (pieces n f')
Stored-along h n e k l = transport λ i. Stored h (e i) (k i) (pieces n (l i))

update-other : (h : Heap) (n a : ℕ) (p : Option Pkt) → a < n → update h n p a ≡ h a
update-other h n a p l = rw (differ n a l)
  where
    differ : (n a : ℕ) → a < n → (n == a) ≡ false
    differ n a l = ground arith

module _ (m : Machine) (memory : HasMemory m) (win : ℕ) (narrow : win < 32) where
  abbrev pub new_pkt : Sender → Pkt
  new_pkt s =
      made (memory.fresh s.next).0 data_kind s.seqnum win (take content_size s.file) (clock32 m s)

  pub record Inserted (s s' : Sender) (i : ℕ) : Type 0 where
    pub sized : length s'.slots ≡ length s.slots
    pub written : put s.slots i (some s.next) ≡ some s'.slots
    pub heap_is : s'.heap ≡ update s.heap s.next (some (new_pkt s))
    pub next_is : s'.next ≡ s.next + 1
    pub file_is : s'.file ≡ drop content_size s.file
    pub seqnum_is : s'.seqnum ≡ s.seqnum + 1
    pub base_kept : s'.base ≡ s.base
    pub nextseqnum_kept : s'.nextseqnum ≡ s.nextseqnum
    pub window_kept : s'.window ≡ s.window
    pub last_ack_kept : s'.last_ack ≡ s.last_ack
    pub nack_kept : s'.nack ≡ s.nack
    pub buffer_kept : s'.buffer ≡ s.buffer
    pub sent_kept : s'.sent ≡ s.sent
    pub update_kept : s'.buffer_update ≡ s.buffer_update

  built :
      (s : Sender)
      → Delivered m.zlib m.endian (new_pkt s) (take content_size s.file) scratch (
          put_on_pkt m.zlib m.endian true
            (some (memory.fresh s.next).0)
            scratch
            (some (take content_size s.file ++ []))
            (pos s.seqnum)
            (pos win)
            (length (take content_size s.file))
            data_kind
            (clock32 m s))
  built s =
      put_on_pkt-data-Delivered m.zlib m.endian (memory.fresh s.next).0 scratch s.seqnum win
        (clock32 m s) narrow (omega arith) (take content_size s.file) []
        (omega (arith, length-take content_size s.file))
        (omega (arith, length-take content_size s.file))

  pub insert_packet-Inserted :
      (refill : Bool) (i : ℕ) (s : Sender)
      → i < length s.slots
      → (s' : Sender) × (insert_packet m refill win i s ≡ some s') × Inserted s s' i
  unfolding insert_packet
  insert_packet-Inserted refill i s room =
      let w = put-some s.slots i (some s.next) room in
      let ended : Bool =
        refill && (length (take content_size s.file) == 0 && s.last_last_pkt == 0) in
      (
        record s {
          slots = w.0;
          heap = update s.heap s.next (some (new_pkt s));
          next = s.next + 1;
          file = drop content_size s.file;
          ticks = if ended then s.ticks + 2 else s.ticks + 1;
          seqnum = s.seqnum + 1;
          last_last_pkt = if ended then m.clock (s.ticks + 1) % 2 ^ 32 else s.last_last_pkt;
        },
        (rw (memory.payload s.next, (memory.fresh s.next).1, built_plain s, w.1)),
        record {
          sized = w.2;
          written = w.1;
          heap_is = refl;
          next_is = refl;
          file_is = refl;
          seqnum_is = refl;
          base_kept = refl;
          nextseqnum_kept = refl;
          window_kept = refl;
          last_ack_kept = refl;
          nack_kept = refl;
          buffer_kept = refl;
          sent_kept = refl;
          update_kept = refl;
        },
      )
    where
      built_plain :
          (s : Sender)
          → put_on_pkt m.zlib m.endian true
              (some (memory.fresh s.next).0)
              scratch
              (some (take content_size s.file))
              (pos s.seqnum)
              (pos win)
              (length (take content_size s.file))
              data_kind
              (clock32 m s)
            ≡ some (new_pkt s, (built s).out, (built s).size)
      built_plain s =
          ap
            (λ c.
              put_on_pkt m.zlib m.endian true (some (memory.fresh s.next).0) scratch (some c)
                (pos s.seqnum) (pos win) (length (take content_size s.file)) data_kind
                (clock32 m s))
            (sym (append-nil (take content_size s.file)))
          ∙ (built s).result

  record Filled (s s' : Sender) (n i : ℕ) : Type 0 where
    pointed : Pointed s'.slots i s.next n
    others : (j : ℕ) → j < i → get_elem? s'.slots j ≡ get_elem? s.slots j
    numbered : s'.seqnum ≡ s.seqnum + n
    left : s'.file ≡ left_over n s.file
    stored : Stored s'.heap s.next s.seqnum (pieces n s.file)
    kept : (a : ℕ) → a < s.next → s'.heap a ≡ s.heap a

  insert_packets-Filled :
      (refill : Bool) (n i : ℕ) (s : Sender)
      → i + n ≤ length s.slots
      → (s' : Sender) × (insert_packets m refill win n i s ≡ some s') × Filled s s' n i
  unfolding insert_packets
  insert_packets-Filled refill zero i s room = (
    s,
    refl,
    record {
      pointed = tt;
      others = λ j l. refl;
      numbered = omega arith;
      left = refl;
      stored = tt;
      kept = λ a l. refl;
    },
  )
  insert_packets-Filled refill (suc n) i s room =
      let one = insert_packet-Inserted refill i s (omega arith) in
      let step = one.2 in
      let more = insert_packets-Filled refill n (i + 1) one.0 (omega (arith, step.sized)) in
      let rest = more.2 in
      let here : one.0.slots ≡ set s.slots i (some s.next) =
        some-injective _ _ (sym step.written ∙ put-set s.slots i (some s.next) (omega arith)) in
      (
        more.0,
        (rw one.1 more.1),
        record {
          pointed = (
            rest.others i (omega arith)
                ∙ ap (λ l. get_elem? l i) here
                ∙ get_elem?-set_self s.slots i (some s.next) (omega arith),
            subst (λ a. Pointed more.0.slots (i + 1) a n) step.next_is rest.pointed,
          );
          others = λ j l.
              rest.others j (omega arith)
              ∙ ap (λ q. get_elem? q j) here
              ∙ get_elem?-set_ne s.slots i j (some s.next) (λ e. omega (arith, e));
          numbered = omega (arith, rest.numbered, step.seqnum_is);
          left = rest.left ∙ ap (left_over n) step.file_is;
          stored = (
            (
              new_pkt s,
              rest.kept s.next (omega (arith, step.next_is))
                  ∙ ap (λ h. h s.next) step.heap_is
                  ∙ (rw (==_self s.next)),
              made-has (memory.fresh s.next).0 s.seqnum win (clock32 m s)
                  (take content_size s.file),
              refl,
              refl,
            ),
            Stored-along more.0.heap n step.next_is step.seqnum_is step.file_is rest.stored,
          );
          kept = λ a l.
              rest.kept a (omega (arith, step.next_is))
              ∙ ap (λ h. h a) step.heap_is
              ∙ update-other s.heap s.next a (some (new_pkt s)) l;
        },
      )

  -- With memory, and with room in the array, `n` rounds of the loop that fills the buffer, from the
  -- entry `i` on, leave `n` entries from there on that point to `n` new packets on the heap: data
  -- packets, numbered in sequence, whose payloads are the next pieces of the file, of at most 488
  -- bytes; these and what is left of the file are the file.
  pub insert_packets-Stored :
      (refill : Bool) (n i : ℕ) (s : Sender)
      → i + n ≤ length s.slots
      → (s' : Sender) × (insert_packets m refill win n i s ≡ some s')
        × Pointed s'.slots i s.next n
        × Stored s'.heap s.next s.seqnum (pieces n s.file)
        × (flatten (pieces n s.file) ++ s'.file ≡ s.file)
        × (s'.seqnum ≡ s.seqnum + n)
  insert_packets-Stored refill n i s room =
      let f = insert_packets-Filled refill n i s room in
      (
        f.0,
        f.1,
        f.2.pointed,
        f.2.stored,
        ap (λ r. flatten (pieces n s.file) ++ r) f.2.left ∙ pieces-whole n s.file,
        f.2.numbered,
      )
