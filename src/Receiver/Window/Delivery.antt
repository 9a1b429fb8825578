-- ===== src/Receiver/Window/Delivery.antt =====
-- The loop of `clear_and_fill_buffer_r` that writes out and frees.
use mathlib.Core.List.{append_assoc, append-nil}
use trtp_network.Prelude.{
  ℕ, ◌+◌, ◌≡◌, refl, sym, ◌∙◌, List, [], ◌∷◌, ◌++◌, none, some, arith, length, replicate, get_elem?,
  put, lt→ltb, load_self, length-append,
}
use trtp_network.Prelude.Int.{pos, ◌+ℤ◌, +ℤ-zero, +ℤ-suc}
use trtp_network.Packet.{Pkt, pkt_del}
use trtp_network.Codec.Encode.{HasPayload}
use trtp_network.Heap.{Ptr, Heap, update, deref, free_pkt}
use trtp_network.Receiver.{Receiver, fwrite_bytes, deliver, deliver_one}

-- A packet in the window: its address and its payload.
abbrev pub Item : Type 0
Item = ℕ × List ℕ

abbrev pub pointers : List Item → List Ptr
pointers [] = []
pointers ((a, body) ∷ items) = some a ∷ pointers items

abbrev pub bodies : List Item → List ℕ
bodies [] = []
bodies ((a, body) ∷ items) = body ++ bodies items

abbrev pub AllLive : Heap → List Ptr → Type 0
AllLive h [] = Unit
AllLive h (none ∷ l) = AllLive h l
AllLive h (some a ∷ l) = ((p : Pkt) × (h a ≡ some p)) × AllLive h l

-- The items are live packets with their payloads, no two at one address, and the entries `tail`
-- stay live when all items are freed.
abbrev pub Held : Heap → List Item → List Ptr → Type 0
Held h [] tail = AllLive h tail
Held h ((a, body) ∷ items) tail =
    ((p : Pkt) × (h a ≡ some p) × HasPayload p body) × Held (update h a none) items tail

abbrev pub freed : Heap → List Item → Heap
freed h [] = h
freed h ((a, body) ∷ items) = freed (update h a none) items

fwrite_bytes_lem : (p : Pkt) (body : List ℕ) → HasPayload p body → fwrite_bytes p ≡ some body
fwrite_bytes_lem p [] has = rw has.0
fwrite_bytes_lem p (b ∷ bs) has =
    rw (has.0, has.1 (omega arith), lt→ltb 0 (length (b ∷ bs)) (omega arith)) (load_self (b ∷ bs))

pub pkt_del_lem : (p : Pkt) (body : List ℕ) → HasPayload p body → pkt_del p ≡ some tt
unfolding pkt_del
pkt_del_lem p [] has = rw has.0
pkt_del_lem p (b ∷ bs) has =
    rw (has.0, has.1 (omega arith), lt→ltb 0 (length (b ∷ bs)) (omega arith))

pub get_elem?-behind :
    (pre : List Ptr) (a : Ptr) (l : List Ptr) → get_elem? (pre ++ (a ∷ l)) (length pre) ≡ some a
get_elem?-behind [] a l = refl
get_elem?-behind (x ∷ pre) a l = get_elem?-behind pre a l

pub put-behind :
    (pre : List Ptr) (a b : Ptr) (l : List Ptr)
    → put (pre ++ (a ∷ l)) (length pre) b ≡ some (pre ++ (b ∷ l))
unfolding put
put-behind [] a b l = refl
put-behind (x ∷ pre) a b l = rw (put-behind pre a b l)

-- What the delivery of the items changes.
abbrev pub delivered : Receiver → List Item → List Ptr → Receiver
delivered r items slots = record r {
  slots = slots;
  heap = freed r.heap items;
  free_place = r.free_place +ℤ pos (length items);
  stdout = r.stdout ++ bodies items;
}

pub deliver_one-lem :
    (r : Receiver) (pre rest : List Ptr) (a : ℕ) (body : List ℕ) (p : Pkt)
    → r.heap a ≡ some p
    → HasPayload p body
    → r.slots ≡ pre ++ (some a ∷ rest)
    → deliver_one r (length pre)
      ≡ some (record r {
        slots = pre ++ (none ∷ rest);
        heap = update r.heap a none;
        free_place = r.free_place +ℤ pos 1;
        stdout = r.stdout ++ body;
      })
unfolding deliver_one deref free_pkt
deliver_one-lem r pre rest a body p live has at = rw (
  at,
  get_elem?-behind pre (some a) rest,
  live,
  fwrite_bytes_lem p body has,
  pkt_del_lem p body has,
  put-behind pre (some a) none rest,
)

-- `deliver` writes out the payloads of the items in order, frees them, and leaves NULLs.
pub deliver-lem :
    (items : List Item) (pre tail gap : List Ptr) (r : Receiver) (i : ℕ)
    → length pre ≡ i
    → Held r.heap items gap
    → r.slots ≡ pre ++ (pointers items ++ tail)
    → deliver (length items) i r
      ≡ some (delivered r items (pre ++ (replicate (length items) none ++ tail)))
unfolding deliver
deliver-lem [] pre tail gap r i e held at = cong_state
  where
    cong_state : some r ≡ some (delivered r [] (pre ++ tail))
    cong_state = rw (+ℤ-zero r.free_place, append-nil r.stdout, ← at)
deliver-lem ((a, body) ∷ items) pre tail gap r i e held at =
    rw (← e, deliver_one-lem r pre (pointers items ++ tail) a body held.0.0 held.0.1 held.0.2 at)
      (deliver-lem items (pre ++ (none ∷ [])) tail gap r1 (length pre + 1)
          (length-append pre (none ∷ [])) held.1
          (sym (append_assoc pre (none ∷ []) (pointers items ++ tail)))
        ∙ same)
  where
    r1 : Receiver
    r1 = record r {
      slots = pre ++ (none ∷ (pointers items ++ tail));
      heap = update r.heap a none;
      free_place = r.free_place +ℤ pos 1;
      stdout = r.stdout ++ body;
    }

    left : List Ptr
    left = replicate (length items) none ++ tail

    same :
        some (delivered r1 items ((pre ++ (none ∷ [])) ++ left))
        ≡ some (delivered r ((a, body) ∷ items) (pre ++ (none ∷ left)))
    same = rw (
      append_assoc pre (none ∷ []) left,
      append_assoc r.stdout body (bodies items),
      +ℤ-suc r.free_place (length items),
    )
