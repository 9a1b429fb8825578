-- ===== src/Sender/Behind.antt =====
-- src/read_write_loop_sender.c: a packet that is not the first in the buffer is freed.
use mathlib.Core.Path.{subst}
use mathlib.Core.List.{append_assoc}
use trtp_network.Prelude.{
  ℕ, zero, suc, ◌+◌, ◌%◌, ◌≤◌, ◌<◌, ◌≡◌, refl, sym, ap, ◌∙◌, List, [], ◌∷◌, ◌++◌, none, some, arith,
  length, take-append-drop, length-append, get_elem?, put,
}
use trtp_network.Heap.{Ptr, Heap, update, find_buffer, shift_slots}
use trtp_network.Receiver.Window.{Item, pointers, get_elem?-behind, put-behind, pkt_del_lem}
use trtp_network.Sender.{Sender, print_window}
use trtp_network.Sender.Buffer.{shift_slots-sender}
use trtp_network.Sender.Content.{Buffered, Apart, Distinct, find_buffer-at}
use trtp_network.Sender.Snoc.{length-pointers}
use trtp_network.Sender.Refill.{print_window-live}
use trtp_network.Sender.Steps.{acked, delete_acked}
use trtp_network.Sender.Freeing.{free_live, delete_acked-runs}

pointers-append : (pre rest : List Item) → pointers (pre ++ rest) ≡ pointers pre ++ pointers rest
pointers-append [] rest = refl
pointers-append ((a, body) ∷ pre) rest = ap (λ l. some a ∷ l) (pointers-append pre rest)

pub Buffered-split :
    (h : Heap) (n : ℕ) (pre rest : List Item)
    → Buffered h n (pre ++ rest)
    → Buffered h n pre × Buffered h (n + length pre) rest
Buffered-split h n [] rest b = (tt, subst (λ k. Buffered h k rest) (omega arith) b)
Buffered-split h n ((a, body) ∷ pre) rest b =
    let more = Buffered-split h (suc n) pre rest b.1 in
    ((b.0, more.0), subst (λ k. Buffered h k rest) (omega arith) more.1)

pub Apart-split :
    (k : ℕ) (pre rest : List Item) → Apart k (pre ++ rest) → Apart k pre × Apart k rest
Apart-split k [] rest h = (tt, h)
Apart-split k ((a, body) ∷ pre) rest h =
    let more = Apart-split k pre rest h.1 in ((h.0, more.0), more.1)

pub Distinct-middle :
    (pre : List Item) (a : ℕ) (body : List ℕ) (post : List Item)
    → Distinct (pre ++ ((a, body) ∷ post))
    → Apart a pre × Apart a post
Distinct-middle [] a body post d = (tt, d.0)
Distinct-middle ((b, text) ∷ pre) a body post d =
    let more = Distinct-middle pre a body post d.1 in
    ((λ e. (Apart-split b pre ((a, body) ∷ post) d.0).1.0 (sym e), more.0), more.1)

-- The loop that prints the window passes over one free entry.
pub print_window-gap :
    (w : ℕ) (h : Heap) (n k : ℕ) (pre post : List Item) (beyond : List Ptr)
    → Buffered h n pre
    → Buffered h k post
    → w ≤ length pre + 1 + length post
    → print_window w h (pointers pre ++ (none ∷ (pointers post ++ beyond))) ≡ some tt
unfolding print_window
print_window-gap zero h n k pre post beyond b c few = refl
print_window-gap (suc w) h n k [] post beyond b c few =
    print_window-live w h k post beyond c (omega arith)
print_window-gap (suc w) h n k ((a, body) ∷ pre) post beyond b c few =
    rw b.0.1 (print_window-gap w h (suc n) k pre post beyond b.1 c (omega arith))

-- Without a free entry at the front nothing is shifted.
pub shift_none : (l : List Ptr) → 51 ≤ length l → shift_slots 51 0 0 l ≡ some l
shift_none l enough = shift_slots-sender 0 l (omega arith) enough ∙ ap some (take-append-drop 51 l)

acked_at : (n k : ℕ) → n + k + 1 < 256 → acked (n + k + 1) ≡ (n + k) % 256
acked_at n k h = ground arith

module _ (s : Sender) (n w a : ℕ) (body : List ℕ) (pre post : List Item) (beyond : List Ptr)
    (slots_are : s.slots ≡ pointers (pre ++ ((a, body) ∷ post)) ++ beyond)
    (fifty : length (pre ++ ((a, body) ∷ post)) ≡ 50)
    (held : Buffered s.heap n (pre ++ ((a, body) ∷ post))) (within : length pre < s.window)
    (byte : n + length pre + 1 < 256) where
  abbrev gap : List Ptr
  gap = pointers pre ++ (none ∷ (pointers post ++ beyond))

  apart_slots : s.slots ≡ pointers pre ++ (some a ∷ (pointers post ++ beyond))
  apart_slots =
      slots_are
      ∙ ap (λ l. l ++ beyond) (pointers-append pre ((a, body) ∷ post))
      ∙ append_assoc (pointers pre) (some a ∷ pointers post) beyond

  -- The packet behind `pre` is deleted, and NULL stands in its place.
  pub delete_acked-at :
      delete_acked s (n + length pre + 1)
      ≡ some (record s { heap = update s.heap a none; slots = gap })
  delete_acked-at =
      delete_acked-runs s (n + length pre + 1) (length pre) a (update s.heap a none) gap
        (found s.window within) (found 50 few)
        (ap (λ l. get_elem? l (length pre)) apart_slots ∙ here)
        (free_live s.heap a (this.0.0) this.0.1 (pkt_del_lem this.0.0 body this.0.2.holds))
        (ap (λ l. put l (length pre) none) apart_slots ∙ written)
    where
      this : Buffered s.heap (n + length pre) ((a, body) ∷ post)
      this = (Buffered-split s.heap n pre ((a, body) ∷ post) held).1

      few : length pre < 50
      few = omega (arith, fifty, length-append pre ((a, body) ∷ post))

      here :
          get_elem? (pointers pre ++ (some a ∷ (pointers post ++ beyond))) (length pre)
          ≡ some (some a)
      here =
          ap (get_elem? (pointers pre ++ (some a ∷ (pointers post ++ beyond))))
            (sym (length-pointers pre))
          ∙ get_elem?-behind (pointers pre) (some a) (pointers post ++ beyond)

      written :
          put (pointers pre ++ (some a ∷ (pointers post ++ beyond))) (length pre) none ≡ some gap
      written =
          ap (λ k. put (pointers pre ++ (some a ∷ (pointers post ++ beyond))) k none)
            (sym (length-pointers pre))
          ∙ put-behind (pointers pre) (some a) none (pointers post ++ beyond)

      found :
          (v : ℕ)
          → length pre < v
          → find_buffer s.heap s.slots (acked (n + length pre + 1)) v ≡ some (some (length pre))
      found v l =
          ap (λ q. find_buffer s.heap q (acked (n + length pre + 1)) v) slots_are
          ∙ ap (λ k. find_buffer s.heap (pointers (pre ++ ((a, body) ∷ post)) ++ beyond) k v)
              (acked_at n (length pre) byte)
          ∙ find_buffer-at s.heap n (length pre) v (pre ++ ((a, body) ∷ post)) beyond held
              (omega (arith, few, fifty)) (omega (arith, fifty)) l
