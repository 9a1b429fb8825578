-- ===== src/Receiver/Window.antt =====
-- What `clear_and_fill_buffer_r` delivers, and what it leaves in the window.
mod Delivery
pub use Delivery.{
  pkt_del_lem, Item, pointers, bodies, AllLive, Held, freed, get_elem?-behind, put-behind,
  delivered, deliver_one-lem, deliver-lem,
}
use mathlib.Core.List.{append_assoc, append-nil}
use trtp_network.Prelude.{
  ℕ, zero, suc, ◌+◌, ◌-◌, ◌%◌, ◌≤◌, ◌≡◌, refl, sym, ap, ◌∙◌, List, [], ◌∷◌, ◌++◌, none, some, arith,
  length, replicate, get_elem?, put, lt→ltb, load_self, length-append,
}
use trtp_network.Prelude.Int.{pos, ◌+ℤ◌, +ℤ-zero, +ℤ-suc}
use trtp_network.Packet.{Pkt, pkt_del}
use trtp_network.Codec.Encode.{HasPayload}
use trtp_network.Heap.{Ptr, Heap, update, deref, free_pkt, first_empty_place, shift_slots}
use trtp_network.Receiver.{
  Receiver, fwrite_bytes, deliver, deliver_one, print_slots, clear_and_fill_buffer_r, real_window,
}

-- The rest of a window of four entries behind `n` packets: it starts and ends with NULL, and `x`
-- and `y` stand between, as far as there is room.
abbrev pub gap : ℕ → Ptr → Ptr → List Ptr
gap zero x y = none ∷ x ∷ y ∷ none ∷ []
gap (suc zero) x y = none ∷ x ∷ none ∷ []
gap (suc (suc zero)) x y = none ∷ none ∷ []
gap (suc (suc (suc zero))) x y = none ∷ []
gap (suc (suc (suc (suc n)))) x y = []

-- A full window or one with a gap, and the memory behind it, which begins with NULL.
abbrev pub behind : ℕ → Ptr → Ptr → List Ptr → List Ptr
behind n x y beyond = gap n x y ++ (none ∷ beyond)

first_empty_place-lem :
    (items : List Item) (n : ℕ) (x y : Ptr) (beyond : List Ptr)
    → first_empty_place (pointers items ++ behind n x y beyond) ≡ some (length items)
unfolding first_empty_place
first_empty_place-lem [] zero x y beyond = refl
first_empty_place-lem [] (suc zero) x y beyond = refl
first_empty_place-lem [] (suc (suc zero)) x y beyond = refl
first_empty_place-lem [] (suc (suc (suc zero))) x y beyond = refl
first_empty_place-lem [] (suc (suc (suc (suc n)))) x y beyond = refl
first_empty_place-lem ((a, body) ∷ items) n x y beyond =
    rw (first_empty_place-lem items n x y beyond)

shift_slots-lem :
    (n : ℕ) (x y : Ptr) (beyond : List Ptr)
    → n ≤ 4
    → shift_slots (real_window - n) n 0 (replicate n none ++ behind n x y beyond)
      ≡ some ((gap n x y ++ replicate n none) ++ (none ∷ beyond))
unfolding shift_slots put
shift_slots-lem zero x y beyond h = refl
shift_slots-lem (suc zero) x y beyond h = refl
shift_slots-lem (suc (suc zero)) x y beyond h = refl
shift_slots-lem (suc (suc (suc zero))) x y beyond h = refl
shift_slots-lem (suc (suc (suc (suc zero)))) x y beyond h = refl
shift_slots-lem (suc (suc (suc (suc (suc n))))) x y beyond h = absurd (omega arith)

length-gap : (n : ℕ) (x y : Ptr) → n ≤ 4 → length (gap n x y ++ replicate n none) ≡ 4
length-gap zero x y h = refl
length-gap (suc zero) x y h = refl
length-gap (suc (suc zero)) x y h = refl
length-gap (suc (suc (suc zero))) x y h = refl
length-gap (suc (suc (suc (suc zero)))) x y h = refl
length-gap (suc (suc (suc (suc (suc n))))) x y h = absurd (omega arith)

AllLive-nulls : (h : Heap) (l : List Ptr) (n : ℕ) → AllLive h l → AllLive h (l ++ replicate n none)
AllLive-nulls h [] zero live = tt
AllLive-nulls h [] (suc n) live = AllLive-nulls h [] n tt
AllLive-nulls h (none ∷ l) n live = AllLive-nulls h l n live
AllLive-nulls h (some a ∷ l) n live = (live.0, AllLive-nulls h l n live.1)

AllLive-freed :
    (items : List Item) (l : List Ptr) (h : Heap) → Held h items l → AllLive (freed h items) l
AllLive-freed [] l h held = held
AllLive-freed ((a, body) ∷ items) l h held = AllLive-freed items l (update h a none) held.1

print_slots-lem :
    (h : Heap) (l beyond : List Ptr)
    → AllLive h l
    → print_slots (length l) h (l ++ beyond) ≡ some tt
unfolding print_slots
print_slots-lem h [] beyond live = refl
print_slots-lem h (none ∷ l) beyond live = print_slots-lem h l beyond live
print_slots-lem h (some a ∷ l) beyond live = rw (live.0.1) (print_slots-lem h l beyond live.1)

-- `clear_and_fill_buffer_r` on a window that starts with the given packets and ends with a free
-- entry, or is full: it delivers exactly the payloads of these packets, in order, frees them, counts their
-- places free, advances the base by their number modulo 4, and slides the other entries to the front.
pub clear_and_fill_buffer_r-slides :
    (r : Receiver) (items : List Item) (x y : Ptr) (beyond : List Ptr)
    → length items ≤ 4
    → Held r.heap items (gap (length items) x y)
    → r.slots ≡ pointers items ++ behind (length items) x y beyond
    → clear_and_fill_buffer_r r
      ≡ some
          (record (delivered r items
            ((gap (length items) x y ++ replicate (length items) none) ++ (none ∷ beyond))) {
              base_r = (r.base_r + length items) % real_window;
            })
unfolding clear_and_fill_buffer_r
clear_and_fill_buffer_r-slides r items x y beyond few held at =
    rw
      (
        first ∙ at_first,
        deliver-lem items [] (behind n x y beyond) (gap n x y) based 0 refl held at,
        shift_slots-lem n x y beyond few,
      )
      (rw printed)
  where
    n : ℕ
    n = length items

    based : Receiver
    based = record r { base_r = (r.base_r + n) % real_window }

    at_first : first_empty_place (pointers items ++ behind n x y beyond) ≡ some n
    at_first = first_empty_place-lem items n x y beyond

    first : first_empty_place r.slots ≡ first_empty_place (pointers items ++ behind n x y beyond)
    first = ap first_empty_place at

    printed :
        print_slots real_window
          (freed r.heap items)
          ((gap n x y ++ replicate n none) ++ (none ∷ beyond))
        ≡ some tt
    printed =
        ap
          (λ k.
            print_slots k (freed r.heap items) ((gap n x y ++ replicate n none) ++ (none ∷ beyond)))
          (sym (length-gap n x y few))
        ∙ print_slots-lem (freed r.heap items) (gap n x y ++ replicate n none) (none ∷ beyond) (
            AllLive-nulls (freed r.heap items) (gap n x y) n
              (AllLive-freed items (gap n x y) r.heap held))
