-- ===== src/Receiver/Duplicates.antt =====
-- src/read_write_loop.c: a packet that comes a second time, after its acknowledgement was lost.
use trtp_network.Prelude.{
  ◌≢◌, false, [], sym, ==_self, Option, ◌>>=◌, ℕ, zero, suc, ◌+◌, ◌-◌, ◌%◌, ◌≤◌, ◌<◌, ◌≡◌, refl, ap,
  ◌∙◌, List, ◌∷◌, ◌++◌, none, some, arith, replicate, get_elem?, put, if◌then◌else◌, ◌==◌,
}
use trtp_network.Prelude.Int.{pos, negsuc, ◌+ℤ◌, sub_ℕ, rem}
use trtp_network.Packet.{Pkt}
use trtp_network.Heap.{Ptr, Heap, update}
use trtp_network.Codec.Encode.{HasPayload}
use trtp_network.Receiver.Window.{Item, Held, delivered, clear_and_fill_buffer_r-slides}
use mathlib.Core.List.{append-nil}
use trtp_network.Receiver.{Receiver, real_window, clear_and_fill_buffer_r}
use trtp_network.Receiver.Steps.{place}
use trtp_network.Receiver.InOrder.{InStep, place_free, put_at}

-- A window with the one packet `a`, in the `k`th entry from the end of its four.
abbrev pub aside : ℕ → ℕ → List Ptr → List Ptr
aside k a beyond = replicate (4 - k) none ++ (some a ∷ (replicate k none ++ beyond))

put-aside :
    (k a : ℕ) (beyond : List Ptr)
    → 0 < k
    → k < 4
    → put (none ∷ none ∷ none ∷ none ∷ none ∷ beyond) (4 - k) (some a) ≡ some (aside k a beyond)
unfolding put
put-aside zero a beyond h l = absurd (omega arith)
put-aside (suc zero) a beyond h l = refl
put-aside (suc (suc zero)) a beyond h l = refl
put-aside (suc (suc (suc zero))) a beyond h l = refl
put-aside (suc (suc (suc (suc k)))) a beyond h l = absurd (omega arith)

get-aside :
    (k : ℕ) (beyond : List Ptr)
    → 0 < k
    → k < 4
    → get_elem? (none ∷ none ∷ none ∷ none ∷ none ∷ beyond) (4 - k) ≡ some none
get-aside zero beyond h l = absurd (omega arith)
get-aside (suc zero) beyond h l = refl
get-aside (suc (suc zero)) beyond h l = refl
get-aside (suc (suc (suc zero))) beyond h l = refl
get-aside (suc (suc (suc (suc k)))) beyond h l = absurd (omega arith)

old_entry : (s k n : ℕ) → s + k ≡ n → 0 < k → k < 4 → 4 ≤ n → rem (sub_ℕ s (n % 4)) 4 ≡ pos (4 - k)
unfolding rem
old_entry s k n e h l few = ground arith

module _ (r : Receiver) (n k : ℕ) (beyond : List Ptr) (step : InStep r n beyond) (a : ℕ)
    (p : Pkt) where
  -- With packet `n`, from 4 on, due and an empty window, packet `n - k`, for `k` from 1 to 3, is not
  -- recognised as an old one: it goes to the entry where packet `n + 4 - k` belongs, takes up a
  -- place of the window, and the number behind it is noted for the next acknowledgement.
  pub place-old :
      p.seqnum + k ≡ n
      → 0 < k
      → k < 4
      → 4 ≤ n
      → place r a p
        ≡ some (record r {
          slots = aside k a beyond;
          heap = update r.heap a (some p);
          free_place = pos 3;
          partial_ack = pos ((p.seqnum + 1) % 256);
        })
  place-old seq some_k few late =
      place_free r a p (4 - k) (aside k a beyond) at
        (ap (λ l. get_elem? l (4 - k)) step.empty ∙ get-aside k beyond some_k few)
        (ap (λ l. put l (4 - k) (some a)) step.empty ∙ put-aside k a beyond some_k few)
      ∙ ap some same
    where
      kept : (if p.seqnum == 0 then 0 else r.base_r) ≡ r.base_r
      kept = not_first p.seqnum r.base_r (omega (arith, seq, few, late))
        where
          not_first : (s b : ℕ) → 0 < s → (if s == 0 then 0 else b) ≡ b
          not_first s b h = ground arith

      at : rem (sub_ℕ p.seqnum (if p.seqnum == 0 then 0 else r.base_r)) real_window ≡ pos (4 - k)
      at = rw (kept, step.base) (old_entry p.seqnum k n seq some_k few late)

      taken : r.free_place +ℤ negsuc 0 ≡ pos 3
      taken = rw step.places (unfold ◌+ℤ◌ in refl)

      same : put_at r a p (aside k a beyond) ≡ record r {
        slots = aside k a beyond;
        heap = update r.heap a (some p);
        free_place = pos 3;
        partial_ack = pos ((p.seqnum + 1) % 256);
      }
      same = λ i. record r {
        base_r = kept i;
        slots = aside k a beyond;
        heap = update r.heap a (some p);
        free_place = taken i;
        partial_ack = pos ((p.seqnum + 1) % 256);
      }

differ : (a b : ℕ) → a ≢ b → (a == b) ≡ false
differ a b h = ground arith

due_entry : (n : ℕ) → rem (sub_ℕ n (n % 4)) 4 ≡ pos 0
unfolding rem
due_entry n = ground arith

-- An old packet, then the one that is due, and the delivery of the window.
abbrev pub redelivery : Receiver → ℕ → Pkt → ℕ → Pkt → Option Receiver
redelivery r d old a p = do r1 ← place r d old; r2 ← place r1 a p; clear_and_fill_buffer_r r2

module _ (r : Receiver) (n d a : ℕ) (old p : Pkt) (body_old body : List ℕ) (beyond : List Ptr) where
  -- With packet `n`, from 4 on, due and an empty window: packet `n - 3` comes again, then packet `n`.
  -- The delivery writes the payload of packet `n` and, in the place of the one of packet `n + 1`, that
  -- of packet `n - 3`, and the base of the window moves on to packet `n + 2`.
  pub redelivery_lem :
      InStep r n beyond
      → 4 ≤ n
      → old.seqnum + 3 ≡ n
      → p.seqnum ≡ n
      → d ≢ a
      → HasPayload old body_old
      → HasPayload p body
      → (r' : Receiver) × (redelivery r d old a p ≡ some r')
        × (r'.stdout ≡ r.stdout ++ (body ++ body_old))
        × (r'.base_r ≡ (n + 2) % 4)
  unfolding put
  redelivery_lem step late seq_old seq apart has_old has =
      let r1 : Receiver = record r {
        slots = aside 3 d beyond;
        heap = update r.heap d (some old);
        free_place = pos 3;
        partial_ack = pos ((old.seqnum + 1) % 256);
      } in
      let slots : List Ptr = some a ∷ some d ∷ none ∷ none ∷ none ∷ beyond in
      let r2 : Receiver = put_at r1 a p slots in
      let items : List Item = (a, body) ∷ (d, body_old) ∷ [] in
      let held : Held r2.heap items (none ∷ none ∷ []) =
        ((p, (rw (==_self a)), has), ((old, still_live r.heap d a old apart, has_old), tt)) in
      let slid = clear_and_fill_buffer_r-slides r2 items none none beyond (omega arith) held refl in
      (
        record (delivered r2 items (none ∷ none ∷ none ∷ none ∷ none ∷ beyond)) {
          base_r = (r2.base_r + 2) % 4;
        },
        (rw (
          place-old r n 3 beyond step d old seq_old (omega arith) (omega arith) late,
          place_free r1 a p 0 slots at refl refl,
          slid,
        )),
        ap (λ l. r.stdout ++ (body ++ l)) (append-nil body_old),
        based,
      )
    where
      kept : (s b : ℕ) → 0 < s → (if s == 0 then 0 else b) ≡ b
      kept s b h = ground arith

      base_is : (if p.seqnum == 0 then 0 else r.base_r) ≡ n % 4
      base_is = kept p.seqnum r.base_r (omega (arith, seq, late)) ∙ step.base

      at : rem (sub_ℕ p.seqnum (if p.seqnum == 0 then 0 else r.base_r)) real_window ≡ pos 0
      at = rw (base_is, seq) (due_entry n)

      based : ((if p.seqnum == 0 then 0 else r.base_r) + 2) % 4 ≡ (n + 2) % 4
      based = omega (arith, base_is)

      still_live :
          (h : Heap) (d a : ℕ) (old : Pkt)
          → d ≢ a
          → update (update (update h d (some old)) a (some p)) a none d ≡ some old
      still_live h d a old apart = rw (differ a d (λ e. apart (sym e)), ==_self d)
