-- ===== src/Receiver/InOrder/Place.antt =====
-- The receiver between two packets of a transfer in order, and where it places the next one.
use trtp_network.Prelude.{
  ℕ, suc, ◌+◌, ◌%◌, ◌^◌, ◌<◌, ◌≡◌, refl, ap, ◌∙◌, List, [], ◌∷◌, true, false, none, some, arith,
  length, get_elem?, put, ltb, if◌then◌else◌, ◌>>=◌, ◌==◌,
}
use trtp_network.Prelude.Int.{pos, negsuc, ◌+ℤ◌, sub_ℕ, rem, eq_ℤ}
use trtp_network.Packet.{Pkt, pkt_ok}
use trtp_network.Codec.{pkt_decode}
use trtp_network.Build.{Machine, read_into, overwrite}
use trtp_network.Heap.{Ptr, update}
use trtp_network.Receiver.{Receiver, real_window}
use trtp_network.Receiver.Steps.{receive, accept_packet, place}

-- The machine has memory for every packet and every payload.
pub record HasMemory (m : Machine) : Type 0 where
  pub fresh : (n : ℕ) → (q : Pkt) × (m.pkt_new n ≡ some q)
  pub payload : (n : ℕ) → m.room n ≡ true

-- Between two rounds of a transfer in order: the window is empty, nothing is to be answered, and the
-- base belongs to `n`, the next sequence number.
pub record InStep (r : Receiver) (n : ℕ) (beyond : List Ptr) : Type 0 where
  pub empty : r.slots ≡ none ∷ none ∷ none ∷ none ∷ none ∷ beyond
  pub base : r.base_r ≡ n % 4
  pub places : r.free_place ≡ pos 4
  pub no_nack : r.nack ≡ negsuc 0
  pub no_ack : r.partial_ack ≡ negsuc 0
  pub byte : n < 256
  pub sized : length r.buffer ≡ 512
  pub stamped : r.last_time_pkt < 2 ^ 32

abbrev pub later : ℕ → ℕ → ℕ
later old t = if ltb old t then t else old

pub positive : (n : ℕ) → 0 < n → (n == 0) ≡ false
positive n h = ground arith

pub later-lt : (a b k : ℕ) → a < k → b < k → later a b < k
later-lt a b k h l = ground arith

pub length-overwrite : (buf bytes : List ℕ) → length (overwrite buf bytes) ≡ length buf
length-overwrite [] [] = refl
length-overwrite [] (b ∷ bytes) = refl
length-overwrite (x ∷ buf) [] = refl
length-overwrite (x ∷ buf) (b ∷ bytes) = ap suc (length-overwrite buf bytes)

pub not_nack : (t : ℕ) → t ≡ 1 → (t == 3) ≡ false
not_nack t h = ground arith

pub accept_other :
    (r : Receiver) (a : ℕ) (p : Pkt)
    → (p.length_field == 0) ≡ false
    → accept_packet r a p ≡ (
        place (record r { last_time_pkt = later r.last_time_pkt p.timestamp }) a p >>= λ r'.
        some (false, r'))
unfolding accept_packet
accept_other r a p h = rw h

pub receive_good :
    (m : Machine) (r : Receiver) (bytes : List ℕ) (q p : Pkt)
    → m.pkt_new r.next ≡ some q
    → pkt_decode m.zlib m.endian (m.room r.next) (read_into r.buffer (some bytes)) 512 q
      ≡ some (pkt_ok, p)
    → (p.type == 3) ≡ false
    → receive m r (some bytes)
      ≡ accept_packet
          (record r {
            buffer = read_into r.buffer (some bytes);
            next = r.next + 1;
            data_received = r.data_received + 1;
          })
          r.next
          p
unfolding receive
receive_good m r bytes q p fresh decoded typed = rw (fresh, decoded) (rw typed)

pub not_minus_one : (k : ℕ) → eq_ℤ (pos k) (negsuc 0) ≡ false
not_minus_one k = ground arith

base_now : (n : ℕ) → (if n == 0 then 0 else n % 4) ≡ n % 4
base_now n = ground arith

first_entry : (n : ℕ) → rem (sub_ℕ n (n % 4)) real_window ≡ pos 0
unfolding rem
first_entry n = ground arith

-- What `place` does where the entry is free.
abbrev pub put_at : Receiver → ℕ → Pkt → List Ptr → Receiver
put_at r a p slots = record r {
  base_r = if p.seqnum == 0 then 0 else r.base_r;
  slots = slots;
  heap = update r.heap a (some p);
  free_place = r.free_place +ℤ negsuc 0;
  partial_ack = pos ((p.seqnum + 1) % 256);
}

pub place_free :
    (r : Receiver) (a : ℕ) (p : Pkt) (i : ℕ) (slots : List Ptr)
    → rem (sub_ℕ p.seqnum (if p.seqnum == 0 then 0 else r.base_r)) real_window ≡ pos i
    → get_elem? r.slots i ≡ some none
    → put r.slots i (some a) ≡ some slots
    → place r a p ≡ some (put_at r a p slots)
unfolding place
place_free r a p i slots at free written = rw (at, free, written)

module _ (r : Receiver) (n : ℕ) (beyond : List Ptr) (step : InStep r n beyond) (a : ℕ) (p : Pkt)
    (seq : p.seqnum ≡ n) where
  -- The packet that is due goes to the first entry.
  unfoldable pub placed : Receiver
  placed = record r {
    base_r = n % 4;
    slots = some a ∷ none ∷ none ∷ none ∷ none ∷ beyond;
    heap = update r.heap a (some p);
    free_place = pos 3;
    partial_ack = pos ((n + 1) % 256);
  }

  pub place-first : place r a p ≡ some placed
  unfolding placed put
  place-first =
      place_free r a p 0 (some a ∷ none ∷ none ∷ none ∷ none ∷ beyond) at_zero
        (ap (λ l. get_elem? l 0) step.empty) (ap (λ l. put l 0 (some a)) step.empty)
      ∙ ap some same
    where
      based : (if p.seqnum == 0 then 0 else r.base_r) ≡ n % 4
      based = rw (seq, step.base) (base_now n)

      at_zero : rem (sub_ℕ p.seqnum (if p.seqnum == 0 then 0 else r.base_r)) real_window ≡ pos 0
      at_zero = rw (based, seq) (first_entry n)

      taken : r.free_place +ℤ negsuc 0 ≡ pos 3
      taken = rw step.places (unfold ◌+ℤ◌ in refl)

      same : put_at r a p (some a ∷ none ∷ none ∷ none ∷ none ∷ beyond) ≡ placed
      same = λ i. record r {
        base_r = based i;
        slots = some a ∷ none ∷ none ∷ none ∷ none ∷ beyond;
        heap = update r.heap a (some p);
        free_place = taken i;
        partial_ack = pos ((seq i + 1) % 256);
      }
