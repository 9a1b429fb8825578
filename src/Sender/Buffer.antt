-- ===== src/Sender/Buffer.antt =====
-- src/read_write_loop_sender.c: the loop that sends the window ends, and what the shift of the buffer
-- leaves.
use mathlib.Core.List.{append_assoc}
use mathlib.Core.Option.{some-injective}
use trtp_network.Receiver.Window.{put-behind}
use trtp_network.Prelude.{
  ℕ, zero, suc, ◌+◌, ◌-◌, ◌*◌, ◌%◌, ◌≤◌, ◌<◌, ◌≡◌, refl, sym, ap, ◌∙◌, List, [], ◌∷◌, ◌++◌, true,
  false, none, some, arith, length, ◌>>=◌, get_elem?, take, drop, Ends, Ends-any, Ends-bind,
  Ends-done, Ends-some, Option-cases, Bool-cases, ◌⊎◌, inl, inr, le→ltb_false, length-append,
}
use trtp_network.Packet.{pkt_set_timestamp}
use trtp_network.Codec.{pkt_encode}
use trtp_network.Build.{Machine}
use trtp_network.Heap.{Ptr, update, deref, shift_slots}
use trtp_network.Sender.{Sender, clock32, shift_rounds}
use trtp_network.Sender.Steps.{transmit, buffered, stamp, send_next, may_send, send_window}

-- What one round of the loop does to the window: one packet more is sent.
record Advanced (s s' : Sender) : Type 0 where
  base_kept : s'.base ≡ s.base
  window_kept : s'.window ≡ s.window
  next_up : s'.nextseqnum ≡ suc s.nextseqnum

-- The window is as before.
abbrev Frozen : Sender → Sender → Type 0
Frozen s s' = (s'.base ≡ s.base) × (s'.window ≡ s.window) × (s'.nextseqnum ≡ s.nextseqnum)

transmit-kept : (m : Machine) (s : Sender) (a : Ptr) → Ends (Frozen s) (transmit m s a)
unfolding transmit
transmit-kept m s a = Ends-any (Frozen s) (deref s.heap a) _ λ p.
    Ends-any (Frozen s) (pkt_encode m.zlib m.endian p s.buffer) _ λ r.
      Ends-done (Frozen s) (record s { buffer = r.1; sent = s.sent ++ (take r.2 r.1 ∷ []) })
        (refl, refl, refl)

stamp-kept : (m : Machine) (s : Sender) (a : Ptr) → Ends (Frozen s) (stamp m s a)
unfolding stamp Ends
stamp-kept m s none = tt
stamp-kept m s (some n) = Ends-any (Frozen s) (s.heap n) _ λ p.
    Ends-done (Frozen s)
      (record s {
        heap = update s.heap n (some (pkt_set_timestamp p (clock32 m s)).1);
        ticks = s.ticks + 1;
      })
      (refl, refl, refl)

send_next-Advanced : (m : Machine) (s : Sender) → Ends (Advanced s) (send_next m s)
unfolding send_next
send_next-Advanced m s = Ends-any (Advanced s) (buffered s (s.nextseqnum % 256)) _ λ a.
    Ends-bind (Frozen s) (Advanced s) (transmit m s a) _ (transmit-kept m s a) λ s1 k.
      Ends-bind (Frozen s1) (Advanced s) (stamp m s1 a) _ (stamp-kept m s1 a) λ s2 l.
        Ends-done (Advanced s)
          (record s2 {
            data_sent = s2.data_sent + 1;
            last_pkt_sent = clock32 m s2;
            ticks = s2.ticks + 1;
            buffer_update = false;
            nextseqnum = s2.nextseqnum + 1;
          })
          (record {
            base_kept = l.0 ∙ k.0;
            window_kept = l.1 ∙ k.1;
            next_up = omega (arith, l.2, k.2);
          })

may_send-full : (s : Sender) (last : ℕ) → s.base + s.window ≤ s.nextseqnum → may_send s last ≡ false
may_send-full s last h = rw (le→ltb_false s.nextseqnum (s.base + s.window) h)

send_next-cases :
    (m : Machine) (s : Sender)
    → (send_next m s ≡ none) ⊎ ((s' : Sender) × (send_next m s ≡ some s') × Advanced s s')
send_next-cases m s = elim (Option-cases (send_next m s)) [
  | inl e ↦ inl e
  | inr (s', e) ↦ inr (s', e, Ends-some (Advanced s) (send_next m s) (send_next-Advanced m s) e)
]

send_window-done :
    (m : Machine) (last n : ℕ) (s : Sender)
    → may_send s last ≡ false
    → send_window m last n s ≡ some s
unfolding send_window
send_window-done m last zero s h = refl
send_window-done m last (suc n) s h = rw (h, send_window)

pub send_window-more :
    (m : Machine) (last n : ℕ) (s : Sender)
    → may_send s last ≡ true
    → send_window m last (suc n) s ≡ (send_next m s >>= λ s'. send_window m last n s')
unfolding send_window
send_window-more m last n s h = rw (h, send_window)

-- The loop makes at most `base + window - nextseqnum` rounds: more of them change nothing,
-- whatever happens in them.
pub send_window-ends :
    (m : Machine) (last n k : ℕ) (s : Sender)
    → s.base + s.window ≤ s.nextseqnum + n
    → n ≤ k
    → send_window m last k s ≡ send_window m last n s
send_window-ends m last zero k s h l =
    send_window-done m last k s (may_send-full s last (omega arith))
    ∙ sym (send_window-done m last 0 s (may_send-full s last (omega arith)))
send_window-ends m last (suc n) zero s h l = absurd (omega arith)
send_window-ends m last (suc n) (suc k) s h l = elim (Bool-cases (may_send s last)) [
  | inr done ↦ send_window-done m last (suc k) s done ∙ sym (send_window-done m last (suc n) s done)
  | inl more ↦
      send_window-more m last k s more
      ∙ rounds
          (λ s' step.
            send_window-ends m last n k s'
              (omega (arith, step.base_kept, step.window_kept, step.next_up)) (omega arith))
          (send_next-cases m s)
      ∙ sym (send_window-more m last n s more)
]
  where
    rounds :
        ((s' : Sender) → Advanced s s' → send_window m last k s' ≡ send_window m last n s')
        → (send_next m s ≡ none) ⊎ ((s' : Sender) × (send_next m s ≡ some s') × Advanced s s')
        → (send_next m s >>= λ s'. send_window m last k s')
          ≡ (send_next m s >>= λ s'. send_window m last n s')
    rounds more (inl fault) = rw fault
    rounds more (inr (s', sent, step)) = rw sent (more s' step)

get_elem?-past :
    (done rest : List Ptr) (n : ℕ) → get_elem? (done ++ rest) (length done + n) ≡ get_elem? rest n
get_elem?-past [] rest n = rw (zero_add n)
  where
    zero_add : (n : ℕ) → 0 + n ≡ n
    zero_add n = omega arith
get_elem?-past (x ∷ done) rest n =
    ap (get_elem? (x ∷ (done ++ rest))) (suc_add (length done) n) ∙ get_elem?-past done rest n
  where
    suc_add : (a b : ℕ) → suc a + b ≡ suc (a + b)
    suc_add a b = omega arith

has_elem : (l : List Ptr) (n : ℕ) → n < length l → (a : Ptr) × (get_elem? l n ≡ some a)
has_elem [] n h = absurd (omega arith)
has_elem (x ∷ l) zero h = (x, refl)
has_elem (x ∷ l) (suc n) h = has_elem l n (omega arith)

drop-get : (l : List Ptr) (n : ℕ) (a : Ptr) → get_elem? l n ≡ some a → drop n l ≡ a ∷ drop (suc n) l
drop-get [] n a h = absurd (cc)
drop-get (x ∷ l) zero a h = ap (λ b. b ∷ l) (some-injective _ _ h)
drop-get (x ∷ l) (suc n) a h = drop-get l n a h

pub shift_slots-behind :
    (k n : ℕ) (done rest : List Ptr) (from to : ℕ)
    → from ≡ length done + n
    → to ≡ length done
    → k + n ≤ length rest
    → shift_slots k from to (done ++ rest) ≡ some (done ++ (take k (drop n rest) ++ drop k rest))
unfolding shift_slots
shift_slots-behind zero n done rest from to f t h = refl
shift_slots-behind (suc k) n done [] from to f t h = absurd (omega arith)
shift_slots-behind (suc k) n done (x ∷ rest) from to f t h =
    rw (f, t, get_elem?-past done (x ∷ rest) n, at, put-behind done x a rest)
      (ap (shift_slots k (length done + n + 1) (length done + 1))
          (sym (append_assoc done (a ∷ []) rest))
        ∙ shift_slots-behind k n (done ++ (a ∷ [])) rest (length done + n + 1) (length done + 1)
            (omega (arith, length-append done (a ∷ [])))
            (omega (arith, length-append done (a ∷ []))) (omega arith)
        ∙ ap some (append_assoc done (a ∷ []) (take k (drop n rest) ++ drop k rest))
        ∙ ap (λ l. some (done ++ (take (suc k) l ++ drop k rest)))
            (sym (drop-get (x ∷ rest) n a at)))
  where
    a : Ptr
    a = (has_elem (x ∷ rest) n (omega arith)).0

    at : get_elem? (x ∷ rest) n ≡ some a
    at = (has_elem (x ∷ rest) n (omega arith)).1

-- The shift of `n` places that frees the end of the buffer: the entries from `n` to `50 - n` move to
-- the front. The entries from `51 - 2 * n` on stay as they were, so that for `n` of 2 and more the
-- last packets of the 50 are not moved.
pub shift_slots-sender :
    (n : ℕ) (l : List Ptr)
    → n ≤ 25
    → 51 ≤ length l
    → shift_slots (shift_rounds n) n 0 l
      ≡ some (take (51 - 2 * n) (drop n l) ++ drop (51 - 2 * n) l)
shift_slots-sender n l h enough =
    shift_slots-behind (51 - 2 * n) n [] l n 0 (omega arith) refl (omega arith)
