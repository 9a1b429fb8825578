-- ===== src/Network/Recovery.antt =====
-- src/read_write_loop.c and src/read_write_loop_sender.c: a packet that is damaged on its way, asked for
-- and sent again.
use mathlib.Core.Path.{subst}
use trtp_network.Prelude.{
  zero, suc, lt→ltb, ℕ, ◌+◌, ◌%◌, ◌≤◌, ◌<◌, ◌≡◌, refl, sym, ap, ◌∙◌, List, [], ◌∷◌, ◌++◌, Bool,
  true, false, Option, none, some, arith, length, ltb, ◌&&◌, if◌then◌else◌,
}
use trtp_network.Packet.{Pkt, Status}
use trtp_network.Codec.{pkt_decode}
use trtp_network.Codec.Encode.{wire}
use trtp_network.Build.{Machine, overwrite}
use trtp_network.Heap.{Ptr}
use trtp_network.Receiver.{Receiver, real_window}
use trtp_network.Receiver.Steps.{ready, again, is_ok, is_null_at}
use trtp_network.Receiver.Steps as ReceiverSteps
use trtp_network.Receiver.InOrder.{HasMemory, InStep, round-due}
use trtp_network.Receiver.Window.{Item}
use trtp_network.Receiver.Reassembly.Rejected.{round-asks}
use trtp_network.Receiver.Reassembly.Reordered.{InStep-Holds, Holds-InStep}
use trtp_network.Sender.{Sender}
use trtp_network.Sender.Steps as SenderSteps
use trtp_network.Sender.Next.{IsSwift}
use trtp_network.Sender.Content.{Carries-IsSendable}
use trtp_network.Sender.Pace.{InPace, piece}
use trtp_network.Sender.Asked.{nack_pkt}
use trtp_network.Sender.Resend.{round-Resent}
use trtp_network.Network.Transfer.{mr}

null_at :
    (n : ℕ) (beyond : List Ptr)
    → n < 4
    → is_null_at (none ∷ none ∷ none ∷ none ∷ none ∷ beyond) n ≡ some true
null_at zero beyond h = refl
null_at (suc zero) beyond h = refl
null_at (suc (suc zero)) beyond h = refl
null_at (suc (suc (suc zero))) beyond h = refl
null_at (suc (suc (suc (suc n)))) beyond h = absurd (omega arith)

looked_for :
    (n : ℕ) (slots beyond : List Ptr)
    → slots ≡ none ∷ none ∷ none ∷ none ∷ none ∷ beyond
    → 0 < n
    → n < 4
    → (if ltb n (0 + real_window) && ltb 0 n then is_null_at slots n else some false) ≡ some true
looked_for n slots beyond e some_n few =
    rw (e, lt→ltb n 4 few, lt→ltb 0 n some_n) (null_at n beyond few)

-- The three rounds: the receiver asks for packet `n`, the sender sends it again, and the receiver
-- takes it.
pub record Recovered (ms mr : Machine) (s : Sender) (r : Receiver) (bytes : List ℕ) (now n f w : ℕ)
    (whole : List ℕ) (items : List Item) (bs br : List Ptr) : Type 0 where
  pub asking : Receiver
  pub request : List ℕ
  pub asks :
      ReceiverSteps.round mr r
        (record { input = ready; output = ready; datagram = some bytes; now = now })
      ≡ some (again, asking)
  pub requested : asking.sent ≡ r.sent ++ (request ∷ [])
  pub resending : Sender
  pub datagram : List ℕ
  pub resends :
      SenderSteps.round ms s (record { input = ready; output = ready; datagram = some request })
      ≡ some (again, resending)
  pub resent : resending.sent ≡ s.sent ++ (datagram ∷ [])
  pub pace : InPace resending n f w whole items bs
  pub done : Receiver
  pub takes :
      ReceiverSteps.round mr asking
        (record { input = ready; output = ready; datagram = some datagram; now = now })
      ≡ some (again, done)
  pub written : done.stdout ≡ r.stdout ++ piece n whole
  pub in_step : InStep done (n + 1) br

module _ (m : Machine) (memory : HasMemory m) (swift : IsSwift m) (pkt_new : ℕ → Option Pkt)
    (room : ℕ → Bool) (clock : ℕ → ℕ)
    (memory_r : HasMemory (mr m memory swift pkt_new room clock)) where
  abbrev mine : Machine
  mine = mr m memory swift pkt_new room clock

  -- Packet `n`, for `n` from 1 to 3, is due, and arrives so damaged that the decoder refuses it, but with
  -- its number: the receiver asks for it; the sender, which has it first in its buffer and in its
  -- window, and has nothing to send of its own, sends that piece of the file again; and the receiver
  -- writes that piece and is in step for the next packet.
  pub damaged-Recovered :
      (s : Sender) (r : Receiver) (bytes : List ℕ) (now n f w : ℕ) (d : Status × Pkt)
      (whole : List ℕ) (items : List Item) (bs br : List Ptr)
      → InPace s n f w whole items bs
      → s.buffer_update ≡ false
      → s.last_valid ≤ n
      → n ≤ s.last_valid + s.window
      → InStep r n br
      → 0 < n
      → n < 4
      → 0 < length (piece n whole)
      → pkt_decode mine.zlib mine.endian
          (mine.room r.next)
          (overwrite r.buffer bytes)
          512
          (memory_r.fresh r.next).0
        ≡ some d
      → is_ok d.0 ≡ false
      → d.1.seqnum ≡ n
      → Recovered m mine s r bytes now n f w whole items bs br
  damaged-Recovered s r bytes now n f w d whole items bs br pace idle low high step some_n few full
        decoded refused numbered =
      let holds = InStep-Holds r n br step in
      let a = round-asks mine memory_r r n none none none br holds bytes now d decoded refused (
        ap (λ k. if ltb k (0 + real_window) && ltb 0 k then is_null_at r.slots k else some false)
          numbered
        ∙ looked_for n r.slots br step.empty some_n few) in
      let t : ℕ = r.last_time_pkt in
      let o =
        round-Resent m swift memory s n f w 0 t whole items bs pace idle (omega arith) (omega arith)
          (omega arith) (omega arith) step.stamped in
      let c = o.2.flying.carries in
      let is_piece : o.2.body ≡ piece n whole =
        o.2.flying.is_piece ∙ ap (λ k. piece k whole) (plus_zero n) in
      let e =
        round-due mine memory_r a.0 n br o.2.pkt o.2.body now
          (Holds-InStep a.0 n br (omega arith) a.2) (Carries-IsSendable o.2.pkt (n + 0) o.2.body c)
          c.typed (c.numbered ∙ small_byte n (omega arith)) c.holds
          (subst (λ b. 0 < length b) (sym is_piece) full) (omega (arith, c.short)) in
      record {
        asking = a.0;
        request = wire m.zlib m.endian (nack_pkt (n + 0) t) [];
        asks = a.1;
        requested =
            a.4
            ∙ ap (λ k. r.sent ++ (wire m.zlib m.endian (nack_pkt k t) [] ∷ []))
                (numbered ∙ sym (plus_zero n));
        resending = o.0;
        datagram = wire m.zlib m.endian o.2.pkt o.2.body;
        resends = o.1;
        resent = o.2.sent;
        pace = o.2.pace;
        done = e.0;
        takes = e.1;
        written = e.2.output ∙ ap (λ l. l ++ o.2.body) a.3 ∙ ap (λ b. r.stdout ++ b) is_piece;
        in_step = subst (λ k. InStep e.0 k br) (next_byte n few) e.2.in_step;
      }
    where
      plus_zero : (n : ℕ) → n + 0 ≡ n
      plus_zero n = omega arith

      small_byte : (n : ℕ) → n < 256 → (n + 0) % 256 ≡ n
      small_byte n h = omega arith

      next_byte : (n : ℕ) → n < 4 → (n + 1) % 256 ≡ n + 1
      next_byte n h = omega arith
