-- ===== src/Sender/Burst.antt =====
-- src/read_write_loop_sender.c: what the loop that sends the window sends.
use mathlib.Core.Path.{subst}
use mathlib.Core.List.{append-nil, append_assoc}
use trtp_network.Prelude.{
  ℕ, zero, suc, ◌+◌, ◌≤◌, ◌<◌, ◌≡◌, refl, sym, ap, ◌∙◌, List, [], ◌∷◌, ◌++◌, true, some, arith,
  length, ◌>>=◌, ◌==◌, not, ◌&&◌, ◌||◌, ltb,
}
use trtp_network.Packet.{Pkt}
use trtp_network.Codec.Encode.{wire}
use trtp_network.Build.{Machine}
use trtp_network.Heap.{Ptr}
use trtp_network.Receiver.Window.{Item}
use trtp_network.Sender.{Sender}
use trtp_network.Sender.Buffer.{send_window-more}
use trtp_network.Sender.Content.{Apart}
use trtp_network.Sender.Pace.{InPace}
use trtp_network.Sender.Steps.{send_window, may_send}
use trtp_network.Sender.Next.{IsSwift, Flying, send_next-SentOne}

-- The packets that were sent, from number `n` on.
abbrev pub Flight : ℕ → List ℕ → List (Pkt × List ℕ) → Type 0
Flight n whole [] = Unit
Flight n whole ((p, body) ∷ l) = Flying n whole p body × Flight (suc n) whole l

abbrev pub datagrams : Machine → List (Pkt × List ℕ) → List (List ℕ)
datagrams m [] = []
datagrams m ((p, body) ∷ l) = wire m.zlib m.endian p body ∷ datagrams m l

pub Flight-append :
    (n : ℕ) (whole : List ℕ) (l k : List (Pkt × List ℕ))
    → Flight n whole l
    → Flight (n + length l) whole k
    → Flight n whole (l ++ k)
Flight-append n whole [] k hl hk = subst (λ j. Flight j whole k) (plus_zero n) hk
  where
    plus_zero : (n : ℕ) → n + 0 ≡ n
    plus_zero n = omega arith
Flight-append n whole ((p, body) ∷ l) k hl hk = (
  hl.0,
  Flight-append (suc n) whole l k hl.1 (subst (λ j. Flight j whole k) (shuffle n (length l)) hk),
)
  where
    shuffle : (n k : ℕ) → n + suc k ≡ suc n + k
    shuffle n k = omega arith

pub datagrams-append :
    (m : Machine) (l k : List (Pkt × List ℕ))
    → datagrams m (l ++ k) ≡ datagrams m l ++ datagrams m k
datagrams-append m [] k = refl
datagrams-append m ((p, body) ∷ l) k =
    ap (λ r. wire m.zlib m.endian p body ∷ r) (datagrams-append m l k)

-- What the loop sends.
pub record SentAll (m : Machine) (s s' : Sender) (n f k w : ℕ) (whole : List ℕ) (items : List Item)
    (beyond : List Ptr) : Type 0 where
  pub packets : List (Pkt × List ℕ)
  pub count : length packets ≡ k
  pub flight : Flight (n + f) whole packets
  pub sent : s'.sent ≡ s.sent ++ datagrams m packets
  pub kept : (a : ℕ) → Apart a items → s'.heap a ≡ s.heap a
  pub pace : InPace s' n (f + k) w whole items beyond

InPace-along :
    {s : Sender} {n f f' w : ℕ} {whole : List ℕ} {items : List Item} {beyond : List Ptr}
    → f ≡ f'
    → InPace s n f w whole items beyond
    → InPace s n f' w whole items beyond
InPace-along {s} {n} {w} {whole} {items} {beyond} e pace =
    subst (λ f. InPace s n f w whole items beyond) e pace

window-along :
    {s : Sender} {n f w w' : ℕ} {whole : List ℕ} {items : List Item} {beyond : List Ptr}
    → w ≡ w'
    → InPace s n f w whole items beyond
    → InPace s n f w' whole items beyond
window-along {s} {n} {f} {whole} {items} {beyond} e pace =
    subst (λ w. InPace s n f w whole items beyond) e pace

-- The loop may send as long as less than a window is in flight.
may_send-open :
    (s : Sender) (n f w : ℕ) (whole : List ℕ) (items : List Item) (beyond : List Ptr)
    → InPace s n f w whole items beyond
    → f < w
    → may_send s n ≡ true
may_send-open s n f w whole items beyond pace l =
    opens s.nextseqnum s.base s.window (omega (arith, pace.next_is, pace.base_is, pace.window_is))
      (λ e. omega (arith, e, pace.next_is))
  where
    opens :
        (next base window : ℕ)
        → next < base + window
        → (next ≡ 0 → n ≡ 0)
        → (ltb next (base + window) && (not (next == 0) || n == 0)) ≡ true
    opens next base window below first = ground arith

module _ (m : Machine) (swift : IsSwift m) where
  -- With `f` packets in flight, a window of `f + k`, at most fifty, and the clock below 500 ms, the
  -- loop sends the next `k` packets of the buffer, and stops.
  pub send_window-SentAll :
      (k : ℕ) (s : Sender) (n f : ℕ) (whole : List ℕ) (items : List Item) (beyond : List Ptr)
      → InPace s n f (f + k) whole items beyond
      → f + k ≤ 50
      → (s' : Sender) × (send_window m n k s ≡ some s')
        × SentAll m s s' n f k (f + k) whole items beyond
  unfolding send_window
  send_window-SentAll zero s n f whole items beyond pace few = (
    s,
    refl,
    record {
      packets = [];
      count = refl;
      flight = tt;
      sent = sym (append-nil s.sent);
      kept = λ a apart. refl;
      pace = InPace-along (plus_zero f) pace;
    },
  )
    where
      plus_zero : (f : ℕ) → f ≡ f + 0
      plus_zero f = omega arith
  send_window-SentAll (suc k) s n f whole items beyond pace few =
      let one = send_next-SentOne m swift s n f (f + suc k) whole items beyond pace (omega arith) in
      let step = one.2 in
      let more =
        send_window-SentAll k one.0 n (suc f) whole items beyond
          (window-along (suc_plus f k) step.pace) (omega arith) in
      let rest = more.2 in
      (
        more.0,
        send_window-more m n k s
              (may_send-open s n f (f + suc k) whole items beyond pace (omega arith))
            ∙ ap (λ o. o >>= λ s'. send_window m n k s') one.1
            ∙ more.1,
        record {
          packets = (step.pkt, step.body) ∷ rest.packets;
          count = ap suc rest.count;
          kept = λ a apart. rest.kept a apart ∙ step.kept a apart;
          flight =
              (step.flying, subst (λ j. Flight j whole rest.packets) (plus_suc n f) rest.flight);
          sent =
              rest.sent
              ∙ ap (λ l. l ++ datagrams m rest.packets) step.sent
              ∙ append_assoc s.sent (wire m.zlib m.endian step.pkt step.body ∷ [])
                  (datagrams m rest.packets);
          pace = InPace-along (sym (suc_plus f k)) (window-along (sym (suc_plus f k)) rest.pace);
        },
      )
    where
      suc_plus : (f k : ℕ) → f + suc k ≡ suc f + k
      suc_plus f k = omega arith

      plus_suc : (n f : ℕ) → n + suc f ≡ suc (n + f)
      plus_suc n f = omega arith
