-- ===== src/Chat/Laws.antt =====
-- SendAndReceiveData/read_write_loop.c: what the chat relays.
use trtp_network.Prelude.{
  ℕ, zero, suc, ◌<◌, ◌≡◌, refl, ap, ◌∙◌, List, [], ◌∷◌, ◌++◌, true, Option, none, some, arith, take,
}
use mathlib.Core.List.{append_assoc, append-nil}
use trtp_network.Receiver.Steps.{quiet, ready}
use trtp_network.Chat.Loop.{Event, Chat, going, returned, visit, pass, chat_loop, chunk_size}

-- A descriptor that is silent, or delivers bytes.
abbrev pub said : Option (List ℕ) → Event
said none = record { revents = quiet; incoming = none; closes = true }
said (some bytes) = record { revents = ready; incoming = some bytes; closes = true }

-- What the chat reads of it.
abbrev pub chunk : Option (List ℕ) → List (List ℕ)
chunk none = []
chunk (some bytes) = take chunk_size bytes ∷ []

abbrev pub events : List (Option (List ℕ) × Option (List ℕ)) → List (Event × Event)
events [] = []
events ((t, s) ∷ l) = (said t, said s) ∷ events l

abbrev pub chunks : List (Option (List ℕ) × Option (List ℕ)) → List (List ℕ)
chunks [] = []
chunks ((t, s) ∷ l) = chunk t ++ (chunk s ++ chunks l)

abbrev pub relayed : Chat → List (List ℕ) → Chat
relayed c l = record c { to_socket = c.to_socket ++ l; to_terminal = c.to_terminal ++ l }

visit-said : (t : Option (List ℕ)) (c : Chat) → visit (said t) c ≡ (going, relayed c (chunk t))
unfolding visit
visit-said none c = rw (append-nil c.to_socket, append-nil c.to_terminal)
visit-said (some bytes) c = refl

pass-said :
    (t s : Option (List ℕ)) (c : Chat)
    → pass (said t) (said s) c ≡ (going, relayed c (chunk t ++ chunk s))
unfolding pass
pass-said t s c =
    ap (λ v. elim v.0 [ returned ↦ v | going ↦ visit (said s) v.1 ]) (visit-said t c)
    ∙ visit-said s (relayed c (chunk t))
    ∙ ap (λ d. (going, d)) same
  where
    same : relayed (relayed c (chunk t)) (chunk s) ≡ relayed c (chunk t ++ chunk s)
    same = rw (
      append_assoc c.to_socket (chunk t) (chunk s),
      append_assoc c.to_terminal (chunk t) (chunk s),
    )

chat_loop-step :
    (e : Event × Event) (es : List (Event × Event)) (c c' : Chat)
    → 0 < c.open_count
    → pass e.0 e.1 c ≡ (going, c')
    → chat_loop (e ∷ es) c ≡ chat_loop es c'
unfolding chat_loop
chat_loop-step e es c c' some_open goes = by_count c.open_count some_open
  where
    by_count :
        (n : ℕ)
        → 0 < n
        → (elim n [
          | zero ↦ (returned, c)
          | suc k ↦ let p = pass e.0 e.1 c in elim p.0 [ returned ↦ p | going ↦ chat_loop es p.1 ]
        ])
          ≡ chat_loop es c'
    by_count zero h = absurd (omega arith)
    by_count (suc n) h = ap (λ p. elim p.0 [ returned ↦ p | going ↦ chat_loop es p.1 ]) goes

-- While a descriptor is open and nothing fails, the chat goes on, and sends every chunk that it reads,
-- from the terminal or from the socket, to the socket as well as to the terminal, in order, each
-- cut to the ten bytes of its buffer.
pub chat_loop-relayed :
    (l : List (Option (List ℕ) × Option (List ℕ))) (c : Chat)
    → 0 < c.open_count
    → chat_loop (events l) c ≡ (going, relayed c (chunks l))
unfolding chat_loop
chat_loop-relayed [] c h = rw (append-nil c.to_socket, append-nil c.to_terminal)
chat_loop-relayed ((t, s) ∷ l) c h =
    chat_loop-step (said t, said s) (events l) c (relayed c (chunk t ++ chunk s)) h
      (pass-said t s c)
    ∙ chat_loop-relayed l (relayed c (chunk t ++ chunk s)) h
    ∙ ap (λ d. (going, d)) same
  where
    same : relayed (relayed c (chunk t ++ chunk s)) (chunks l) ≡ relayed c (chunks ((t, s) ∷ l))
    same = rw (
      append_assoc c.to_socket (chunk t ++ chunk s) (chunks l),
      append_assoc c.to_terminal (chunk t ++ chunk s) (chunks l),
      append_assoc (chunk t) (chunk s) (chunks l),
    )
