-- ===== src/Chat/Loop.antt =====
-- SendAndReceiveData/read_write_loop.c: the loop of the chat, which relays what it reads.
use trtp_network.Prelude.{
  ℕ, zero, suc, ◌-◌, List, [], ◌∷◌, ◌++◌, Bool, true, false, Option, none, some, take,
}
use trtp_network.Receiver.Steps.{Revents, quiet, ready, other}

-- What `poll` reports of one descriptor, what `read` delivers of it (`none` is -1), and whether
-- `close` succeeds.
pub record Event : Type 0 where
  pub revents : Revents
  pub incoming : Option (List ℕ)
  pub closes : Bool

-- The descriptors counted as open, the writes to the socket, and those to descriptor 0.
pub record Chat : Type 0 where
  pub open_count : ℕ
  pub to_socket : List (List ℕ)
  pub to_terminal : List (List ℕ)

-- The size of `buf`.
abbrev pub chunk_size : ℕ
chunk_size = 10

-- How a pass ends: it goes on, or `return` leaves the loop.
pub data Pass : Type 0 where
  going returned : Pass

-- One of the two descriptors. What a short buffer does not hold of a datagram is lost.
unfoldable pub visit : Event → Chat → Pass × Chat
visit e c = elim e.revents [
  | quiet ↦ (going, c)
  | ready ↦ elim e.incoming [
    | none ↦ (returned, c)
    | some bytes ↦ (
      going,
      record c {
        to_socket = c.to_socket ++ (take chunk_size bytes ∷ []);
        to_terminal = c.to_terminal ++ (take chunk_size bytes ∷ []);
      },
    )
  ]
  | other ↦ elim e.closes [
    | false ↦ (returned, c)
    | true ↦ (going, record c { open_count = c.open_count - 1 })
  ]
]

-- The events of the terminal and of the socket in one pass of the loop.
unfoldable pub pass : Event → Event → Chat → Pass × Chat
unfolding visit
pass terminal socket c =
    let t = visit terminal c in elim t.0 [ returned ↦ t | going ↦ visit socket t.1 ]

-- `read_write_loop`, over the passes that `poll` starts.
unfoldable pub chat_loop : List (Event × Event) → Chat → Pass × Chat
unfolding pass
chat_loop [] c = (going, c)
chat_loop (e ∷ es) c = elim c.open_count [
  | zero ↦ (returned, c)
  | suc n ↦ let p = pass e.0 e.1 c in elim p.0 [ returned ↦ p | going ↦ chat_loop es p.1 ]
]

abbrev pub chat_start : Chat
chat_start = record { open_count = 2; to_socket = []; to_terminal = [] }
