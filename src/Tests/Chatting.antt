-- ===== src/Tests/Chatting.antt =====
-- The theorems on the chat of SendAndReceiveData at concrete inputs.
use trtp_network.Prelude.{
  ℕ, ◌≡◌, List, [], ◌∷◌, Option, none, some, arith, true, replicate, ap, sym,
}
use mathlib.Core.Option.{some-injective}
use trtp_network.Prelude.Int.{ℤ, pos}
use trtp_network.Chat.{RawSocket, Stack, chat_options, chat_defaults, chat_main}
use trtp_network.Chat.Peers.{HasLongPeers, Unserved, chat_main-Unserved}
use trtp_network.Tests.Sending.{system}
use trtp_network.Chat.Loop.{chat_loop, chat_start, going}
use trtp_network.Chat.Laws.{events, relayed, chat_loop-relayed}
use trtp_network.Tests.Data.{hello}

-- The terminal says twelve bytes, then the socket three.
abbrev talk : List (Option (List ℕ) × Option (List ℕ))
talk =
    (some (1 ∷ 2 ∷ 3 ∷ 4 ∷ 5 ∷ 6 ∷ 7 ∷ 8 ∷ 9 ∷ 10 ∷ 11 ∷ 12 ∷ []), none) ∷ (none, some hello) ∷ []

chat_loop-relayed_example :
    chat_loop (events talk) chat_start
    ≡ (going, relayed chat_start ((1 ∷ 2 ∷ 3 ∷ 4 ∷ 5 ∷ 6 ∷ 7 ∷ 8 ∷ 9 ∷ 10 ∷ []) ∷ hello ∷ []))
chat_loop-relayed_example = chat_loop-relayed talk chat_start (omega arith)

-- A peer on IPv6, where `len` happens to hold 16.
abbrev port_of : List ℕ → ℤ
port_of text = pos 7

abbrev long_peer : RawSocket
long_peer = record {
  peek_into = λ fd len. some (replicate len 0, 28);
  connect_bytes = λ fd bytes. true;
}

abbrev garbage : Stack
garbage = record { len = 16; address = replicate 16 0 }

long_peer-HasLongPeers : HasLongPeers long_peer
long_peer-HasLongPeers fd len r e = sym (ap (λ q. q.1) (some-injective _ _ e))

chat_main-Unserved_example :
    Unserved
      (chat_options port_of [] chat_defaults).client
      (chat_main system long_peer garbage port_of [])
chat_main-Unserved_example =
    chat_main-Unserved system long_peer garbage port_of [] long_peer-HasLongPeers
