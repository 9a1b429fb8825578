-- ===== src/Setup.antt =====
-- src/create_socket.c, src/real_adress.c and src/wait_for_client.c: how both programs come by a
-- connected socket. The calls of the system are parameters.
use trtp_network.Prelude.{
  ℕ, ◌+◌, ◌%◌, ◌^◌, List, [], ◌∷◌, ◌++◌, Bool, true, false, Option, none, some, ltb, ◌&&◌, not,
  if◌then◌else◌, ◌>>=◌,
}
use trtp_network.Prelude.Int.{ℤ, pos, negsuc, to_word}
pub mod Main
pub mod Socket
pub mod Laws

-- `struct sockaddr_in6`: the host, and the port in the order of the machine.
pub record Address : Type 0 where
  pub host : List ℕ
  pub port : ℕ

-- What the system answers: `socket` gives a descriptor or fails, `bind` and `connect` succeed or
-- fail, `getaddrinfo` resolves a host, and `recvfrom` with MSG_PEEK waits for the first datagram and
-- tells where it comes from.
pub record System : Type 0 where
  pub socket : Option ℕ
  pub bind : ℕ → Address → Bool
  pub connect : ℕ → Address → Bool
  pub getaddrinfo : List ℕ → Option Address
  pub peek_sender : ℕ → Option Address

-- The calls that change the socket, in order.
pub data Call : Type 0 where
  bind_call connect_call : ℕ → Address → Call
  -- `connect` to an address that is given by its bytes.
  connect_bytes_call : ℕ → List ℕ → Call

-- `if(port > 0) addr->sin6_port = htons(port)`
abbrev pub with_port : Address → ℤ → Address
with_port a (pos n) = if ltb 0 n then record a { port = n % 2 ^ 16 } else a
with_port a (negsuc n) = a

-- One of the two steps of `create_socket`: nothing for a NULL address. `false` is the failure.
unfoldable pub attach :
    (ℕ → Address → Bool) → (ℕ → Address → Call) → ℕ → Option Address → ℤ → Bool × List Call
attach system call fd none port = (true, [])
attach system call fd (some a) port =
    (system fd (with_port a port), call fd (with_port a port) ∷ [])

-- `create_socket`; `none` is -1. The descriptor of a socket that cannot be bound or connected is lost.
unfoldable pub create_socket :
    System → Option Address → ℤ → Option Address → ℤ → Option ℕ × List Call
unfolding attach
create_socket sys source src_port dest dst_port = elim sys.socket [
  | none ↦ (none, [])
  | some fd ↦
      let b = attach sys.bind bind_call fd source src_port in
      let c = attach sys.connect connect_call fd dest dst_port in
      if b.0 then (if c.0 then some fd else none, b.1 ++ c.1) else (none, b.1)
]

-- `real_address`; `none` is an error message.
unfoldable pub real_address : System → List ℕ → Option Address
real_address sys host = sys.getaddrinfo host

-- `wait_for_client`: connects the socket to whoever sends first; `false` is -1.
unfoldable pub wait_for_client : System → ℕ → Bool × List Call
wait_for_client sys fd = elim (sys.peek_sender fd) [
  | none ↦ (false, [])
  | some a ↦ (sys.connect fd a, connect_call fd a ∷ [])
]
