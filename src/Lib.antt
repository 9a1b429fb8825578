-- ===== src/Lib.antt =====
-- TRTP-Network: a sender and a receiver that transfer a file over UDP, with a window of packets,
-- acknowledgements and negative acknowledgements.
--
-- The parts, and the files that model them:
-- Packet.antt: `struct pkt` with its setters and destructor (src/packet_implem.c,
--   src/packet_interface.h). A payload pointer is NULL, an owned block, or wild; `pkt_new` does not
--   initialise the packet, so what `malloc` hands out is a parameter.
-- Codec.antt: `pkt_encode` and `pkt_decode` (src/packet_implem.c) on explicit memory. Codec/Bytes has
--   the masks, Codec/Encode the datagram that is written, Codec/Decode the stages of decoding,
--   Codec/RoundTrip what a peer reads, Codec/Limits the bounds, Codec/Sound what is accepted.
-- Build.antt: `put_on_pkt` (src/put_on_pkt.c) and the parameters of a run: `crc32`, the byte order,
--   the memory that `malloc` hands out, and `clock`. Build/Wire says what its datagrams carry.
-- Heap.antt: the arrays of pointers to packets that both loops keep, on a heap of live packets.
-- Receiver.antt and Receiver/Steps.antt: `clear_and_fill_buffer_r` and `read_write_loop`
--   (src/read_write_loop.c), round by round. Receiver/Window is about the window, Receiver/InOrder and
--   Receiver/Transfer about transfers in order, Receiver/Counters about the statistics,
--   Receiver/Faults about accesses outside of objects, Receiver/Duplicates about packets that come
--   again when they are delivered, Receiver/Ahead about packets beyond
--   the window, and Receiver/Wrap about packet 255 before packet 254.
--   Receiver/Reassembly has an abstract window of payloads, and the loop against it when packets
--   overtake each other: Idle, Store, Answered and Placed are about a round with a packet for a free
--   entry, Early, Due and Complete about where it stands, Known about one that is there already,
--   Dropped, Rejected and Damaged about datagrams that cannot be decoded, Round and Refines put them together,
--   and Shuffle and Reordered are about orders that the window takes.
-- Sender.antt and Sender/Steps.antt: `clear_and_fill_buffer` and `read_write_loop_sender`
--   (src/read_write_loop_sender.c), round by round. Sender/Buffer is about its loops and Sender/Filling
--   about the packets that the buffer is filled with.
--   Sender/Content, Sender/Snoc and Sender/Pace describe the buffer in a transfer in order.
--   Sender/First and Sender/Prepare are about the first filling, Sender/Next and Sender/Burst about the
--   packets that are sent, Sender/Freeing, Sender/Refill and Sender/Acknowledge about what an
--   acknowledgement leads to, Sender/Output, Sender/Idle and Sender/Turn about a round, Sender/Run
--   about a run, Sender/Asked, Sender/Resend and Sender/Timer about packets that are sent again,
--   Sender/Behind and Sender/Selective about the acknowledgement of a later packet, and Sender/Faults about a wild pointer.
-- Network.antt: both loops on a network that keeps the order and may lose datagrams, as a step
--   relation whose steps are rounds of the loops, with and without something to read and with and
--   without a socket that can be written to. A `Run` leaves out the losses and the rounds that read
--   a datagram while the socket cannot be written to: the receiver keeps one pending answer, which
--   the next packet overwrites. Network/Waiting is about rounds with nothing to read.
--   Network/Transfer follows a packet to the receiver and its acknowledgement back,
--   Network/Completion is about whole transfers, and Network/Pipe states what the two loops promise
--   together. Network/Flow describes both loops at any moment, Network/Hearing and Network/Delivering
--   follow a round of the sender and of the receiver from there, Network/Moves and Network/Invariant
--   carry the description along every run, and Network/Offers and Network/Safety draw the
--   conclusions. Network/Counters is about runs with losses, and
--   Network/Recovery about a packet that is damaged, asked for and sent again.
-- Setup.antt and Setup/Main.antt: `create_socket`, `real_address`, `wait_for_client` and the two
--   `main` functions (src/create_socket.c, src/real_adress.c, src/wait_for_client.c, src/sender.c,
--   src/receiver.c) up to the start of the loops. Setup/Socket is about
--   the calls on the socket, Setup/Laws about the two programs.
-- Chat.antt and Chat/Loop.antt: the exercise in SendAndReceiveData, a chat over UDP. Its
--   `wait_for_client` has uninitialised variables, which are a parameter. Chat/Laws says what the
--   loop relays, Chat/Peers what happens to a server.
-- Prelude.antt: lists, integers and memory; Tests.antt: the theorems at concrete inputs.
--
-- The sender's `main` calls `read_write_loop_sender`, which fills its buffer with packets of
-- `put_on_pkt`, sends them by `pkt_encode`, and frees those that acknowledgements name. The receiver's
-- `main` calls `read_write_loop`, which decodes each datagram, places the packet in the window,
-- delivers what is complete at its front, and answers by `put_on_pkt`.
--
-- A run is an `Option`: `none` is an access outside an object, or of a wild or freed pointer, which C
-- leaves undefined. The state of a loop is a record of its global variables and its memory; a round
-- of a loop takes what `poll`, `read` and `clock` report, and a run is a list of rounds, so that no
-- fuel is needed for it. The loop of the sender that sends the window runs on fuel `base + window -
-- nextseqnum`, which each of its rounds reduces by one. Machine words keep their wrap-around where the
-- code converts; the counters of type `int` are not bounded. Arrays have as many entries as the list
-- that a state holds; what they hold before the first write is a parameter.
--
-- The receiver does not initialise its window, which `malloc` hands out (`listPkt`,
-- src/read_write_loop.c), and places packets only where it finds NULL. The theorems that start from the
-- beginning of both programs have the hypothesis that its first five entries are NULL.
--
-- The theorems on whole transfers assume that `malloc` finds memory, that the sender's `clock`
-- stays below the 500000 microseconds after which a packet is sent again, and that fewer than 251
-- packets precede the last one, so that no sequence number wraps; the file then has at most 122000
-- bytes. They are about runs without losses, in which no round reads while its socket cannot be
-- written to. The abstract reassembly window takes packets up to three numbers ahead, and no packet
-- that is delivered already; where the third is there before a gap it promises nothing, since the
-- code then has a packet in two entries. Its numbers stay below 255.
--
-- Not modelled: the log output, the link simulator (a copy of another project), and the older copies
-- of the programs in the root directory, which the build does not use.
pub mod Prelude
pub mod Packet
pub mod Codec
pub mod Build
pub mod Heap
pub mod Receiver
pub mod Sender
pub mod Setup
pub mod Network
pub mod Chat
pub mod Tests
