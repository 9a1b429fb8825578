-- ===== src/Tests/Wire.antt =====
-- The theorems on packets and datagrams at concrete inputs.
use trtp_network.Prelude.{
  ℕ, zero, suc, ◌≡◌, List, [], ◌∷◌, ◌++◌, true, none, some, arith, replicate,
}
use trtp_network.Prelude.Int.{pos}
use trtp_network.Packet.{Pkt, block}
use trtp_network.Codec.{little, pkt_encode, pkt_decode}
use trtp_network.Codec.Encode.{wire}
use trtp_network.Codec.Limits.{Returns, NotLength, IsBytes, pkt_decode-Returns, pkt_encode-overflow}
use trtp_network.Build.{data_kind, ack_kind, put_on_pkt}
use trtp_network.Build.Wire.{
  Delivered, made, put_on_pkt-control-Delivered, put_on_pkt-data-Delivered,
}
use trtp_network.Tests.Data.{zlib, blank, hello, data_pkt, hello-HasPayload}

-- The datagram of `data_pkt 0`, byte for byte.
abbrev pub datagram : List ℕ
datagram = wire zlib little (data_pkt 0) hello

-- Type 1, and a length field of 65535.
abbrev pub oversize : List ℕ
oversize = 64 ∷ 255 ∷ 255 ∷ replicate 509 1

ones-IsBytes : (n : ℕ) → IsBytes (replicate n 1)
ones-IsBytes zero = tt
ones-IsBytes (suc n) = (omega arith, ones-IsBytes n)

oversize-IsBytes : IsBytes oversize
oversize-IsBytes = (omega arith, (omega arith, (omega arith, ones-IsBytes 509)))

pkt_decode-Returns_example : Returns NotLength (pkt_decode zlib little true oversize 512 blank)
pkt_decode-Returns_example =
    pkt_decode-Returns zlib little true oversize blank 512 oversize-IsBytes (omega arith)
      (omega arith)

-- A sendable packet of 500 bytes.
abbrev long_pkt : Pkt
long_pkt = record (data_pkt 3) { length_field = 500; payload = block (replicate 500 65) }

pkt_encode-overflow_example : pkt_encode zlib little (data_pkt 0) (replicate 18 0) ≡ none
pkt_encode-overflow_example =
    pkt_encode-overflow zlib little (data_pkt 0) hello (replicate 18 0) (hello-HasPayload 0)
      (omega arith) (omega arith) (omega arith)

put_on_pkt-data-Delivered_example :
    Delivered zlib little (made blank data_kind 256 4 hello 9) hello (replicate 512 0) (
      put_on_pkt zlib little true
        (some blank)
        (replicate 512 0)
        (some (hello ++ (0 ∷ [])))
        (pos 256)
        (pos 4)
        3
        data_kind
        9)
put_on_pkt-data-Delivered_example =
    put_on_pkt-data-Delivered zlib little blank (replicate 512 0) 256 4 9 (omega arith)
      (omega arith) hello (0 ∷ []) (omega arith) (omega arith)

put_on_pkt-control-Delivered_example :
    Delivered zlib little
      (made blank ack_kind 7 3 [] 9)
      []
      (replicate 512 0)
      (put_on_pkt zlib little true (some blank) (replicate 512 0) none (pos 7) (pos 3) 0 ack_kind 9)
put_on_pkt-control-Delivered_example =
    put_on_pkt-control-Delivered zlib little blank (replicate 512 0) 7 3 9 (omega arith)
      (omega arith) true none ack_kind (λ h. cc) (omega arith)

-- The receiver at the start, with memory that happens to hold NULLs.
