-- ===== src/Websocket.antt =====
-- p2p_banking_system/api/websocket.h and websocket.cpp. The socket is a stream of segments: a call of
-- `recv` returns at most the bytes of one segment, at most as many as it asks for and at most 0x7ffff000, and none at the
-- end of the stream or at an error, which a segment of no bytes stands for. What the arrays on the
-- stack hold before they are filled is an argument, and so is the size that a vector may have.
pub mod Payload
pub mod Header
pub mod Frames
pub mod Receive
pub mod Clients
mod Tests
use Prim.Native.Nat.{bit_xor}
use blackstone.Prelude.{
  ℕ, zero, suc, ◌+◌, ◌-◌, ◌*◌, ◌/◌, ◌%◌, ◌^◌, Bool, true, false, Option, none, some, List, [], ◌∷◌,
  ◌++◌, length, take, drop, eqb, leb, ltb, if◌then◌else◌,
}
use blackstone.Prelude.Words.{word}
use blackstone.Prelude.Bytes.{byte_at}

abbrev pub Stream : Type 0
Stream = List (List ℕ)

-- The most that one `recv` transfers: Linux moves no more than 0x7ffff000 bytes in a call, so that
-- what it returns fits in an `int`.
abbrev pub at_once : ℕ → ℕ
at_once n = if leb n 0x7ffff000 then n else 0x7ffff000

abbrev pub recv : ℕ → Stream → List ℕ × Stream
recv n [] = ([], [])
recv n (c ∷ s) =
    if leb (length c) (at_once n) then (c, s) else (take (at_once n) c, drop (at_once n) c ∷ s)

-- An array of n bytes after one `recv` into it.
abbrev pub fill : ℕ → List ℕ → Stream → List ℕ × Stream
fill n old s = let got = recv n s in (take n (got.0 ++ drop (length got.0) old), got.1)

abbrev pub big_endian : ℕ → ℕ → List ℕ
big_endian zero w = []
big_endian (suc n) w = w / 256 ^ n % 256 ∷ big_endian n w

abbrev pub from_bytes : ℕ → List ℕ → ℕ
from_bytes acc [] = acc
from_bytes acc (b ∷ bs) = from_bytes ((acc * 256 + b) % word) bs

-- The header that `sendFrame` writes, with the mask bit of the server and without that of the client.
unfoldable pub frame_header : ℕ → ℕ → List ℕ
frame_header mask_bit len =
    0x81
    ∷ (if leb len 125
        then (mask_bit + len) ∷ []
        else if leb len 65535
        then (mask_bit + 126) ∷ big_endian 2 len
        else (mask_bit + 127) ∷ big_endian 8 len)

unfoldable pub server_frame : List ℕ → List ℕ
unfolding frame_header
server_frame text = frame_header 0x80 (length text) ++ text

unfoldable pub client_frame : List ℕ → List ℕ
unfolding frame_header
client_frame text = frame_header 0 (length text) ++ text

-- What the two methods `receiveFrame` return: the message, or `closed`. A vector that is too long
-- throws, which ends the program, since no thread catches it.
pub data Received : Type 0 where
  closed crashed : Received
  message : List ℕ → Received

-- The loop that fills the payload, for `left` more bytes. Each round ends it or receives a byte.
pub receive_payload : ℕ → ℕ → List ℕ → Stream → Option (List ℕ) × Stream
receive_payload zero left acc s = (some acc, s)
receive_payload (suc fuel) left acc s =
    let got = recv left s in
    elim (eqb left 0) [
      | true ↦ (some acc, s)
      | false ↦ elim (eqb (length got.0) 0) [
        | true ↦ (none, got.1)
        | false ↦ receive_payload fuel (left - length got.0) (acc ++ got.0) got.1
      ]
    ]

abbrev pub extended : ℕ → List ℕ → Stream → ℕ × Stream
extended n ext s = let f = fill n ext s in (from_bytes 0 f.0, f.1)

abbrev pub read_length : ℕ → List ℕ → Stream → ℕ × Stream
read_length code ext s =
    if eqb code 126 then extended 2 ext s else if eqb code 127 then extended 8 ext s else (code, s)

abbrev pub unmask_from : ℕ → List ℕ → List ℕ → List ℕ
unmask_from i mask [] = []
unmask_from i mask (b ∷ bs) = bit_xor b (byte_at mask (i % 4)) ∷ unmask_from (i + 1) mask bs

-- The payload that was received, masked or not, under the code of its frame.
abbrev pub delivered : ℕ → Option (List ℕ) × Stream → Received × Stream
delivered opcode (none, s) = (closed, s)
delivered opcode (some bytes, s) = if eqb opcode 8 then (closed, s) else (message bytes, s)

abbrev pub unmasked : List ℕ → Option (List ℕ) × Stream → Option (List ℕ) × Stream
unmasked mask (none, s) = (none, s)
unmasked mask (some bytes, s) = (some (unmask_from 0 mask bytes), s)

module _ (limit : ℕ) where
  -- From the mask on.
  pub server_body : List ℕ → List ℕ → ℕ × Stream → Received × Stream
  unfolding receive_payload
  server_body header mask len =
      let masked = leb 128 (byte_at header 1) in
      let m = if masked then fill 4 mask len.1 else (mask, len.1) in
      let got = receive_payload len.0 len.0 [] m.1 in
      if ltb limit len.0
      then (crashed, m.1)
      else delivered (byte_at header 0 % 16) (if masked then unmasked m.0 got else got)

  unfoldable pub server_receive : List ℕ → List ℕ → Stream → Received × Stream
  unfolding server_body
  server_receive ext mask s =
      let got = recv 2 s in
      if eqb (length got.0) 2
      then server_body got.0 mask (read_length (byte_at got.0 1 % 128) ext got.1)
      else (closed, got.1)

  pub client_body : List ℕ → ℕ × Stream → Received × Stream
  unfolding receive_payload
  client_body header len =
      if ltb limit len.0
      then (crashed, len.1)
      else delivered (byte_at header 0 % 16) (receive_payload len.0 len.0 [] len.1)

  unfoldable pub client_receive : List ℕ → Stream → Received × Stream
  unfolding client_body
  client_receive ext s =
      let got = recv 2 s in
      if eqb (length got.0) 2
      then client_body got.0 (read_length (byte_at got.0 1 % 128) ext got.1)
      else (closed, got.1)
