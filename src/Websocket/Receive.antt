-- ===== src/Websocket/Receive.antt =====
-- p2p_banking_system/api/websocket.cpp: what `receiveFrame` makes of the frames of the two sides and
-- of a client that follows RFC 6455.
use mathlib.Core.List.{append_assoc}
use blackstone.Prelude.{
  ℕ, ◌+◌, ◌%◌, ◌≤◌, ◌<◌, ◌≡◌, refl, ap, sym, ◌∙◌, subst, List, [], ◌∷◌, ◌++◌, arith, length, All,
  suc, zero,
}
use blackstone.Prelude.Words.{word}
use blackstone.Prelude.Bytes.{byte_at, IsByte, xor_twice}
use blackstone.Websocket.{
  Stream, frame_header, server_frame, client_frame, unmask_from, server_receive, client_receive,
}
use blackstone.Websocket.Payload.{flat, IsStream}
use blackstone.Websocket.Frames.{
  IsMessage, client_receive_lem, server_receive_plain, server_receive_masked,
}

cancel_front : (xs : List ℕ) {ys zs : List ℕ} → xs ++ ys ≡ xs ++ zs → ys ≡ zs
cancel_front [] e = e
cancel_front (x ∷ xs) e = cancel_front xs (ap tail e)
  where
    tail : List ℕ → List ℕ
    tail [] = []
    tail (y ∷ ys) = ys

-- What follows the header.
sent :
    (header text tail c : List ℕ) (s : Stream)
    → (header ++ c) ++ flat s ≡ (header ++ text) ++ tail
    → c ++ flat s ≡ text ++ tail
sent header text tail c s h =
    cancel_front header (sym (append_assoc header c (flat s)) ∙ h ∙ append_assoc header text tail)

-- The server receives the frame that a client sends as the message of the frame, and leaves what
-- follows it in the stream, however the bytes are cut into segments after the header. The message is
-- no longer than a vector may be.
pub server_receive-client_frame :
    (limit : ℕ) (text tail c ext mask : List ℕ) (s : Stream)
    → length text < word
    → length text ≤ limit
    → IsStream s
    → (frame_header 0 (length text) ++ c) ++ flat s ≡ client_frame text ++ tail
    → IsMessage text tail (server_receive limit ext mask ((frame_header 0 (length text) ++ c) ∷ s))
unfolding client_frame
server_receive-client_frame limit text tail c ext mask s hw hl h e =
    server_receive_plain limit text c tail ext mask s hw hl h
      (sent (frame_header 0 (length text)) text tail c s e)

-- The client receives the frame that the server sends as the message of the frame, and leaves what
-- follows it in the stream, however the bytes are cut into segments after the header: it does not
-- look at the mask bit, which the server sets without a mask. The message is no longer than a vector
-- may be.
pub client_receive-server_frame :
    (limit : ℕ) (text tail c ext : List ℕ) (s : Stream)
    → length text < word
    → length text ≤ limit
    → IsStream s
    → (frame_header 0x80 (length text) ++ c) ++ flat s ≡ server_frame text ++ tail
    → IsMessage text tail (client_receive limit ext ((frame_header 0x80 (length text) ++ c) ∷ s))
unfolding server_frame
client_receive-server_frame limit text tail c ext s hw hl h e =
    client_receive_lem limit 0x80 text c tail ext s refl hw hl h
      (sent (frame_header 0x80 (length text)) text tail c s e)

byte_at-IsByte : (bs : List ℕ) (i : ℕ) → All IsByte bs → byte_at bs i < 256
byte_at-IsByte [] i h = omega arith
byte_at-IsByte (b ∷ bs) zero h = h.0
byte_at-IsByte (b ∷ bs) (suc i) h = byte_at-IsByte bs i h.1

unmask_twice :
    (i : ℕ) (key text : List ℕ)
    → All IsByte key
    → All IsByte text
    → unmask_from i key (unmask_from i key text) ≡ text
unmask_twice i key [] h k = refl
unmask_twice i key (b ∷ bs) h k = grind (
  arith,
  xor_twice b (byte_at key (i % 4)) k.0 (byte_at-IsByte key (i % 4) h),
  unmask_twice (i + 1) key bs h k.1,
)

length-unmask_from : (i : ℕ) (key text : List ℕ) → length (unmask_from i key text) ≡ length text
length-unmask_from i key [] = refl
length-unmask_from i key (b ∷ bs) = ap suc (length-unmask_from (i + 1) key bs)

-- The server receives the frame of a client that masks its message with a key of four bytes, as
-- RFC 6455 asks, as the message, if the first segment holds the header and the key, and the message
-- is of bytes and no longer than a vector may be.
pub receive-masked :
    (limit : ℕ) (text key tail c ext mask : List ℕ) (s : Stream)
    → length text < word
    → length text ≤ limit
    → length key ≡ 4
    → All IsByte key
    → All IsByte text
    → IsStream s
    → c ++ flat s ≡ unmask_from 0 key text ++ tail
    → IsMessage text tail
        (server_receive limit ext mask ((frame_header 0x80 (length text) ++ (key ++ c)) ∷ s))
receive-masked limit text key tail c ext mask s hw hl hk hb ht h e =
    let masked = unmask_from 0 key text in
    let len = length-unmask_from 0 key text in
    subst
      (λ n.
        IsMessage text tail
          (server_receive limit ext mask ((frame_header 0x80 n ++ (key ++ c)) ∷ s)))
      len
      (subst
        (λ t.
          IsMessage t tail
            (server_receive limit ext mask ((frame_header 0x80 (length masked) ++ (key ++ c)) ∷ s)))
        (unmask_twice 0 key text hb ht)
        (server_receive_masked limit masked key c tail ext mask s (omega (arith, len))
          (omega (arith, len)) hk h e))
