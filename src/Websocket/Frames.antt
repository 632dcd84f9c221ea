-- ===== src/Websocket/Frames.antt =====
-- p2p_banking_system/api/websocket.cpp: frames that are sent and received.
use blackstone.Prelude.{
  ℕ, ◌+◌, ◌%◌, ◌≤◌, ◌<◌, ◌≡◌, refl, ap, ◌∙◌, Option, none, some, List, [], ◌∷◌, ◌++◌, arith, length,
  take, drop, leb, ltb, if◌then◌else◌, true, false, length-append,
}
use blackstone.Prelude.Words.{word}
use blackstone.Websocket.{
  Stream, frame_header, Received, message, closed, receive_payload, unmask_from, delivered,
  unmasked, server_body, server_receive, client_body, client_receive,
}
use blackstone.Websocket.Header.{
  left_over, flat-left_over, left_over-IsStream, take-append_all, drop-append_all, recv-left_over,
  code, code-lt, read_length_lem, recv_header,
}
use blackstone.Websocket.Payload.{flat, IsStream, receive_payload_ends}

-- The message, and a stream that holds what follows it.
abbrev pub IsMessage : List ℕ → List ℕ → Received × Stream → Type 0
IsMessage text tail r = (r.0 ≡ message text) × (flat r.1 ≡ tail) × IsStream r.1

payload_read :
    (text c tail : List ℕ) (s : Stream)
    → IsStream s
    → c ++ flat s ≡ text ++ tail
    → let r = receive_payload (length text) (length text) [] (left_over c s) in
      (r.0 ≡ some text) × (flat r.1 ≡ tail) × IsStream r.1
payload_read text c tail s h e =
    let n = length text in
    let bytes = flat-left_over c s ∙ e in
    let ends =
      receive_payload_ends n n [] (left_over c s) (left_over-IsStream c s h) (omega arith) in
    (
      ends.0
          ∙ ap (λ b. if leb n (length b) then some (take n b) else none) bytes
          ∙ rw (length-append text tail, enough n (length tail), take-append_all n text tail refl)
              refl,
      ends.1 ∙ ap (drop n) bytes ∙ drop-append_all n text tail refl,
      ends.2,
    )
  where
    enough : (n m : ℕ) → leb n (n + m) ≡ true
    enough n m = ground arith

abbrev IsPayload : List ℕ → List ℕ → Option (List ℕ) × Stream → Type 0
IsPayload text tail r = (r.0 ≡ some text) × (flat r.1 ≡ tail) × IsStream r.1

delivered-IsMessage :
    (text tail : List ℕ) (r : Option (List ℕ) × Stream)
    → IsPayload text tail r
    → IsMessage text tail (delivered 1 r)
delivered-IsMessage text tail (none, s) h = let e = h.0 in cc
delivered-IsMessage text tail (some bytes, s) h =
    (ap (λ o. elim o [ none ↦ closed | some b ↦ message b ]) h.0, h.1, h.2)

unmasked-IsPayload :
    (mask masked tail : List ℕ) (r : Option (List ℕ) × Stream)
    → IsPayload masked tail r
    → IsPayload (unmask_from 0 mask masked) tail (unmasked mask r)
unmasked-IsPayload mask masked tail (none, s) h = let e = h.0 in cc
unmasked-IsPayload mask masked tail (some bytes, s) h =
    (ap (λ o. elim o [ none ↦ none | some b ↦ some (unmask_from 0 mask b) ]) h.0, h.1, h.2)

pub within : (limit : ℕ) {n : ℕ} → n ≤ limit → ltb limit n ≡ false
within limit h = ground arith

pub client_receive_lem :
    (limit bit : ℕ) (text c tail old : List ℕ) (s : Stream)
    → bit % 128 ≡ 0
    → length text < word
    → length text ≤ limit
    → IsStream s
    → c ++ flat s ≡ text ++ tail
    → IsMessage text tail (client_receive limit old ((frame_header bit (length text) ++ c) ∷ s))
unfolding client_receive client_body
client_receive_lem limit bit text c tail old s hb hw hl h e =
    let n = length text in
    rw
      (
        recv_header bit n c s,
        low_bits (code n) (code-lt n),
        read_length_lem n c old s hw,
        within limit hl,
      )
      (delivered-IsMessage text tail (receive_payload n n [] (left_over c s))
        (payload_read text c tail s h e))
  where
    low_bits : (k : ℕ) → k < 128 → (bit + k) % 128 ≡ k
    low_bits k h = omega arith

pub server_receive_plain :
    (limit : ℕ) (text c tail old mask : List ℕ) (s : Stream)
    → length text < word
    → length text ≤ limit
    → IsStream s
    → c ++ flat s ≡ text ++ tail
    → IsMessage text tail (server_receive limit old mask ((frame_header 0 (length text) ++ c) ∷ s))
unfolding server_receive server_body
server_receive_plain limit text c tail old mask s hw hl h e =
    let n = length text in
    rw
      (
        recv_header 0 n c s,
        low_bits (code n) (code-lt n),
        read_length_lem n c old s hw,
        plain (code n) (code-lt n),
        within limit hl,
      )
      (delivered-IsMessage text tail (receive_payload n n [] (left_over c s))
        (payload_read text c tail s h e))
  where
    low_bits : (k : ℕ) → k < 128 → (0 + k) % 128 ≡ k
    low_bits k h = omega arith

    plain : (k : ℕ) → k < 128 → leb 128 (0 + k) ≡ false
    plain k h = ground arith

server_body_masked :
    (limit second : ℕ) (masked key c tail mask : List ℕ) (s : Stream)
    → leb 128 second ≡ true
    → length masked ≤ limit
    → length key ≡ 4
    → IsStream s
    → c ++ flat s ≡ masked ++ tail
    → IsMessage
        (unmask_from 0 key masked)
        tail
        (server_body limit (0x81 ∷ second ∷ []) mask (length masked, left_over (key ++ c) s))
unfolding server_body
server_body_masked limit second masked key c tail mask s ht hl hk h e =
    let n = length masked in
    rw
      (
        ht,
        recv-left_over 3 key c s (omega arith) hk,
        take-append_all 4 key (drop (length key) mask) hk,
        within limit hl,
      )
      (delivered-IsMessage (unmask_from 0 key masked) tail
        (unmasked key (receive_payload n n [] (left_over c s)))
        (unmasked-IsPayload key masked tail (receive_payload n n [] (left_over c s))
          (payload_read masked c tail s h e)))

pub server_receive_masked :
    (limit : ℕ) (masked key c tail old mask : List ℕ) (s : Stream)
    → length masked < word
    → length masked ≤ limit
    → length key ≡ 4
    → IsStream s
    → c ++ flat s ≡ masked ++ tail
    → IsMessage
        (unmask_from 0 key masked)
        tail
        (server_receive limit old mask ((frame_header 128 (length masked) ++ (key ++ c)) ∷ s))
unfolding server_receive
server_receive_masked limit masked key c tail old mask s hw hl hk h e =
    let n = length masked in
    rw
      (
        recv_header 128 n (key ++ c) s,
        low_bits (code n) (code-lt n),
        read_length_lem n (key ++ c) old s hw,
      )
      (server_body_masked limit (128 + code n) masked key c tail mask s (is_masked (code n)) hl hk h
        e)
  where
    low_bits : (k : ℕ) → k < 128 → (128 + k) % 128 ≡ k
    low_bits k h = omega arith

    is_masked : (k : ℕ) → leb 128 (128 + k) ≡ true
    is_masked k = ground arith
