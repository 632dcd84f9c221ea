-- ===== src/Websocket/Tests.antt =====
-- Frames and clients of p2p_banking_system/api/websocket.cpp at concrete inputs.
use blackstone.Prelude.{ℕ, ◌≡◌, refl, List, [], ◌∷◌, ◌++◌, arith}
use blackstone.Map.{find, nat_key, string_key}
use blackstone.Websocket.{
  Stream, frame_header, server_frame, client_frame, closed, receive_payload, server_body,
  server_receive, client_receive,
}
use blackstone.Websocket.Payload.{flat, IsTaken, receive_payload_ends}
use blackstone.Websocket.Frames.{IsMessage}
use blackstone.Websocket.Receive.{
  server_receive-client_frame, client_receive-server_frame, receive-masked,
}
use blackstone.Websocket.Clients.{
  no_clients, register, subscribe, send_to, send_to_topic, registers, subscribes, Reach, no_calls,
  next,
}
use blackstone.Websocket.Clients.Paired.{reaches, subscribed, is_client, Reach-reaches}

abbrev text : List ℕ
text = 1 ∷ 2 ∷ 3 ∷ 4 ∷ 5 ∷ []

-- A receiver that takes the mask bit at its word reads the first four bytes as a mask, and finds the
-- payload cut short.
server_frame-masked : server_receive 100 [] [] (server_frame text ∷ []) ≡ (closed, [])
unfolding server_receive server_frame frame_header server_body receive_payload
server_frame-masked = refl

abbrev segments : Stream
segments = (4 ∷ []) ∷ (5 ∷ 7 ∷ []) ∷ []

receive_payload_ends_example : IsTaken 2 [] (4 ∷ 5 ∷ 7 ∷ []) (receive_payload 9 2 [] segments)
receive_payload_ends_example =
    receive_payload_ends 9 2 [] segments (omega arith, (omega arith, tt)) (omega arith)

server_receive-client_frame_example :
    IsMessage text
      (7 ∷ [])
      (server_receive 100 [] [] ((frame_header 0 5 ++ 1 ∷ 2 ∷ 3 ∷ []) ∷ segments))
unfolding frame_header client_frame
server_receive-client_frame_example =
    server_receive-client_frame 100 text (7 ∷ []) (1 ∷ 2 ∷ 3 ∷ []) [] [] segments (omega arith)
      (omega arith) (omega arith, (omega arith, tt)) sent
  where
    sent : (frame_header 0 5 ++ 1 ∷ 2 ∷ 3 ∷ []) ++ flat segments ≡ client_frame text ++ 7 ∷ []
    sent = refl

client_receive-server_frame_example :
    IsMessage text
      (7 ∷ [])
      (client_receive 100 [] ((frame_header 128 5 ++ 1 ∷ 2 ∷ 3 ∷ []) ∷ segments))
unfolding frame_header server_frame
client_receive-server_frame_example =
    client_receive-server_frame 100 text (7 ∷ []) (1 ∷ 2 ∷ 3 ∷ []) [] segments (omega arith)
      (omega arith) (omega arith, (omega arith, tt)) sent
  where
    sent : (frame_header 128 5 ++ 1 ∷ 2 ∷ 3 ∷ []) ++ flat segments ≡ server_frame text ++ 7 ∷ []
    sent = refl

abbrev key : List ℕ
key = 9 ∷ 8 ∷ 7 ∷ 6 ∷ []

receive-masked_example : IsMessage text [] (
    server_receive 100 [] []
      ((frame_header 128 5 ++ (key ++ 8 ∷ 10 ∷ [])) ∷ (4 ∷ 2 ∷ 12 ∷ []) ∷ []))
receive-masked_example =
    receive-masked 100 text key [] (8 ∷ 10 ∷ []) [] [] ((4 ∷ 2 ∷ 12 ∷ []) ∷ []) (omega arith)
      (omega arith) refl (search arith) (search arith) (omega arith, tt) refl

Reach-reaches_example :
    let s = subscribe "a" "news" (register 5 "a" no_clients) in
    (reaches 5 (send_to_topic "news" "hello" s)
      ≡ subscribed "news" s.client_topics (find 5 s.clients))
    × (reaches 5 (send_to "a" "hello" s) ≡ is_client "a" (find 5 s.clients))
unfolding find
Reach-reaches_example = Reach-reaches "news" "a" "hello" 5 reached
  where
    reached : Reach (subscribe "a" "news" (register 5 "a" no_clients))
    reached =
        next (next no_calls (registers 5 "a" no_clients refl refl))
          (subscribes "a" "news" (register 5 "a" no_clients))
