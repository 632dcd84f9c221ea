-- ===== src/Messages/Tests.antt =====
-- Messages and a queue of p2p_banking_system/network/message.cpp at concrete inputs.
use blackstone.Prelude.{ℕ, ◌≡◌, refl, true, none, some, List, [], ◌∷◌, ◌++◌, arith}
use blackstone.Messages.{
  NetworkMessage, serialize, deserialize, sign, verify_signature, digits_from, decimal, stoull,
}
use blackstone.Messages.Wire.{deserialize-serialize}
use blackstone.Messages.Signed.{verify_signature-sign}
use blackstone.Messages.Queue.{push_all, push_all-last}

abbrev ping : NetworkMessage
ping = record {
  kind = 1;
  sender_id = 97 ∷ 98 ∷ [];
  recipient_id = 99 ∷ [];
  payload = 104 ∷ 105 ∷ [];
  sequence = 120;
  timestamp = 7;
  signature = [];
}

written : decimal 120 ≡ 49 ∷ 50 ∷ 48 ∷ []
unfolding digits_from
written = refl

read_back : stoull (49 ∷ 50 ∷ 48 ∷ []) ≡ some 120
read_back = refl

deserialize-serialize_example : deserialize (serialize ping) ≡ none
deserialize-serialize_example = deserialize-serialize ping (omega arith) (omega arith)

abbrev keyed : List ℕ → List ℕ → List ℕ
keyed key text = key ++ text

verify_signature-sign_example :
    (verify_signature keyed (5 ∷ []) (sign keyed (5 ∷ []) ping) ≡ true)
    × (verify_signature keyed
          (5 ∷ [])
          (record (sign keyed (5 ∷ []) ping) { sender_id = 97 ∷ []; recipient_id = 98 ∷ 99 ∷ [] })
        ≡ true)
verify_signature-sign_example = verify_signature-sign keyed (5 ∷ []) (97 ∷ []) (98 ∷ []) ping refl

push_all-last_example :
    push_all (ping ∷ record ping { kind = 2 } ∷ []) (record { messages = []; max_size = 1 })
    ≡ some (record { messages = record ping { kind = 2 } ∷ []; max_size = 1 })
push_all-last_example = push_all-last (ping ∷ record ping { kind = 2 } ∷ []) 1 (omega arith)
