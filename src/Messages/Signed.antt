-- ===== src/Messages/Signed.antt =====
-- p2p_banking_system/network/message.cpp: what a signature covers.
use mathlib.Core.List.{append_assoc}
use blackstone.Prelude.{ℕ, ◌≡◌, refl, sym, ◌∙◌, ap, true, List, [], ◌∷◌, ◌++◌, arith}
use blackstone.Messages.{NetworkMessage, decimal, signed_data, same_bytes, sign, verify_signature}

same_bytes_refl : (xs : List ℕ) → same_bytes xs xs ≡ true
same_bytes_refl [] = refl
same_bytes_refl (x ∷ xs) = ground (arith, same_bytes_refl xs)

-- The fields are hashed without a mark between them.
signed_data-moved :
    (m : NetworkMessage) (front moved : List ℕ)
    → m.sender_id ≡ front ++ moved
    → signed_data (record m { sender_id = front; recipient_id = moved ++ m.recipient_id })
      ≡ signed_data m
signed_data-moved m front moved e =
    let d = decimal m.kind in
    ap (λ t. t ++ m.payload ++ decimal m.sequence ++ decimal m.timestamp)
      (sym (append_assoc (d ++ front) moved m.recipient_id)
        ∙ ap (λ t. t ++ m.recipient_id) (append_assoc d front moved ∙ ap (λ t. d ++ t) (sym e)))

module _ (sha1_hmac : List ℕ → List ℕ → List ℕ) where
  -- A signed message verifies under the key that signed it, whatever the keyed hash; and so does the
  -- message in which the end of the sender's name has been moved to the front of the recipient's.
  pub verify_signature-sign :
      (key front moved : List ℕ) (m : NetworkMessage)
      → m.sender_id ≡ front ++ moved
      → (verify_signature sha1_hmac key (sign sha1_hmac key m) ≡ true)
        × (verify_signature sha1_hmac key (record (sign sha1_hmac key m) {
          sender_id = front;
          recipient_id = moved ++ m.recipient_id;
        })
            ≡ true)
  unfolding verify_signature sign
  verify_signature-sign key front moved m e = (
    same_bytes_refl (sha1_hmac key (signed_data m)),
    ap (λ d. same_bytes (sha1_hmac key d) (sha1_hmac key (signed_data m)))
          (signed_data-moved m front moved e)
        ∙ same_bytes_refl (sha1_hmac key (signed_data m)),
  )
