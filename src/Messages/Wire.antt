-- ===== src/Messages/Wire.antt =====
-- p2p_banking_system/network/message.cpp: a message that is written is not read.
use blackstone.Prelude.{
  ℕ, ◌≤◌, ◌<◌, ◌≡◌, refl, false, none, List, [], ◌∷◌, arith, eqb, inl, inr, Bool-cases,
}
use blackstone.Messages.{
  NetworkMessage, serialize, deserialize, getline, bar, is_space, is_digit, stoi_byte,
}

-- A text of one byte that is a control character is no number.
stoi_byte-control : (b : ℕ) → b < 32 → stoi_byte (b ∷ []) ≡ none
stoi_byte-control b h = elim (Bool-cases (is_space b)) [
  | inl e ↦ rw e refl
  | inr e ↦ rw (e, not_minus, not_plus, not_digit) refl
]
  where
    not_minus : eqb b 45 ≡ false
    not_minus = ground arith

    not_plus : eqb b 43 ≡ false
    not_plus = ground arith

    not_digit : is_digit b ≡ false
    not_digit = ground arith

getline-front : (b : ℕ) (rest : List ℕ) → b < 32 → getline (b ∷ bar ∷ rest) ≡ (b ∷ [], rest)
getline-front b rest h = let e : eqb b 124 ≡ false = ground arith in rw e refl

-- deserialize throws on what serialize writes, whatever the message: each of the types, from 0x01 to
-- 0x10, is written as a control character and read as a number.
pub deserialize-serialize :
    (m : NetworkMessage) → 1 ≤ m.kind → m.kind ≤ 0x10 → deserialize (serialize m) ≡ none
unfolding deserialize serialize
deserialize-serialize m l h =
    rw (getline-front m.kind _ (omega arith)) (rw (stoi_byte-control m.kind (omega arith)) refl)
