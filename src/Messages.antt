-- ===== src/Messages.antt =====
-- p2p_banking_system/network/message.h and message.cpp. Texts are lists of bytes. The keyed hash of
-- core/sha1.cpp is an argument. The type of a message is the number of its `uint8_t`.
pub mod Wire
pub mod Signed
pub mod Queue
mod Tests
use blackstone.Prelude.{
  ℕ, zero, suc, ◌+◌, ◌-◌, ◌*◌, ◌/◌, ◌%◌, ◌^◌, Bool, true, false, not, ◌&&◌, ◌||◌, Option, none,
  some, List, [], ◌∷◌, ◌++◌, length, eqb, leb, ltb, if◌then◌else◌,
}
use blackstone.Prelude.Words.{word}

pub record NetworkMessage : Type 0 where
  pub kind : ℕ
  pub sender_id : List ℕ
  pub recipient_id : List ℕ
  pub payload : List ℕ
  pub sequence : ℕ
  pub timestamp : ℕ
  pub signature : List ℕ

-- `std::to_string` of a number below 10^20.
pub digits_from : ℕ → ℕ → List ℕ → List ℕ
digits_from zero n acc = acc
digits_from (suc left) n acc =
    let rest = digits_from left (n / 10) ((48 + n % 10) ∷ acc) in
    if ltb n 10 then (48 + n % 10) ∷ acc else rest

abbrev pub decimal : ℕ → List ℕ
decimal n = digits_from 20 n []

abbrev pub bar : ℕ
bar = 124

-- The type is written as a `uint8_t`, which a stream prints as the character with that code.
pub serialize : NetworkMessage → List ℕ
serialize m =
    m.kind ∷ bar ∷ m.sender_id
    ++ bar ∷ m.recipient_id
    ++ bar ∷ m.payload
    ++ bar ∷ decimal m.sequence
    ++ bar ∷ decimal m.timestamp
    ++ bar ∷ m.signature

-- `std::getline` up to a bar: the line, and the rest after the bar.
abbrev pub put_front : ℕ → List ℕ × List ℕ → List ℕ × List ℕ
put_front b r = (b ∷ r.0, r.1)

abbrev pub getline : List ℕ → List ℕ × List ℕ
getline [] = ([], [])
getline (b ∷ bs) = let rest = getline bs in if eqb b bar then ([], bs) else put_front b rest

abbrev pub is_space : ℕ → Bool
is_space b = eqb b 32 || (leb 9 b && leb b 13)

abbrev pub is_digit : ℕ → Bool
is_digit b = leb 48 b && leb b 57

abbrev pub skip_space : List ℕ → List ℕ
skip_space [] = []
skip_space (b ∷ bs) = let rest = skip_space bs in if is_space b then rest else b ∷ bs

infixl 1 ◌>>=◌
abbrev pub ◌>>=◌ : {A B : Type 0} → Option A → (A → Option B) → Option B
none >>= f = none
some a >>= f = f a

-- The digits in front, in base 10; `none` if there is none.
abbrev pub read_digits : Bool → ℕ → List ℕ → Option ℕ
read_digits seen acc [] = if seen then some acc else none
read_digits seen acc (b ∷ bs) =
    let rest = read_digits true (acc * 10 + (b - 48)) bs in
    if is_digit b then rest else if seen then some acc else none

-- The sign, whether it is a minus, and the number: `none` where nothing converts.
abbrev pub read_signed : List ℕ → Bool × Option ℕ
read_signed [] = (false, none)
read_signed (b ∷ bs) =
    if eqb b 45
    then (true, read_digits false 0 bs)
    else if eqb b 43
    then (false, read_digits false 0 bs)
    else (false, read_digits false 0 (b ∷ bs))

-- `std::stoi` converted to `uint8_t`, and `std::stoull`; `none` where they throw.
abbrev pub as_byte : Bool × Option ℕ → Option ℕ
as_byte (minus, none) = none
as_byte (false, some n) = if ltb n (2 ^ 31) then some (n % 256) else none
as_byte (true, some n) = if leb n (2 ^ 31) then some ((2 ^ 32 - n) % 256) else none

abbrev pub as_u64 : Bool × Option ℕ → Option ℕ
as_u64 (minus, none) = none
as_u64 (false, some n) = if ltb n word then some n else none
as_u64 (true, some n) = if ltb n word then some ((word - n) % word) else none

abbrev pub stoi_byte : List ℕ → Option ℕ
stoi_byte text = as_byte (read_signed (skip_space text))

abbrev pub stoull : List ℕ → Option ℕ
stoull text = as_u64 (read_signed (skip_space text))

pub deserialize : List ℕ → Option NetworkMessage
deserialize text =
    let kind = getline text in
    let sender = getline kind.1 in
    let recipient = getline sender.1 in
    let payload = getline recipient.1 in
    let sequence = getline payload.1 in
    let timestamp = getline sequence.1 in
    let signature = getline timestamp.1 in
    do
      k ← stoi_byte kind.0
      n ← stoull sequence.0
      t ← stoull timestamp.0
      some (record {
        kind = k;
        sender_id = sender.0;
        recipient_id = recipient.0;
        payload = payload.0;
        sequence = n;
        timestamp = t;
        signature = signature.0;
      })

-- What `sign` and `verifySignature` hash; here the type is printed as a number.
abbrev pub signed_data : NetworkMessage → List ℕ
signed_data m =
    decimal m.kind
    ++ m.sender_id
    ++ m.recipient_id
    ++ m.payload
    ++ decimal m.sequence
    ++ decimal m.timestamp

abbrev pub same_bytes : List ℕ → List ℕ → Bool
same_bytes [] [] = true
same_bytes [] (y ∷ ys) = false
same_bytes (x ∷ xs) [] = false
same_bytes (x ∷ xs) (y ∷ ys) = eqb x y && same_bytes xs ys

abbrev pub is_empty : {A : Type 0} → List A → Bool
is_empty [] = true
is_empty (x ∷ xs) = false

pub verify_integrity : NetworkMessage → Bool
verify_integrity m = not (is_empty m.signature)

module _ (sha1_hmac : List ℕ → List ℕ → List ℕ) where
  pub sign : List ℕ → NetworkMessage → NetworkMessage
  sign private_key m = record m { signature = sha1_hmac private_key (signed_data m) }

  pub verify_signature : List ℕ → NetworkMessage → Bool
  verify_signature public_key m = same_bytes (sha1_hmac public_key (signed_data m)) m.signature

pub record MessageQueue : Type 0 where
  pub messages : List NetworkMessage
  pub max_size : ℕ

-- `messages.pop()` on an empty queue is undefined: it can only come with a limit of 0.
abbrev pub push_full : NetworkMessage → ℕ → List NetworkMessage → Option MessageQueue
push_full m max [] = none
push_full m max (n ∷ ns) = some (record { messages = ns ++ m ∷ []; max_size = max })

pub push : NetworkMessage → MessageQueue → Option MessageQueue
push m q =
    if leb q.max_size (length q.messages)
    then push_full m q.max_size q.messages
    else some (record q { messages = q.messages ++ m ∷ [] })

abbrev pub pop_front : List NetworkMessage → MessageQueue → MessageQueue × Option NetworkMessage
pop_front [] q = (q, none)
pop_front (n ∷ ns) q = (record q { messages = ns }, some n)

pub pop : MessageQueue → MessageQueue × Option NetworkMessage
pop q = pop_front q.messages q

pub clear : MessageQueue → MessageQueue
clear q = record q { messages = [] }
