-- ===== src/Websocket/Payload.antt =====
-- p2p_banking_system/api/websocket.cpp: the loop that fills the payload.
use mathlib.Core.List.{append_assoc, append-nil}
use blackstone.Prelude.{
  ℕ, zero, suc, ◌+◌, ◌-◌, ◌≤◌, ◌<◌, ◌≡◌, Bool, refl, ap, sym, ◌∙◌, subst, Option, none, some, List,
  [], ◌∷◌, ◌++◌, arith, length, take, drop, eqb, leb, if◌then◌else◌, All, Bool-cases, inl, inr,
  true, false, length-take, length-drop, length-append,
}
use blackstone.Websocket.{Stream, at_once, recv, receive_payload}

abbrev pub flat : Stream → List ℕ
flat [] = []
flat (c ∷ s) = c ++ flat s

-- Segments of one byte or more: a stream that ends without an error.
abbrev pub IsStream : Stream → Type 0
IsStream s = All (λ c. 0 < length c) s

take-drop : (n : ℕ) (xs ys : List ℕ) → take n xs ++ (drop n xs ++ ys) ≡ xs ++ ys
take-drop zero xs ys = refl
take-drop (suc n) [] ys = refl
take-drop (suc n) (x ∷ xs) ys = ap (λ t. x ∷ t) (take-drop n xs ys)

-- One call of `recv`.
abbrev IsReceived : ℕ → Stream → List ℕ × Stream → Type 0
IsReceived n s got = (length got.0 ≤ n) × (got.0 ++ flat got.1 ≡ flat s) × IsStream got.1

recv-IsReceived : (n : ℕ) (s : Stream) → IsStream s → IsReceived n s (recv n s)
recv-IsReceived n [] h = (omega arith, refl, tt)
recv-IsReceived n (c ∷ s) h = elim (Bool-cases (leb (length c) (at_once n))) [
  | inl e ↦ rw e (ground arith, refl, h.1)
  | inr e ↦ rw e (
    ground (arith, length-take (at_once n) c),
    take-drop (at_once n) c (flat s),
    (ground (arith, length-drop (at_once n) c), h.1),
  )
]

recv-some :
    (n : ℕ) (s : Stream) → IsStream s → 0 < n → 0 < length (flat s) → 0 < length (recv n s).0
recv-some n [] h k l = absurd (omega arith)
recv-some n (c ∷ s) h k l = ground (arith, length-take (at_once n) c)

split_take :
    (n : ℕ) (xs ys : List ℕ) → length xs ≤ n → take n (xs ++ ys) ≡ xs ++ take (n - length xs) ys
split_take n [] ys h = ap (λ m. take m ys) (omega arith)
split_take zero (x ∷ xs) ys h = absurd (omega arith)
split_take (suc n) (x ∷ xs) ys h =
    ap (λ t. x ∷ t) (split_take n xs ys (omega arith) ∙ ap (λ m. xs ++ take m ys) (omega arith))

split_drop : (n : ℕ) (xs ys : List ℕ) → length xs ≤ n → drop n (xs ++ ys) ≡ drop (n - length xs) ys
split_drop n [] ys h = ap (λ m. drop m ys) (omega arith)
split_drop zero (x ∷ xs) ys h = absurd (omega arith)
split_drop (suc n) (x ∷ xs) ys h =
    split_drop n xs ys (omega arith) ∙ ap (λ m. drop m ys) (omega arith)

-- What the loop returns, in terms of the bytes of the stream alone.
abbrev pub IsTaken : ℕ → List ℕ → List ℕ → Option (List ℕ) × Stream → Type 0
IsTaken left acc bytes r =
    (r.0 ≡ (if leb left (length bytes) then some (acc ++ take left bytes) else none))
    × (flat r.1 ≡ drop left bytes)
    × IsStream r.1

IsTaken-zero :
    (left : ℕ) (acc : List ℕ) (s : Stream)
    → IsStream s
    → left ≡ 0
    → IsTaken left acc (flat s) (some acc, s)
IsTaken-zero left acc s h e =
    rw (e, at_least_zero (length (flat s))) (ap some (sym (append-nil acc)), refl, h)
  where
    at_least_zero : (n : ℕ) → leb 0 n ≡ true
    at_least_zero n = ground arith

-- No byte came: the stream is at its end.
IsTaken-none :
    (left : ℕ) (acc : List ℕ) (s : Stream)
    → IsStream s
    → 0 < left
    → length (recv left s).0 ≡ 0
    → IsTaken left acc (flat s) (none, (recv left s).1)
IsTaken-none left acc [] h l z = (ground arith, sym (drop_nil left), tt)
  where
    drop_nil : (n : ℕ) → drop {A = ℕ} n [] ≡ []
    drop_nil zero = refl
    drop_nil (suc n) = refl
IsTaken-none left acc (c ∷ s) h l z =
    absurd
      (omega (arith, recv-some left (c ∷ s) h l (omega (arith, h.0, length-append c (flat s)))))

IsTaken-step :
    (left : ℕ) (acc got bytes : List ℕ) (r : Option (List ℕ) × Stream)
    → length got ≤ left
    → IsTaken (left - length got) (acc ++ got) bytes r
    → IsTaken left acc (got ++ bytes) r
IsTaken-step left acc got bytes r h t =
    rw
      (
        split_take left got bytes h,
        split_drop left got bytes h,
        length-append got bytes,
        fits (length got) (length bytes) h,
      )
      (rw (sym (append_assoc acc got (take (left - length got) bytes))) t)
  where
    fits : (n m : ℕ) → n ≤ left → leb left (n + m) ≡ leb (left - n) m
    fits n m h = ground arith

-- The loop ends within as many rounds as bytes are asked for, and what it returns does not depend on
-- how the stream is cut into segments of one byte or more: the next `left` bytes, or `closed` if the
-- stream has not that many; what follows is left in the stream.
pub receive_payload_ends :
    (fuel left : ℕ) (acc : List ℕ) (s : Stream)
    → IsStream s
    → left ≤ fuel
    → IsTaken left acc (flat s) (receive_payload fuel left acc s)
unfolding receive_payload
receive_payload_ends zero left acc s h l = IsTaken-zero left acc s h (omega arith)
receive_payload_ends (suc fuel) left acc s h l =
    go
      (λ p.
        receive_payload_ends fuel (left - length (recv left s).0) (acc ++ (recv left s).0)
          (recv left s).1 (recv-IsReceived left s h).2 p)
      (eqb left 0) refl (eqb (length (recv left s).0) 0) refl
  where
    got : List ℕ × Stream
    got = recv left s

    is : IsReceived left s got
    is = recv-IsReceived left s h

    rest : Option (List ℕ) × Stream
    rest = receive_payload fuel (left - length got.0) (acc ++ got.0) got.1

    go :
        (left - length got.0 ≤ fuel
          → IsTaken (left - length got.0) (acc ++ got.0) (flat got.1) rest)
        → (x : Bool) → eqb left 0 ≡ x
        → (y : Bool) → eqb (length got.0) 0 ≡ y
        → IsTaken left acc (flat s) (elim x [
          | true ↦ (some acc, s)
          | false ↦ elim y [ true ↦ (none, got.1) | false ↦ rest ]
        ])
    go ih true e y f = IsTaken-zero left acc s h (ground arith)
    go ih false e true f = IsTaken-none left acc s h (ground arith) (ground arith)
    go ih false e false f =
        subst (λ b. IsTaken left acc b rest) is.1
          (IsTaken-step left acc got.0 (flat got.1) rest is.0 (ih (ground arith)))
