-- ===== src/Messages/Queue.antt =====
-- p2p_banking_system/network/message.cpp: the queue keeps the last messages, in order.
use mathlib.Core.List.{append_assoc, append-nil}
use blackstone.Prelude.{
  ℕ, zero, suc, ◌+◌, ◌-◌, ◌≤◌, ◌<◌, ◌≡◌, refl, ◌∙◌, ap, true, false, Option, some, List, [], ◌∷◌,
  ◌++◌, arith, length, drop, leb, length-append, Bool-cases, inl, inr,
}
use blackstone.Messages.{NetworkMessage, MessageQueue, push, ◌>>=◌}

abbrev pub push_all : List NetworkMessage → MessageQueue → Option MessageQueue
push_all [] q = some q
push_all (m ∷ ms) q = push m q >>= push_all ms

abbrev holding : List NetworkMessage → ℕ → MessageQueue
holding ms max = record { messages = ms; max_size = max }

push-full :
    (m n : NetworkMessage) (ns : List NetworkMessage) (max : ℕ)
    → suc (length ns) ≡ max
    → push m (holding (n ∷ ns) max) ≡ some (holding (ns ++ m ∷ []) max)
unfolding push
push-full m n ns max h = let t : leb max (suc (length ns)) ≡ true = ground arith in rw t refl

push-room :
    (m : NetworkMessage) (ns : List NetworkMessage) (max : ℕ)
    → length ns < max
    → push m (holding ns max) ≡ some (holding (ns ++ m ∷ []) max)
unfolding push
push-room m ns max h = let t : leb max (length ns) ≡ false = ground arith in rw t refl

drop_one :
    (k : ℕ) (n : NetworkMessage) (ns : List NetworkMessage)
    → 0 < k
    → drop (k - 1) ns ≡ drop k (n ∷ ns)
drop_one zero n ns h = absurd (omega arith)
drop_one (suc k) n ns h = ap (λ j. drop j ns) (sub_one k)
  where
    sub_one : (k : ℕ) → suc k - 1 ≡ k
    sub_one k = omega arith

push_all_from :
    (ms ns : List NetworkMessage) (max k : ℕ)
    → 0 < max
    → length ns ≤ max
    → k ≡ length ns + length ms - max
    → push_all ms (holding ns max) ≡ some (holding (drop k (ns ++ ms)) max)
push_all_from [] ns max zero p l e = rw (append-nil ns) refl
push_all_from [] ns max (suc k) p l e = absurd (omega arith)
push_all_from (m ∷ ms) [] max k p l e =
    rw (push-room m [] max p) (push_all_from ms (m ∷ []) max k p (omega arith) (omega arith))
push_all_from (m ∷ ms) (n ∷ ns) max k p l e = elim (Bool-cases (leb max (suc (length ns)))) [
  | inl t ↦ rw (push-full m n ns max (ground arith)) (
      push_all_from ms (ns ++ m ∷ []) max (k - 1) p (ground (arith, length-append ns (m ∷ [])))
        (ground (arith, length-append ns (m ∷ [])))
      ∙ ap (λ t. some (holding (drop (k - 1) t) max)) (append_assoc ns (m ∷ []) ms)
      ∙ ap (λ t. some (holding t max)) (drop_one k n (ns ++ m ∷ ms) (ground arith)))
  | inr t ↦ rw (push-room m (n ∷ ns) max (ground arith)) (
      push_all_from ms (n ∷ ns ++ m ∷ []) max k p (ground (arith, length-append ns (m ∷ [])))
        (omega (arith, length-append ns (m ∷ [])))
      ∙ ap (λ t. some (holding (drop k t) max)) (append_assoc (n ∷ ns) (m ∷ []) ms))
]

-- From an empty queue with room for one message or more, after messages are pushed one by one the
-- queue has the last ones, as many as there is room for, in order.
pub push_all-last :
    (ms : List NetworkMessage) (max : ℕ)
    → 0 < max
    → push_all ms (record { messages = []; max_size = max })
      ≡ some (record { messages = drop (length ms - max) ms; max_size = max })
push_all-last ms max h = push_all_from ms [] max (length ms - max) h (omega arith) (omega arith)
