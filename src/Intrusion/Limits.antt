-- ===== src/Intrusion/Limits.antt =====
-- Attempts within one window of a rate limit.
use blackstone.Prelude.{
  ℕ, suc, ◌+◌, ◌<◌, ◌≤◌, ◌≡◌, refl, ap, String, Bool, false, none, some, List, [], ◌∷◌, arith, ltb,
  length, All,
}
use blackstone.Prelude.Words.{word, inc64, sub64}
use blackstone.Map.{find, string_key, find-insert_self}
use blackstone.Intrusion.{IntrusionDetectionSystem, is_rate_limited, set_limit}

-- Attempts under one key at the times of a list: the answers, in order.
pub attempts :
    String → ℕ → ℕ → List ℕ → IntrusionDetectionSystem → IntrusionDetectionSystem × List Bool
attempts key max_attempts window [] s = (s, [])
attempts key max_attempts window (t ∷ ts) s =
    let (s', limited) = is_rate_limited key max_attempts window t s in
    let (s'', rest) = attempts key max_attempts window ts s' in (s'', limited ∷ rest)

-- Which of the next n attempts are beyond the maximum, when the first of them is the k-th.
abbrev pub beyond : ℕ → ℕ → List ℕ → List Bool
beyond max_attempts k [] = []
beyond max_attempts k (t ∷ ts) = ltb max_attempts k ∷ beyond max_attempts (suc k) ts

abbrev pub IsWithin : ℕ → ℕ → ℕ → Type 0
IsWithin start window t = (start ≤ t) × (t ≤ start + window) × (t < word)

pub limited-within :
    (key : String) (max_attempts window t count start : ℕ) (s : IntrusionDetectionSystem)
    → find key s.rate_limits ≡ some (record { count = count; window_start = start })
    → IsWithin start window t
    → suc count < word
    → is_rate_limited key max_attempts window t s
      ≡ (set_limit key (suc count) start s, ltb max_attempts (suc count))
unfolding is_rate_limited
limited-within key max_attempts window t count start s at h small =
    let recent : ltb window (sub64 t start) ≡ false = ground (arith, h.0, h.1, h.2) in
    let up : inc64 count ≡ suc count = omega arith in rw at (rw (recent, up) refl)

attempts-within :
    (key : String) (max_attempts window count start : ℕ) (ts : List ℕ)
    (s : IntrusionDetectionSystem)
    → find key s.rate_limits ≡ some (record { count = count; window_start = start })
    → All (IsWithin start window) ts
    → count + length ts < word
    → (attempts key max_attempts window ts s).1 ≡ beyond max_attempts (suc count) ts
unfolding attempts
attempts-within key max_attempts window count start [] s at h small = refl
attempts-within key max_attempts window count start (t ∷ ts) s at (h, hs) small =
    let next = set_limit key (suc count) start s in
    rw (limited-within key max_attempts window t count start s at h (omega arith)) (
      ap (◌∷◌ (ltb max_attempts (suc count))) (
        attempts-within key max_attempts window (suc count) start ts next
          (find-insert_self key (record { count = suc count; window_start = start }) s.rate_limits)
          hs (omega arith)))

-- The first attempt under a key is let through, and of the attempts in the window that it opens
-- just those are limited that come after the first `max_attempts`, if that is not 0, the clock
-- stays below 2^64 and there are fewer than 2^64 attempts.
pub attempts-beyond :
    (key : String) (max_attempts window start : ℕ) (ts : List ℕ) (s : IntrusionDetectionSystem)
    → find key s.rate_limits ≡ none
    → All (IsWithin start window) ts
    → 1 + length ts < word
    → 0 < max_attempts
    → (attempts key max_attempts window (start ∷ ts) s).1 ≡ beyond max_attempts 1 (start ∷ ts)
unfolding attempts is_rate_limited
attempts-beyond key max_attempts window start ts s at h small some_allowed =
    let first : ltb max_attempts 1 ≡ false = ground arith in
    rw (at, first)
      (ap (◌∷◌ false) (
        attempts-within key max_attempts window 1 start ts (set_limit key 1 start s)
          (find-insert_self key (record { count = 1; window_start = start }) s.rate_limits) h
          small))
