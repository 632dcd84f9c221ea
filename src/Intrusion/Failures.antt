-- ===== src/Intrusion/Failures.antt =====
-- Failed logins of one user from one address within a minute.
use blackstone.Prelude.{ℕ, zero, suc, ◌+◌, ◌≡◌, min, String, Bool, false, some, List, [], ◌∷◌, leb}
use blackstone.Map.{find, string_key}
use blackstone.Intrusion.{IntrusionDetectionSystem, attempts_of, login_key, check_login_attempt}

-- What a login reads from outside.
pub record Attempt : Type 0 where
  pub clock : ℕ → ℕ
  pub bytes : ℕ → String

abbrev failures : String → IntrusionDetectionSystem → ℕ
failures key s = attempts_of (find key s.failed_attempts)

module _ (sha1 : String → String) (user ip : String) where
  -- Failed logins one after the other, and the answers.
  abbrev pub logins : List Attempt → IntrusionDetectionSystem → IntrusionDetectionSystem × List Bool
  logins [] s = (s, [])
  logins (a ∷ more) s =
      let one = check_login_attempt sha1 a.clock a.bytes user ip false s in
      let rest = logins more one.0 in (rest.0, one.1 ∷ rest.1)

  -- After k of them in a window from `start`, where `before` had been counted.
  abbrev HasFailed : ℕ → ℕ → ℕ → IntrusionDetectionSystem → Type 0
  HasFailed start before k s =
      (find (login_key user ip) s.rate_limits ≡ some (record { count = k; window_start = start }))
      × (failures (login_key user ip) s ≡ before + min k 5)

  -- The answers to n more of them after k.
  abbrev pub answers : ℕ → ℕ → List Bool
  answers k zero = []
  answers k (suc n) = leb (suc k) 5 ∷ answers (suc k) n
