-- ===== src/Intrusion/Tests.antt =====
-- Concrete attempts, with a hash that returns its argument.
use blackstone.Prelude.{
  ℕ, ◌+◌, ◌≤◌, ◌≡◌, refl, String, true, false, some, List, [], ◌∷◌, arith, length,
}
use blackstone.Map.{find, string_key}
use blackstone.Intrusion.{
  IntrusionDetectionSystem, new_system, login_key, ban_ip, check_login_attempt,
  check_packet_anomaly, is_ip_banned, unban_ip, checks_login, bans, run,
}
use blackstone.Intrusion.Limits.{attempts, attempts-beyond}
use blackstone.Intrusion.Logins.{
  check_login_attempt_fails, ban_ip_until, check_packet_anomaly_passes,
}
use blackstone.Intrusion.Failures.{Attempt}
use blackstone.Intrusion.Alerts.{run-alerts}

abbrev sha1 : String → String
sha1 s = s

abbrev clock : ℕ → ℕ
clock i = 2000 + i

abbrev bytes : ℕ → String
bytes i = "noise"

attempts-beyond_at :
    (attempts "rate:a" 2 10 (100 ∷ 101 ∷ 110 ∷ []) new_system).1 ≡ false ∷ false ∷ true ∷ []
unfolding find new_system
attempts-beyond_at =
    attempts-beyond "rate:a" 2 10 100 (101 ∷ 110 ∷ []) new_system refl (omega arith) (omega arith)
      (omega arith)

abbrev five_failed : IntrusionDetectionSystem
five_failed = record {
  rate_limits = (login_key "ann" "a", record { count = 5; window_start = 1000 }) ∷ [];
  alerts = [];
  failed_attempts = (login_key "ann" "a", 5) ∷ [];
  ban_expiry = [];
}

check_login_attempt_fails_at :
    let (s', passed) = check_login_attempt sha1 clock bytes "ann" "a" false five_failed in
    (passed ≡ false) × (find "a" s'.ban_expiry ≡ some 302003)
unfolding find
check_login_attempt_fails_at =
    check_login_attempt_fails sha1 clock bytes "ann" "a" five_failed 5 1000 refl (omega arith)
      (omega arith)

abbrev attempt_at : ℕ → Attempt
attempt_at now = record { clock = λ i. now + i; bytes = bytes }

abbrev more_attempts : List Attempt
more_attempts =
    attempt_at 2100 ∷ attempt_at 2200 ∷ attempt_at 2200 ∷ attempt_at 3000 ∷ attempt_at 62000 ∷ []

ban_ip_until_at :
    let banned = ban_ip sha1 clock bytes "a" 500 0 0 five_failed in
    (is_ip_banned "a" 2499 banned ≡ true) × (is_ip_banned "a" 2499 (unban_ip "a" banned) ≡ false)
ban_ip_until_at = ban_ip_until sha1 clock bytes "a" "a" 500 2499 five_failed

null_packet :
    let (s', passed) = check_packet_anomaly sha1 clock bytes (0 ∷ 7 ∷ 0 ∷ []) five_failed in
    (passed ≡ false)
    × (s'.ban_expiry ≡ five_failed.ban_expiry)
    × (s'.rate_limits ≡ five_failed.rate_limits)
null_packet = check_packet_anomaly_passes sha1 clock bytes (0 ∷ 7 ∷ 0 ∷ []) five_failed

run-alerts_at :
    length
      (run sha1 new_system
        (bans "a" 500 clock bytes ∷ checks_login "ann" "a" false clock bytes ∷ [])).alerts
    ≤ 10000
run-alerts_at =
    run-alerts sha1 (bans "a" 500 clock bytes ∷ checks_login "ann" "a" false clock bytes ∷ [])
