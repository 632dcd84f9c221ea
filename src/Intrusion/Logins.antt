-- ===== src/Intrusion/Logins.antt =====
-- What failed logins, packets and bans lead to.
use blackstone.Prelude.{
  ℕ, suc, ◌+◌, ◌/◌, ◌%◌, ◌<◌, ◌≡◌, refl, String, false, ◌&&◌, Option, some, List, arith, ltb, leb,
  if◌then◌else◌, length, count_if, Bool-cases, inl, inr,
}
use blackstone.Prelude.Words.{word, inc64, add64}
use blackstone.Map.{◌==◌, find, insert, string_key, find-insert, find-insert_self, find-erase_self}
use blackstone.Intrusion.{
  IntrusionDetectionSystem, set_limit, attempts_of, login_key, is_null, add_alert, ban_ip, failed,
  check_login_attempt, check_packet_anomaly, is_ip_banned, unban_ip,
}
use blackstone.Intrusion.Limits.{IsWithin, limited-within}

-- The expiry of the address's ban after a failed login, where k attempts were counted in the window
-- and n failures since the last success.
abbrev pub ban_after : (ℕ → ℕ) → ℕ → ℕ → Option ℕ → Option ℕ
ban_after clock k n before =
    if ltb 5 k
    then some (add64 (clock 3) 300000)
    else if ltb 10 n
    then some (add64 (clock 1) 3600000)
    else before

module _ (sha1 : String → String) (clock : ℕ → ℕ) (bytes : ℕ → String) where
  failed-ban :
      (user ip : String) (s : IntrusionDetectionSystem) (k : ℕ)
      → let (s', passed) = failed sha1 clock bytes user ip (s, ltb 5 k) in
        let n = inc64 (attempts_of (find (login_key user ip) s.failed_attempts)) in
        (passed ≡ leb k 5) × (find ip s'.ban_expiry ≡ ban_after clock k n (find ip s.ban_expiry))
  unfolding ban_ip add_alert
  failed-ban user ip s k =
      let n = inc64 (attempts_of (find (login_key user ip) s.failed_attempts)) in
      elim (Bool-cases (ltb 5 k)) [
        | inl limited ↦
            rw limited (ground arith, find-insert_self ip (add64 (clock 3) 300000) s.ban_expiry)
        | inr passed ↦ elim (Bool-cases (ltb 10 n)) [
          | inl many ↦
              rw (passed, many)
                (ground arith, find-insert_self ip (add64 (clock 1) 3600000) s.ban_expiry)
          | inr few ↦ rw (passed, few) (ground arith, refl)
        ]
      ]

  -- A failed login in a window of a minute in which c attempts of this user from this address
  -- have been counted, c + 1 below 2^64, is turned away, and the address banned for five minutes,
  -- if it is more than the fifth; otherwise it is let pass and counted, and the address banned for an
  -- hour if more than ten have been counted since the last success.
  pub check_login_attempt_fails :
      (user ip : String) (s : IntrusionDetectionSystem) (c start : ℕ)
      → find (login_key user ip) s.rate_limits ≡ some (record { count = c; window_start = start })
      → IsWithin start 60000 (clock 0)
      → suc c < word
      → let (s', passed) = check_login_attempt sha1 clock bytes user ip false s in
        let n = inc64 (attempts_of (find (login_key user ip) s.failed_attempts)) in
        (passed ≡ leb (suc c) 5)
        × (find ip s'.ban_expiry ≡ ban_after clock (suc c) n (find ip s.ban_expiry))
  unfolding check_login_attempt
  check_login_attempt_fails user ip s c start at h small =
      let key = login_key user ip in
      rw (limited-within key 5 60000 (clock 0) c start s at h small)
        (failed-ban user ip (set_limit key (suc c) start s) (suc c))

  -- A ban holds until its duration has passed since the reading of the clock, which wraps at 2^64,
  -- or until it is lifted; and no other address is banned or freed by it.
  pub ban_ip_until :
      (ip other : String) (duration now : ℕ) (s : IntrusionDetectionSystem)
      → let banned = ban_ip sha1 clock bytes ip duration 0 0 s in
        (is_ip_banned other now banned ≡ (
          if ip == other then ltb now ((clock 0 + duration) % word) else is_ip_banned other now s))
        × (is_ip_banned ip now (unban_ip ip banned) ≡ false)
  unfolding ban_ip add_alert is_ip_banned unban_ip
  ban_ip_until ip other duration now s = (
    ground (arith, find-insert ip other (add64 (clock 0) duration) s.ban_expiry),
    rw (find-erase_self ip (insert ip (add64 (clock 0) duration) s.ban_expiry)) refl,
  )

  -- A packet passes exactly if it has at most 1,000,000 bytes and null bytes are no more than half of
  -- them, rounded down. No ban and no rate limit changes.
  pub check_packet_anomaly_passes :
      (packet : List ℕ) (s : IntrusionDetectionSystem)
      → let (s', passed) = check_packet_anomaly sha1 clock bytes packet s in
        (passed
          ≡ (leb (length packet) 1000000 && leb (count_if is_null packet) (length packet / 2)))
        × (s'.ban_expiry ≡ s.ban_expiry)
        × (s'.rate_limits ≡ s.rate_limits)
  unfolding check_packet_anomaly add_alert
  check_packet_anomaly_passes packet s = elim (Bool-cases (ltb 1000000 (length packet))) [
    | inl big ↦ rw big (ground arith, refl, refl)
    | inr fits ↦ elim (Bool-cases (ltb (length packet / 2) (count_if is_null packet))) [
      | inl empty ↦ rw (fits, empty) (ground arith, refl, refl)
      | inr full ↦ rw (fits, full) (ground arith, refl, refl)
    ]
  ]
