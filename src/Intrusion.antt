-- ===== src/Intrusion.antt =====
-- p2p_banking_system/security/intrusion_detection.h and intrusion_detection.cpp. A method that reads
-- the clock takes what it shows: `clock i` is the i-th reading of the call. `sha1` and the random
-- `bytes` of an alert are arguments too. A packet is the list of its bytes. The methods that change
-- the maps do not take the mutex; their calls are modelled one after the other.
pub mod Limits
pub mod Logins
pub mod Failures
pub mod Alerts
mod Tests
use Prim.Native.String.{◌++◌ as append}
use blackstone.Prelude.{
  ℕ, zero, suc, ◌+◌, ◌-◌, ◌/◌, ◌%◌, String, Bool, true, false, not, Option, none, some, List, [],
  ◌∷◌, ◌++◌, eqb, ltb, if◌then◌else◌, length, drop, keep_if, count_if,
}
use blackstone.Prelude.Decimal.{to_string}
use blackstone.Prelude.Words.{add64, sub64, inc64}
use blackstone.Map.{Key, ◌==◌, Map, find, insert, erase, string_key}

pub record IntrusionAlert : Type 0 where
  pub alert_id : String
  pub severity : String
  pub kind : String
  pub source : String
  pub details : String
  pub timestamp : ℕ
  pub acknowledged : Bool

pub record RateLimit : Type 0 where
  pub count : ℕ
  pub window_start : ℕ

pub record IntrusionDetectionSystem : Type 0 where
  pub rate_limits : Map String RateLimit
  pub alerts : List IntrusionAlert
  pub failed_attempts : Map String ℕ
  pub ban_expiry : Map String ℕ

pub new_system : IntrusionDetectionSystem
new_system = record { rate_limits = []; alerts = []; failed_attempts = []; ban_expiry = [] }

abbrev pub set_limit : String → ℕ → ℕ → IntrusionDetectionSystem → IntrusionDetectionSystem
set_limit key count since s = record s {
  rate_limits = insert key (record { count = count; window_start = since }) s.rate_limits;
}

abbrev pub limit_found :
    String
    → ℕ
    → ℕ
    → ℕ
    → IntrusionDetectionSystem
    → Option RateLimit
    → IntrusionDetectionSystem × Bool
limit_found key max_attempts window now s none = (set_limit key 1 now s, false)
limit_found key max_attempts window now s (some r) =
    if ltb window (sub64 now r.window_start)
    then (set_limit key 1 now s, false)
    else (set_limit key (inc64 r.count) r.window_start s, ltb max_attempts (inc64 r.count))

pub is_rate_limited :
    String → ℕ → ℕ → ℕ → IntrusionDetectionSystem → IntrusionDetectionSystem × Bool
is_rate_limited key max_attempts window now s =
    limit_found key max_attempts window now s (find key s.rate_limits)

abbrev pub login_key : String → String → String
login_key user ip = append (append (append "login:" user) ":") ip

-- `failedAttempts[key]`
abbrev pub attempts_of : Option ℕ → ℕ
attempts_of none = 0
attempts_of (some n) = n

-- `nullCount`
abbrev pub is_null : ℕ → Bool
is_null c = eqb c 0

pub push_alert : IntrusionAlert → List IntrusionAlert → List IntrusionAlert
push_alert a alerts =
    let pushed = alerts ++ a ∷ [] in if ltb 10000 (length pushed) then drop 1 pushed else pushed

module _ (sha1 : String → String) (clock : ℕ → ℕ) (bytes : ℕ → String) where
  -- The alert that an operation makes with the i-th reading of the clock and the one after it, and
  -- the j-th random bytes.
  abbrev pub alert : String → String → String → String → ℕ → ℕ → IntrusionAlert
  alert severity kind source details i j = record {
    alert_id =
        sha1
          (append (append (append (append severity kind) source) (to_string (clock i))) (bytes j));
    severity = severity;
    kind = kind;
    source = source;
    details = details;
    timestamp = clock (i + 1);
    acknowledged = false;
  }

  pub add_alert :
      String
      → String
      → String
      → String
      → ℕ
      → ℕ
      → IntrusionDetectionSystem
      → IntrusionDetectionSystem
  unfolding push_alert
  add_alert severity kind source details i j s = record s {
    alerts = push_alert (alert severity kind source details i j) s.alerts;
  }

  pub ban_ip : String → ℕ → ℕ → ℕ → IntrusionDetectionSystem → IntrusionDetectionSystem
  unfolding add_alert
  ban_ip ip duration i j s =
      let banned = record s { ban_expiry = insert ip (add64 (clock i) duration) s.ban_expiry } in
      add_alert "HIGH" "IP_BANNED" ip
        (append (append "IP address banned for " (to_string duration)) "ms") (i + 1) j banned

  -- A failed attempt, after the test of its rate.
  abbrev pub failed :
      String → String → IntrusionDetectionSystem × Bool → IntrusionDetectionSystem × Bool
  failed user ip (s, limited) =
      let key = login_key user ip in
      let n = inc64 (attempts_of (find key s.failed_attempts)) in
      let counted = record s { failed_attempts = insert key n s.failed_attempts } in
      if limited
      then (
        ban_ip ip 300000 3 1 (
            add_alert "HIGH" "BRUTE_FORCE" ip
              (append "Multiple failed login attempts for user " user) 1 0 s),
        false,
      )
      else if ltb 10 n
      then (ban_ip ip 3600000 1 0 counted, true)
      else (counted, true)

  pub check_login_attempt :
      String → String → Bool → IntrusionDetectionSystem → IntrusionDetectionSystem × Bool
  unfolding ban_ip add_alert is_rate_limited
  check_login_attempt user ip success s =
      let key = login_key user ip in
      if success
      then (record s { failed_attempts = erase key s.failed_attempts }, true)
      else failed user ip (is_rate_limited key 5 60000 (clock 0) s)

  abbrev pub rate_checked :
      String → IntrusionDetectionSystem × Bool → IntrusionDetectionSystem × Bool
  rate_checked ip (s, limited) =
      if limited
      then (add_alert "MEDIUM" "RATE_LIMIT" ip "Exceeded request rate limit" 1 0 s, false)
      else (s, true)

  pub check_request_rate :
      String → ℕ → ℕ → IntrusionDetectionSystem → IntrusionDetectionSystem × Bool
  unfolding add_alert is_rate_limited
  check_request_rate ip max_requests window s =
      rate_checked ip (is_rate_limited (append "rate:" ip) max_requests window (clock 0) s)

  pub check_packet_anomaly : List ℕ → IntrusionDetectionSystem → IntrusionDetectionSystem × Bool
  unfolding add_alert
  check_packet_anomaly packet s =
      if ltb 1000000 (length packet)
      then (
        add_alert "HIGH" "PACKET_SIZE" ""
            (append (append "Oversized packet detected: " (to_string (length packet))) " bytes") 0 0
            s,
        false,
      )
      else if ltb (length packet / 2) (count_if is_null packet)
      then (add_alert "MEDIUM" "NULL_FLOOD" "" "Excessive null bytes in packet" 0 0 s, false)
      else (s, true)

abbrev pub expires_after : ℕ → Option ℕ → Bool
expires_after now none = false
expires_after now (some expiry) = ltb now expiry

pub is_ip_banned : String → ℕ → IntrusionDetectionSystem → Bool
is_ip_banned ip now s = expires_after now (find ip s.ban_expiry)

pub unban_ip : String → IntrusionDetectionSystem → IntrusionDetectionSystem
unban_ip ip s = record s { ban_expiry = erase ip s.ban_expiry }

-- The last `count` alerts.
pub get_recent_alerts : ℕ → IntrusionDetectionSystem → List IntrusionAlert
get_recent_alerts count s = drop (length s.alerts - count) s.alerts

abbrev pub is_pending : IntrusionAlert → Bool
is_pending a = not a.acknowledged

pub get_unacknowledged_alerts : IntrusionDetectionSystem → List IntrusionAlert
get_unacknowledged_alerts s = keep_if is_pending s.alerts

-- The first alert of the id.
pub acknowledge : String → List IntrusionAlert → List IntrusionAlert
acknowledge id [] = []
acknowledge id (a ∷ alerts) =
    let rest = acknowledge id alerts in
    if a.alert_id == id then record a { acknowledged = true } ∷ alerts else a ∷ rest

pub acknowledge_alert : String → IntrusionDetectionSystem → IntrusionDetectionSystem
unfolding acknowledge
acknowledge_alert id s = record s { alerts = acknowledge id s.alerts }

pub pop_old : ℕ → ℕ → List IntrusionAlert → List IntrusionAlert
pop_old max_age now [] = []
pop_old max_age now (a ∷ alerts) =
    let rest = pop_old max_age now alerts in
    if ltb max_age (sub64 now a.timestamp) then rest else a ∷ alerts

pub clear_old_alerts : ℕ → ℕ → IntrusionDetectionSystem → IntrusionDetectionSystem
unfolding pop_old
clear_old_alerts max_age now s = record s { alerts = pop_old max_age now s.alerts }

-- A call, with what the clock shows and the random bytes where it uses them.
pub data Call : Type 0 where
  checks_login : (user ip : String) (success : Bool) (clock : ℕ → ℕ) (bytes : ℕ → String) → Call
  checks_rate : (ip : String) (max_requests window : ℕ) (clock : ℕ → ℕ) (bytes : ℕ → String) → Call
  checks_packet : (packet : List ℕ) (clock : ℕ → ℕ) (bytes : ℕ → String) → Call
  bans : (ip : String) (duration : ℕ) (clock : ℕ → ℕ) (bytes : ℕ → String) → Call
  unbans acknowledges : String → Call
  clears_old : (max_age now : ℕ) → Call

module _ (sha1 : String → String) where
  pub step : IntrusionDetectionSystem → Call → IntrusionDetectionSystem
  unfolding check_login_attempt check_request_rate check_packet_anomaly ban_ip unban_ip
      acknowledge_alert clear_old_alerts
  step s (checks_login user ip success clock bytes) =
      (check_login_attempt sha1 clock bytes user ip success s).0
  step s (checks_rate ip max_requests window clock bytes) =
      (check_request_rate sha1 clock bytes ip max_requests window s).0
  step s (checks_packet packet clock bytes) = (check_packet_anomaly sha1 clock bytes packet s).0
  step s (bans ip duration clock bytes) = ban_ip sha1 clock bytes ip duration 0 0 s
  step s (unbans ip) = unban_ip ip s
  step s (acknowledges id) = acknowledge_alert id s
  step s (clears_old max_age now) = clear_old_alerts max_age now s

  pub run : IntrusionDetectionSystem → List Call → IntrusionDetectionSystem
  unfolding step
  run s [] = s
  run s (c ∷ cs) = run (step s c) cs
