-- ===== src/Intrusion/Alerts.antt =====
-- How many alerts are kept.
use Prim.Native.String.{◌++◌ as append}
use blackstone.Prelude.{
  ℕ, ◌/◌, ◌≤◌, ◌≡◌, refl, String, Bool, true, false, Option, none, some, List, [], ◌∷◌, ◌++◌, arith,
  ltb, length, count_if, length-append, length-drop, if_both,
}
use blackstone.Prelude.Words.{inc64}
use blackstone.Map.{find, string_key}
use blackstone.Intrusion.{
  IntrusionAlert, IntrusionDetectionSystem, RateLimit, new_system, is_rate_limited, limit_found,
  attempts_of, login_key, is_null, push_alert, add_alert, ban_ip, failed, check_login_attempt,
  rate_checked, check_request_rate, check_packet_anomaly, unban_ip, acknowledge, acknowledge_alert,
  pop_old, clear_old_alerts, Call, checks_login, checks_rate, checks_packet, bans, unbans,
  acknowledges, clears_old, step, run,
}

abbrev IsBounded : IntrusionDetectionSystem → Type 0
IsBounded s = length s.alerts ≤ 10000

limit_found-alerts :
    (key : String) (max_attempts window now : ℕ) (s : IntrusionDetectionSystem)
    (o : Option RateLimit)
    → (limit_found key max_attempts window now s o).0.alerts ≡ s.alerts
limit_found-alerts key max_attempts window now s none = refl
limit_found-alerts key max_attempts window now s (some r) = ground arith

length-acknowledge :
    (id : String) (alerts : List IntrusionAlert) → length (acknowledge id alerts) ≡ length alerts
unfolding acknowledge
length-acknowledge id [] = refl
length-acknowledge id (a ∷ alerts) = ground (arith, length-acknowledge id alerts)

length-pop_old :
    (max_age now : ℕ) (alerts : List IntrusionAlert)
    → length (pop_old max_age now alerts) ≤ length alerts
unfolding pop_old
length-pop_old max_age now [] = omega arith
length-pop_old max_age now (a ∷ alerts) = ground (arith, length-pop_old max_age now alerts)

push_alert-IsBounded :
    (a : IntrusionAlert) (alerts : List IntrusionAlert)
    → length alerts ≤ 10000
    → length (push_alert a alerts) ≤ 10000
unfolding push_alert
push_alert-IsBounded a alerts h =
    ground (arith, length-append alerts (a ∷ []), length-drop 1 (alerts ++ a ∷ []))

module _ (sha1 : String → String) (clock : ℕ → ℕ) (bytes : ℕ → String) where
  ban_ip-IsBounded :
      (ip : String) (duration i j : ℕ) (s : IntrusionDetectionSystem)
      → IsBounded s
      → IsBounded (ban_ip sha1 clock bytes ip duration i j s)
  unfolding ban_ip add_alert
  ban_ip-IsBounded ip duration i j s h = push_alert-IsBounded _ s.alerts h

  failed-IsBounded :
      (user ip : String) (s : IntrusionDetectionSystem) (limited : Bool)
      → IsBounded s
      → IsBounded (failed sha1 clock bytes user ip (s, limited)).0
  unfolding ban_ip add_alert
  failed-IsBounded user ip s true h = push_alert-IsBounded _ _ (push_alert-IsBounded _ s.alerts h)
  failed-IsBounded user ip s false h =
      if_both (λ (r : IntrusionDetectionSystem × Bool). IsBounded r.0)
        (ltb 10 (inc64 (attempts_of (find (login_key user ip) s.failed_attempts))))
        (push_alert-IsBounded _ s.alerts h) h

  check_packet_anomaly-IsBounded :
      (packet : List ℕ) (s : IntrusionDetectionSystem)
      → IsBounded s
      → IsBounded (check_packet_anomaly sha1 clock bytes packet s).0
  unfolding check_packet_anomaly add_alert
  check_packet_anomaly-IsBounded packet s h =
      if_both (λ (r : IntrusionDetectionSystem × Bool). IsBounded r.0) (ltb 1000000 (length packet))
        (push_alert-IsBounded _ s.alerts h)
        (if_both (λ (r : IntrusionDetectionSystem × Bool). IsBounded r.0)
          (ltb (length packet / 2) (count_if is_null packet)) (push_alert-IsBounded _ s.alerts h) h)

  rate_checked-IsBounded :
      (ip : String) (s : IntrusionDetectionSystem) (limited : Bool)
      → IsBounded s
      → IsBounded (rate_checked sha1 clock bytes ip (s, limited)).0
  unfolding add_alert
  rate_checked-IsBounded ip s true h = push_alert-IsBounded _ s.alerts h
  rate_checked-IsBounded ip s false h = h

rate_limited-IsBounded :
    (key : String) (max_attempts window now : ℕ) (s : IntrusionDetectionSystem)
    → IsBounded s
    → IsBounded (is_rate_limited key max_attempts window now s).0
unfolding is_rate_limited
rate_limited-IsBounded key max_attempts window now s h =
    rw (limit_found-alerts key max_attempts window now s (find key s.rate_limits)) h

step-IsBounded :
    (sha1 : String → String) (s : IntrusionDetectionSystem) (c : Call)
    → IsBounded s
    → IsBounded (step sha1 s c)
unfolding step check_login_attempt check_request_rate unban_ip acknowledge_alert clear_old_alerts
step-IsBounded sha1 s (checks_login user ip true clock bytes) h = h
step-IsBounded sha1 s (checks_login user ip false clock bytes) h =
    let (s', limited) = is_rate_limited (login_key user ip) 5 60000 (clock 0) s in
    failed-IsBounded sha1 clock bytes user ip s' limited
      (rate_limited-IsBounded (login_key user ip) 5 60000 (clock 0) s h)
step-IsBounded sha1 s (checks_rate ip max_requests window clock bytes) h =
    let (s', limited) = is_rate_limited (append "rate:" ip) max_requests window (clock 0) s in
    rate_checked-IsBounded sha1 clock bytes ip s' limited
      (rate_limited-IsBounded (append "rate:" ip) max_requests window (clock 0) s h)
step-IsBounded sha1 s (checks_packet packet clock bytes) h =
    check_packet_anomaly-IsBounded sha1 clock bytes packet s h
step-IsBounded sha1 s (bans ip duration clock bytes) h =
    ban_ip-IsBounded sha1 clock bytes ip duration 0 0 s h
step-IsBounded sha1 s (unbans ip) h = h
step-IsBounded sha1 s (acknowledges id) h = omega (arith, length-acknowledge id s.alerts)
step-IsBounded sha1 s (clears_old max_age now) h =
    omega (arith, length-pop_old max_age now s.alerts)

run_from-IsBounded :
    (sha1 : String → String) (s : IntrusionDetectionSystem) (cs : List Call)
    → IsBounded s
    → IsBounded (run sha1 s cs)
unfolding run
run_from-IsBounded sha1 s [] h = h
run_from-IsBounded sha1 s (c ∷ cs) h =
    run_from-IsBounded sha1 (step sha1 s c) cs (step-IsBounded sha1 s c h)

-- After any calls on a new system, at most 10,000 alerts are kept.
pub run-alerts :
    (sha1 : String → String) (cs : List Call) → length (run sha1 new_system cs).alerts ≤ 10000
unfolding new_system
run-alerts sha1 cs = run_from-IsBounded sha1 new_system cs (omega arith)
