-- ===== src/Session/Tests.antt =====
-- Runs of the session table, and its theorems at inputs that meet their hypotheses.
use blackstone.Prelude.{
  ℕ, ◌+◌, ◌<◌, ◌≡◌, refl, true, false, none, some, List, [], ◌∷◌, ◌++◌, arith, get_elem?, eqb,
  if◌then◌else◌,
}
use blackstone.Prelude.Int.{pos, ◌+ℤ◌, ◌-ℤ◌}
use blackstone.Session.{
  SessionKey, SessionManager, CryptoContext, Bytes, Call, creates, gets, destroys, cleans, step,
  run, init, empty_key, create_session, get_session_key, destroy_session, cleanup_expired_sessions,
  cleanup_from, session_exists, slot_of, find_free, derive_session_key, zeros, key_bytes,
}
use blackstone.Session.Invariant.{IsValid, run-IsValid, init-IsValid}
use blackstone.Session.Lifecycle.{
  SameBut, create_session_fills, create_session_get, create_session_expires,
}
use blackstone.Session.Ends.{emptied_at, swept, destroy_session_ends, cleanup_expired_sessions_keys}

abbrev kdf : Bytes → Bytes → Bytes
kdf password salt = password ++ salt ++ zeros 64

abbrev context : CryptoContext
context = record { initialized = true; salt = zeros 32; current_key = 7 ∷ 8 ∷ [] }

abbrev calls : List Call
calls =
    creates (5 ∷ []) (pos 10) (pos 100) (pos 100) (pos 100) []
    ∷ creates (6 ∷ []) (pos 60) (pos 101) (pos 101) (pos 101) []
    ∷ gets (pos 1) (pos 105) (pos 105)
    ∷ cleans (pos 120)
    ∷ destroys (pos 2)
    ∷ destroys (pos 2)
    ∷ []

-- Two sessions come and go: one swept, one destroyed, and the second destruction does nothing.
run-calls :
    let m = run kdf context init calls in
    (m.count ≡ pos 0) × (m.total_sessions_created ≡ 2) × (m.total_sessions_destroyed ≡ 2)
unfolding run step init empty_key create_session get_session_key destroy_session
    cleanup_expired_sessions cleanup_from slot_of find_free derive_session_key ◌+ℤ◌ ◌-ℤ◌
run-calls = (refl, refl, refl)

run-IsValid_example : IsValid (run kdf context init calls)
run-IsValid_example = run-IsValid kdf context calls

abbrev first : SessionManager × ℕ
first = create_session kdf context init (5 ∷ []) (pos 10) (pos 100) (pos 100) (pos 100) []

abbrev created : SessionManager
created = first.0

create_session_fills_example :
    (m' : SessionManager) × (i : ℕ) × (first ≡ (m', i + 1))
    × (i < 32)
    × (session_exists init (pos (i + 1)) ≡ false)
    × (session_exists m' (pos (i + 1)) ≡ true)
    × SameBut i init m'
unfolding init
create_session_fills_example =
    create_session_fills kdf context init (5 ∷ []) (pos 10) (pos 100) (pos 100) (pos 100) []
      init-IsValid refl (omega arith) (omega arith)

first_id : first ≡ (created, 1)
unfolding create_session init find_free
first_id = refl

create_session_get_example :
    let r = get_session_key context created (pos 1) (pos 110) (pos 111) in
    (r.1 ≡ some (derive_session_key kdf context (5 ∷ []))) × (session_exists r.0 (pos 1) ≡ true)
unfolding ◌+ℤ◌
create_session_get_example =
    create_session_get kdf context init created (5 ∷ []) (pos 10) (pos 100) (pos 100) (pos 100) [] 0
      (pos 110) (pos 111) init-IsValid first_id (omega arith)

create_session_expires_example :
    let r = get_session_key context created (pos 1) (pos 111) (pos 111) in
    (r.1 ≡ none)
    × (session_exists r.0 (pos 1) ≡ false)
    × ((k : SessionKey) × (get_elem? r.0.keys 0 ≡ some k)
        × (k.session_key ≡ zeros key_bytes)
        × (k.hmac_key ≡ zeros key_bytes))
unfolding ◌+ℤ◌
create_session_expires_example =
    create_session_expires kdf context init created (5 ∷ []) (pos 10) (pos 100) (pos 100) (pos 100)
      [] 0 (pos 111) (pos 111) init-IsValid first_id (omega arith)

destroy_session_ends_at :
    let m = destroy_session created (pos 1) in
    (session_exists m (pos 1) ≡ false)
    × ((j : ℕ)
        → get_elem? m.keys j
          ≡ (if eqb 0 j then emptied_at (get_elem? created.keys 0) else get_elem? created.keys j))
destroy_session_ends_at = destroy_session_ends created 0 (omega arith)

cleanup_expired_sessions_keys_at :
    get_elem? (cleanup_expired_sessions (pos 5) init).keys 3 ≡ swept (pos 5) (get_elem? init.keys 3)
cleanup_expired_sessions_keys_at = cleanup_expired_sessions_keys (pos 5) init 3 init-IsValid
