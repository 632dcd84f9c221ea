-- ===== src/Session/Invariant.antt =====
-- The invariant of the session table, and every call's part in keeping it.
use blackstone.Prelude.{
  ℕ, zero, suc, ◌+◌, ◌%◌, ◌^◌, ◌≡◌, refl, sym, true, false, Option, none, some, List, [], ◌∷◌,
  arith, length, get_elem?, set, length-set, count_if, count_if-set, Option-cases, Bool-cases, ◌&&◌,
  inl, inr,
}
use blackstone.Prelude.Int.{ℤ, pos, ltb_ℤ, ◌+ℤ◌, int_laws}
use blackstone.Session.{
  SessionKey, SessionManager, CryptoContext, Bytes, is_active, find_free, slot_of, retire,
  create_session, cannot_create, destroy_session, Call, creates, gets, destroys, cleans, step, run,
  init, cleanup_slot, cleanup_from, cleanup_expired_sessions, get_session_key, read_slot,
  destroy_slot, max_session_keys, inc64,
}

abbrev pub live : SessionManager → ℕ
live m = count_if is_active m.keys

pub record IsValid (m : SessionManager) : Type 0 where
  pub full : length m.keys ≡ max_session_keys
  pub counted : m.count ≡ pos (live m)
  pub balanced : (m.total_sessions_destroyed + live m) % 2 ^ 64 ≡ m.total_sessions_created

-- A slot whose active session ends.
retire-IsValid :
    (m : SessionManager) (i : ℕ) (k k' : SessionKey)
    → IsValid m
    → get_elem? m.keys i ≡ some k
    → k.active ≡ true
    → k'.active ≡ false
    → IsValid (retire m (set m.keys i k'))
retire-IsValid m i k k' v e a d =
    let fewer : count_if is_active (set m.keys i k') + 1 ≡ live m =
      ground (arith, count_if-set is_active m.keys i k' e) in
    record {
      full = omega (arith, length-set m.keys i k', v.full);
      counted = rw v.counted (omega int_laws);
      balanced = omega (arith, v.balanced);
    }

destroy_session-IsValid : (m : SessionManager) (id : ℤ) → IsValid m → IsValid (destroy_session m id)
unfolding destroy_session
destroy_session-IsValid m id v = elim (Option-cases (slot_of id)) [
  | inl out ↦ rw (out, destroy_session) v
  | inr (i, e) ↦ rw (e, destroy_session) (at_slot i (get_elem? m.keys i) refl)
]
  where
    at_slot :
        (i : ℕ) (o : Option SessionKey) → get_elem? m.keys i ≡ o → IsValid (destroy_slot m i o)
    at_slot i none e = v
    at_slot i (some k) e = elim (Bool-cases k.active) [
      | inl a ↦ rw a (retire-IsValid m i k _ v e a refl)
      | inr a ↦ rw a v
    ]

cleanup_slot-IsValid :
    (now : ℤ) (m : SessionManager) (i : ℕ) (o : Option SessionKey)
    → IsValid m
    → get_elem? m.keys i ≡ o
    → IsValid (cleanup_slot now m i o)
cleanup_slot-IsValid now m i none v e = v
cleanup_slot-IsValid now m i (some k) v e = elim (Bool-cases (k.active && ltb_ℤ k.expires_at now)) [
  | inl a ↦ rw a (retire-IsValid m i k _ v e (ground arith) refl)
  | inr a ↦ rw a v
]

cleanup_from-IsValid :
    (now : ℤ) (left i : ℕ) (m : SessionManager) → IsValid m → IsValid (cleanup_from now left i m)
unfolding cleanup_from
cleanup_from-IsValid now zero i m v = v
cleanup_from-IsValid now (suc left) i m v =
    cleanup_from-IsValid now left (suc i) _
      (cleanup_slot-IsValid now m i (get_elem? m.keys i) v refl)

-- A write that leaves the slot's flag alone.
touch-IsValid :
    (m : SessionManager) (i : ℕ) (k k' : SessionKey)
    → IsValid m
    → get_elem? m.keys i ≡ some k
    → k'.active ≡ k.active
    → IsValid (record m { keys = set m.keys i k' })
touch-IsValid m i k k' v e a =
    let same : count_if is_active (set m.keys i k') ≡ live m =
      ground (arith, count_if-set is_active m.keys i k' e) in
    record {
      full = omega (arith, length-set m.keys i k', v.full);
      counted = rw same v.counted;
      balanced = omega (arith, v.balanced);
    }

get_session_key-IsValid :
    (ctx : CryptoContext) (m : SessionManager) (id t₁ t₂ : ℤ)
    → IsValid m
    → IsValid (get_session_key ctx m id t₁ t₂).0
unfolding get_session_key
get_session_key-IsValid ctx m id t₁ t₂ v = elim (Option-cases (slot_of id)) [
  | inl out ↦ rw (out, get_session_key) (ground arith)
  | inr (i, e) ↦ rw (e, get_session_key) (ground (arith, at_slot i (get_elem? m.keys i) refl))
]
  where
    at_slot :
        (i : ℕ) (o : Option SessionKey) → get_elem? m.keys i ≡ o → IsValid (read_slot t₁ t₂ m i o).0
    at_slot i none e = v
    at_slot i (some k) e = elim (Bool-cases k.active) [
      | inr a ↦ rw a v
      | inl a ↦ elim (Bool-cases (ltb_ℤ k.expires_at t₁)) [
        | inl late ↦ rw (a, late) (retire-IsValid m i k _ v e a refl)
        | inr early ↦ rw (a, early) (touch-IsValid m i k _ v e (sym a))
      ]
    ]

-- The slot that `create_session` picks exists and is free.
pub find_free-free :
    (ks : List SessionKey) (slot : ℕ)
    → find_free ks ≡ some slot
    → (k : SessionKey) × (get_elem? ks slot ≡ some k) × (k.active ≡ false)
unfolding find_free
find_free-free [] slot h = cc
find_free-free (k ∷ ks) zero h = (k, refl, ground arith)
find_free-free (k ∷ ks) (suc slot) h = find_free-free ks slot (ground arith)

-- It fails only on a table whose every slot is active.
pub find_free-full :
    (ks : List SessionKey) → find_free ks ≡ none → count_if is_active ks ≡ length ks
unfolding find_free
find_free-full [] h = refl
find_free-full (k ∷ ks) h = ground (arith, find_free-full ks)

fill_slot-IsValid :
    (m : SessionManager) (i : ℕ) (k k' : SessionKey)
    → IsValid m
    → get_elem? m.keys i ≡ some k
    → k.active ≡ false
    → k'.active ≡ true
    → IsValid (record m {
      keys = set m.keys i k';
      count = m.count +ℤ pos 1;
      total_sessions_created = inc64 m.total_sessions_created;
    })
fill_slot-IsValid m i k k' v e a d =
    let more : count_if is_active (set m.keys i k') ≡ live m + 1 =
      ground (arith, count_if-set is_active m.keys i k' e) in
    record {
      full = omega (arith, length-set m.keys i k', v.full);
      counted = rw v.counted (omega int_laws);
      balanced = omega (arith, v.balanced);
    }

create_session-IsValid :
    (pbkdf2 : Bytes → Bytes → Bytes) (ctx : CryptoContext) (m : SessionManager) (key_id : Bytes)
    (ttl t₁ t₂ t₃ : ℤ) (random : Bytes)
    → IsValid m
    → IsValid (create_session pbkdf2 ctx m key_id ttl t₁ t₂ t₃ random).0
unfolding create_session
create_session-IsValid pbkdf2 ctx m key_id ttl t₁ t₂ t₃ random v =
    elim (Bool-cases (cannot_create ctx m key_id)) [
      | inl refused ↦ rw refused v
      | inr allowed ↦ elim (Option-cases (find_free m.keys)) [
        | inl no_slot ↦ rw (allowed, no_slot, create_session) v
        | inr (i, e) ↦
            let (k, at, free) = find_free-free m.keys i e in
            rw (allowed, e, at, create_session) (fill_slot-IsValid m i k _ v at free refl)
      ]
    ]

pub init-IsValid : IsValid init
unfolding init
init-IsValid = record { full = refl; counted = refl; balanced = refl }

module _ (pbkdf2 : Bytes → Bytes → Bytes) (ctx : CryptoContext) where
  step-IsValid : (m : SessionManager) (c : Call) → IsValid m → IsValid (step pbkdf2 ctx m c)
  unfolding step cleanup_expired_sessions
  step-IsValid m (creates key_id ttl t₁ t₂ t₃ random) v =
      create_session-IsValid pbkdf2 ctx m key_id ttl t₁ t₂ t₃ random v
  step-IsValid m (gets id t₁ t₂) v = get_session_key-IsValid ctx m id t₁ t₂ v
  step-IsValid m (destroys id) v = destroy_session-IsValid m id v
  step-IsValid m (cleans now) v = cleanup_from-IsValid now max_session_keys 0 m v

  run_from-IsValid :
      (m : SessionManager) (cs : List Call) → IsValid m → IsValid (run pbkdf2 ctx m cs)
  unfolding run
  run_from-IsValid m [] v = v
  run_from-IsValid m (c ∷ cs) v = run_from-IsValid (step pbkdf2 ctx m c) cs (step-IsValid m c v)

  -- After any calls on the cleared table, there are 32 slots, `count` is the number of active ones,
  -- and the sessions destroyed and those live make up, modulo 2^64, those created.
  pub run-IsValid : (cs : List Call) → IsValid (run pbkdf2 ctx init cs)
  run-IsValid cs = run_from-IsValid init cs init-IsValid
