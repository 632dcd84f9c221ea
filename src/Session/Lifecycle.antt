-- ===== src/Session/Lifecycle.antt =====
-- What a session goes through: creation, reads within its lifetime and after it, destruction, and
-- the sweep of the expired.
use blackstone.Prelude.{
  ℕ, suc, ◌+◌, ◌≤◌, ◌<◌, ◌≡◌, refl, true, false, none, some, List, arith, length, get_elem?, set,
  get_elem?-set, get_elem?-lt, Option-cases, Bool-cases, inl, inr, if◌then◌else◌, eqb, ap, ◌∙◌,
}
use blackstone.Prelude.Int.{ℤ, pos, ltb_ℤ, ◌≤ℤ◌, ◌<ℤ◌, ◌+ℤ◌}
use blackstone.Session.{
  SessionKey, SessionManager, CryptoContext, Bytes, find_free, slot_of, retire, wipe_keys,
  create_session, cannot_create, get_session_key, fill_slot, fresh_key, derive_session_key,
  max_session_keys, max_key_id, inc64, session_exists, active_at, zeros, key_bytes,
}
use blackstone.Session.Invariant.{IsValid, live, find_free-free, find_free-full}

-- An id in range names the slot below it.
pub slot_of-suc : (i : ℕ) → i < max_session_keys → slot_of (pos (i + 1)) ≡ some i
unfolding slot_of
slot_of-suc i h = ground arith

-- The slots of two tables agree, except at slot `i`.
abbrev pub SameBut : ℕ → SessionManager → SessionManager → Type 0
SameBut i m m' =
    (j : ℕ) → get_elem? m'.keys j ≡ (if eqb i j then get_elem? m'.keys i else get_elem? m.keys j)

pub set_at :
    (ks : List SessionKey) (i : ℕ) (v : SessionKey)
    → i < length ks
    → get_elem? (set ks i v) i ≡ some v
set_at ks i v h = ground (arith, get_elem?-set ks i i v h)

-- A read of an active slot, before its expiry time and after it.
module _ (ctx : CryptoContext) (m : SessionManager) (i : ℕ) (t u : ℤ) {k : SessionKey}
    (up : ctx.initialized ≡ true) (low : i < max_session_keys) (at : get_elem? m.keys i ≡ some k)
    (alive : k.active ≡ true) where
  read_fresh :
      ltb_ℤ k.expires_at t ≡ false
      → get_session_key ctx m (pos (i + 1)) t u ≡ (
        record m {
          keys = set m.keys i (record k { last_used_at = u; use_count = inc64 k.use_count });
        },
        some (k.session_key, k.hmac_key),
      )
  unfolding get_session_key
  read_fresh early = rw (up, slot_of-suc i low, at, alive, early, get_session_key)

  read_stale :
      ltb_ℤ k.expires_at t ≡ true
      → get_session_key ctx m (pos (i + 1)) t u ≡ (retire m (set m.keys i (wipe_keys k)), none)
  unfolding get_session_key
  read_stale late = rw (up, slot_of-suc i low, at, alive, late, get_session_key)

pub exists-eq-active_at :
    (m : SessionManager) (i : ℕ)
    → i < max_session_keys
    → session_exists m (pos (i + 1)) ≡ active_at (get_elem? m.keys i)
unfolding session_exists
exists-eq-active_at m i low = rw (slot_of-suc i low, session_exists)

exists_at :
    (m : SessionManager) (i : ℕ) {k : SessionKey}
    → i < max_session_keys
    → get_elem? m.keys i ≡ some k
    → session_exists m (pos (i + 1)) ≡ k.active
exists_at m i low at = exists-eq-active_at m i low ∙ ap active_at at

module _ (pbkdf2 : Bytes → Bytes → Bytes) (ctx : CryptoContext) where
  -- With the library initialised, a key id of at most 256 bytes and fewer than 32 live sessions
  -- in a valid table, `create_session` returns an id from 1 to 32 that named no session before
  -- the call and names one after it, and no other slot changes.
  pub create_session_fills :
      (m : SessionManager) (key_id : Bytes) (ttl t₁ t₂ t₃ : ℤ) (random : Bytes)
      → IsValid m
      → ctx.initialized ≡ true
      → length key_id ≤ max_key_id
      → live m < max_session_keys
      → (m' : SessionManager) × (i : ℕ) × (create_session pbkdf2 ctx m key_id ttl t₁ t₂ t₃ random
          ≡ (m', i + 1))
        × (i < max_session_keys)
        × (session_exists m (pos (i + 1)) ≡ false)
        × (session_exists m' (pos (i + 1)) ≡ true)
        × SameBut i m m'
  unfolding create_session session_exists
  create_session_fills m key_id ttl t₁ t₂ t₃ random v up short room =
      elim (Option-cases (find_free m.keys)) [
        | inl no_slot ↦ absurd (omega (arith, find_free-full m.keys no_slot, v.full))
        | inr (i, e) ↦
            let (k, at, free) = find_free-free m.keys i e in
            let low = get_elem?-lt m.keys i at in
            let allowed : cannot_create ctx m key_id ≡ false = rw v.counted (ground arith) in
            let new : SessionKey = fresh_key pbkdf2 ctx key_id ttl t₁ t₂ t₃ random k in
            let id = slot_of-suc i (omega (arith, v.full, low)) in
            (
              record m {
                keys = set m.keys i new;
                count = m.count +ℤ pos 1;
                total_sessions_created = inc64 m.total_sessions_created;
              },
              i,
              rw (allowed, e, at, create_session),
              omega (arith, v.full, low),
              rw (id, at, session_exists) free,
              rw (id, set_at m.keys i new low, session_exists),
              λ j. rw (set_at m.keys i new low) (get_elem?-set m.keys i j new low),
            )
      ]

  -- What a successful call has left in the slot that it names.
  create_session-slot :
      (m m' : SessionManager) (key_id : Bytes) (ttl t₁ t₂ t₃ : ℤ) (random : Bytes) (i : ℕ)
      → IsValid m
      → create_session pbkdf2 ctx m key_id ttl t₁ t₂ t₃ random ≡ (m', suc i)
      → (k : SessionKey) × (get_elem? m'.keys i
          ≡ some (fresh_key pbkdf2 ctx key_id ttl t₁ t₂ t₃ random k))
        × (i < max_session_keys)
        × (ctx.initialized ≡ true)
  unfolding create_session
  create_session-slot m m' key_id ttl t₁ t₂ t₃ random i v h =
      elim (Bool-cases (cannot_create ctx m key_id)) [
        | inl refused ↦
            let h' : ◌≡◌ {A = SessionManager × ℕ} (m, 0) (m', suc i) =
              rw (refused, create_session) at h in
            absurd (omega (arith, ap (λ (p : SessionManager × ℕ). p.1) h'))
        | inr allowed ↦ elim (Option-cases (find_free m.keys)) [
          | inl no_slot ↦
              let h' : ◌≡◌ {A = SessionManager × ℕ} (m, 0) (m', suc i) =
                rw (allowed, no_slot, create_session) at h in
              absurd (omega (arith, ap (λ (p : SessionManager × ℕ). p.1) h'))
          | inr (s, e) ↦
              let (k, at, free) = find_free-free m.keys s e in
              let h' : fill_slot pbkdf2 ctx m key_id ttl t₁ t₂ t₃ random s (some k) ≡ (m', suc i) =
                rw (allowed, e, at, create_session) at h in
              let low = get_elem?-lt m.keys s at in
              let same : s ≡ i = omega (arith, ap (λ (p : SessionManager × ℕ). p.1) h') in
              (
                k,
                rw (← same, ← ap (λ (p : SessionManager × ℕ). p.0) h') (set_at m.keys s _ low),
                omega (arith, v.full, low),
                ground arith,
              )
        ]
      ]

  -- After a `create_session` that succeeds on a valid table, `get_session_key` under the new id,
  -- at a time up to the expiry time, returns the keys derived at creation, and the session still
  -- exists.
  pub create_session_get :
      (m m' : SessionManager) (key_id : Bytes) (ttl t₁ t₂ t₃ : ℤ) (random : Bytes) (i : ℕ)
      → (t u : ℤ) → IsValid m
      → create_session pbkdf2 ctx m key_id ttl t₁ t₂ t₃ random ≡ (m', suc i)
      → t ≤ℤ t₂ +ℤ ttl
      → let r = get_session_key ctx m' (pos (i + 1)) t u in
        (r.1 ≡ some (derive_session_key pbkdf2 ctx key_id))
        × (session_exists r.0 (pos (i + 1)) ≡ true)
  create_session_get m m' key_id ttl t₁ t₂ t₃ random i t u v h late =
      let (k, at, low, up) = create_session-slot m m' key_id ttl t₁ t₂ t₃ random i v h in
      let read = read_fresh ctx m' i t u up low at refl (ground arith) in
      (rw read, rw read (exists_at _ i low (set_at m'.keys i _ (get_elem?-lt m'.keys i at))))

  -- After a `create_session` that succeeds on a valid table, `get_session_key` at a time past the
  -- expiry time returns no keys, ends the session, and leaves both stored keys as zeros.
  pub create_session_expires :
      (m m' : SessionManager) (key_id : Bytes) (ttl t₁ t₂ t₃ : ℤ) (random : Bytes) (i : ℕ)
      → (t u : ℤ) → IsValid m
      → create_session pbkdf2 ctx m key_id ttl t₁ t₂ t₃ random ≡ (m', suc i)
      → t₂ +ℤ ttl <ℤ t
      → let r = get_session_key ctx m' (pos (i + 1)) t u in
        (r.1 ≡ none)
        × (session_exists r.0 (pos (i + 1)) ≡ false)
        × ((k : SessionKey) × (get_elem? r.0.keys i ≡ some k)
            × (k.session_key ≡ zeros key_bytes)
            × (k.hmac_key ≡ zeros key_bytes))
  create_session_expires m m' key_id ttl t₁ t₂ t₃ random i t u v h early =
      let (k, at, low, up) = create_session-slot m m' key_id ttl t₁ t₂ t₃ random i v h in
      let read = read_stale ctx m' i t u up low at refl (ground arith) in
      let written = set_at m'.keys i _ (get_elem?-lt m'.keys i at) in
      (
        rw read,
        rw read (exists_at _ i low written),
        (
          wipe_keys (fresh_key pbkdf2 ctx key_id ttl t₁ t₂ t₃ random k),
          rw read written,
          refl,
          refl,
        ),
      )
