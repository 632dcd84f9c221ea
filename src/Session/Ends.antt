-- ===== src/Session/Ends.antt =====
-- How sessions end: `bank_destroy_session` and the sweep `bank_cleanup_expired_sessions`.
use blackstone.Prelude.{
  ℕ, zero, suc, ◌+◌, ◌<◌, ◌≡◌, refl, false, Option, none, some, arith, get_elem?, get_elem?-set,
  get_elem?-lt, Option-cases, Bool-cases, ◌&&◌, inl, inr, if◌then◌else◌, eqb, ltb, leb, ap, ◌∙◌,
}
use blackstone.Prelude.Int.{ℤ, pos, ltb_ℤ}
use blackstone.Session.{
  SessionKey, SessionManager, wipe_keys, destroy_session, cleanup_slot, cleanup_from,
  cleanup_expired_sessions, destroy_slot, max_session_keys, max_key_id, session_exists, active_at,
  zeros,
}
use blackstone.Session.Invariant.{IsValid}
use blackstone.Session.Lifecycle.{exists-eq-active_at, slot_of-suc}

-- What destroying a session makes of its slot.
abbrev pub emptied : SessionKey → SessionKey
emptied k = if k.active then record (wipe_keys k) { key_id = zeros max_key_id } else k

abbrev pub emptied_at : Option SessionKey → Option SessionKey
emptied_at none = none
emptied_at (some k) = some (emptied k)

emptied_at-inactive : (o : Option SessionKey) → active_at (emptied_at o) ≡ false
emptied_at-inactive none = refl
emptied_at-inactive (some k) = ground arith

destroy_slot-keys :
    (m : SessionManager) (i j : ℕ) (o : Option SessionKey)
    → get_elem? m.keys i ≡ o
    → get_elem? (destroy_slot m i o).keys j ≡ (if eqb i j then emptied_at o else get_elem? m.keys j)
destroy_slot-keys m i j none e = ground arith
destroy_slot-keys m i j (some k) e = elim (Bool-cases k.active) [
  | inl a ↦ rw a (get_elem?-set m.keys i j _ (get_elem?-lt m.keys i e))
  | inr a ↦ rw a (ground arith)
]

-- Destroying the session of an id from 1 to 32 leaves no session under that id; if there was one,
-- its keys and its key id are zeros; and every other slot is as it was.
pub destroy_session_ends :
    (m : SessionManager) (i : ℕ)
    → i < max_session_keys
    → let m' = destroy_session m (pos (i + 1)) in
      (session_exists m' (pos (i + 1)) ≡ false)
      × ((j : ℕ)
          → get_elem? m'.keys j
            ≡ (if eqb i j then emptied_at (get_elem? m.keys i) else get_elem? m.keys j))
unfolding destroy_session
destroy_session_ends m i low =
    let keys = λ (j : ℕ). destroy_slot-keys m i j (get_elem? m.keys i) refl in
    let self : get_elem? (destroy_slot m i (get_elem? m.keys i)).keys i
        ≡ emptied_at (get_elem? m.keys i) =
      ground (arith, keys i) in
    (
      rw (slot_of-suc i low, destroy_session)
          (exists-eq-active_at _ i low
            ∙ ap active_at self
            ∙ emptied_at-inactive (get_elem? m.keys i)),
      rw (slot_of-suc i low, destroy_session) keys,
    )

-- What the sweep makes of one slot.
abbrev pub swept : ℤ → Option SessionKey → Option SessionKey
swept now none = none
swept now (some k) = some (if k.active && ltb_ℤ k.expires_at now then wipe_keys k else k)

cleanup_slot-keys :
    (now : ℤ) (m : SessionManager) (i j : ℕ) (o : Option SessionKey)
    → get_elem? m.keys i ≡ o
    → get_elem? (cleanup_slot now m i o).keys j
      ≡ (if eqb i j then swept now o else get_elem? m.keys j)
cleanup_slot-keys now m i j none e = ground arith
cleanup_slot-keys now m i j (some k) e =
    ground (arith, get_elem?-set m.keys i j (wipe_keys k), get_elem?-lt m.keys i e)

cleanup_from-keys :
    (now : ℤ) (left i : ℕ) (m : SessionManager) (j : ℕ)
    → get_elem? (cleanup_from now left i m).keys j
      ≡ (if leb i j && ltb j (i + left) then swept now (get_elem? m.keys j) else get_elem? m.keys j)
unfolding cleanup_from
cleanup_from-keys now zero i m j = ground arith
cleanup_from-keys now (suc left) i m j =
    let m' = cleanup_slot now m i (get_elem? m.keys i) in
    ground (
      arith,
      cleanup_from-keys now left (suc i) m' j,
      cleanup_slot-keys now m i j (get_elem? m.keys i) refl,
      ap (λ (n : ℕ). get_elem? m.keys n),
    )

-- In a valid table one sweep ends exactly the active sessions whose expiry time lies before
-- `now`, with both keys overwritten by zeros, and changes no other slot.
pub cleanup_expired_sessions_keys :
    (now : ℤ) (m : SessionManager) (j : ℕ)
    → IsValid m
    → get_elem? (cleanup_expired_sessions now m).keys j ≡ swept now (get_elem? m.keys j)
unfolding cleanup_expired_sessions
cleanup_expired_sessions_keys now m j v = elim (Option-cases (get_elem? m.keys j)) [
  | inl out ↦ rw (cleanup_from-keys now 32 0 m j, out) (ground arith)
  | inr (k, e) ↦
      rw (cleanup_from-keys now 32 0 m j, e) (ground (arith, get_elem?-lt m.keys j e, v.full))
]
