-- ===== src/Session.antt =====
-- bank_crypto_project/src/session: bank_session_create.cpp, bank_session_destroy.cpp,
-- bank_session_get.cpp, and their types in bank_types.h. Every call holds one mutex, so it is one
-- step. `time(NULL)` is an argument for each place that reads it, and so are the random bytes. A
-- `uint8_t` array is a list of numbers below 256, an `int` flag a `Bool`.
pub mod Invariant
pub mod Lifecycle
pub mod Ends
mod Tests
use blackstone.Prelude.{
  ℕ, zero, suc, ◌+◌, ◌-◌, ◌%◌, ◌^◌, Bool, true, false, not, ◌&&◌, ◌||◌, Option, none, some, List,
  [], ◌∷◌, ◌++◌, ltb, if◌then◌else◌, length, get_elem?, set, take, drop, replicate,
}
use blackstone.Prelude.Int.{ℤ, pos, pos_part, ◌+ℤ◌, ◌-ℤ◌, ltb_ℤ, leb_ℤ}

abbrev pub max_session_keys : ℕ
max_session_keys = 32

abbrev pub key_bytes : ℕ
key_bytes = 32

abbrev pub max_key_id : ℕ
max_key_id = 256

abbrev pub Bytes : Type 0
Bytes = List ℕ

pub record SessionKey : Type 0 where
  pub session_key : Bytes
  pub hmac_key : Bytes
  pub key_id : Bytes
  pub key_id_len : ℕ
  pub created_at : ℤ
  pub expires_at : ℤ
  pub last_used_at : ℤ
  pub use_count : ℕ
  pub active : Bool
  pub salt : Bytes

pub record SessionManager : Type 0 where
  pub keys : List SessionKey
  pub count : ℤ
  pub total_sessions_created : ℕ
  pub total_sessions_destroyed : ℕ

-- The fields of `g_ctx` that the session table reads: `current_key` is the entry of `key_chain` at
-- `current_key_index`.
pub record CryptoContext : Type 0 where
  pub initialized : Bool
  pub salt : Bytes
  pub current_key : Bytes

abbrev pub inc64 : ℕ → ℕ
inc64 n = (n + 1) % 2 ^ 64

abbrev pub zeros : ℕ → Bytes
zeros n = replicate n 0

-- `memcpy(dst, src, n)` of a whole `src` into the front of `dst`
abbrev pub memcpy : Bytes → Bytes → Bytes
memcpy dst src = src ++ drop (length src) dst

abbrev pub is_active : SessionKey → Bool
is_active k = k.active

abbrev pub next_slot : Option ℕ → Option ℕ
next_slot none = none
next_slot (some i) = some (suc i)

-- The index of the first slot that is not active; `none` is -1.
pub find_free : List SessionKey → Option ℕ
find_free [] = none
find_free (k ∷ ks) = let rest = next_slot (find_free ks) in if k.active then rest else some 0

-- `session_id - 1`, unless the id is out of range
pub slot_of : ℤ → Option ℕ
slot_of id =
    if ltb_ℤ id (pos 1) || ltb_ℤ (pos max_session_keys) id then none else some (pos_part id - 1)

-- The three tests before a slot is looked for.
abbrev pub cannot_create : CryptoContext → SessionManager → Bytes → Bool
cannot_create ctx m key_id =
    not ctx.initialized || ltb max_key_id (length key_id) || leb_ℤ (pos max_session_keys) m.count

-- What `bank_pbkdf2_hmac_sha256` makes of a password and a salt.
module _ (pbkdf2 : Bytes → Bytes → Bytes) where
  pub derive_session_key : CryptoContext → Bytes → Bytes × Bytes
  derive_session_key ctx key_id =
      let derived = pbkdf2 ctx.current_key (ctx.salt ++ take 32 key_id) in
      (take key_bytes derived, take key_bytes (drop key_bytes derived))

  abbrev pub fresh_key : CryptoContext → Bytes → ℤ → ℤ → ℤ → ℤ → Bytes → SessionKey → SessionKey
  fresh_key ctx key_id ttl t₁ t₂ t₃ random k =
      let (session_key, hmac_key) = derive_session_key ctx key_id in
      record {
        session_key = session_key;
        hmac_key = hmac_key;
        key_id = memcpy k.key_id key_id;
        key_id_len = length key_id;
        created_at = t₁;
        expires_at = t₂ +ℤ ttl;
        last_used_at = t₃;
        use_count = 0;
        active = true;
        salt = random;
      }

  abbrev pub fill_slot :
      CryptoContext
      → SessionManager
      → Bytes
      → ℤ
      → ℤ
      → ℤ
      → ℤ
      → Bytes
      → ℕ
      → Option SessionKey
      → SessionManager × ℕ
  fill_slot ctx m key_id ttl t₁ t₂ t₃ random slot none = (m, 0)
  fill_slot ctx m key_id ttl t₁ t₂ t₃ random slot (some k) = (
    record m {
      keys = set m.keys slot (fresh_key ctx key_id ttl t₁ t₂ t₃ random k);
      count = m.count +ℤ pos 1;
      total_sessions_created = inc64 m.total_sessions_created;
    },
    slot + 1,
  )

  -- The second component is the session id, 0 if the call fails.
  pub create_session :
      CryptoContext → SessionManager → Bytes → ℤ → ℤ → ℤ → ℤ → Bytes → SessionManager × ℕ
  create_session ctx m key_id ttl t₁ t₂ t₃ random =
      if cannot_create ctx m key_id then (m, 0) else elim (find_free m.keys) [
        | none ↦ (m, 0)
        | some slot ↦ fill_slot ctx m key_id ttl t₁ t₂ t₃ random slot (get_elem? m.keys slot)
      ]

abbrev pub wipe_keys : SessionKey → SessionKey
wipe_keys k = record k { session_key = zeros key_bytes; hmac_key = zeros key_bytes; active = false }

-- The bookkeeping of a session that ends.
abbrev pub retire : SessionManager → List SessionKey → SessionManager
retire m keys = record m {
  keys = keys;
  count = m.count -ℤ pos 1;
  total_sessions_destroyed = inc64 m.total_sessions_destroyed;
}

abbrev pub destroy_slot : SessionManager → ℕ → Option SessionKey → SessionManager
destroy_slot m i none = m
destroy_slot m i (some k) =
    if k.active
    then retire m (set m.keys i (record (wipe_keys k) { key_id = zeros max_key_id }))
    else m

pub destroy_session : SessionManager → ℤ → SessionManager
destroy_session m id = elim (slot_of id) [
  | none ↦ m
  | some i ↦ destroy_slot m i (get_elem? m.keys i)
]

abbrev pub cleanup_slot : ℤ → SessionManager → ℕ → Option SessionKey → SessionManager
cleanup_slot now m i none = m
cleanup_slot now m i (some k) =
    if k.active && ltb_ℤ k.expires_at now then retire m (set m.keys i (wipe_keys k)) else m

-- The loop over the slots, from slot `i` up, with `left` slots to go.
pub cleanup_from : ℤ → ℕ → ℕ → SessionManager → SessionManager
cleanup_from now zero i m = m
cleanup_from now (suc left) i m =
    cleanup_from now left (suc i) (cleanup_slot now m i (get_elem? m.keys i))

pub cleanup_expired_sessions : ℤ → SessionManager → SessionManager
unfolding cleanup_from
cleanup_expired_sessions now m = cleanup_from now max_session_keys 0 m

-- Both keys, where the caller passes both buffers; `none` is the return value 0.
abbrev pub read_slot :
    ℤ → ℤ → SessionManager → ℕ → Option SessionKey → SessionManager × Option (Bytes × Bytes)
read_slot t₁ t₂ m i none = (m, none)
read_slot t₁ t₂ m i (some k) =
    if not k.active
    then (m, none)
    else if ltb_ℤ k.expires_at t₁
    then (retire m (set m.keys i (wipe_keys k)), none)
    else (
      record m {
        keys = set m.keys i (record k { last_used_at = t₂; use_count = inc64 k.use_count });
      },
      some (k.session_key, k.hmac_key),
    )

pub get_session_key :
    CryptoContext → SessionManager → ℤ → ℤ → ℤ → SessionManager × Option (Bytes × Bytes)
get_session_key ctx m id t₁ t₂ =
    if not ctx.initialized
    then (m, none)
    else elim (slot_of id) [ none ↦ (m, none) | some i ↦ read_slot t₁ t₂ m i (get_elem? m.keys i) ]

abbrev pub active_at : Option SessionKey → Bool
active_at none = false
active_at (some k) = k.active

pub session_exists : SessionManager → ℤ → Bool
session_exists m id = elim (slot_of id) [ none ↦ false | some i ↦ active_at (get_elem? m.keys i) ]

abbrev pub info_at : Option SessionKey → Option (ℤ × ℤ × ℕ)
info_at none = none
info_at (some k) = if k.active then some (k.created_at, k.expires_at, k.use_count) else none

pub session_get_info : SessionManager → ℤ → Option (ℤ × ℤ × ℕ)
session_get_info m id = elim (slot_of id) [ none ↦ none | some i ↦ info_at (get_elem? m.keys i) ]

-- A call, with what it reads of the world.
pub data Call : Type 0 where
  creates : (key_id : Bytes) (ttl t₁ t₂ t₃ : ℤ) (random : Bytes) → Call
  gets : (id t₁ t₂ : ℤ) → Call
  destroys : (id : ℤ) → Call
  cleans : (now : ℤ) → Call

module _ (pbkdf2 : Bytes → Bytes → Bytes) (ctx : CryptoContext) where
  pub step : SessionManager → Call → SessionManager
  step m (creates key_id ttl t₁ t₂ t₃ random) =
      (create_session pbkdf2 ctx m key_id ttl t₁ t₂ t₃ random).0
  step m (gets id t₁ t₂) = (get_session_key ctx m id t₁ t₂).0
  step m (destroys id) = destroy_session m id
  step m (cleans now) = cleanup_expired_sessions now m

  pub run : SessionManager → List Call → SessionManager
  run m [] = m
  run m (c ∷ cs) = run (step m c) cs

-- `memset(&g_session_mgr, 0, sizeof(g_session_mgr))`
pub empty_key : SessionKey
empty_key = record {
  session_key = zeros key_bytes;
  hmac_key = zeros key_bytes;
  key_id = zeros max_key_id;
  key_id_len = 0;
  created_at = pos 0;
  expires_at = pos 0;
  last_used_at = pos 0;
  use_count = 0;
  active = false;
  salt = zeros 16;
}

pub init : SessionManager
unfolding empty_key
init = record {
  keys = replicate max_session_keys empty_key;
  count = pos 0;
  total_sessions_created = 0;
  total_sessions_destroyed = 0;
}
