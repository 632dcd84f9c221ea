-- ===== src/Buffers.antt =====
-- p2p_banking_system/utils/buffer_pool.h and buffer_pool.cpp. Every method holds the pool's mutex.
-- A pointer is the address of a buffer's storage, which the allocator chooses: `alloc` gives the
-- address of the i-th buffer that a constructor or `resize` makes.
pub mod Invariant
pub mod Handover
pub mod Memory
mod Tests
use blackstone.Prelude.{
  ℕ, zero, suc, ◌+◌, ◌-◌, Bool, true, false, not, ◌&&◌, Option, none, some, List, [], ◌∷◌, ◌++◌,
  eqb, if◌then◌else◌, length, get_elem?, set, replicate, count_if, map,
}

pub record Buffer : Type 0 where
  pub address : ℕ
  pub contents : List ℕ
  pub size : ℕ
  pub in_use : Bool

-- The front of the queue is the head of the list.
pub record BufferPool : Type 0 where
  pub buffers : List Buffer
  pub available : List ℕ
  pub buffer_size : ℕ
  pub max_buffers : ℕ

abbrev pub is_used : Buffer → Bool
is_used b = b.in_use

-- The loop of the constructor and of `resize`, from the i-th buffer up with `left` to go.
pub make_buffers : (ℕ → ℕ) → ℕ → ℕ → ℕ → List Buffer
make_buffers alloc size i zero = []
make_buffers alloc size i (suc left) =
    record { address = alloc i; contents = replicate size 0; size = size; in_use = false }
    ∷ make_buffers alloc size (suc i) left

pub indices : ℕ → ℕ → List ℕ
indices i zero = []
indices i (suc left) = i ∷ indices (suc i) left

pub new_pool : (ℕ → ℕ) → ℕ → ℕ → BufferPool
new_pool alloc size max = record {
  buffers = make_buffers alloc size 0 max;
  available = indices 0 max;
  buffer_size = size;
  max_buffers = max;
}

abbrev pub mark : List Buffer → ℕ → Bool → Option Buffer → List Buffer
mark bs i flag none = bs
mark bs i flag (some b) = set bs i (record b { in_use = flag })

abbrev pub address_of : Option Buffer → Option ℕ
address_of none = none
address_of (some b) = some b.address

-- `none` is the null pointer.
abbrev pub take_front : BufferPool → List ℕ → BufferPool × Option ℕ
take_front p [] = (p, none)
take_front p (i ∷ rest) =
    let b = get_elem? p.buffers i in
    (record p { buffers = mark p.buffers i true b; available = rest }, address_of b)

pub acquire : BufferPool → BufferPool × Option ℕ
acquire p = take_front p p.available

abbrev pub next_index : Option ℕ → Option ℕ
next_index none = none
next_index (some i) = some (suc i)

-- The first buffer that is in use and lies at the address.
pub find_held : ℕ → List Buffer → Option ℕ
find_held ptr [] = none
find_held ptr (b ∷ bs) =
    let rest = next_index (find_held ptr bs) in
    if b.in_use && eqb b.address ptr then some 0 else rest

abbrev pub give_back : BufferPool → Option ℕ → BufferPool
give_back p none = p
give_back p (some i) = record p {
  buffers = mark p.buffers i false (get_elem? p.buffers i);
  available = p.available ++ i ∷ [];
}

pub release : BufferPool → ℕ → BufferPool
release p ptr = give_back p (find_held ptr p.buffers)

pub get_available_count : BufferPool → ℕ
get_available_count p = length p.available

pub get_used_count : BufferPool → ℕ
get_used_count p = count_if is_used p.buffers

pub resize : (ℕ → ℕ) → BufferPool → ℕ → ℕ → BufferPool
resize alloc p size max = record {
  buffers = make_buffers alloc size 0 max;
  available = indices 0 max;
  buffer_size = size;
  max_buffers = max;
}

abbrev pub blank : Buffer → Buffer
blank b = record b { in_use = false; contents = replicate (length b.contents) 0 }

pub clear : BufferPool → BufferPool
clear p = record p { buffers = map blank p.buffers; available = indices 0 (length p.buffers) }

pub data Call : Type 0 where
  acquires : Call
  releases : ℕ → Call
  resizes : (ℕ → ℕ) → ℕ → ℕ → Call
  clears : Call

pub step : BufferPool → Call → BufferPool
step p acquires = (acquire p).0
step p (releases ptr) = release p ptr
step p (resizes alloc size max) = resize alloc p size max
step p clears = clear p

pub run : BufferPool → List Call → BufferPool
run p [] = p
run p (c ∷ cs) = run (step p c) cs
