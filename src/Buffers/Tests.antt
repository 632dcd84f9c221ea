-- ===== src/Buffers/Tests.antt =====
-- Runs of the two pools, and their theorems at inputs that meet their hypotheses.
use blackstone.Prelude.{
  ℕ, ◌+◌, ◌*◌, ◌≡◌, refl, true, false, none, some, List, [], ◌∷◌, arith, length, get_elem?, set,
  replicate, ◌⊎◌,
}
use blackstone.Buffers.{
  Buffer, BufferPool, Call, acquires, releases, run, step, new_pool, make_buffers, indices, acquire,
  release, find_held, get_used_count, get_available_count,
}
use blackstone.Buffers.Invariant.{IsValid, run_calls-IsValid, new_pool-IsValid}
use blackstone.Buffers.Handover.{rotated, acquire_cases, release-acquire}
use blackstone.Buffers.Memory
use blackstone.Buffers.Memory.{MemoryPool, Block}

abbrev alloc : ℕ → ℕ
alloc i = 4096 + 64 * i

abbrev calls : List Call
calls = acquires ∷ acquires ∷ releases 4096 ∷ releases 4096 ∷ acquires ∷ acquires ∷ []

-- Of two buffers, the one that was released is handed out again; then none is left.
run-calls :
    let p = run (new_pool alloc 8 2) calls in
    (get_used_count p ≡ 2) × (get_available_count p ≡ 0) × ((acquire p).1 ≡ none)
unfolding run step new_pool make_buffers indices acquire release find_held get_used_count
    get_available_count
run-calls = (refl, refl, refl)

run_calls-IsValid_example : IsValid (run (new_pool alloc 8 2) calls)
run_calls-IsValid_example = run_calls-IsValid alloc 8 2 calls

abbrev pair : BufferPool
pair = new_pool alloc 8 2

acquire_cases_at :
    ((acquire pair ≡ (pair, none)) × (get_used_count pair ≡ length pair.buffers))
    ⊎ ((i : ℕ) × (b : Buffer) × (get_elem? pair.buffers i ≡ some b)
        × (b.in_use ≡ false)
        × ((acquire pair).1 ≡ some b.address)
        × ((acquire pair).0.buffers ≡ set pair.buffers i (record b { in_use = true }))
        × (get_used_count (acquire pair).0 ≡ get_used_count pair + 1))
acquire_cases_at = acquire_cases pair (new_pool-IsValid alloc 8 2)

release-acquire_at :
    release (acquire pair).0 4096 ≡ record pair { available = rotated pair.available }
unfolding new_pool make_buffers indices acquire
release-acquire_at = release-acquire pair 4096 (new_pool-IsValid alloc 8 2) (omega arith) refl

abbrev blocks : MemoryPool
blocks = record {
  pools =
      record { address = 4096; contents = 1 ∷ 2 ∷ [] }
      ∷ record { address = 8192; contents = 3 ∷ 4 ∷ [] }
      ∷ [];
  used = true ∷ false ∷ [];
  block_size = 2;
  block_count = 2;
}

allocate_cases_at :
    ((Memory.allocate blocks ≡ (blocks, none)) × (Memory.get_free_count blocks ≡ 0))
    ⊎ ((i : ℕ) × (b : Block) × (get_elem? blocks.pools i ≡ some b)
        × ((Memory.allocate blocks).1 ≡ some b.address)
        × (Memory.get_used_count (Memory.allocate blocks).0 ≡ Memory.get_used_count blocks + 1)
        × (Memory.get_free_count (Memory.allocate blocks).0 + 1 ≡ Memory.get_free_count blocks)
        × (Memory.deallocate (Memory.allocate blocks).0 b.address ≡ record blocks {
          pools = set blocks.pools i (record b { contents = replicate (length b.contents) 0 });
        }))
allocate_cases_at = Memory.allocate_cases blocks refl (omega arith)
