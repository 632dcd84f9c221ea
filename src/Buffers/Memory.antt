-- ===== src/Buffers/Memory.antt =====
-- `MemoryPool` of p2p_banking_system/utils/buffer_pool.cpp: blocks beside a vector of flags.
use blackstone.Prelude.{
  ℕ, zero, suc, ◌+◌, ◌≡◌, refl, Bool, true, false, not, Option, none, some, List, [], ◌∷◌, arith,
  eqb, if◌then◌else◌, length, get_elem?, set, get_elem?-lt, get_elem?-some, replicate, count_if,
  count_if-set, count_if-pos, Option-cases, ◌⊎◌, inl, inr, ap,
}

pub record Block : Type 0 where
  pub address : ℕ
  pub contents : List ℕ

pub record MemoryPool : Type 0 where
  pub pools : List Block
  pub used : List Bool
  pub block_size : ℕ
  pub block_count : ℕ

make_blocks : (ℕ → ℕ) → ℕ → ℕ → ℕ → List Block
make_blocks alloc size i zero = []
make_blocks alloc size i (suc left) =
    record { address = alloc i; contents = replicate size 0 } ∷ make_blocks alloc size (suc i) left

unfoldable pub new_memory : (ℕ → ℕ) → ℕ → ℕ → MemoryPool
unfolding make_blocks
new_memory alloc size count = record {
  pools = make_blocks alloc size 0 count;
  used = replicate count false;
  block_size = size;
  block_count = count;
}

abbrev next_index : Option ℕ → Option ℕ
next_index none = none
next_index (some i) = some (suc i)

-- The first block whose flag is down.
first_unused : List Bool → Option ℕ
first_unused [] = none
first_unused (u ∷ us) = let rest = next_index (first_unused us) in if u then rest else some 0

abbrev address_of : Option Block → Option ℕ
address_of none = none
address_of (some b) = some b.address

abbrev allocate_at : MemoryPool → Option ℕ → MemoryPool × Option ℕ
allocate_at p none = (p, none)
allocate_at p (some i) = (record p { used = set p.used i true }, address_of (get_elem? p.pools i))

unfoldable pub allocate : MemoryPool → MemoryPool × Option ℕ
unfolding first_unused
allocate p = allocate_at p (first_unused p.used)

-- The first block that lies at the address, whether its flag is up or not.
find_block : ℕ → List Block → Option ℕ
find_block ptr [] = none
find_block ptr (b ∷ bs) =
    let rest = next_index (find_block ptr bs) in if eqb b.address ptr then some 0 else rest

abbrev wipe_block : List Block → ℕ → Option Block → List Block
wipe_block bs i none = bs
wipe_block bs i (some b) = set bs i (record b { contents = replicate (length b.contents) 0 })

abbrev deallocate_at : MemoryPool → Option ℕ → MemoryPool
deallocate_at p none = p
deallocate_at p (some i) = record p {
  pools = wipe_block p.pools i (get_elem? p.pools i);
  used = set p.used i false;
}

unfoldable pub deallocate : MemoryPool → ℕ → MemoryPool
unfolding find_block
deallocate p ptr = deallocate_at p (find_block ptr p.pools)

unfoldable pub get_free_count : MemoryPool → ℕ
get_free_count p = count_if not p.used

abbrev holds : Bool → Bool
holds u = u

unfoldable pub get_used_count : MemoryPool → ℕ
get_used_count p = count_if holds p.used

abbrev pub Distinct : List Block → Type 0
Distinct [] = Unit
Distinct (b ∷ bs) = (count_if (λ c. eqb c.address b.address) bs ≡ 0) × Distinct bs

first_unused-none : (us : List Bool) → first_unused us ≡ none → count_if not us ≡ 0
unfolding first_unused
first_unused-none [] h = refl
first_unused-none (true ∷ us) h = ground (arith, first_unused-none us)
first_unused-none (false ∷ us) h = cc

first_unused-some :
    (us : List Bool) (i : ℕ) → first_unused us ≡ some i → get_elem? us i ≡ some false
unfolding first_unused
first_unused-some [] i h = cc
first_unused-some (true ∷ us) zero h = ground arith
first_unused-some (false ∷ us) zero h = refl
first_unused-some (true ∷ us) (suc i) h = first_unused-some us i (ground arith)
first_unused-some (false ∷ us) (suc i) h = ground arith

find_block-at :
    (bs : List Block) (i : ℕ) (b : Block)
    → Distinct bs
    → get_elem? bs i ≡ some b
    → find_block b.address bs ≡ some i
unfolding find_block
find_block-at [] i b d at = cc
find_block-at (c ∷ bs) zero b d at = ground arith
find_block-at (c ∷ bs) (suc i) b d at = ground (
  arith,
  find_block-at bs i b d.1 at,
  count_if-pos (λ (e : Block). eqb e.address c.address) bs i at,
)

set-set : (us : List Bool) (i : ℕ) → get_elem? us i ≡ some false → set (set us i true) i false ≡ us
set-set [] i at = refl
set-set (u ∷ us) zero at = ground arith
set-set (u ∷ us) (suc i) at = ap (◌∷◌ u) (set-set us i at)

-- In a pool with a flag for each block, `allocate` fails exactly where no block is free; otherwise it
-- returns the address of a block whose flag was down, and one more block is used, one fewer free.
-- Where no two blocks lie at one address, deallocating that address puts every flag back and leaves
-- zeros in the block.
pub allocate_cases :
    (p : MemoryPool)
    → length p.used ≡ length p.pools
    → Distinct p.pools
    → ((allocate p ≡ (p, none)) × (get_free_count p ≡ 0))
      ⊎ ((i : ℕ) × (b : Block) × (get_elem? p.pools i ≡ some b)
          × ((allocate p).1 ≡ some b.address)
          × (get_used_count (allocate p).0 ≡ get_used_count p + 1)
          × (get_free_count (allocate p).0 + 1 ≡ get_free_count p)
          × (deallocate (allocate p).0 b.address ≡ record p {
            pools = set p.pools i (record b { contents = replicate (length b.contents) 0 });
          }))
unfolding allocate deallocate get_free_count get_used_count
allocate_cases p sizes d = elim (Option-cases (first_unused p.used)) [
  | inl full ↦ inl (rw full, first_unused-none p.used full)
  | inr (i, e) ↦
      let free = first_unused-some p.used i e in
      let low = get_elem?-lt p.used i free in
      let (b, at) = get_elem?-some p.pools i (omega (arith, sizes, low)) in
      inr (
        i,
        b,
        at,
        rw (e, at),
        rw e (ground (arith, count_if-set holds p.used i true free)),
        rw e (ground (arith, count_if-set not p.used i true free)),
        rw (e, find_block-at p.pools i b d at, at) (rw (set-set p.used i free)),
      )
]
