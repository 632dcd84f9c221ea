-- ===== src/Buffers/Handover.antt =====
-- What `acquire` hands out, and what `release` does with it.
use blackstone.Prelude.{
  ℕ, zero, suc, ◌+◌, ◌<◌, ◌≡◌, refl, true, false, none, some, List, [], ◌∷◌, ◌++◌, arith, eqb,
  length, get_elem?, set, get_elem?-set, get_elem?-lt, count_if, count_if-set, count_if-pos, ◌⊎◌,
  inl, inr, ap,
}
use blackstone.Buffers.{
  Buffer, BufferPool, is_used, take_front, acquire, find_held, release, get_used_count,
}
use blackstone.Buffers.Invariant.{IsValid, front_free}

-- `acquire` on a valid pool returns null and changes nothing if every buffer is in use; otherwise
-- it returns the address of a buffer that was not in use, marks that one and no other, and one more
-- buffer is in use.
pub acquire_cases :
    (p : BufferPool)
    → IsValid p
    → ((acquire p ≡ (p, none)) × (get_used_count p ≡ length p.buffers))
      ⊎ ((i : ℕ) × (b : Buffer) × (get_elem? p.buffers i ≡ some b)
          × (b.in_use ≡ false)
          × ((acquire p).1 ≡ some b.address)
          × ((acquire p).0.buffers ≡ set p.buffers i (record b { in_use = true }))
          × (get_used_count (acquire p).0 ≡ get_used_count p + 1))
unfolding acquire get_used_count
acquire_cases p v = go p.available refl
  where
    go :
        (xs : List ℕ)
        → p.available ≡ xs
        → ((take_front p xs ≡ (p, none)) × (count_if is_used p.buffers ≡ length p.buffers))
          ⊎ ((i : ℕ) × (b : Buffer) × (get_elem? p.buffers i ≡ some b)
              × (b.in_use ≡ false)
              × ((take_front p xs).1 ≡ some b.address)
              × ((take_front p xs).0.buffers ≡ set p.buffers i (record b { in_use = true }))
              × (count_if is_used (take_front p xs).0.buffers ≡ count_if is_used p.buffers + 1))
    go [] e = inl (refl, omega (arith, v.total, ap (length {A = ℕ}) e))
    go (i ∷ rest) e =
        let (b, at, free, once) = front_free p i rest v e in
        inr (
          i,
          b,
          at,
          free,
          rw at,
          rw at,
          rw at (ground (arith, count_if-set is_used p.buffers i (record b { in_use = true }) at)),
        )

-- No two buffers lie at one address.
abbrev pub Distinct : List Buffer → Type 0
Distinct [] = Unit
Distinct (b ∷ bs) = (count_if (λ c. eqb c.address b.address) bs ≡ 0) × Distinct bs

find_held-set :
    (bs : List Buffer) (i : ℕ) (b : Buffer)
    → Distinct bs
    → get_elem? bs i ≡ some b
    → find_held b.address (set bs i (record b { in_use = true })) ≡ some i
unfolding find_held
find_held-set [] i b d at = cc
find_held-set (c ∷ bs) zero b d at = ground arith
find_held-set (c ∷ bs) (suc i) b d at = ground (
  arith,
  find_held-set bs i b d.1 at,
  count_if-pos (λ (e : Buffer). eqb e.address c.address) bs i at,
)

set-set :
    (bs : List Buffer) (i : ℕ) (b c : Buffer) → get_elem? bs i ≡ some b → set (set bs i c) i b ≡ bs
set-set [] i b c at = refl
set-set (d ∷ bs) zero b c at = ground arith
set-set (d ∷ bs) (suc i) b c at = ap (◌∷◌ d) (set-set bs i b c at)

set_at : (bs : List Buffer) (i : ℕ) (c : Buffer) → i < length bs → get_elem? (set bs i c) i ≡ some c
set_at bs i c h = ground (arith, get_elem?-set bs i i c h)

returned :
    (p : BufferPool) (i : ℕ) (rest : List ℕ) (b : Buffer)
    → Distinct p.buffers
    → get_elem? p.buffers i ≡ some b
    → b.in_use ≡ false
    → release
        (record p { buffers = set p.buffers i (record b { in_use = true }); available = rest })
        b.address
      ≡ record p { available = rest ++ i ∷ [] }
unfolding release
returned p i rest b d at free =
    let same : record b { in_use = false } ≡ b = cc in
    rw (find_held-set p.buffers i b d at, release)
      (rw (set_at p.buffers i (record b { in_use = true }) (get_elem?-lt p.buffers i at), same)
        (rw (set-set p.buffers i b (record b { in_use = true }) at)))

-- The queue with its front moved to the back.
abbrev pub rotated : List ℕ → List ℕ
rotated [] = []
rotated (i ∷ rest) = rest ++ i ∷ []

-- Where no two buffers lie at one address, releasing the pointer that `acquire` has just returned
-- restores every buffer and puts the index at the back of the queue.
pub release-acquire :
    (p : BufferPool) (ptr : ℕ)
    → IsValid p
    → Distinct p.buffers
    → (acquire p).1 ≡ some ptr
    → release (acquire p).0 ptr ≡ record p { available = rotated p.available }
unfolding acquire release
release-acquire p ptr v d h = go p.available refl h
  where
    go :
        (xs : List ℕ)
        → p.available ≡ xs
        → (take_front p xs).1 ≡ some ptr
        → release (take_front p xs).0 ptr ≡ record p { available = rotated xs }
    go [] e h = cc
    go (i ∷ rest) e h =
        let (b, at, free, once) = front_free p i rest v e in
        let here : b.address ≡ ptr = ground arith in
        rw (← here) (rw at (returned p i rest b d at free))
