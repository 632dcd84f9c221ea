-- ===== src/Buffers/Invariant.antt =====
-- The queue of available buffers holds each index that is not in use, once, and no other.
use blackstone.Prelude.{
  ℕ, zero, suc, ◌+◌, ◌≡◌, refl, true, false, Option, none, some, List, [], ◌∷◌, ◌++◌, arith, eqb,
  leb, ltb, ◌&&◌, if◌then◌else◌, length, get_elem?, set, get_elem?-set, get_elem?-lt, length-set,
  length-append, count_if, count_if-set, count_if-append, Option-cases, inl, inr, map, ap,
}
use blackstone.Buffers.{
  Buffer, BufferPool, is_used, make_buffers, indices, new_pool, take_front, acquire, find_held,
  release, resize, blank, clear, Call, acquires, releases, resizes, clears, step, run,
}

-- How often an index is in the queue.
abbrev pub queued : ℕ → List ℕ → ℕ
queued i = count_if (λ j. eqb j i)

-- How often it should be.
abbrev pub free_at : Option Buffer → ℕ
free_at none = 0
free_at (some b) = if b.in_use then 0 else 1

pub record IsValid (p : BufferPool) : Type 0 where
  pub exact : (i : ℕ) → queued i p.available ≡ free_at (get_elem? p.buffers i)
  pub total : length p.available + count_if is_used p.buffers ≡ length p.buffers

queued-indices :
    (i start n : ℕ)
    → queued i (indices start n) ≡ (if leb start i && ltb i (start + n) then 1 else 0)
unfolding indices
queued-indices i start zero = ground arith
queued-indices i start (suc n) = ground (arith, queued-indices i (suc start) n)

length-indices : (start n : ℕ) → length (indices start n) ≡ n
unfolding indices
length-indices start zero = refl
length-indices start (suc n) = ap suc (length-indices (suc start) n)

-- All of a pool's buffers are free.
abbrev pub AllFree : List Buffer → Type 0
AllFree [] = Unit
AllFree (b ∷ bs) = (b.in_use ≡ false) × AllFree bs

AllFree-used : (bs : List Buffer) → AllFree bs → count_if is_used bs ≡ 0
AllFree-used [] h = refl
AllFree-used (b ∷ bs) h = ground (arith, AllFree-used bs h.1)

AllFree-free_at :
    (bs : List Buffer) (i : ℕ)
    → AllFree bs
    → free_at (get_elem? bs i) ≡ (if ltb i (length bs) then 1 else 0)
AllFree-free_at [] i h = ground arith
AllFree-free_at (b ∷ bs) zero h = ground arith
AllFree-free_at (b ∷ bs) (suc i) h = ground (arith, AllFree-free_at bs i h.1)

fresh-IsValid :
    (bs : List Buffer) (size max : ℕ)
    → AllFree bs
    → IsValid (record {
      buffers = bs;
      available = indices 0 (length bs);
      buffer_size = size;
      max_buffers = max;
    })
fresh-IsValid bs size max h = record {
  exact = λ i. ground (arith, queued-indices i 0 (length bs), AllFree-free_at bs i h);
  total = omega (arith, length-indices 0 (length bs), AllFree-used bs h);
}

make_buffers-AllFree : (alloc : ℕ → ℕ) (size i n : ℕ) → AllFree (make_buffers alloc size i n)
unfolding make_buffers
make_buffers-AllFree alloc size i zero = tt
make_buffers-AllFree alloc size i (suc n) = (refl, make_buffers-AllFree alloc size (suc i) n)

pub length-make_buffers : (alloc : ℕ → ℕ) (size i n : ℕ) → length (make_buffers alloc size i n) ≡ n
unfolding make_buffers
length-make_buffers alloc size i zero = refl
length-make_buffers alloc size i (suc n) = ap suc (length-make_buffers alloc size (suc i) n)

blank-AllFree : (bs : List Buffer) → AllFree (map blank bs)
blank-AllFree [] = tt
blank-AllFree (b ∷ bs) = (refl, blank-AllFree bs)

length-blank : (bs : List Buffer) → length (map blank bs) ≡ length bs
length-blank [] = refl
length-blank (b ∷ bs) = ap suc (length-blank bs)

-- The index at the front of the queue is that of a free buffer, and is queued once.
pub front_free :
    (p : BufferPool) (i : ℕ) (rest : List ℕ)
    → IsValid p
    → p.available ≡ i ∷ rest
    → (b : Buffer) × (get_elem? p.buffers i ≡ some b) × (b.in_use ≡ false) × (queued i rest ≡ 0)
front_free p i rest v e = elim (Option-cases (get_elem? p.buffers i)) [
  | inl out ↦ absurd (ground (arith, v.exact i, ap (queued i) e))
  | inr (b, at) ↦ (
    b,
    at,
    ground (arith, v.exact i, ap (queued i) e),
    ground (arith, v.exact i, ap (queued i) e),
  )
]

take-IsValid :
    (p : BufferPool) (i : ℕ) (rest : List ℕ) (b : Buffer)
    → IsValid p
    → p.available ≡ i ∷ rest
    → get_elem? p.buffers i ≡ some b
    → b.in_use ≡ false
    → IsValid
        (record p { buffers = set p.buffers i (record b { in_use = true }); available = rest })
take-IsValid p i rest b v e at free = record {
  exact = λ j. ground (
    arith,
    v.exact j,
    ap (queued j) e,
    get_elem?-set p.buffers i j (record b { in_use = true }) (get_elem?-lt p.buffers i at),
  );
  total = ground (
    arith,
    v.total,
    ap (length {A = ℕ}) e,
    count_if-set is_used p.buffers i (record b { in_use = true }) at,
    length-set p.buffers i (record b { in_use = true }),
  );
}

take_front-IsValid :
    (p : BufferPool) (xs : List ℕ) → IsValid p → p.available ≡ xs → IsValid (take_front p xs).0
take_front-IsValid p [] v e = v
take_front-IsValid p (i ∷ rest) v e =
    let (b, at, free, once) = front_free p i rest v e in rw at (take-IsValid p i rest b v e at free)

pub find_held-held :
    (ptr : ℕ) (bs : List Buffer) (i : ℕ)
    → find_held ptr bs ≡ some i
    → (b : Buffer) × (get_elem? bs i ≡ some b) × (b.in_use ≡ true) × (b.address ≡ ptr)
unfolding find_held
find_held-held ptr [] i h = cc
find_held-held ptr (b ∷ bs) zero h = (b, refl, ground arith, ground arith)
find_held-held ptr (b ∷ bs) (suc i) h = find_held-held ptr bs i (ground arith)

return-IsValid :
    (p : BufferPool) (i : ℕ) (b : Buffer)
    → IsValid p
    → get_elem? p.buffers i ≡ some b
    → b.in_use ≡ true
    → IsValid (record p {
      buffers = set p.buffers i (record b { in_use = false });
      available = p.available ++ i ∷ [];
    })
return-IsValid p i b v at held = record {
  exact = λ j. ground (
    arith,
    v.exact j,
    count_if-append (λ k. eqb k j) p.available (i ∷ []),
    get_elem?-set p.buffers i j (record b { in_use = false }) (get_elem?-lt p.buffers i at),
  );
  total = ground (
    arith,
    v.total,
    length-append p.available (i ∷ []),
    count_if-set is_used p.buffers i (record b { in_use = false }) at,
    length-set p.buffers i (record b { in_use = false }),
  );
}

release-IsValid : (p : BufferPool) (ptr : ℕ) → IsValid p → IsValid (release p ptr)
unfolding release
release-IsValid p ptr v = elim (Option-cases (find_held ptr p.buffers)) [
  | inl unknown ↦ rw (unknown, release) v
  | inr (i, e) ↦
      let (b, at, held, here) = find_held-held ptr p.buffers i e in
      rw (e, release) (rw at (return-IsValid p i b v at held))
]

pub new_pool-IsValid : (alloc : ℕ → ℕ) (size max : ℕ) → IsValid (new_pool alloc size max)
unfolding new_pool
new_pool-IsValid alloc size max =
    rw (length-make_buffers alloc size 0 max) at (
      fresh-IsValid (make_buffers alloc size 0 max) size max
        (make_buffers-AllFree alloc size 0 max))

step-IsValid : (p : BufferPool) (c : Call) → IsValid p → IsValid (step p c)
unfolding step acquire resize clear new_pool
step-IsValid p acquires v = take_front-IsValid p p.available v refl
step-IsValid p (releases ptr) v = release-IsValid p ptr v
step-IsValid p (resizes alloc size max) v = new_pool-IsValid alloc size max
step-IsValid p clears v =
    rw (length-blank p.buffers) at
      (fresh-IsValid (map blank p.buffers) p.buffer_size p.max_buffers (blank-AllFree p.buffers))

run_from-IsValid : (p : BufferPool) (cs : List Call) → IsValid p → IsValid (run p cs)
unfolding run
run_from-IsValid p [] v = v
run_from-IsValid p (c ∷ cs) v = run_from-IsValid (step p c) cs (step-IsValid p c v)

-- After any calls on a new pool, each index that is not in use is queued exactly once and no other
-- index is, and the available and the used buffers add up to all of them.
pub run_calls-IsValid :
    (alloc : ℕ → ℕ) (size max : ℕ) (cs : List Call) → IsValid (run (new_pool alloc size max) cs)
run_calls-IsValid alloc size max cs = run_from-IsValid _ cs (new_pool-IsValid alloc size max)
