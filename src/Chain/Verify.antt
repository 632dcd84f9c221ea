-- ===== src/Chain/Verify.antt =====
-- A chain that `addBlock` makes verifies.
use blackstone.Prelude.{
  ℕ, zero, suc, ◌+◌, ◌≡◌, refl, sym, ap, ◌∙◌, subst, Bool, true, false, ◌&&◌, List, [], ◌∷◌, ◌++◌,
  arith, length,
}
use blackstone.Prelude.Int.{ℤ, eqb_ℤ}
use blackstone.Map.{◌==◌, insert, string_key}
use blackstone.Blocks.{
  Doubles, Hashes, Transaction, Block, is_hard, calculate_merkle_root, calculate_hash, attempt,
  mine_from,
}
use blackstone.Chain.{
  BankingBlockchain, to_int, update_balances, last_hash, append_block, is_linked, verify_from,
  verify_blocks, verify_chain,
}

eqb_ℤ-refl : (n : ℤ) → eqb_ℤ n n ≡ true
eqb_ℤ-refl n = ground arith

and_true : (b : Bool) → (b && true) ≡ b
and_true true = refl
and_true false = refl

and_assoc : (a b c : Bool) → (a && (b && c)) ≡ ((a && b) && c)
and_assoc true b c = refl
and_assoc false b c = refl

module _ {D : Type 0} (double : Doubles D) (hashes : Hashes) where
  -- What mining makes of a block, if it succeeds.
  abbrev pub IsMined : Block D → Block D × Bool → Type 0
  IsMined b (b', false) = Unit
  IsMined b (b', true) =
      (b'.index ≡ b.index)
      × (b'.previous_hash ≡ b.previous_hash)
      × (b'.transactions ≡ b.transactions)
      × (b'.merkle_root ≡ b.merkle_root)
      × (calculate_hash double hashes b' ≡ b'.hash)
      × (is_hard b.difficulty b'.hash ≡ true)
      × (b'.timestamp ≡ b.timestamp)
      × (b'.difficulty ≡ b.difficulty)

  pub mine_from-IsMined :
      (nonces : ℕ → ℕ) (left i : ℕ) (b : Block D)
      → IsMined b (mine_from double hashes nonces left i b)
  unfolding mine_from calculate_hash
  mine_from-IsMined nonces zero i b = tt
  mine_from-IsMined nonces (suc left) i b =
      go (is_hard b.difficulty (attempt double hashes nonces i b).hash) refl
        (mine_from-IsMined nonces left (suc i) (attempt double hashes nonces i b))
    where
      go :
          (x : Bool)
          → is_hard b.difficulty (attempt double hashes nonces i b).hash ≡ x
          → IsMined b
              (mine_from double hashes nonces left (suc i) (attempt double hashes nonces i b))
          → IsMined b (elim x as (λ y. Block D × Bool) [
            | true ↦ (attempt double hashes nonces i b, true)
            | false ↦ mine_from double hashes nonces left (suc i) (attempt double hashes nonces i b)
          ])
      go true hard later = (refl, refl, refl, refl, refl, hard, refl, refl)
      go false easy later = later

  -- The block on top, or the first one.
  abbrev last_of : Block D → List (Block D) → Block D
  last_of prev [] = prev
  last_of prev (b ∷ bs) = last_of b bs

  last_hash-last_of :
      (prev : Block D) (bs : List (Block D))
      → last_hash double hashes (prev ∷ bs) ≡ (last_of prev bs).hash
  last_hash-last_of prev [] = refl
  last_hash-last_of prev (b ∷ bs) = last_hash-last_of b bs

  pub verify_from-append :
      (i : ℕ) (prev : Block D) (bs : List (Block D)) (b : Block D)
      → verify_from double hashes i prev (bs ++ b ∷ []) ≡ (
          verify_from double hashes i prev bs
          && is_linked double hashes (i + length bs) (last_of prev bs) b)
  unfolding verify_from
  verify_from-append i prev [] b = let z : i + 0 ≡ i = omega arith in rw z (and_true _)
  verify_from-append i prev (c ∷ bs) b =
      let shift : i + suc (length bs) ≡ suc i + length bs = omega arith in
      rw (verify_from-append (suc i) c bs b, shift)
        (and_assoc (is_linked double hashes i prev c) _ _)

  pub chain-update_balances :
      (txs : List (Transaction D)) (s : BankingBlockchain D)
      → ((update_balances double hashes txs s).chain ≡ s.chain)
        × ((update_balances double hashes txs s).block_index ≡ s.block_index)
  unfolding update_balances
  chain-update_balances [] s = (refl, refl)
  chain-update_balances (tx ∷ txs) s = chain-update_balances txs _

  -- The block is linked to the chain that it is put on, but for its Merkle root.
  abbrev pub IsNext : List (Block D) → Block D → Type 0
  IsNext l b =
      (b.previous_hash ≡ last_hash double hashes l)
      × (calculate_hash double hashes b ≡ b.hash)
      × (b.index ≡ to_int (length l))

  abbrev pub is_rooted : Block D → Bool
  is_rooted b = b.merkle_root == calculate_merkle_root double hashes b.transactions

  is_linked-rooted :
      (i : ℕ) (prev b : Block D)
      → b.previous_hash ≡ prev.hash
      → calculate_hash double hashes b ≡ b.hash
      → b.index ≡ to_int i
      → is_linked double hashes i prev b ≡ is_rooted b
  is_linked-rooted i prev b linked hashed numbered =
      let t : (b.previous_hash == prev.hash) ≡ true = (string_key.beq_iff _ _).1 linked in
      let u : (calculate_hash double hashes b == b.hash) ≡ true =
        (string_key.beq_iff _ _).1 hashed in
      let v : eqb_ℤ b.index (to_int i) ≡ true = rw numbered (eqb_ℤ-refl (to_int i)) in
      rw (t, u, v) refl

  pub verify_blocks-append :
      (prev : Block D) (bs : List (Block D)) (b : Block D)
      → IsNext (prev ∷ bs) b
      → verify_blocks double hashes ((prev ∷ bs) ++ b ∷ [])
        ≡ (verify_blocks double hashes (prev ∷ bs) && is_rooted b)
  unfolding verify_from
  verify_blocks-append prev bs b (linked, hashed, numbered) =
      let at : 1 + length bs ≡ suc (length bs) = omega arith in
      let previous : b.previous_hash ≡ (last_of prev bs).hash =
        linked ∙ last_hash-last_of prev bs in
      verify_from-append 1 prev bs b
      ∙ rw at (
          ap (◌&&◌ (verify_from double hashes 1 prev bs))
            (is_linked-rooted (suc (length bs)) (last_of prev bs) b previous hashed numbered))

  -- The chains that verify, and are not empty.
  abbrev pub IsVerified : BankingBlockchain D → Type 0
  IsVerified s =
      (prev : Block D) × (bs : List (Block D)) × (s.chain ≡ prev ∷ bs)
      × (verify_chain double hashes s ≡ true)

  pub append_block-eq :
      (b : Block D) (s : BankingBlockchain D)
      → ((append_block double hashes b s).chain ≡ s.chain ++ b ∷ [])
        × ((append_block double hashes b s).block_index ≡ insert b.hash b s.block_index)
  unfolding update_balances
  append_block-eq b s =
      let (c, i) = chain-update_balances b.transactions s in
      (ap (λ l. l ++ b ∷ []) c, ap (insert b.hash b) i)

  pub verify_chain-append :
      (s : BankingBlockchain D) (b : Block D)
      → IsVerified s
      → IsNext s.chain b
      → verify_chain double hashes (append_block double hashes b s) ≡ is_rooted b
  unfolding verify_chain
  verify_chain-append s b (prev, bs, e, v) next =
      let next' : IsNext (prev ∷ bs) b = subst (λ l. IsNext l b) e next in
      let v' : verify_blocks double hashes (prev ∷ bs) ≡ true =
        ap (verify_blocks double hashes) (sym e) ∙ v in
      ap (verify_blocks double hashes) ((append_block-eq b s).0 ∙ ap (λ l. l ++ b ∷ []) e)
      ∙ verify_blocks-append prev bs b next'
      ∙ ap (λ x. x && is_rooted b) v'
