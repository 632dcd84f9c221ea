-- ===== src/Chain/Direct.antt =====
-- What the two operations that add a block do to a chain that verifies.
use blackstone.Prelude.{
  ℕ, ◌+◌, ◌≡◌, refl, sym, ap, ◌∙◌, String, Bool, true, false, some, List, [], ◌∷◌, ◌++◌, arith,
  if◌then◌else◌, length, length-append, to_nat, Bool-cases, inl, inr, is_some, eqb_iff,
}
use blackstone.Prelude.Int.{eqb_ℤ, eq_of_parts}
use blackstone.Map.{◌==◌, find, contains, string_key, find-insert_self}
use blackstone.Blocks.{
  Doubles, Hashes, Transaction, Block, calculate_merkle_root, calculate_hash, mine_block, mine_from,
}
use blackstone.Chain.{
  BankingBlockchain, to_int, genesis, new_blockchain, validate_transactions, last_hash,
  append_block, new_block, add_mined, add_block, add_block_direct, verify_chain, get_latest_hash,
  contains_block,
}
use blackstone.Chain.Verify.{
  IsMined, mine_from-IsMined, IsNext, is_rooted, IsVerified, verify_chain-append, append_block-eq,
}

module _ {D : Type 0} (double : Doubles D) (hashes : Hashes) where
  last_hash-append :
      (l : List (Block D)) (b : Block D) → last_hash double hashes (l ++ b ∷ []) ≡ b.hash
  last_hash-append [] b = refl
  last_hash-append (c ∷ []) b = refl
  last_hash-append (c ∷ d ∷ l) b = last_hash-append (d ∷ l) b

  -- A call that is refused changes nothing; one that is not puts one block on the chain, whose hash
  -- is the latest and is found.
  abbrev pub IsOutcome : BankingBlockchain D → BankingBlockchain D × Bool → Type 0
  IsOutcome s (s', done) =
      ((if done then s else s') ≡ s)
      × (length s'.chain ≡ length s.chain + to_nat done)
      × ((if done then contains_block double hashes s' (get_latest_hash double hashes s') else true)
          ≡ true)

  refused-IsOutcome : (s : BankingBlockchain D) → IsOutcome s (s, false)
  refused-IsOutcome s = (refl, omega arith, refl)

  appended-IsOutcome :
      (s : BankingBlockchain D) (b : Block D) → IsOutcome s (append_block double hashes b s, true)
  unfolding contains_block get_latest_hash
  appended-IsOutcome s b =
      let (c, i) = append_block-eq double hashes b s in
      let s' = append_block double hashes b s in
      let latest : last_hash double hashes s'.chain ≡ b.hash =
        ap (last_hash double hashes) c ∙ last_hash-append s.chain b in
      let found : find b.hash s'.block_index ≡ some b =
        ap (find b.hash) i ∙ find-insert_self b.hash b s.block_index in
      (
        refl,
        ap (length {A = Block D}) c ∙ (length-append s.chain (b ∷ [])),
        ap (λ h. contains h s'.block_index) latest ∙ ap is_some found,
      )

  appended-IsVerified :
      (s : BankingBlockchain D) (b : Block D)
      → IsVerified double hashes s
      → IsNext double hashes s.chain b
      → is_rooted double hashes b ≡ true
      → IsVerified double hashes (append_block double hashes b s)
  appended-IsVerified s b (prev, bs, e, v) next root = (
    prev,
    bs ++ b ∷ [],
    (append_block-eq double hashes b s).0 ∙ ap (λ l. l ++ b ∷ []) e,
    verify_chain-append double hashes s b (prev, bs, e, v) next ∙ root,
  )

  add_mined-IsVerified :
      (s : BankingBlockchain D) (txs : List (Transaction D)) (validator : String) (now : ℕ)
      (r : Block D × Bool)
      → IsVerified double hashes s
      → IsMined double hashes (new_block double hashes s txs validator now) r
      → IsVerified double hashes (add_mined double hashes s r).0
        × IsOutcome s (add_mined double hashes s r)
  add_mined-IsVerified s txs validator now (b, false) v mined = (v, refused-IsOutcome s)
  add_mined-IsVerified s txs validator now (b, true) v
        (numbered, linked, same, root, hashed, hard, same_time, same_difficulty) =
      let rooted : b.merkle_root ≡ calculate_merkle_root double hashes b.transactions =
        root ∙ ap (calculate_merkle_root double hashes) (sym same) in
      (
        appended-IsVerified s b v (linked, hashed, numbered) ((string_key.beq_iff _ _).1 rooted),
        appended-IsOutcome s b,
      )

  -- `addBlock` on a chain that has a first block and verifies leaves one that does. If it
  -- refuses, nothing changes; otherwise one block is put on the chain, whose hash is the latest
  -- and is found.
  pub add_block-IsVerified :
      (s : BankingBlockchain D) (txs : List (Transaction D)) (validator : String) (now : ℕ)
      (nonces : ℕ → ℕ)
      → IsVerified double hashes s
      → let r = add_block double hashes s txs validator now nonces in
        IsVerified double hashes r.0 × IsOutcome s r
  unfolding add_block mine_block
  add_block-IsVerified s txs validator now nonces v =
      elim (Bool-cases (validate_transactions double hashes s txs)) [
        | inl valid ↦
            let b = new_block double hashes s txs validator now in
            rw valid (
              add_mined-IsVerified s txs validator now (mine_from double hashes nonces 1000000 0 b)
                v (mine_from-IsMined double hashes nonces 1000000 0 b))
        | inr invalid ↦ rw invalid (v, refused-IsOutcome s)
      ]

  abbrev IsDirect : BankingBlockchain D → Block D → BankingBlockchain D × Bool → Type 0
  IsDirect s b (s', done) =
      (verify_chain double hashes s' ≡ (if done then is_rooted double hashes b else true))
      × IsOutcome s (s', done)

  refused-IsDirect :
      (s : BankingBlockchain D) (b : Block D) → IsVerified double hashes s → IsDirect s b (s, false)
  refused-IsDirect s b (prev, bs, e, v) = (v, refused-IsOutcome s)

  -- `addBlockDirect` on a chain that has a first block and verifies refuses the block and changes
  -- nothing, or puts it on the chain, whose latest hash is then found. It does not look at the
  -- Merkle root: after a block whose Merkle root is not that of its transactions the chain does
  -- not verify, and after any other it does.
  pub add_block_direct_cases :
      (s : BankingBlockchain D) (b : Block D)
      → IsVerified double hashes s
      → let (s', done) = add_block_direct double hashes s b in
        (verify_chain double hashes s' ≡ (if done then is_rooted double hashes b else true))
        × IsOutcome s (s', done)
  unfolding add_block_direct
  add_block_direct_cases s b v =
      let no = refused-IsDirect s b v in
      elim (Bool-cases (eqb_ℤ b.index (to_int (length s.chain)))) [
        | inr other ↦ rw other no
        | inl numbered ↦ elim (Bool-cases (b.previous_hash == last_hash double hashes s.chain)) [
          | inr other ↦ rw (numbered, other) no
          | inl linked ↦ elim (Bool-cases (calculate_hash double hashes b == b.hash)) [
            | inr other ↦ rw (numbered, linked, other) no
            | inl hashed ↦
                elim (Bool-cases (validate_transactions double hashes s b.transactions)) [
                  | inr other ↦ rw (numbered, linked, hashed, other) no
                  | inl valid ↦
                      let next : IsNext double hashes s.chain b = (
                        (string_key.beq_iff _ _).0 linked,
                        (string_key.beq_iff _ _).0 hashed,
                        eq_of_parts b.index (to_int (length s.chain)) ((eqb_iff _ _).0 numbered),
                      ) in
                      rw (numbered, linked, hashed, valid)
                        (verify_chain-append double hashes s b v next, appended-IsOutcome s b)
                ]
          ]
        ]
      ]

-- One call of `addBlock`.
pub record Request (D : Type 0) : Type 0 where
  pub transactions : List (Transaction D)
  pub validator : String
  pub now : ℕ
  pub nonces : ℕ → ℕ

module _ {D : Type 0} (double : Doubles D) (hashes : Hashes) where
  pub run : BankingBlockchain D → List (Request D) → BankingBlockchain D
  unfolding add_block
  run s [] = s
  run s (q ∷ qs) = run (add_block double hashes s q.transactions q.validator q.now q.nonces).0 qs

  run_from-IsVerified :
      (s : BankingBlockchain D) (qs : List (Request D))
      → IsVerified double hashes s
      → IsVerified double hashes (run s qs)
  unfolding run
  run_from-IsVerified s [] v = v
  run_from-IsVerified s (q ∷ qs) v =
      run_from-IsVerified (add_block double hashes s q.transactions q.validator q.now q.nonces).0 qs
        (add_block-IsVerified double hashes s q.transactions q.validator q.now q.nonces v).0

  -- After any calls of `addBlock` on a new chain, the chain verifies.
  pub run-verify_chain :
      (qs : List (Request D))
      → verify_chain double hashes (run (new_blockchain double hashes) qs) ≡ true
  unfolding new_blockchain verify_chain
  run-verify_chain qs =
      let (prev, bs, e, v) =
        run_from-IsVerified (new_blockchain double hashes) qs
          (genesis double hashes, [], refl, refl) in
      v
