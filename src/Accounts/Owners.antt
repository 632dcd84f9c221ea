-- ===== src/Accounts/Owners.antt =====
-- p2p_banking_system/banking/account.cpp: the accounts under their owners.
use blackstone.Prelude.{
  ℕ, String, ◌≡◌, refl, sym, ◌∙◌, ap, Bool, true, false, not, ◌&&◌, ◌||◌, Option, none, some, List,
  [], ◌∷◌, ◌++◌, arith, keep_if, if◌then◌else◌, if_both, is_some, Bool-cases, Option-cases, inl,
  inr,
}
use blackstone.Map.{Map, ◌==◌, string_key, find, insert, erase, find-insert, find-erase}
use blackstone.Blocks.{Doubles}
use blackstone.Accounts.{
  BankAccount, AccountManager, no_accounts, or_empty, account_ids, freeze, apply_to, freeze_account,
  remove_account, delete_account, add_found, accounts_of, get_accounts_by_owner, new_account,
  deposit, withdraw, unfreeze, create_account, change_balance, update_balance, unfreeze_account,
  Call, creates, deletes, updates, freezes, unfreezes, step, run,
}

abbrev pub listed : String → List String → Bool
listed id [] = false
listed id (i ∷ ids) = i == id || listed id ids

listed-append :
    (id i : String) (ids : List String) → listed id (ids ++ i ∷ []) ≡ (listed id ids || i == id)
listed-append id i [] = ground arith
listed-append id i (j ∷ ids) = ground (arith, listed-append id i ids)

listed-keep_if :
    (id i : String) (ids : List String)
    → listed id (keep_if (λ j. not (j == i)) ids) ≡ (not (i == id) && listed id ids)
listed-keep_if id i [] = ground arith
listed-keep_if id i (j ∷ ids) = ground (
  arith,
  listed-keep_if id i ids,
  string_key.beq_iff j i,
  string_key.beq_iff j id,
  string_key.beq_iff i id,
)

module _ {D : Type 0} where
  abbrev pub owns : String → Option (BankAccount D) → Bool
  owns owner none = false
  owns owner (some a) = a.owner_id == owner

  abbrev SameOwner : BankAccount D → BankAccount D × Bool → Type 0
  SameOwner a r = r.0.owner_id ≡ a.owner_id

  -- An owner's list has just the accounts of the owner.
  abbrev pub IsFiled : AccountManager D → Type 0
  IsFiled s =
      (owner id : String) → listed id (account_ids owner s) ≡ owns owner (find id s.accounts)

  account_ids-insert :
      (owner o : String) (ids : List String) (s : AccountManager D)
      → or_empty (find o (insert owner ids s.owner_to_accounts))
        ≡ (if owner == o then ids else account_ids o s)
  account_ids-insert owner o ids s =
      rw (find-insert owner o ids s.owner_to_accounts)
        (elim (Bool-cases (owner == o)) [ inl e ↦ rw e refl | inr e ↦ rw e refl ])

  owns-insert :
      (id i owner : String) (a : BankAccount D) (m : Map String (BankAccount D))
      → owns owner (find i (insert id a m))
        ≡ (if id == i then a.owner_id == owner else owns owner (find i m))
  owns-insert id i owner a m =
      rw (find-insert id i a m)
        (elim (Bool-cases (id == i)) [ inl e ↦ rw e refl | inr e ↦ rw e refl ])

  apply_to-IsFiled :
      (id : String) (f : BankAccount D → BankAccount D × Bool) (s : AccountManager D)
      → ((a : BankAccount D) → (f a).0.owner_id ≡ a.owner_id)
      → (o : Option (BankAccount D)) → find id s.accounts ≡ o
      → IsFiled s
      → IsFiled (apply_to id f s o).0
  apply_to-IsFiled id f s k none e h = h
  apply_to-IsFiled id f s k (some a) e h = λ owner i. ground (
    arith,
    owns-insert id i owner (f a).0 s.accounts,
    k a,
    h owner i,
    string_key.beq_iff id i,
    ap (λ (j : String). owns owner (find j s.accounts)),
    ap (λ (o : String). o == owner),
  )

  delete_account-IsFiled :
      (id : String) (s : AccountManager D) (o : Option (BankAccount D))
      → find id s.accounts ≡ o
      → IsFiled s
      → IsFiled (remove_account id s o).0
  delete_account-IsFiled id s none e h = h
  delete_account-IsFiled id s (some a) e h =
      let rest = keep_if (λ i. not (i == id)) (account_ids a.owner_id s) in
      λ owner i. ground (
        arith,
        ap (listed i) (account_ids-insert a.owner_id owner rest s),
        listed-keep_if i id (account_ids a.owner_id s),
        owns-erase id i owner s.accounts,
        h owner i,
        h owner id,
        ap (owns owner) e,
        string_key.beq_iff id i,
        string_key.beq_iff a.owner_id owner,
        ap (λ (j : String). listed j (account_ids owner s)),
        ap (λ (o : String). listed i (account_ids o s)),
      )
    where
      owns-erase :
          (id i owner : String) (m : Map String (BankAccount D))
          → owns owner (find i (erase id m)) ≡ (if id == i then false else owns owner (find i m))
      owns-erase id i owner m =
          rw (find-erase id i m)
            (elim (Bool-cases (id == i)) [ inl e ↦ rw e refl | inr e ↦ rw e refl ])

module _ {D : Type 0} (double : Doubles D) where
  create_account-IsFiled :
      (id owner key : String) (now : ℕ) (s : AccountManager D)
      → IsFiled s
      → IsFiled (create_account double id owner key now s).0
  unfolding create_account new_account
  create_account-IsFiled id owner key now s h = elim (Option-cases (find id s.accounts)) [
    | inl e ↦ rw e (λ o i. ground (
      arith,
      ap (listed i) (account_ids-insert owner o (account_ids owner s ++ id ∷ []) s),
      listed-append i id (account_ids owner s),
      owns-insert id i o (new_account double id owner key now) s.accounts,
      h o i,
      h o id,
      ap (owns o) e,
      string_key.beq_iff id i,
      string_key.beq_iff owner o,
      ap (λ (j : String). owns o (find j s.accounts)),
      ap (λ (w : String). listed i (account_ids w s)),
    ))
    | inr r ↦ rw r.1 h
  ]

  deposit-owner :
      (amount : D) (now : ℕ) (a : BankAccount D)
      → (deposit double amount now a).0.owner_id ≡ a.owner_id
  unfolding deposit
  deposit-owner amount now a =
      if_both (SameOwner a) (double.at_most amount double.zero_double) refl refl

  withdraw-owner :
      (amount : D) (now : ℕ) (a : BankAccount D)
      → (withdraw double amount now a).0.owner_id ≡ a.owner_id
  unfolding withdraw
  withdraw-owner amount now a =
      if_both (SameOwner a) (double.at_most amount double.zero_double) refl (
        if_both (SameOwner a) (a.is_frozen && double.less a.frozen_balance amount) refl
          (if_both (SameOwner a) (not a.is_frozen && double.less a.balance amount) refl refl))

  change_balance-owner :
      (amount : D) (now : ℕ) (a : BankAccount D)
      → (change_balance double amount now a).0.owner_id ≡ a.owner_id
  change_balance-owner amount now a =
      if_both (SameOwner a) (double.less double.zero_double amount) (deposit-owner amount now a) (
        if_both (SameOwner a) (double.less amount double.zero_double)
          (withdraw-owner (double.negate amount) now a) refl)

  step-IsFiled : (c : Call D) (s : AccountManager D) → IsFiled s → IsFiled (step double s c).0
  unfolding step delete_account update_balance freeze_account unfreeze_account freeze unfreeze
  step-IsFiled (creates id owner key now) s h = create_account-IsFiled id owner key now s h
  step-IsFiled (deletes id) s h = delete_account-IsFiled id s (find id s.accounts) refl h
  step-IsFiled (updates id amount now) s h =
      apply_to-IsFiled id (change_balance double amount now) s (change_balance-owner amount now)
        (find id s.accounts) refl h
  step-IsFiled (freezes id) s h =
      apply_to-IsFiled id freeze s (λ a. if_both (SameOwner a) a.is_frozen refl refl)
        (find id s.accounts) refl h
  step-IsFiled (unfreezes id) s h =
      apply_to-IsFiled id (unfreeze double) s
        (λ a. if_both (SameOwner a) (not a.is_frozen) refl refl) (find id s.accounts) refl h

  run-IsFiled : (cs : List (Call D)) (s : AccountManager D) → IsFiled s → IsFiled (run double s cs)
  unfolding run
  run-IsFiled [] s h = h
  run-IsFiled (c ∷ cs) s h = run-IsFiled cs (step double s c).0 (step-IsFiled c s h)

  accounts_of-some :
      (m : Map String (BankAccount D)) (owner : String) (ids : List String)
      → ((id : String) → listed id ids ≡ true → owns owner (find id m) ≡ true)
      → is_some (accounts_of m ids) ≡ true
  unfolding accounts_of
  accounts_of-some m owner [] h = refl
  accounts_of-some m owner (id ∷ ids) h =
      added (find id m) (accounts_of m ids) (h id (ground (arith, string_key.beq_iff id id)))
        (accounts_of-some m owner ids (λ i l. h i (ground arith)))
    where
      added :
          (o : Option (BankAccount D)) (rest : Option (List (BankAccount D)))
          → owns owner o ≡ true
          → is_some rest ≡ true
          → is_some (add_found o rest) ≡ true
      added none rest h k = cc
      added (some a) none h k = cc
      added (some a) (some rest) h k = refl

  -- After any calls on a new manager, an id is in the list of an owner exactly if it names an account
  -- of that owner, and so getAccountsByOwner never throws.
  pub run-owners :
      (cs : List (Call D)) (owner id : String)
      → (listed id (account_ids owner (run double no_accounts cs))
          ≡ owns owner (find id (run double no_accounts cs).accounts))
        × (is_some (get_accounts_by_owner owner (run double no_accounts cs)) ≡ true)
  unfolding get_accounts_by_owner find
  run-owners cs owner id =
      let s = run double no_accounts cs in
      let filed = run-IsFiled cs no_accounts none_filed in
      (
        filed owner id,
        accounts_of-some s.accounts owner (account_ids owner s) (λ i l. sym (filed owner i) ∙ l),
      )
    where
      none_filed : IsFiled {D = D} no_accounts
      none_filed owner id = refl
