-- ===== src/Accounts.antt =====
-- p2p_banking_system/banking/account.h and account.cpp, but for the text forms of an account. The
-- manager's methods hold its mutex; `now` is what `getTimestampMs` returns, and `double` is an argument.
pub mod Owners
pub mod Frozen
mod Tests
use blackstone.Prelude.{
  ℕ, String, Bool, true, false, not, ◌&&◌, Option, none, some, List, [], ◌∷◌, ◌++◌, length, keep_if,
  if◌then◌else◌,
}
use blackstone.Map.{Map, ◌==◌, string_key, find, contains, insert, erase}
use blackstone.Blocks.{Doubles}

pub record BankAccount (D : Type 0) : Type 0 where
  pub account_id : String
  pub owner_id : String
  pub balance : D
  pub frozen_balance : D
  pub account_type : String
  pub is_frozen : Bool
  pub created_at : ℕ
  pub last_transaction_at : ℕ
  pub transaction_history : List String
  pub public_key : String
  pub encrypted_private_key : String

pub record AccountManager (D : Type 0) : Type 0 where
  pub accounts : Map String (BankAccount D)
  pub owner_to_accounts : Map String (List String)

abbrev pub no_accounts : {D : Type 0} → AccountManager D
no_accounts = record { accounts = []; owner_to_accounts = [] }

-- `ownerToAccounts[owner]`, an empty list where there is none.
abbrev pub or_empty : Option (List String) → List String
or_empty none = []
or_empty (some ids) = ids

module _ {D : Type 0} where
  abbrev pub account_ids : String → AccountManager D → List String
  account_ids owner s = or_empty (find owner s.owner_to_accounts)

  pub set_account_type : String → BankAccount D → BankAccount D
  set_account_type kind a = record a { account_type = kind }

  pub add_transaction : String → ℕ → BankAccount D → BankAccount D
  add_transaction tx_id now a = record a {
    transaction_history = a.transaction_history ++ tx_id ∷ [];
    last_transaction_at = now;
  }

  pub set_encrypted_private_key : String → BankAccount D → BankAccount D
  set_encrypted_private_key text a = record a { encrypted_private_key = text }

  pub freeze : BankAccount D → BankAccount D × Bool
  freeze a =
      if a.is_frozen
      then (a, false)
      else (record a { is_frozen = true; frozen_balance = a.balance }, true)

  -- What a method does to the account of an id, if there is one.
  abbrev pub apply_to :
      String
      → (BankAccount D → BankAccount D × Bool)
      → AccountManager D
      → Option (BankAccount D)
      → AccountManager D × Bool
  apply_to id f s none = (s, false)
  apply_to id f s (some a) = (record s { accounts = insert id (f a).0 s.accounts }, (f a).1)

  pub freeze_account : String → AccountManager D → AccountManager D × Bool
  unfolding freeze
  freeze_account id s = apply_to id freeze s (find id s.accounts)

  abbrev pub remove_account :
      String → AccountManager D → Option (BankAccount D) → AccountManager D × Bool
  remove_account id s none = (s, false)
  remove_account id s (some a) = (
    record {
      accounts = erase id s.accounts;
      owner_to_accounts =
          insert a.owner_id (keep_if (λ i. not (i == id)) (account_ids a.owner_id s))
            s.owner_to_accounts;
    },
    true,
  )

  pub delete_account : String → AccountManager D → AccountManager D × Bool
  delete_account id s = remove_account id s (find id s.accounts)

  abbrev pub add_found :
      Option (BankAccount D) → Option (List (BankAccount D)) → Option (List (BankAccount D))
  add_found (some a) (some rest) = some (a ∷ rest)
  add_found none rest = none
  add_found (some a) none = none

  -- `none` where `accounts.at` throws.
  pub accounts_of : Map String (BankAccount D) → List String → Option (List (BankAccount D))
  accounts_of m [] = some []
  accounts_of m (id ∷ ids) = add_found (find id m) (accounts_of m ids)

  pub get_accounts_by_owner : String → AccountManager D → Option (List (BankAccount D))
  unfolding accounts_of
  get_accounts_by_owner owner s = accounts_of s.accounts (account_ids owner s)

  pub account_exists : String → AccountManager D → Bool
  account_exists id s = contains id s.accounts

  pub get_account_count : AccountManager D → ℕ
  get_account_count s = length s.accounts

-- The calls that change the accounts.
pub data Call (D : Type 0) : Type 0 where
  creates : (id owner key : String) (now : ℕ) → Call D
  deletes : (id : String) → Call D
  updates : (id : String) (amount : D) (now : ℕ) → Call D
  freezes unfreezes : (id : String) → Call D

module _ {D : Type 0} (double : Doubles D) where
  pub new_account : String → String → String → ℕ → BankAccount D
  new_account id owner key now = record {
    account_id = id;
    owner_id = owner;
    balance = double.zero_double;
    frozen_balance = double.zero_double;
    account_type = "standard";
    is_frozen = false;
    created_at = now;
    last_transaction_at = now;
    transaction_history = [];
    public_key = key;
    encrypted_private_key = "";
  }

  pub deposit : D → ℕ → BankAccount D → BankAccount D × Bool
  deposit amount now a =
      if double.at_most amount double.zero_double
      then (a, false)
      else (record a { balance = double.add a.balance amount; last_transaction_at = now }, true)

  pub withdraw : D → ℕ → BankAccount D → BankAccount D × Bool
  withdraw amount now a =
      if double.at_most amount double.zero_double
      then (a, false)
      else if a.is_frozen && double.less a.frozen_balance amount
      then (a, false)
      else if not a.is_frozen && double.less a.balance amount
      then (a, false)
      else (record a { balance = double.sub a.balance amount; last_transaction_at = now }, true)

  pub unfreeze : BankAccount D → BankAccount D × Bool
  unfreeze a =
      if not a.is_frozen
      then (a, false)
      else (record a { is_frozen = false; frozen_balance = double.zero_double }, true)

  pub get_available_balance : BankAccount D → D
  get_available_balance a = if a.is_frozen then a.frozen_balance else a.balance

  pub create_account : String → String → String → ℕ → AccountManager D → AccountManager D × Bool
  unfolding new_account
  create_account id owner key now s = if contains id s.accounts then (s, false) else (
    record {
      accounts = insert id (new_account id owner key now) s.accounts;
      owner_to_accounts = insert owner (account_ids owner s ++ id ∷ []) s.owner_to_accounts;
    },
    true,
  )

  abbrev pub change_balance : D → ℕ → BankAccount D → BankAccount D × Bool
  change_balance amount now a =
      if double.less double.zero_double amount
      then deposit amount now a
      else if double.less amount double.zero_double
      then withdraw (double.negate amount) now a
      else (a, true)

  pub update_balance : String → D → ℕ → AccountManager D → AccountManager D × Bool
  unfolding deposit withdraw
  update_balance id amount now s = apply_to id (change_balance amount now) s (find id s.accounts)

  pub unfreeze_account : String → AccountManager D → AccountManager D × Bool
  unfolding unfreeze
  unfreeze_account id s = apply_to id unfreeze s (find id s.accounts)

  pub step : AccountManager D → Call D → AccountManager D × Bool
  unfolding create_account delete_account update_balance freeze_account unfreeze_account
  step s (creates id owner key now) = create_account id owner key now s
  step s (deletes id) = delete_account id s
  step s (updates id amount now) = update_balance id amount now s
  step s (freezes id) = freeze_account id s
  step s (unfreezes id) = unfreeze_account id s

  pub run : AccountManager D → List (Call D) → AccountManager D
  unfolding step
  run s [] = s
  run s (c ∷ cs) = run (step s c).0 cs
