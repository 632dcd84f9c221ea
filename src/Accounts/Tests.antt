-- ===== src/Accounts/Tests.antt =====
-- Accounts of whole amounts.
use blackstone.Prelude.{◌≡◌, refl, true, false, ◌&&◌, [], ◌∷◌, is_some}
use blackstone.Prelude.Int.{ℤ, pos, negsuc, ◌+ℤ◌, ◌-ℤ◌, ltb_ℤ, leb_ℤ}
use blackstone.Map.{find, string_key}
use blackstone.Blocks.{Doubles}
use blackstone.Accounts.{
  BankAccount, no_accounts, account_ids, freeze, withdraw, get_available_balance,
  get_accounts_by_owner, creates, deletes, updates, run,
}
use blackstone.Accounts.Owners.{listed, owns, run-owners}
use blackstone.Accounts.Frozen.{withdraw_times, subtract_times, withdraw_again}

abbrev whole : Doubles ℤ
whole = record {
  zero_double = pos 0;
  add = ◌+ℤ◌;
  sub = ◌-ℤ◌;
  times = λ a b. a;
  negate = λ a. pos 0 -ℤ a;
  less = ltb_ℤ;
  at_most = leb_ℤ;
  same = λ a b. leb_ℤ a b && leb_ℤ b a;
  print = λ d. "0";
}

abbrev savings : BankAccount ℤ
savings = record {
  account_id = "a1";
  owner_id = "ann";
  balance = pos 10;
  frozen_balance = pos 0;
  account_type = "standard";
  is_frozen = false;
  created_at = 1;
  last_transaction_at = 1;
  transaction_history = [];
  public_key = "k";
  encrypted_private_key = "";
}

-- Three withdrawals of 10 from a frozen balance of 10.
withdraw_again_example :
    let r = withdraw_times whole 3 (pos 10) 5 (freeze savings).0 in
    (r.1 ≡ true)
    × (r.0.balance ≡ subtract_times whole 3 (pos 10) (pos 10))
    × (get_available_balance whole r.0 ≡ pos 10)
unfolding withdraw freeze
withdraw_again_example = withdraw_again whole 3 (pos 10) 5 savings refl allowed
  where
    allowed : (withdraw whole (pos 10) 5 (freeze savings).0).1 ≡ true
    allowed = refl

overdrawn : subtract_times whole 3 (pos 10) (pos 10) ≡ negsuc 19
unfolding ◌-ℤ◌
overdrawn = refl

run-owners_example :
    let s =
      run whole no_accounts
        (creates "a1" "ann" "k" 1 ∷ updates "a1" (pos 5) 2 ∷ deletes "a1" ∷ []) in
    (listed "a1" (account_ids "ann" s) ≡ owns "ann" (find "a1" s.accounts))
    × (is_some (get_accounts_by_owner "ann" s) ≡ true)
run-owners_example =
    run-owners whole (creates "a1" "ann" "k" 1 ∷ updates "a1" (pos 5) 2 ∷ deletes "a1" ∷ []) "ann"
      "a1"
