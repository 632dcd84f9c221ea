-- ===== src/Accounts/Frozen.antt =====
-- p2p_banking_system/banking/account.cpp: withdrawals from an account that is frozen.
use blackstone.Prelude.{
  ℕ, zero, suc, ◌≡◌, refl, sym, ◌∙◌, ap, Bool, true, false, not, ◌&&◌, arith, if◌then◌else◌,
}
use blackstone.Blocks.{Doubles}
use blackstone.Accounts.{BankAccount, freeze, withdraw, get_available_balance}

-- What three refusals in turn leave of a call that is accepted.
abbrev refusals : {A : Type 0} → Bool → Bool → Bool → A → A → A × Bool
refusals b c d x y =
    if b then (x, false) else if c then (x, false) else if d then (x, false) else (y, true)

accepted :
    {A : Type 0} (b c d : Bool) (x y : A)
    → (refusals b c d x y).1 ≡ true
    → (refusals b c d x y).0 ≡ y
accepted true c d x y h = cc
accepted false true d x y h = cc
accepted false false true x y h = cc
accepted false false false x y h = refl

module _ {D : Type 0} (double : Doubles D) where
  -- The same withdrawal, as often as given, and whether each was accepted.
  abbrev pub withdraw_times : ℕ → D → ℕ → BankAccount D → BankAccount D × Bool
  withdraw_times zero amount now a = (a, true)
  withdraw_times (suc n) amount now a =
      let one = withdraw double amount now a in
      let rest = withdraw_times n amount now one.0 in (rest.0, one.1 && rest.1)

  abbrev pub subtract_times : ℕ → D → D → D
  subtract_times zero amount b = b
  subtract_times (suc n) amount b = subtract_times n amount (double.sub b amount)

  -- What decides on a withdrawal from a frozen account.
  abbrev is_allowed : D → D → Bool
  is_allowed amount limit =
      not (double.at_most amount double.zero_double) && not (double.less limit amount)

  withdraw-frozen :
      (amount : D) (now : ℕ) (a : BankAccount D)
      → a.is_frozen ≡ true
      → (withdraw double amount now a).1 ≡ is_allowed amount a.frozen_balance
  unfolding withdraw
  withdraw-frozen amount now a f = ground (arith, f)

  withdraw-accepted :
      (amount : D) (now : ℕ) (a : BankAccount D)
      → (withdraw double amount now a).1 ≡ true
      → (withdraw double amount now a).0
        ≡ record a { balance = double.sub a.balance amount; last_transaction_at = now }
  unfolding withdraw
  withdraw-accepted amount now a h =
      accepted (double.at_most amount double.zero_double)
        (a.is_frozen && double.less a.frozen_balance amount)
        (not a.is_frozen && double.less a.balance amount) a
        (record a { balance = double.sub a.balance amount; last_transaction_at = now }) h

  repeat_withdrawal :
      (n : ℕ) (amount : D) (now : ℕ) (a : BankAccount D)
      → a.is_frozen ≡ true
      → is_allowed amount a.frozen_balance ≡ true
      → ((withdraw_times n amount now a).1 ≡ true)
        × ((withdraw_times n amount now a).0.balance ≡ subtract_times n amount a.balance)
        × ((withdraw_times n amount now a).0.frozen_balance ≡ a.frozen_balance)
        × ((withdraw_times n amount now a).0.is_frozen ≡ true)
  repeat_withdrawal zero amount now a f h = (refl, refl, refl, f)
  repeat_withdrawal (suc n) amount now a f h =
      let took = withdraw-frozen amount now a f ∙ h in
      let left = record a { balance = double.sub a.balance amount; last_transaction_at = now } in
      let rest = repeat_withdrawal n amount now left f h in
      rw (took, withdraw-accepted amount now a took) rest

  freeze_lem :
      (a : BankAccount D)
      → a.is_frozen ≡ false
      → (freeze a).0 ≡ record a { is_frozen = true; frozen_balance = a.balance }
  unfolding freeze
  freeze_lem a f = rw f refl

  -- Freezing an account with its balance does not bound what is taken from it: a withdrawal that is
  -- accepted once after freeze, whatever the doubles, is accepted any number of times, each taking
  -- its amount off the balance, and the amount available stays the same.
  pub withdraw_again :
      (n : ℕ) (amount : D) (now : ℕ) (a : BankAccount D)
      → a.is_frozen ≡ false
      → (withdraw double amount now (freeze a).0).1 ≡ true
      → let r = withdraw_times n amount now (freeze a).0 in
        (r.1 ≡ true)
        × (r.0.balance ≡ subtract_times n amount a.balance)
        × (get_available_balance double r.0 ≡ a.balance)
  unfolding get_available_balance
  withdraw_again n amount now a f h =
      let b = (freeze a).0 in
      let frozen = ap (λ c. c.is_frozen) (freeze_lem a f) in
      let rest =
        repeat_withdrawal n amount now b frozen (sym (withdraw-frozen amount now b frozen) ∙ h) in
      (
        rest.0,
        rest.1 ∙ ap (λ c. subtract_times n amount c.balance) (freeze_lem a f),
        rw rest.3 (rest.2 ∙ ap (λ c. c.frozen_balance) (freeze_lem a f)),
      )
