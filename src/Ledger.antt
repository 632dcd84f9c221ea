-- ===== src/Ledger.antt =====
-- p2p_banking_system/banking/ledger.h and ledger.cpp, but for the text forms: reading one calls
-- `clear` under the mutex that `clear` locks. The other methods hold the mutex. The id that the random
-- source makes for an entry, the clock and `double` are arguments.
pub mod Consistent
mod Tests
use blackstone.Prelude.{
  ℕ, ◌+◌, String, Bool, true, false, not, Option, none, some, List, [], ◌∷◌, ◌++◌, length, take,
  drop, ltb, leb, keep_if, if◌then◌else◌,
}
use blackstone.Map.{Map, ◌==◌, string_key, find, insert}
use blackstone.Blocks.{Doubles}

pub record LedgerEntry (D : Type 0) : Type 0 where
  pub entry_id : String
  pub account_id : String
  pub amount : D
  pub transaction_id : String
  pub timestamp : ℕ
  pub entry_type : String
  pub balance_after : D

pub record Ledger (D : Type 0) : Type 0 where
  pub entries : List (LedgerEntry D)
  pub balances : Map String D
  pub account_entries : Map String (List String)
  pub max_entries : ℕ

abbrev pub new_ledger : {D : Type 0} → ℕ → Ledger D
new_ledger max = record { entries = []; balances = []; account_entries = []; max_entries = max }

abbrev pub or_empty : Option (List String) → List String
or_empty none = []
or_empty (some ids) = ids

-- The arguments of a call of `addTransaction`, with what it reads.
pub record Posting (D : Type 0) : Type 0 where
  pub account : String
  pub amount : D
  pub transaction : String
  pub kind : String
  pub id : String
  pub now : ℕ

module _ {D : Type 0} where
  abbrev pub file_entry : LedgerEntry D → Map String (List String) → Map String (List String)
  file_entry e m = insert e.account_id (or_empty (find e.account_id m) ++ e.entry_id ∷ []) m

  pub add_entry : LedgerEntry D → Ledger D → Ledger D
  add_entry e s =
      let room = if leb s.max_entries (length s.entries) then drop 1 s.entries else s.entries in
      record s {
        entries = room ++ e ∷ [];
        balances = insert e.account_id e.balance_after s.balances;
        account_entries = file_entry e s.account_entries;
      }

  abbrev pub entry_of : String → List (LedgerEntry D) → List (LedgerEntry D)
  entry_of id [] = []
  entry_of id (e ∷ es) = let rest = entry_of id es in if e.entry_id == id then e ∷ [] else rest

  abbrev pub entries_of : List String → List (LedgerEntry D) → List (LedgerEntry D)
  entries_of [] es = []
  entries_of (id ∷ ids) es = entry_of id es ++ entries_of ids es

  pub get_entries_for_account : String → ℕ → Ledger D → List (LedgerEntry D)
  get_entries_for_account account limit s =
      take limit (entries_of (or_empty (find account s.account_entries)) s.entries)

  pub get_entries_since : ℕ → Ledger D → List (LedgerEntry D)
  get_entries_since time s = keep_if (λ e. not (ltb e.timestamp time)) s.entries

  pub get_entry_count : Ledger D → ℕ
  get_entry_count s = length s.entries

  pub clear : Ledger D → Ledger D
  clear s = record s { entries = []; balances = []; account_entries = [] }

module _ {D : Type 0} (double : Doubles D) where
  abbrev pub or_zero : Option D → D
  or_zero none = double.zero_double
  or_zero (some d) = d

  -- `m[account]`
  abbrev pub value : String → Map String D → D
  value account m = or_zero (find account m)

  abbrev pub posted : String → D → D → D
  posted kind balance amount =
      if kind == "credit" then double.add balance amount else double.sub balance amount

  abbrev pub new_entry : Posting D → Ledger D → LedgerEntry D
  new_entry p s = record {
    entry_id = p.id;
    account_id = p.account;
    amount = p.amount;
    transaction_id = p.transaction;
    timestamp = p.now;
    entry_type = p.kind;
    balance_after = posted p.kind (value p.account s.balances) p.amount;
  }

  pub add_transaction : Posting D → Ledger D → Ledger D
  add_transaction p s =
      let e = new_entry p s in
      let all = s.entries ++ e ∷ [] in
      record s {
        entries = if ltb s.max_entries (length all) then drop 1 all else all;
        balances = insert p.account e.balance_after s.balances;
        account_entries = file_entry e s.account_entries;
      }

  pub get_balance : String → Ledger D → D
  get_balance account s = value account s.balances

  abbrev pub compute : Map String D → LedgerEntry D → Map String D
  compute m e = insert e.account_id (posted e.entry_type (value e.account_id m) e.amount) m

  -- The loop of `verifyConsistency`.
  pub verify_from : Map String D → List (LedgerEntry D) → Bool
  verify_from m [] = true
  verify_from m (e ∷ es) =
      let rest = verify_from (compute m e) es in
      if not (double.same (value e.account_id (compute m e)) e.balance_after) then false else rest

  pub verify_consistency : Ledger D → Bool
  unfolding verify_from
  verify_consistency s = verify_from [] s.entries

  abbrev pub post_all : List (Posting D) → Ledger D → Ledger D
  post_all [] s = s
  post_all (p ∷ ps) s = post_all ps (add_transaction p s)
