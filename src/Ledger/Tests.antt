-- ===== src/Ledger/Tests.antt =====
-- A ledger of whole amounts.
use blackstone.Prelude.{◌≡◌, refl, true, false, ◌&&◌, List, [], ◌∷◌, arith}
use blackstone.Prelude.Int.{ℤ, pos, ◌+ℤ◌, ◌-ℤ◌, ltb_ℤ, leb_ℤ}
use blackstone.Map.{find, insert, place, replace, string_key}
use blackstone.Blocks.{Doubles}
use blackstone.Ledger.{
  Posting, new_ledger, add_transaction, get_balance, verify_from, verify_consistency, post_all,
}
use blackstone.Ledger.Consistent.{balance_from, all_itself, post_all-consistent}

abbrev whole : Doubles ℤ
whole = record {
  zero_double = pos 0;
  add = ◌+ℤ◌;
  sub = ◌-ℤ◌;
  times = λ a b. a;
  negate = λ a. pos 0 -ℤ a;
  less = ltb_ℤ;
  at_most = leb_ℤ;
  same = λ a b. leb_ℤ a b && leb_ℤ b a;
  print = λ d. "0";
}

abbrev postings : List (Posting ℤ)
postings =
    record {
      account = "a";
      amount = pos 5;
      transaction = "t1";
      kind = "credit";
      id = "e1";
      now = 1;
    }
    ∷ record {
      account = "a";
      amount = pos 2;
      transaction = "t2";
      kind = "debit";
      id = "e2";
      now = 2;
    }
    ∷ []

post_all-consistent_example :
    let s = post_all whole postings (new_ledger 9) in
    (get_balance whole "a" s ≡ balance_from whole "a" (pos 0) postings)
    × (verify_consistency whole s ≡ all_itself whole s.entries)
post_all-consistent_example = post_all-consistent whole postings 9 "a" (omega arith)

three_left : get_balance whole "a" (post_all whole postings (new_ledger 9)) ≡ pos 3
unfolding get_balance add_transaction find insert place replace ◌+ℤ◌ ◌-ℤ◌
three_left = refl

consistent : verify_consistency whole (post_all whole postings (new_ledger 9)) ≡ true
unfolding verify_consistency verify_from add_transaction find insert place replace ◌+ℤ◌ ◌-ℤ◌
consistent = refl

-- Where no number equals itself, as no NaN does, the same ledger is found inconsistent.
abbrev strange : Doubles ℤ
strange = record whole { same = λ a b. false }

not_itself : verify_consistency strange (post_all strange postings (new_ledger 9)) ≡ false
unfolding verify_consistency verify_from add_transaction find insert place replace ◌+ℤ◌ ◌-ℤ◌
not_itself = refl

-- With room for one entry the first is dropped, and its amount with it.
dropped : verify_consistency whole (post_all whole postings (new_ledger 1)) ≡ false
unfolding verify_consistency verify_from add_transaction find insert place replace ◌+ℤ◌ ◌-ℤ◌
dropped = refl
