-- ===== src/Ledger/Consistent.antt =====
-- p2p_banking_system/banking/ledger.cpp: the balances and the entries agree.
use blackstone.Prelude.{
  ℕ, suc, ◌+◌, ◌≤◌, ◌<◌, ◌≡◌, refl, sym, ◌∙◌, ap, String, Bool, true, false, not, ◌&&◌, List, [],
  ◌∷◌, ◌++◌, arith, length, ltb, if◌then◌else◌, length-append, length-drop, Bool-cases, inl, inr,
}
use blackstone.Map.{Map, ◌==◌, string_key, find, insert, find-insert, beq_refl}
use blackstone.Blocks.{Doubles}
use blackstone.Ledger.{
  LedgerEntry, Ledger, new_ledger, Posting, value, posted, new_entry, add_transaction, get_balance,
  compute, verify_from, verify_consistency, post_all,
}

module _ {D : Type 0} (double : Doubles D) where
  abbrev computed : Map String D → List (LedgerEntry D) → Map String D
  computed m [] = m
  computed m (e ∷ es) = computed (compute double m e) es

  value-insert :
      (a b : String) (d : D) (m : Map String D)
      → value double b (insert a d m) ≡ (if a == b then d else value double b m)
  value-insert a b d m =
      rw (find-insert a b d m)
        (elim (Bool-cases (a == b)) [ inl e ↦ rw e refl | inr e ↦ rw e refl ])

  -- Is the balance after the entry equal to itself? A NaN is not.
  abbrev pub is_itself : LedgerEntry D → Bool
  is_itself e = double.same e.balance_after e.balance_after

  abbrev pub all_itself : List (LedgerEntry D) → Bool
  all_itself [] = true
  all_itself (e ∷ es) = is_itself e && all_itself es

  -- Does each entry bear the balance that is computed for it?
  abbrev IsTrue : Map String D → List (LedgerEntry D) → Type 0
  IsTrue m [] = Unit
  IsTrue m (e ∷ es) =
      (value double e.account_id (compute double m e) ≡ e.balance_after)
      × IsTrue (compute double m e) es

  verify_from-IsTrue :
      (m : Map String D) (es : List (LedgerEntry D))
      → IsTrue m es
      → verify_from double m es ≡ all_itself es
  unfolding verify_from
  verify_from-IsTrue m [] h = refl
  verify_from-IsTrue m (e ∷ es) h =
      rw (h.0, verify_from-IsTrue (compute double m e) es h.1) (test (is_itself e) (all_itself es))
    where
      test : (b c : Bool) → (if not b then false else c) ≡ b && c
      test true c = refl
      test false c = refl

  IsTrue-append :
      (m : Map String D) (es : List (LedgerEntry D)) (e : LedgerEntry D)
      → IsTrue m es
      → value double e.account_id (compute double (computed m es) e) ≡ e.balance_after
      → IsTrue m (es ++ e ∷ [])
  IsTrue-append m [] e h k = (k, tt)
  IsTrue-append m (d ∷ es) e h k = (h.0, IsTrue-append (compute double m d) es e h.1 k)

  computed-append :
      (m : Map String D) (es : List (LedgerEntry D)) (e : LedgerEntry D)
      → computed m (es ++ e ∷ []) ≡ compute double (computed m es) e
  computed-append m [] e = refl
  computed-append m (d ∷ es) e = computed-append (compute double m d) es e

  abbrev IsConsistent : Ledger D → Type 0
  IsConsistent s =
      IsTrue [] s.entries
      × ((a : String) → value double a (computed [] s.entries) ≡ value double a s.balances)

  add_transaction-IsConsistent :
      (p : Posting D) (s : Ledger D)
      → length s.entries < s.max_entries
      → IsConsistent s
      → IsConsistent (add_transaction double p s)
  unfolding add_transaction
  add_transaction-IsConsistent p s l h =
      let e = new_entry double p s in
      let m = computed [] s.entries in
      let now : value double p.account (compute double m e) ≡ e.balance_after =
        value-insert p.account p.account _ m
        ∙ rw (beq_refl p.account) (ap (λ b. posted double p.kind b p.amount) (h.1 p.account)) in
      let room : ltb s.max_entries (length (s.entries ++ e ∷ [])) ≡ false =
        rw (length-append s.entries (e ∷ [])) (ground arith) in
      rw room (
        IsTrue-append [] s.entries e h.0 now,
        λ a.
            ap (value double a) (computed-append [] s.entries e)
            ∙ value-insert p.account a (posted double p.kind (value double p.account m) p.amount) m
            ∙ ap (λ b. if p.account == a then posted double p.kind b p.amount else value double a m)
                (h.1 p.account)
            ∙ ap (λ b. if p.account == a then e.balance_after else b) (h.1 a)
            ∙ sym (value-insert p.account a e.balance_after s.balances),
      )

  length-add_transaction :
      (p : Posting D) (s : Ledger D)
      → (length (add_transaction double p s).entries ≤ suc (length s.entries))
        × ((add_transaction double p s).max_entries ≡ s.max_entries)
  unfolding add_transaction
  length-add_transaction p s =
      let e = new_entry double p s in
      (ground (arith, length-append s.entries (e ∷ []), length-drop 1 (s.entries ++ e ∷ [])), refl)

  post_all-IsConsistent :
      (ps : List (Posting D)) (s : Ledger D)
      → length s.entries + length ps ≤ s.max_entries
      → IsConsistent s
      → IsConsistent (post_all double ps s)
  post_all-IsConsistent [] s l h = h
  post_all-IsConsistent (p ∷ ps) s l h =
      let size = length-add_transaction p s in
      post_all-IsConsistent ps (add_transaction double p s) (omega (arith, size.0, size.1))
        (add_transaction-IsConsistent p s (omega arith) h)

  -- The balance that the postings of one account make, one after the other.
  abbrev pub balance_from : String → D → List (Posting D) → D
  balance_from account balance [] = balance
  balance_from account balance (p ∷ ps) =
      balance_from account
        (if p.account == account then posted double p.kind balance p.amount else balance) ps

  get_balance-post_all :
      (account : String) (ps : List (Posting D)) (s : Ledger D)
      → get_balance double account (post_all double ps s)
        ≡ balance_from account (get_balance double account s) ps
  unfolding get_balance add_transaction
  get_balance-post_all account [] s = refl
  get_balance-post_all account (p ∷ ps) s =
      get_balance-post_all account ps (add_transaction double p s)
      ∙ ap (λ b. balance_from account b ps)
          (value-insert p.account account (new_entry double p s).balance_after s.balances
            ∙ same_account (p.account == account) refl)
    where
      same_account :
          (b : Bool)
          → (p.account == account) ≡ b
          → (if b
              then posted double p.kind (value double p.account s.balances) p.amount
              else value double account s.balances)
            ≡ (if b
                then posted double p.kind (value double account s.balances) p.amount
                else value double account s.balances)
      same_account true e =
          ap (λ k. posted double p.kind (value double k s.balances) p.amount)
            ((string_key.beq_iff p.account account).0 e)
      same_account false e = refl

  -- After calls of addTransaction on a new ledger, no more than it has room for, the balance of an
  -- account is the sum of its credits less its other postings, in their order, and verifyConsistency
  -- says true exactly if no entry bears a balance that differs from itself, which is a NaN.
  pub post_all-consistent :
      (ps : List (Posting D)) (max : ℕ) (account : String)
      → length ps ≤ max
      → let s = post_all double ps (new_ledger max) in
        (get_balance double account s ≡ balance_from account double.zero_double ps)
        × (verify_consistency double s ≡ all_itself s.entries)
  unfolding verify_consistency get_balance find
  post_all-consistent ps max account l =
      let s = post_all double ps (new_ledger max) in
      (
        get_balance-post_all account ps (new_ledger max),
        verify_from-IsTrue [] s.entries
            (post_all-IsConsistent ps (new_ledger max) (omega arith) (tt, λ a. refl)).0,
      )
