-- ===== src/Consensus/Rotation.antt =====
-- p2p_banking_system/blockchain/consensus.cpp: the round robin of `selectPoAValidator`.
use native.Mathlib.Nat.{mod-lt, mod-add-mod, mod-eq_of_lt, add-mod_right}
use blackstone.Prelude.{
  ℕ, zero, suc, ◌+◌, ◌-◌, ◌%◌, ◌<◌, ◌≡◌, sym, ◌∙◌, ap, subst, String, true, some, List, [], ◌∷◌,
  arith, length, get_elem?, get_elem?-lt, leb, Bool-cases, inl, inr,
}
use blackstone.Prelude.Words.{word}
use blackstone.Map.{◌==◌, string_key, beq_refl}
use blackstone.Consensus.{Engine, or_empty, pick, listed, select_poa}
use blackstone.Consensus.Selection.{empty_not}

-- Where a listed name stands.
place_of :
    (v : String) (ids : List String) → listed v ids ≡ true → (j : ℕ) × (get_elem? ids j ≡ some v)
place_of v [] h = cc
place_of v (u ∷ ids) h = elim (Bool-cases (u == v)) [
  | inl e ↦ (0, ap some ((string_key.beq_iff u v).0 e))
  | inr e ↦ let rest = place_of v ids (ground arith) in (suc rest.0, rest.1)
]

listed_later : (v u : String) (ids : List String) → listed v ids ≡ true → listed v (u ∷ ids) ≡ true
listed_later v u ids h = ground (arith, h)

-- From any index, fewer than n calls lead to place j of n.
calls_to : (i j n : ℕ) → j < n → (k : ℕ) × (k < n) × ((i + k) % n ≡ j)
calls_to i j n h =
    let lt = mod-lt i {m = n} (omega arith) in
    elim (Bool-cases (leb (i % n) j)) [
      | inl e ↦ (
        j - i % n,
        omega arith,
        sym (mod-add-mod i n (j - i % n)) ∙ ap (λ m. m % n) (ground arith) ∙ mod-eq_of_lt h,
      )
      | inr e ↦ (
        j + n - i % n,
        ground arith,
        sym (mod-add-mod i n (j + n - i % n))
            ∙ ap (λ m. m % n) (ground arith)
            ∙ add-mod_right j n
            ∙ mod-eq_of_lt h,
      )
    ]

module _ {D : Type 0} where
  -- Whom so many calls, one after the other, select.
  abbrev pub select_many : ℕ → ℕ → Engine D → List String
  select_many zero index s = []
  select_many (suc m) index s = let one = select_poa index s in one.0 ∷ select_many m one.1 s

  select_poa-pick :
      (index : ℕ) (s : Engine D)
      → 0 < length s.validators
      → suc index < word
      → select_poa index s ≡ (pick index s.validators, suc index)
  unfolding select_poa
  select_poa-pick index s h w =
      rw (empty_not s.validators h) (ap (λ n. (pick index s.validators, n)) (omega arith))

  select_many-at :
      (m k index : ℕ) (s : Engine D)
      → 0 < length s.validators
      → k < m
      → index + m < word
      → listed (pick (index + k) s.validators) (select_many m index s) ≡ true
  select_many-at zero k index s h l w = absurd (omega arith)
  select_many-at (suc m) zero index s h l w =
      rw (select_poa-pick index s h (omega arith))
        (rw (plus_zero index) (ground (arith, beq_refl (pick index s.validators))))
    where
      plus_zero : (n : ℕ) → n + 0 ≡ n
      plus_zero n = omega arith
  select_many-at (suc m) (suc k) index s h l w = rw (select_poa-pick index s h (omega arith)) (
      listed_later (pick (index + suc k) s.validators) (pick index s.validators)
        (select_many m (suc index) s)
        (subst (λ n. listed (pick n s.validators) (select_many m (suc index) s) ≡ true)
          (plus_suc index k) (select_many-at m k (suc index) s h (omega arith) (omega arith))))
    where
      plus_suc : (n k : ℕ) → suc n + k ≡ n + suc k
      plus_suc n k = omega arith

  -- The round robin passes over nobody: any validator is among those whom as many calls in a row
  -- select as there are validators, if the index does not reach 2^64.
  pub select_many-listed :
      (index : ℕ) (v : String) (s : Engine D)
      → listed v s.validators ≡ true
      → index + length s.validators < word
      → listed v (select_many (length s.validators) index s) ≡ true
  select_many-listed index v s h w =
      let at = place_of v s.validators h in
      let n = length s.validators in
      let j_lt = get_elem?-lt s.validators at.0 at.1 in
      let k = calls_to index at.0 n j_lt in
      let found = select_many-at n k.0 index s (omega (arith, j_lt)) k.1 w in
      subst (λ u. listed u (select_many n index s) ≡ true)
        (ap (λ j. or_empty (get_elem? s.validators j)) k.2 ∙ ap or_empty at.1) found
