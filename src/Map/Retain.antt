-- ===== src/Map/Retain.antt =====
-- Loops that erase the entries which fail a test.
use blackstone.Prelude.{◌≡◌, refl, Bool, Option, none, some, [], ◌∷◌, arith, keep_if, if◌then◌else◌}
use blackstone.Map.Defs.{Key, Map, find, IsMap}

module _ {ℓ} {V : Type ℓ} where
  abbrev pub keep_some : Bool → V → Option V
  keep_some b v = if b then some v else none

  abbrev pub kept : (V → Bool) → Option V → Option V
  kept p none = none
  kept p (some v) = keep_some (p v) v

module _ {ℓ κ} {K : Type ℓ} {V : Type κ} ⦃key : Key K⦄ where
  abbrev pub retain : (V → Bool) → Map K V → Map K V
  retain p = keep_if (λ e. p e.1)

  retain-absent :
      (p : V → Bool) (k : K) (m : Map K V) → find k m ≡ none → find k (retain p m) ≡ none
  unfolding find
  retain-absent p k [] h = refl
  retain-absent p k (e ∷ m) h = ground (arith, retain-absent p k m)

  pub find-retain :
      (p : V → Bool) (k : K) (m : Map K V) → IsMap m → find k (retain p m) ≡ kept p (find k m)
  unfolding find
  find-retain p k [] h = refl
  find-retain p k (e ∷ m) h =
      ground
        (arith, find-retain p k m h.1, retain-absent p k m, key.beq_iff e.0 k, key.beq_iff e.0 e.0)

  pub retain-IsMap : (p : V → Bool) (m : Map K V) → IsMap m → IsMap (retain p m)
  retain-IsMap p [] h = tt
  retain-IsMap p (e ∷ m) h = ground (arith, retain-IsMap p m h.1, retain-absent p e.0 m h.0)
