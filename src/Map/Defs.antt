-- ===== src/Map/Defs.antt =====
-- Key types, and the operations of `std::map` on a list of entries.
use Prim.Native.String
use text.Mathlib.Text.{◌==◌ as str_eq, is_lt}
use text.Mathlib.TextEquality.{eq_iff}
use blackstone.Prelude.{
  ℕ, String, ◌≡◌, ◌↔◌, Bool, true, Option, none, some, List, [], ◌∷◌, eqb, eqb_iff, ltb, is_some,
  if◌then◌else◌,
}

-- What a map asks of its keys.
pub record Key {ℓ} (K : Type ℓ) : Type ℓ where
  pub beq : K → K → Bool
  pub before : K → K → Bool
  pub beq_iff : (a b : K) → (beq a b ≡ true) ↔ (a ≡ b)

infix 50 ◌==◌
abbrev pub ◌==◌ {ℓ} : {K : Type ℓ} ⦃key : Key K⦄ → K → K → Bool
◌==◌ ⦃key⦄ = key.beq

instance abbrev pub string_key : Key String
string_key = record { beq = str_eq; before = λ a b. is_lt (String.compare a b); beq_iff = eq_iff }

instance abbrev pub nat_key : Key ℕ
nat_key = record { beq = eqb; before = ltb; beq_iff = eqb_iff }

abbrev pub Map {ℓ κ} : Type ℓ → Type κ → Type (ℓ ⊔ κ)
Map K V = List (K × V)

module _ {ℓ κ} {K : Type ℓ} {V : Type κ} ⦃key : Key K⦄ where
  -- `m.find(k)`, where `none` is `m.end()`
  unfoldable pub find : K → Map K V → Option V
  find k [] = none
  find k (e ∷ m) = if e.0 == k then some e.1 else find k m

  abbrev pub contains : K → Map K V → Bool
  contains k m = is_some (find k m)

  unfoldable pub place : K → V → Map K V → Map K V
  place k v [] = (k, v) ∷ []
  place k v (e ∷ m) = if key.before k e.0 then (k, v) ∷ e ∷ m else e ∷ place k v m

  unfoldable pub replace : K → V → Map K V → Map K V
  replace k v [] = []
  replace k v (e ∷ m) = if e.0 == k then (e.0, v) ∷ m else e ∷ replace k v m

  -- `m[k] = v`: in place, or at the key's place in the order
  unfoldable pub insert : K → V → Map K V → Map K V
  insert k v m = if contains k m then replace k v m else place k v m

  -- `m.erase(k)`
  unfoldable pub erase : K → Map K V → Map K V
  erase k [] = []
  erase k (e ∷ m) = let rest = erase k m in if e.0 == k then rest else e ∷ rest

  -- No key has two entries.
  abbrev pub IsMap : Map K V → Type κ
  IsMap [] = Unit
  IsMap (e ∷ m) = (find e.0 m ≡ none) × IsMap m
