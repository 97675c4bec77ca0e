-- ===== src/StdMap.antt =====
-- What the source uses of `std::map`: entries in the order of the keys, one for each class of
-- equivalent keys. `insert` keeps an entry that is there, and `modify` is a write through the
-- reference to a found value.
pub mod Laws
pub mod Multi
pub mod Last
use atscppapi.Common.{
  ℕ, zero, suc, Bool, true, false, not, ◌&&◌, Option, none, some, List, [], ◌∷◌, length,
  if◌then◌else◌,
}

abbrev pub Map {ℓ κ} : Type ℓ → Type κ → Type (ℓ ⊔ κ)
Map K V = List (K × V)

abbrev pub equiv {ℓ} : {K : Type ℓ} → (K → K → Bool) → K → K → Bool
equiv less a b = not (less a b) && not (less b a)

module _ {ℓ κ} {K : Type ℓ} {V : Type κ} (less : K → K → Bool) where
  unfoldable pub find : K → Map K V → Option V
  find k [] = none
  find k ((j, w) ∷ m) = if equiv less k j then some w else find k m

  unfoldable pub insert : K → V → Map K V → Map K V
  insert k v [] = (k, v) ∷ []
  insert k v ((j, w) ∷ m) =
      if less k j
      then (k, v) ∷ (j, w) ∷ m
      else if less j k
      then (j, w) ∷ insert k v m
      else (j, w) ∷ m

  unfoldable pub modify : K → (V → V) → Map K V → Map K V
  modify k f [] = []
  modify k f ((j, w) ∷ m) = if equiv less k j then (j, f w) ∷ m else (j, w) ∷ modify k f m

  unfoldable pub erase : K → Map K V → Map K V
  erase k [] = []
  erase k ((j, w) ∷ m) = if equiv less k j then m else (j, w) ∷ erase k m

  -- The results of `count` and of `erase`: the entries that there are with this key.
  unfoldable pub count : K → Map K V → ℕ
  count k [] = zero
  count k ((j, w) ∷ m) = if equiv less k j then suc (count k m) else count k m
