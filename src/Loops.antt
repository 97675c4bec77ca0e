-- ===== src/Loops.antt =====
-- Loops of the source that are run on fuel.

-- How a loop ended: by its own test or a return, or by the fuel of the model.
pub data Ended {ℓ} (S : Type ℓ) : Type ℓ where
  ended : S → Ended S
  out_of_fuel : S → Ended S

-- The loop ended by itself, in a state with the property.
abbrev pub Returns {ℓ} : {S : Type ℓ} → Ended S → (S → Type 0) → Type 0
Returns (ended s) P = P s
Returns (out_of_fuel s) P = ⊥

pub Returns_map {ℓ} :
    {S : Type ℓ} {P Q : S → Type 0} (r : Ended S)
    → ((s : S) → P s → Q s)
    → Returns r P
    → Returns r Q
Returns_map (ended s) f p = f s p
Returns_map (out_of_fuel s) f p = p

-- The state that a loop ended in, whichever way.
unfoldable pub last {ℓ} : {S : Type ℓ} → Ended S → S
last (ended s) = s
last (out_of_fuel s) = s
