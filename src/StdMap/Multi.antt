-- ===== src/StdMap/Multi.antt =====
-- Maps from keys to lists, filled by `insert` of an empty list and an append to what is there.

use atscppapi.Common.{◌≡◌, Bool, ◌++◌, Option, none, some, List, [], arith, if◌then◌else◌}
use atscppapi.StdMap.{Map, equiv, find, insert, modify}
use atscppapi.StdMap.Laws.{
  IsStrictWeakOrder, IsSorted, find-insert, find-modify, insert-IsSorted, modify-IsSorted,
  equiv_refl,
}

abbrev pub values_or_none {ℓ} : {A : Type ℓ} → Option (List A) → List A
values_or_none none = []
values_or_none (some vs) = vs

abbrev pub append_at {ℓ κ} :
    {K : Type ℓ} {A : Type κ} → (K → K → Bool) → K → List A → Map K (List A) → Map K (List A)
append_at less k vs m = modify less k (λ old. old ++ vs) (insert less k [] m)

module _ {ℓ κ} {K : Type ℓ} {A : Type κ} (less : K → K → Bool) (o : IsStrictWeakOrder less) (k : K)
    (vs : List A) (m : Map K (List A)) (s : IsSorted less m) where
  pub append_at-IsSorted : IsSorted less (append_at less k vs m)
  append_at-IsSorted = modify-IsSorted less o k _ _ (insert-IsSorted less o k [] m s)

  -- The key has the old values and then the new ones, and every other key what it had.
  pub find-append_at :
      (j : K)
      → find less j (append_at less k vs m)
        ≡ (if equiv less k j then some (values_or_none (find less k m) ++ vs) else find less j m)
  find-append_at j = rw (find-modify less o) (
      ground
        (arith, find-insert less o k k [] m s, find-insert less o k j [] m s, equiv_refl less o k))
