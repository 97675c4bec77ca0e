-- ===== src/StdMap/Laws.antt =====
-- The laws of the map, over any strict weak order.
use mathlib.Core.Option
use atscppapi.Common.{
  ◌+◌, ◌≡◌, refl, Bool, true, false, none, some, [], ◌∷◌, length, if◌then◌else◌, arith, Bool-cases,
  inl, inr,
}
use atscppapi.StdMap.{Map, equiv, find, insert, modify, erase, count}

-- What `std::map` demands of its comparator.
pub record IsStrictWeakOrder {ℓ} {K : Type ℓ} (less : K → K → Bool) : Type ℓ where
  pub asym : (a b : K) → less a b ≡ true → less b a ≡ false
  pub neg_trans : (a b c : K) → less a b ≡ false → less b c ≡ false → less a c ≡ false

module _ {ℓ κ} {K : Type ℓ} {V : Type κ} (less : K → K → Bool) where
  abbrev pub Above : K → Map K V → Type ℓ
  Above k [] = Unit
  Above k ((j, w) ∷ m) = (less k j ≡ true) × Above k m

  -- Strictly ascending, so that no two keys are equivalent.
  abbrev pub IsSorted : Map K V → Type ℓ
  IsSorted [] = Unit
  IsSorted ((k, v) ∷ m) = Above k m × IsSorted m

module _ {ℓ} {K : Type ℓ} (less : K → K → Bool) (o : IsStrictWeakOrder less) where
  pub less_trans : (a b c : K) → less a b ≡ true → less b c ≡ true → less a c ≡ true
  less_trans a b c h k = ground (arith, o.asym b c, o.neg_trans a c b)

  pub less_irrefl : (a : K) → less a a ≡ false
  less_irrefl a = ground (arith, o.asym a a)

  pub equiv_refl : (a : K) → equiv less a a ≡ true
  equiv_refl a = ground (arith, less_irrefl a)

  -- Equivalent keys are equivalent to the same keys.
  pub equiv_cong :
      (k i j : K)
      → equiv less k i ≡ true
      → (equiv less i j ≡ equiv less k j) × (equiv less j i ≡ equiv less k j)
  equiv_cong k i j h =
      ground (arith, o.neg_trans i k j, o.neg_trans k i j, o.neg_trans j k i, o.neg_trans j i k)

pub equiv_sym {ℓ} : {K : Type ℓ} (less : K → K → Bool) (a b : K) → equiv less a b ≡ equiv less b a
equiv_sym less a b = ground arith

module _ {ℓ κ} {K : Type ℓ} {V : Type κ} (less : K → K → Bool) (o : IsStrictWeakOrder less) where
  Above-trans : (a b : K) (m : Map K V) → less a b ≡ true → Above less b m → Above less a m
  Above-trans a b [] h t = tt
  Above-trans a b ((j, w) ∷ m) h t = (less_trans less o a b j h t.0, Above-trans a b m h t.1)

  find-Above : (k j : K) (m : Map K V) → less j k ≡ false → Above less j m → find less k m ≡ none
  unfolding find
  find-Above k j [] h t = refl
  find-Above k j ((i, w) ∷ m) h t = ground (arith, o.neg_trans j k i, find-Above k j m h t.1)

  -- Equivalent keys find the same value.
  pub find-equiv : (k j : K) (m : Map K V) → equiv less k j ≡ true → find less k m ≡ find less j m
  unfolding find
  find-equiv k j [] h = refl
  find-equiv k j ((i, w) ∷ m) h = ground (
    arith,
    o.neg_trans k j i,
    o.neg_trans i j k,
    o.neg_trans j k i,
    o.neg_trans i k j,
    find-equiv k j m h,
  )

  -- `insert` adds an entry for a new key and changes nothing for one that is there.
  pub find-insert :
      (k j : K) (v : V) (m : Map K V)
      → IsSorted less m
      → find less j (insert less k v m)
        ≡ (if equiv less k j then some (Option.get_or (find less k m) v) else find less j m)
  unfolding find insert
  find-insert k j v [] s = ground (arith, o.neg_trans j k j)
  find-insert k j v ((i, w) ∷ m) s = ground (
    arith,
    o.asym k i,
    o.asym i k,
    o.asym j k,
    o.neg_trans i k j,
    o.neg_trans j k i,
    o.neg_trans k j i,
    o.neg_trans i j k,
    find-Above k i m,
    s.0,
    find-insert k j v m s.1,
  )

  pub find-modify :
      (k j : K) (f : V → V) (m : Map K V)
      → find less j (modify less k f m)
        ≡ (if equiv less k j then Option.map f (find less k m) else find less j m)
  unfolding find modify
  find-modify k j f [] = ground arith
  find-modify k j f ((i, w) ∷ m) = elim (Bool-cases (equiv less k i)) [
    | inl e ↦ rw e (ground (arith, equiv_cong less o k i j e))
    | inr e ↦ rw e (ground (arith, equiv_cong less o k j i, find-modify k j f m))
  ]

  pub find-erase :
      (k j : K) (m : Map K V)
      → IsSorted less m
      → find less j (erase less k m) ≡ (if equiv less k j then none else find less j m)
  unfolding find erase
  find-erase k j [] s = ground arith
  find-erase k j ((i, w) ∷ m) s = elim (Bool-cases (equiv less k i)) [
    | inl e ↦ rw e (ground (arith, equiv_cong less o k i j e, find-Above j i m))
    | inr e ↦ rw e (ground (arith, equiv_cong less o k j i, find-erase k j m s.1))
  ]

  Above-insert :
      (a k : K) (v : V) (m : Map K V)
      → less a k ≡ true
      → Above less a m
      → Above less a (insert less k v m)
  unfolding insert
  Above-insert a k v [] h t = (h, tt)
  Above-insert a k v ((j, w) ∷ m) h t = ground (arith, Above-insert a k v m h t.1)

  pub insert-IsSorted :
      (k : K) (v : V) (m : Map K V) → IsSorted less m → IsSorted less (insert less k v m)
  unfolding insert
  insert-IsSorted k v [] s = (tt, tt)
  insert-IsSorted k v ((j, w) ∷ m) s =
      ground (arith, Above-trans k j m, Above-insert j k v m, insert-IsSorted k v m s.1)

  Above-modify :
      (a k : K) (f : V → V) (m : Map K V) → Above less a m → Above less a (modify less k f m)
  unfolding modify
  Above-modify a k f [] t = tt
  Above-modify a k f ((j, w) ∷ m) t = ground (arith, Above-modify a k f m t.1)

  pub modify-IsSorted :
      (k : K) (f : V → V) (m : Map K V) → IsSorted less m → IsSorted less (modify less k f m)
  unfolding modify
  modify-IsSorted k f [] s = tt
  modify-IsSorted k f ((j, w) ∷ m) s =
      ground (arith, Above-modify j k f m, modify-IsSorted k f m s.1)

  Above-erase : (a k : K) (m : Map K V) → Above less a m → Above less a (erase less k m)
  unfolding erase
  Above-erase a k [] t = tt
  Above-erase a k ((j, w) ∷ m) t = ground (arith, Above-erase a k m t.1)

  pub erase-IsSorted : (k : K) (m : Map K V) → IsSorted less m → IsSorted less (erase less k m)
  unfolding erase
  erase-IsSorted k [] s = tt
  erase-IsSorted k ((j, w) ∷ m) s = ground (arith, Above-erase j k m, erase-IsSorted k m s.1)

  count-Above : (k j : K) (m : Map K V) → less j k ≡ false → Above less j m → count less k m ≡ 0
  unfolding count
  count-Above k j [] h t = refl
  count-Above k j ((i, w) ∷ m) h t = ground (arith, o.neg_trans j k i, count-Above k j m h t.1)

  -- `count` is 1 where `find` has a value, and else 0.
  pub count-find :
      (k : K) (m : Map K V)
      → IsSorted less m
      → count less k m ≡ elim (find less k m) [ none ↦ 0 | some _ ↦ 1 ]
  unfolding count find
  count-find k [] s = refl
  count-find k ((i, w) ∷ m) s = ground (arith, count-Above k i m, count-find k m s.1)

  -- `erase` takes away the entries that `count` counts.
  pub length-erase :
      (k : K) (m : Map K V) → IsSorted less m → length (erase less k m) + count less k m ≡ length m
  unfolding erase count
  length-erase k [] s = refl
  length-erase k ((i, w) ∷ m) s = ground (arith, count-Above k i m, length-erase k m s.1)

  pub length-insert :
      (k : K) (v : V) (m : Map K V)
      → IsSorted less m
      → length (insert less k v m) + count less k m ≡ length m + 1
  unfolding insert count
  length-insert k v [] s = omega arith
  length-insert k v ((i, w) ∷ m) s =
      ground (arith, o.asym k i, count-Above k i m, length-insert k v m s.1)
