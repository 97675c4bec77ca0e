-- ===== src/StdMap/Last.antt =====
-- Adding an entry whose key lies behind all others.
use atscppapi.Common.{◌≡◌, refl, Bool, true, ◌++◌, [], ◌∷◌, arith}
use atscppapi.StdMap.{Map, insert, modify}
use atscppapi.StdMap.Laws.{IsStrictWeakOrder, less_irrefl}

module _ {ℓ κ} {K : Type ℓ} {V : Type κ} (less : K → K → Bool) where
  abbrev pub Below : K → Map K V → Type ℓ
  Below k [] = Unit
  Below k ((j, w) ∷ m) = (less j k ≡ true) × Below k m

module _ {ℓ κ} {K : Type ℓ} {V : Type κ} (less : K → K → Bool) (o : IsStrictWeakOrder less)
    (k : K) where
  pub insert_last : (v : V) (m : Map K V) → Below less k m → insert less k v m ≡ m ++ (k, v) ∷ []
  unfolding insert
  insert_last v [] b = refl
  insert_last v ((j, w) ∷ m) b = ground (arith, o.asym j k, insert_last v m b.1)

  pub insert_there :
      (v w : V) (m : Map K V)
      → Below less k m
      → insert less k v (m ++ (k, w) ∷ []) ≡ m ++ (k, w) ∷ []
  unfolding insert
  insert_there v w [] b = ground (arith, less_irrefl less o k)
  insert_there v w ((j, u) ∷ m) b = ground (arith, o.asym j k, insert_there v w m b.1)

  pub modify_last :
      (f : V → V) (w : V) (m : Map K V)
      → Below less k m
      → modify less k f (m ++ (k, w) ∷ []) ≡ m ++ (k, f w) ∷ []
  unfolding modify
  modify_last f w [] b = ground (arith, less_irrefl less o k)
  modify_last f w ((j, u) ∷ m) b = ground (arith, o.asym j k, modify_last f w m b.1)

  pub Below-append :
      (j : K) (v : V) (m : Map K V)
      → less j k ≡ true
      → Below less k m
      → Below less k (m ++ (j, v) ∷ [])
  Below-append j v [] h b = (h, tt)
  Below-append j v ((i, w) ∷ m) h b = (b.0, Below-append j v m h b.1)
