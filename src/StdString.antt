-- ===== src/StdString.antt =====
-- What the source uses of `std::string`: the order behind `std::less`, character by character
-- and then by length, and its laws.
use atscppapi.Common.{Ordering, compare, Bytes, ◌≡◌, refl, Bool, true, false, [], ◌∷◌, arith}

-- string::compare
unfoldable pub string_compare : Bytes → Bytes → Ordering
string_compare [] [] = Ordering.eq
string_compare [] (y ∷ ys) = Ordering.lt
string_compare (x ∷ xs) [] = Ordering.gt
string_compare (x ∷ xs) (y ∷ ys) = elim (compare x y) [
  | Ordering.lt ↦ Ordering.lt
  | Ordering.gt ↦ Ordering.gt
  | Ordering.eq ↦ string_compare xs ys
]

abbrev pub is_lt : Ordering → Bool
is_lt Ordering.lt = true
is_lt _ = false

-- std::less<std::string>
unfoldable pub string_less : Bytes → Bytes → Bool
string_less xs ys = is_lt (string_compare xs ys)

pub string_compare_refl : (xs : Bytes) → string_compare xs xs ≡ Ordering.eq
unfolding string_compare
string_compare_refl [] = refl
string_compare_refl (x ∷ xs) = ground (arith, string_compare_refl xs)

pub string_compare-eq : (xs ys : Bytes) → string_compare xs ys ≡ Ordering.eq → xs ≡ ys
unfolding string_compare
string_compare-eq [] [] h = refl
string_compare-eq [] (y ∷ ys) h = ground arith
string_compare-eq (x ∷ xs) [] h = ground arith
string_compare-eq (x ∷ xs) (y ∷ ys) h = ground (arith, string_compare-eq xs ys)

abbrev pub flip : Ordering → Ordering
flip Ordering.lt = Ordering.gt
flip Ordering.eq = Ordering.eq
flip Ordering.gt = Ordering.lt

pub string_compare-flip : (xs ys : Bytes) → string_compare ys xs ≡ flip (string_compare xs ys)
unfolding string_compare
string_compare-flip [] [] = refl
string_compare-flip [] (y ∷ ys) = refl
string_compare-flip (x ∷ xs) [] = refl
string_compare-flip (x ∷ xs) (y ∷ ys) = ground (arith, string_compare-flip xs ys)

pub string_compare_trans :
    (xs ys zs : Bytes)
    → string_compare xs ys ≡ Ordering.lt
    → string_compare ys zs ≡ Ordering.lt
    → string_compare xs zs ≡ Ordering.lt
unfolding string_compare
string_compare_trans [] [] zs h k = ground arith
string_compare_trans [] (y ∷ ys) [] h k = ground arith
string_compare_trans [] (y ∷ ys) (z ∷ zs) h k = refl
string_compare_trans (x ∷ xs) [] zs h k = ground arith
string_compare_trans (x ∷ xs) (y ∷ ys) [] h k = ground arith
string_compare_trans (x ∷ xs) (y ∷ ys) (z ∷ zs) h k = ground (arith, string_compare_trans xs ys zs)
