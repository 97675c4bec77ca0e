-- ===== src/Comparator/Order.antt =====
-- The comparator is the order of the normalized names, so it serves `std::map`.
use atscppapi.Common.{Ordering, Bytes, ◌≡◌, refl, ◌↔◌, [], ◌∷◌, map, arith, sym, ◌∙◌}
use atscppapi.StdString.{
  string_compare, string_less, string_compare_refl, string_compare-eq, string_compare-flip,
  string_compare_trans,
}
use atscppapi.StdMap.Laws.{IsStrictWeakOrder}
use atscppapi.Comparator.{normalize, compare_prefix, compare_sizes, compare_names, name_less}

abbrev after_prefix : Ordering → Ordering → Ordering
after_prefix Ordering.lt sizes = Ordering.lt
after_prefix Ordering.gt sizes = Ordering.gt
after_prefix Ordering.eq sizes = sizes

after_prefix-string_compare :
    (xs ys : Bytes)
    → after_prefix (compare_prefix xs ys) (compare_sizes xs ys)
      ≡ string_compare (map normalize xs) (map normalize ys)
unfolding compare_prefix compare_sizes string_compare
after_prefix-string_compare [] [] = refl
after_prefix-string_compare [] (y ∷ ys) = ground arith
after_prefix-string_compare (x ∷ xs) [] = ground arith
after_prefix-string_compare (x ∷ xs) (y ∷ ys) = ground (arith, after_prefix-string_compare xs ys)

-- The comparison is the plain comparison of the two names with every character normalized.
pub compare_names-string_compare :
    (lhs rhs : Bytes)
    → compare_names lhs rhs ≡ string_compare (map normalize lhs) (map normalize rhs)
unfolding compare_names
compare_names-string_compare [] [] = after_prefix-string_compare [] []
compare_names-string_compare [] (y ∷ ys) = ground (arith, after_prefix-string_compare [] (y ∷ ys))
compare_names-string_compare (x ∷ xs) [] = ground (arith, after_prefix-string_compare (x ∷ xs) [])
compare_names-string_compare (x ∷ xs) (y ∷ ys) =
    ground (arith, after_prefix-string_compare (x ∷ xs) (y ∷ ys))

pub string_less-IsStrictWeakOrder : IsStrictWeakOrder string_less
unfolding string_less
string_less-IsStrictWeakOrder = record {
  asym = λ a b h. ground (arith, string_compare-flip a b);
  neg_trans = λ a b c h k. ground (
    arith,
    string_compare-flip a b,
    string_compare-flip b c,
    string_compare-flip a c,
    string_compare_trans a c b,
    string_compare_trans b a c,
    string_compare-eq b c,
  );
}

name_less-string_less :
    (a b : Bytes) → name_less a b ≡ string_less (map normalize a) (map normalize b)
unfolding name_less string_less
name_less-string_less a b = rw (compare_names-string_compare a b)

-- The comparator meets what `std::map` demands: it is asymmetric, and its negation is transitive.
pub name_less-IsStrictWeakOrder : IsStrictWeakOrder name_less
name_less-IsStrictWeakOrder =
    let o = string_less-IsStrictWeakOrder in
    record {
      asym = λ a b h. rw name_less-string_less (o.asym _ _ (rw name_less-string_less at h));
      neg_trans = λ a b c h k. rw name_less-string_less (
          o.neg_trans _ (map normalize b) _ (rw name_less-string_less at h)
            (rw name_less-string_less at k));
    }

-- Two names compare as equal exactly if they are equal after normalization.
pub compare_names-eq :
    (lhs rhs : Bytes)
    → (compare_names lhs rhs ≡ Ordering.eq) ↔ (map normalize lhs ≡ map normalize rhs)
compare_names-eq lhs rhs = (
  λ h. string_compare-eq _ _ (sym (compare_names-string_compare lhs rhs) ∙ h),
  λ h. rw (compare_names-string_compare, h) (string_compare_refl (map normalize rhs)),
)
