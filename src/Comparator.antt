-- ===== src/Comparator.antt =====
-- src/CaseInsensitiveStringComparator.cc: the order of header names. A result below, at or above
-- zero is `lt`, `eq` or `gt`; the lazily filled table is the constant that it becomes.
pub mod Order
pub mod Letters
use atscppapi.Common.{
  ℕ, zero, suc, ◌+◌, ◌-◌, Ordering, Bytes, Bool, ◌&&◌, List, [], ◌∷◌, length, get_or, set, ltb,
  if◌then◌else◌,
}
use atscppapi.StdString.{is_lt}

-- The first loop of the table's initialization, on its index.
fill_same : ℕ → ℕ → List ℕ
fill_same zero i = []
fill_same (suc n) i = i ∷ fill_same n (suc i)

-- The second loop, from `i` while `i < 'Z'`: `n` is the number of rounds left.
fill_lower : ℕ → ℕ → List ℕ → List ℕ
fill_lower zero i table = table
fill_lower (suc n) i table = fill_lower n (suc i) (set table i (b'a' + (i - b'A')))

pub normalized_characters : List ℕ
unfolding fill_same fill_lower
normalized_characters = fill_lower (b'Z' - b'A') b'A' (fill_same 256 0)

unfoldable pub normalize : ℕ → ℕ
unfolding normalized_characters
normalize c = get_or normalized_characters c c

-- The loop over the characters that both strings have; `eq` means that it ran to its end.
compare_prefix : Bytes → Bytes → Ordering
compare_prefix [] ys = Ordering.eq
compare_prefix (x ∷ xs) [] = Ordering.eq
compare_prefix (x ∷ xs) (y ∷ ys) =
    let rest = compare_prefix xs ys in
    if ltb (normalize x) (normalize y)
    then Ordering.lt
    else if ltb (normalize y) (normalize x)
    then Ordering.gt
    else rest

compare_sizes : Bytes → Bytes → Ordering
compare_sizes lhs rhs =
    if ltb (length lhs) (length rhs)
    then Ordering.lt
    else if ltb (length rhs) (length lhs)
    then Ordering.gt
    else Ordering.eq

pub compare_names : Bytes → Bytes → Ordering
unfolding compare_prefix compare_sizes
compare_names lhs rhs =
    let prefix =
      if ltb 0 (length lhs) && ltb 0 (length rhs) then compare_prefix lhs rhs else Ordering.eq in
    elim prefix [
      | Ordering.lt ↦ Ordering.lt
      | Ordering.gt ↦ Ordering.gt
      | Ordering.eq ↦ compare_sizes lhs rhs
    ]

-- operator()
unfoldable pub name_less : Bytes → Bytes → Bool
name_less lhs rhs = is_lt (compare_names lhs rhs)
