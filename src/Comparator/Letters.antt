-- ===== src/Comparator/Letters.antt =====
-- Which letters the comparator takes for equal.
use atscppapi.Common.{
  ℕ, ◌+◌, ◌<◌, Ordering, Bytes, ◌≡◌, refl, true, ◌&&◌, ◌++◌, [], ◌∷◌, map, arith, leb,
  if◌then◌else◌, All, every_from, every_from-true, ◌==◌, ==_iff, ◌≢◌,
}
use atscppapi.StdString.{string_compare}
use atscppapi.Comparator.{normalize, compare_names}
use atscppapi.Comparator.Order.{compare_names-string_compare}

-- `tolower` of the C locale.
unfoldable pub lower : ℕ → ℕ
lower c = if leb b'A' c && leb c b'Z' then c + 32 else c

normalize_table : every_from (λ c. normalize c == (if c == b'Z' then c else lower c)) 0 256 ≡ true
unfolding every_from normalize lower
normalize_table = refl

-- The table lowers every letter but `Z`.
normalize_lem : (c : ℕ) → c < 256 → normalize c ≡ (if c == b'Z' then c else lower c)
normalize_lem c h =
    (==_iff _ _).0 (every_from-true _ 0 256 c (omega arith) (omega arith) normalize_table)

abbrev pub IsByte : ℕ → Type 0
IsByte c = c < 256

abbrev pub LacksZ : Bytes → Type 0
LacksZ = All (λ c. c ≢ b'Z')

map-normalize : (s : Bytes) → All IsByte s → LacksZ s → map normalize s ≡ map lower s
map-normalize [] h k = refl
map-normalize (c ∷ s) h k = ground (arith, normalize_lem c h.0, map-normalize s h.1 k.1)

-- On names of bytes without a capital Z the order is that of the names in lower case.
pub compare_names-lower :
    (lhs rhs : Bytes)
    → All IsByte lhs
    → All IsByte rhs
    → LacksZ lhs
    → LacksZ rhs
    → compare_names lhs rhs ≡ string_compare (map lower lhs) (map lower rhs)
compare_names-lower lhs rhs hl hr zl zr =
    rw (compare_names-string_compare, map-normalize lhs hl zl, map-normalize rhs hr zr)

Z_below_z_here :
    (l r : Bytes)
    → string_compare (map normalize (b'Z' ∷ l)) (map normalize (b'z' ∷ r)) ≡ Ordering.lt
unfolding string_compare normalize
Z_below_z_here l r = refl

Z_below_z :
    (pre l r : Bytes)
    → string_compare (map normalize (pre ++ b'Z' ∷ l)) (map normalize (pre ++ b'z' ∷ r))
      ≡ Ordering.lt
unfolding string_compare
Z_below_z [] l r = Z_below_z_here l r
Z_below_z (c ∷ pre) l r = ground (arith, Z_below_z pre l r)

-- Names that differ in a capital and a small Z are never equal: the capital comes first.
pub compare_names_z :
    (pre l r : Bytes) → compare_names (pre ++ b'Z' ∷ l) (pre ++ b'z' ∷ r) ≡ Ordering.lt
compare_names_z pre l r = rw compare_names-string_compare (Z_below_z pre l r)
