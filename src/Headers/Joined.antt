-- ===== src/Headers/Joined.antt =====
-- Joined values.
use atscppapi.Common.{
  ℕ, Bytes, ◌≡◌, refl, ◌∙◌, true, ◌++◌, Option, none, some, List, [], ◌∷◌, append_assoc,
}
use atscppapi.Mime.{MimeApi}
use atscppapi.Headers.State.{Headers}
use atscppapi.Headers.Values.{join_values, joined_values, joined_values_of, joined_found}
use atscppapi.Headers.Detached.{IsDetached, values_of, check_detached}

-- The values with the delimiter between them.
unfoldable pub intercalate : ℕ → List Bytes → Bytes
intercalate d [] = []
intercalate d (v ∷ []) = v
intercalate d (v ∷ w ∷ vs) = v ++ d ∷ intercalate d (w ∷ vs)

-- The values from the first that is not empty on.
unfoldable pub drop_empty : List Bytes → List Bytes
drop_empty [] = []
drop_empty ([] ∷ vs) = drop_empty vs
drop_empty ((c ∷ v) ∷ vs) = (c ∷ v) ∷ vs

join_values-intercalate :
    (d : ℕ) (vs : List Bytes) (c : ℕ) (s : Bytes)
    → join_values vs d (c ∷ s) ≡ intercalate d ((c ∷ s) ∷ vs)
unfolding join_values intercalate
join_values-intercalate d [] c s = refl
join_values-intercalate d (v ∷ []) c s = refl
join_values-intercalate d (v ∷ w ∷ vs) c s =
    join_values-intercalate d (w ∷ vs) c (s ++ d ∷ v) ∙ simp append_assoc

-- The joined string has the delimiter between any two values, but empty values at the front are
-- passed over without one.
pub joined_values-intercalate :
    (vs : List Bytes) (d : ℕ) → joined_values vs d ≡ intercalate d (drop_empty vs)
unfolding joined_values drop_empty
joined_values-intercalate [] d = unfold intercalate in refl
joined_values-intercalate ([] ∷ vs) d = joined_values-intercalate vs d
joined_values-intercalate ((c ∷ v) ∷ vs) d = join_values-intercalate d vs c v

joined_found-intercalate :
    (o : Option (List Bytes))
    → joined_found o ≡ elim o [ none ↦ [] | some vs ↦ intercalate b',' (drop_empty vs) ]
unfolding joined_found
joined_found-intercalate none = refl
joined_found-intercalate (some vs) = joined_values-intercalate vs b','

-- The values of a header are joined with a comma, whatever delimiter the caller asks for, and an
-- absent header gives the empty string.
joined_values_of-comma :
    {ts : MimeApi} (k : Bytes) (d : ℕ) (h : Headers ts)
    → IsDetached h
    → (joined_values_of ts true k d h).0
      ≡ elim (values_of h k) [ none ↦ [] | some vs ↦ intercalate b',' (drop_empty vs) ]
unfolding joined_values_of
joined_values_of-comma k d h det =
    rw (check_detached h det) (joined_found-intercalate (values_of h k))
