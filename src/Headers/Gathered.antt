-- ===== src/Headers/Gathered.antt =====
-- What `find` gives of the fields of a buffer.
use atscppapi.Common.{
  suc, Bytes, ◌≡◌, refl, ap, ◌∙◌, Bool, true, false, ◌++◌, Option, none, some, List, [], ◌∷◌, ltb,
  length, arith, if◌then◌else◌, Bool-cases, inl, inr,
}
use atscppapi.Comparator.{name_less}
use atscppapi.Comparator.Order.{name_less-IsStrictWeakOrder}
use atscppapi.StdMap
use atscppapi.StdMap.{insert, modify}
use atscppapi.StdMap.Laws.{IsSorted, find-equiv}
use atscppapi.StdMap.Multi.{values_or_none, append_at, append_at-IsSorted, find-append_at}
use atscppapi.InitializableValue.{is_initialized}
use atscppapi.Mime.{MimeApi}
use atscppapi.Headers.State.{Headers, NameValuesMap}
use atscppapi.Headers.Fields.{init_from_fields, init_from_handles, check_and_init_headers}
use atscppapi.Headers.Values
use atscppapi.Headers.Detached.{same_name}
use atscppapi.Headers.Reading.{
  Field, values_read, HasFields, KeepsFields, entry, entries, read_fields-entries,
}

-- Whether a field has this name, up to case; a field without a name has none.
abbrev pub is_named : {ts : MimeApi} → Bytes → Field ts → Bool
is_named j f = elim f.name [
  | none ↦ false
  | some name ↦ if ltb 0 (length name) then same_name name j else false
]

-- All values of the fields of a name, in the order of the fields, after those before; none when
-- there is no such field.
unfoldable pub gathered :
    {ts : MimeApi} → Bytes → List (Field ts) → Option (List Bytes) → Option (List Bytes)
gathered j [] o = o
gathered j (f ∷ fs) o =
    let more = gathered j fs (some (values_or_none o ++ values_read f)) in
    let same = gathered j fs o in if is_named j f then more else same

module _ (ts : MimeApi) (buf : ts.MBuffer) (loc : ts.MLoc) where
  abbrev at : Bytes → NameValuesMap → Option (List Bytes)
  at j m = StdMap.find name_less j m

  same_found :
      (n j : Bytes) (vs : List Bytes) (m : NameValuesMap)
      → (if same_name n j then some (values_or_none (at n m) ++ vs) else at j m)
        ≡ (if same_name n j then some (values_or_none (at j m) ++ vs) else at j m)
  same_found n j vs m = elim (Bool-cases (same_name n j)) [
    | inl same ↦ rw same (
        ap (λ o. some (values_or_none o ++ vs))
          (find-equiv name_less name_less-IsStrictWeakOrder n j m same))
    | inr other ↦ rw other refl
  ]

  Found : Bytes → List Bytes → NameValuesMap → Bool → NameValuesMap → Type 0
  Found j vs m b m' =
      IsSorted name_less m'
      × (at j m' ≡ (if b then some (values_or_none (at j m) ++ vs) else at j m))

  Found-append_at :
      (j n : Bytes) (vs : List Bytes) (m : NameValuesMap) (b : Bool)
      → IsSorted name_less m
      → Found j vs m
          (if b then same_name n j else false)
          (if b then append_at name_less n vs m else m)
  unfolding Found
  Found-append_at j n vs m false s = (s, refl)
  Found-append_at j n vs m true s = (
    append_at-IsSorted name_less name_less-IsStrictWeakOrder n vs m s,
    find-append_at name_less name_less-IsStrictWeakOrder n vs m s j ∙ same_found n j vs m,
  )

  Found-name :
      (j : Bytes) (vs : List Bytes) (m : NameValuesMap) (name : Option Bytes)
      → IsSorted name_less m
      → Found j vs m
          (elim name [ none ↦ false | some n ↦ if ltb 0 (length n) then same_name n j else false ])
          (elim name [
            | none ↦ m
            | some n ↦ if ltb 0 (length n) then append_at name_less n vs m else m
          ])
  unfolding Found
  Found-name j vs m none s = (s, refl)
  Found-name j vs m (some n) s = Found-append_at j n vs m (ltb 0 (length n)) s

  -- One field, looked at from a name.
  entry-Found :
      (j : Bytes) (f : Field ts) (m : NameValuesMap)
      → IsSorted name_less m
      → Found j (values_read f) m (is_named j f) (entry ts buf loc f m)
  entry-Found j f m s = Found-name j (values_read f) m f.name s

  gathered_if :
      (j : Bytes) (fs : List (Field ts)) (b : Bool) (o p : Option (List Bytes))
      → gathered j fs (if b then o else p) ≡ (if b then gathered j fs o else gathered j fs p)
  gathered_if j fs true o p = refl
  gathered_if j fs false o p = refl

  find-entries :
      (j : Bytes) (fs : List (Field ts)) (m : NameValuesMap)
      → IsSorted name_less m
      → at j (entries ts buf loc fs m) ≡ gathered j fs (at j m)
  unfolding entries gathered Found
  find-entries j [] m s = refl
  find-entries j (f ∷ fs) m s =
      let one = entry-Found j f m s in
      find-entries j fs (entry ts buf loc f m) one.0
      ∙ ap (gathered j fs) one.1
      ∙ gathered_if j fs (is_named j f) (some (values_or_none (at j m) ++ values_read f)) (at j m)

module _ {ts : MimeApi} (caching : Bool) (buf : ts.MBuffer) (loc : ts.MLoc)
    (keeps : KeepsFields ts buf loc) (h : Headers ts) (fs : List (Field ts)) where
  initialized_from :
      is_initialized caching h.name_values_map ≡ false
      → h.hdr_buf ≡ some buf
      → h.hdr_loc ≡ some loc
      → check_and_init_headers ts caching h ≡ (true, init_from_fields ts buf loc h)
  unfolding check_and_init_headers init_from_handles
  initialized_from unread b l = rw (unread, b, l) refl

  -- When the headers of a buffer have not been read, or caching is off, and the getters of Traffic
  -- Server, which giving a handle back does not change, yield the fields `fs`, as many as it counts,
  -- `find` gives for any name all the values of the fields that have this name up to case, in their
  -- order and each field without values as one empty value, and the end of the map when there is no
  -- such field.
  pub find-gathered :
      is_initialized caching h.name_values_map ≡ false
      → h.hdr_buf ≡ some buf
      → h.hdr_loc ≡ some loc
      → HasFields ts buf loc h.world (ts.field_get h.world buf loc 0) fs
      → ts.fields_count h.world buf loc ≡ length fs
      → (k : Bytes) → (Values.find ts caching k h).0 ≡ gathered k fs none
  unfolding Values.find init_from_fields StdMap.find
  find-gathered unread b l has counted k =
      ap (λ r. StdMap.find name_less k r.1.name_values_map.value) (initialized_from unread b l)
      ∙ ap (StdMap.find name_less k) (
          read_fields-entries ts buf loc keeps (suc (ts.fields_count h.world buf loc)) h.world
            (ts.field_get h.world buf loc 0) fs [] has (omega (arith, counted)))
      ∙ find-entries ts buf loc k fs [] tt
