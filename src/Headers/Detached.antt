-- ===== src/Headers/Detached.antt =====
-- The operations on a detached header with caching on: the object is a multimap of names up to
-- case.
use atscppapi.Common.{
  ◌+◌, Bytes, ◌≡◌, refl, Bool, true, ◌++◌, Option, none, some, List, arith, length, if◌then◌else◌,
}
use atscppapi.Comparator.{name_less}
use atscppapi.Comparator.Order.{name_less-IsStrictWeakOrder}
use atscppapi.StdMap.{equiv}
use atscppapi.StdMap
use atscppapi.StdMap.Laws.{
  IsSorted, find-erase, erase-IsSorted, count-find, length-erase, equiv_refl,
}
use atscppapi.StdMap.Multi.{values_or_none, append_at, append_at-IsSorted, find-append_at}
use atscppapi.Mime.{MimeApi}
use atscppapi.Headers.State.{Headers, HeadersType, new, init_detached}
use atscppapi.Headers.Fields.{check_and_init_headers, do_basic_erase, do_basic_append}
use atscppapi.Headers.Values
use atscppapi.Headers.Values.{invalidate_cookies}

abbrev pub same_name : Bytes → Bytes → Bool
same_name = equiv name_less

module _ {ts : MimeApi} where
  pub record IsDetached (h : Headers ts) : Type 0 where
    pub detached : h.detached ≡ true
    pub initialized : h.name_values_map.initialized ≡ true
    pub sorted : IsSorted name_less h.name_values_map.value

  -- What the map has for a name.
  abbrev pub values_of : Headers ts → Bytes → Option (List Bytes)
  values_of h j = StdMap.find name_less j h.name_values_map.value

  pub check_initialized :
      (h : Headers ts)
      → h.name_values_map.initialized ≡ true
      → check_and_init_headers ts true h ≡ (true, h)
  unfolding check_and_init_headers
  check_initialized h e = rw e

  pub check_detached :
      (h : Headers ts) → IsDetached h → check_and_init_headers ts true h ≡ (true, h)
  check_detached h d = check_initialized h d.initialized

  pub init_detached-IsDetached :
      (type : HeadersType) (w : ts.World) → IsDetached (init_detached (new {ts = ts} type w))
  unfolding init_detached new
  init_detached-IsDetached type w = record { detached = refl; initialized = refl; sorted = tt }

  pub map-invalidate :
      (k : Bytes) (type : HeadersType) (h : Headers ts)
      → ((invalidate_cookies k type h).name_values_map ≡ h.name_values_map)
        × ((invalidate_cookies k type h).detached ≡ h.detached)
  unfolding invalidate_cookies
  map-invalidate k type h = ground arith

module _ {ts : MimeApi} (k : Bytes) (vs : List Bytes) (h : Headers ts) (d : IsDetached h) where
  map-append :
      (Values.append ts true k vs h).1.name_values_map.value
      ≡ append_at name_less k vs h.name_values_map.value
  unfolding Values.append do_basic_append
  map-append = rw (check_detached h d) (ground (arith, map-invalidate k h.type h, d.detached))

  detached-append : (Values.append ts true k vs h).1.detached ≡ true
  unfolding Values.append do_basic_append
  detached-append = rw (check_detached h d) (ground (arith, map-invalidate k h.type h, d.detached))

  initialized-append : (Values.append ts true k vs h).1.name_values_map.initialized ≡ true
  unfolding Values.append do_basic_append
  initialized-append =
      rw (check_detached h d) (ground (arith, map-invalidate k h.type h, d.detached, d.initialized))

  iterator-append : (Values.append ts true k vs h).0 ≡ values_of (Values.append ts true k vs h).1 k
  unfolding Values.append
  iterator-append = rw (check_detached h d)

  -- Detached headers stay detached and sorted under `append`.
  pub append-IsDetached : IsDetached (Values.append ts true k vs h).1
  append-IsDetached = record {
    detached = detached-append;
    initialized = initialized-append;
    sorted = rw map-append (
        append_at-IsSorted name_less name_less-IsStrictWeakOrder k vs h.name_values_map.value
          d.sorted);
  }

  -- With caching on, after `append` on detached, initialized headers in order, the name has the old
  -- values followed by the new ones, the result points at them, and no other header has changed.
  pub values_of-append :
      ((j : Bytes)
        → values_of (Values.append ts true k vs h).1 j
          ≡ (if same_name k j then some (values_or_none (values_of h k) ++ vs) else values_of h j))
      × ((Values.append ts true k vs h).0 ≡ some (values_or_none (values_of h k) ++ vs))
  values_of-append = (
    λ j. rw map-append (
        find-append_at name_less name_less-IsStrictWeakOrder k vs h.name_values_map.value d.sorted
          j),
    rw (
      iterator-append,
      map-append,
      find-append_at name_less name_less-IsStrictWeakOrder k vs h.name_values_map.value d.sorted k,
      equiv_refl name_less name_less-IsStrictWeakOrder k,
    ),
  )

module _ {ts : MimeApi} (k : Bytes) (h : Headers ts) (d : IsDetached h) where
  map-erase :
      (Values.erase ts true k h).1.name_values_map.value
      ≡ StdMap.erase name_less k h.name_values_map.value
  unfolding Values.erase do_basic_erase
  map-erase = rw (check_detached h d) (ground (arith, map-invalidate k h.type h))

  detached-erase : (Values.erase ts true k h).1.detached ≡ true
  unfolding Values.erase do_basic_erase
  detached-erase = rw (check_detached h d) (ground (arith, map-invalidate k h.type h, d.detached))

  initialized-erase : (Values.erase ts true k h).1.name_values_map.initialized ≡ true
  unfolding Values.erase do_basic_erase
  initialized-erase =
      rw (check_detached h d) (ground (arith, map-invalidate k h.type h, d.initialized))

  count-erase : (Values.erase ts true k h).0 ≡ StdMap.count name_less k h.name_values_map.value
  unfolding Values.erase do_basic_erase
  count-erase = rw (check_detached h d) (ground (arith, map-invalidate k h.type h))

  pub erase-IsDetached : IsDetached (Values.erase ts true k h).1
  erase-IsDetached = record {
    detached = detached-erase;
    initialized = initialized-erase;
    sorted =
        rw map-erase
          (erase-IsSorted name_less name_less-IsStrictWeakOrder k h.name_values_map.value d.sorted);
  }

  -- With caching on, after `erase` on detached, initialized headers in order, the name is gone and no
  -- other header has changed; the result is 1 or 0 as there was such a header, and the number of
  -- headers falls by it.
  pub values_of-erase :
      ((j : Bytes)
        → values_of (Values.erase ts true k h).1 j
          ≡ (if same_name k j then none else values_of h j))
      × ((Values.erase ts true k h).0 ≡ elim (values_of h k) [ none ↦ 0 | some _ ↦ 1 ])
      × (length (Values.erase ts true k h).1.name_values_map.value + (Values.erase ts true k h).0
          ≡ length h.name_values_map.value)
  values_of-erase = (
    λ j.
        rw map-erase
          (find-erase name_less name_less-IsStrictWeakOrder k j h.name_values_map.value d.sorted),
    rw count-erase
        (count-find name_less name_less-IsStrictWeakOrder k h.name_values_map.value d.sorted),
    rw (map-erase, count-erase)
        (length-erase name_less name_less-IsStrictWeakOrder k h.name_values_map.value d.sorted),
  )

module _ {ts : MimeApi} (k : Bytes) (vs : List Bytes) (h : Headers ts) (d : IsDetached h) where
  pub set-IsDetached : IsDetached (Values.set ts true k vs h).1
  unfolding Values.set
  set-IsDetached = append-IsDetached k vs _ (erase-IsDetached k h d)

  -- With caching on, after `set` on detached, initialized headers in order, the name has exactly the
  -- new values, and no other header has changed.
  pub values_of-set :
      (j : Bytes)
      → values_of (Values.set ts true k vs h).1 j
        ≡ (if same_name k j then some vs else values_of h j)
  unfolding Values.set
  values_of-set j = ground (
    arith,
    (values_of-append k vs _ (erase-IsDetached k h d)).0 j,
    (values_of-erase k h d).0 j,
    (values_of-erase k h d).0 k,
    equiv_refl name_less name_less-IsStrictWeakOrder k,
  )
