-- ===== src/Headers/Attached.antt =====
-- `append` on a header that has a buffer.
use atscppapi.Common.{
  Bytes, ◌≡◌, refl, sym, ap, ◌∙◌, subst, Bool, true, false, none, some, List, [], arith,
  if◌then◌else◌,
}
use atscppapi.Comparator.{name_less}
use atscppapi.Comparator.Order.{name_less-IsStrictWeakOrder}
use atscppapi.StdMap
use atscppapi.StdMap.{insert, modify}
use atscppapi.StdMap.Laws.{IsSorted, find-insert, find-modify, equiv_refl}
use atscppapi.InitializableValue.{is_initialized}
use atscppapi.Mime.{MimeApi}
use atscppapi.Headers.State.{Headers, HeadersType, type_request, type_response, NameValuesMap}
use atscppapi.Headers.Fields.{
  check_and_init_headers, do_basic_append, append_fields, append_detached, find_or_create,
  insert_values, extract_header_field_values,
}
use atscppapi.Headers.Values
use atscppapi.Headers.Values.{invalidate_cookies}
use atscppapi.Headers.Detached.{same_name}
use atscppapi.Headers.Reading.{Field, values_read, IsField, extract_header_field_values-IsField}

-- The entry of a name is set.
abbrev replaced : Bytes → List Bytes → NameValuesMap → NameValuesMap
replaced name vs m = modify name_less name (λ _. vs) (insert name_less name [] m)

find-replaced :
    (name : Bytes) (vs : List Bytes) (m : NameValuesMap)
    → IsSorted name_less m
    → (j : Bytes)
    → StdMap.find name_less j (replaced name vs m)
      ≡ (if same_name name j then some vs else StdMap.find name_less j m)
find-replaced name vs m s j = rw (find-modify name_less name_less-IsStrictWeakOrder) (
    ground (
      arith,
      find-insert name_less name_less-IsStrictWeakOrder name name [] m s,
      find-insert name_less name_less-IsStrictWeakOrder name j [] m s,
      equiv_refl name_less name_less-IsStrictWeakOrder name,
    ))

module _ {ts : MimeApi} (buf : ts.MBuffer) (loc : ts.MLoc) (name : Bytes) (new_values : List Bytes)
    (f : Field ts) where
  -- The buffer after the values were inserted into the field.
  abbrev pub inserted : Headers ts → ts.World
  inserted h = insert_values ts h.world buf loc f.field_loc new_values

  basic_attached :
      (h : Headers ts)
      → h.hdr_buf ≡ some buf
      → h.hdr_loc ≡ some loc
      → h.detached ≡ false
      → do_basic_append ts name new_values h
        ≡ append_fields ts name new_values (some buf) (some loc) h
  unfolding do_basic_append
  basic_attached h b l attached =
      ap
        (λ d.
          if d
          then append_detached ts name new_values h
          else append_fields ts name new_values h.hdr_buf h.hdr_loc h)
        attached
      ∙ ap (λ x. append_fields ts name new_values x h.hdr_loc h) b
      ∙ ap (λ x. append_fields ts name new_values (some buf) x h) l

  found_field :
      (w : ts.World)
      → ts.field_find w buf loc name ≡ some f.field_loc
      → find_or_create ts w buf loc name ≡ (w, f.field_loc)
  unfolding find_or_create
  found_field w found =
      ap
        (λ o. elim o [
          | some field ↦ (w, field)
          | none ↦
              let (w', field) = ts.field_create w buf loc in
              (ts.field_append (ts.field_name_set w' buf loc field name) buf loc field, field)
        ])
        found

  appended_map :
      (h : Headers ts)
      → h.hdr_buf ≡ some buf
      → h.hdr_loc ≡ some loc
      → h.detached ≡ false
      → ts.field_find h.world buf loc name ≡ some f.field_loc
      → IsField ts buf loc (inserted h) f
      → (do_basic_append ts name new_values h).name_values_map.value
        ≡ replaced name (values_read f) h.name_values_map.value
  unfolding append_fields
  appended_map h b l attached found field =
      let set_to = λ (vs : List Bytes).
        modify name_less name (λ _. vs) (insert name_less name [] h.name_values_map.value) in
      ap (λ x. x.name_values_map.value) (basic_attached h b l attached)
      ∙ ap
          (λ p. set_to (
            extract_header_field_values ts (insert_values ts p.0 buf loc p.1 new_values) buf loc p.1
              []))
          (found_field h.world found)
      ∙ ap set_to (extract_header_field_values-IsField ts buf loc (inserted h) f [] field)

  -- Dropping parsed cookies leaves the rest.
  kept_parts :
      (type : HeadersType) (h : Headers ts)
      → ((invalidate_cookies name type h).hdr_buf ≡ h.hdr_buf)
        × ((invalidate_cookies name type h).hdr_loc ≡ h.hdr_loc)
        × ((invalidate_cookies name type h).detached ≡ h.detached)
        × ((invalidate_cookies name type h).world ≡ h.world)
        × ((invalidate_cookies name type h).name_values_map ≡ h.name_values_map)
  unfolding invalidate_cookies
  kept_parts type_request h = ground arith
  kept_parts type_response h = ground arith

  append_ready :
      (caching : Bool) (h : Headers ts)
      → is_initialized caching h.name_values_map ≡ true
      → Values.append ts caching name new_values h ≡ (
        StdMap.find name_less name
            (do_basic_append ts name new_values
              (invalidate_cookies name h.type h)).name_values_map.value,
        do_basic_append ts name new_values (invalidate_cookies name h.type h),
      )
  unfolding Values.append check_and_init_headers
  append_ready caching h ready = rw ready refl

  -- Take headers that are not detached, have a buffer and a header of it, count as read, and have
  -- their map in the order of the names. When the buffer finds a first field for a name, and its
  -- getters give, once new values were inserted, what the record `f` says of that field, an append
  -- of these values gives the name in the map exactly the values of this field, whatever it had
  -- before, so that values of further fields of the name are no longer found; the result points at
  -- them, and no other name changes.
  pub find-append :
      (caching : Bool) (h : Headers ts)
      → is_initialized caching h.name_values_map ≡ true
      → h.hdr_buf ≡ some buf
      → h.hdr_loc ≡ some loc
      → h.detached ≡ false
      → IsSorted name_less h.name_values_map.value
      → ts.field_find h.world buf loc name ≡ some f.field_loc
      → IsField ts buf loc (inserted h) f
      → ((Values.append ts caching name new_values h).0 ≡ some (values_read f))
        × ((j : Bytes)
            → StdMap.find name_less j
                (Values.append ts caching name new_values h).1.name_values_map.value
              ≡ (if same_name name j
                  then some (values_read f)
                  else StdMap.find name_less j h.name_values_map.value))
  find-append caching h ready b l attached sorted found field =
      let h' = invalidate_cookies name h.type h in
      let (b', l', attached', world', map') = kept_parts h.type h in
      let changed =
        appended_map h' (b' ∙ b) (l' ∙ l) (attached' ∙ attached)
          (subst (λ w. ts.field_find w buf loc name ≡ some f.field_loc) (sym world') found)
          (subst (λ w. IsField ts buf loc (insert_values ts w buf loc f.field_loc new_values) f)
            (sym world') field)
        ∙ ap (λ m. replaced name (values_read f) m.value) map' in
      let at = find-replaced name (values_read f) h.name_values_map.value sorted in
      (
        ap (λ r. r.0) (append_ready caching h ready)
            ∙ ap (StdMap.find name_less name) changed
            ∙ at name
            ∙ ap
                (λ c.
                  if c
                  then some (values_read f)
                  else StdMap.find name_less name h.name_values_map.value)
                (equiv_refl name_less name_less-IsStrictWeakOrder name),
        λ j.
            ap (λ r. StdMap.find name_less j r.1.name_values_map.value)
              (append_ready caching h ready)
            ∙ ap (StdMap.find name_less j) changed
            ∙ at j,
      )
