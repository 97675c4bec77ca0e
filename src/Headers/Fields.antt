-- ===== src/Headers/Fields.antt =====
-- The map of the headers and the fields of the marshal buffer: how the one is filled from the
-- other, and the two writes that keep them together. Each walk over the fields of a header has the
-- number of fields as its fuel.
use atscppapi.Common.{
  ℕ, zero, suc, Bytes, Bool, true, false, ◌++◌, Option, none, some, List, [], ◌∷◌, ltb, length,
  if◌then◌else◌, ◌==◌,
}
use mathlib.Core.Option
use atscppapi.Comparator.{name_less}
use atscppapi.StdMap.{insert, modify, erase, count}
use atscppapi.InitializableValue.{is_initialized, set_ref}
use atscppapi.Mime.{MimeApi}
use atscppapi.Headers.State.{Headers, NameValuesMap}

module _ (ts : MimeApi) where
  -- The loop of `extractHeaderFieldValues`: `n` rounds are left, the next is for value `i`.
  unfoldable pub extract_values :
      ℕ → ts.World → ts.MBuffer → ts.MLoc → ts.MLoc → ℕ → List Bytes → List Bytes
  extract_values zero w buf loc field i value_list = value_list
  extract_values (suc n) w buf loc field i value_list =
      extract_values n w buf loc field (suc i)
        (value_list ++ Option.get_or (ts.field_value_get w buf loc field i) [] ∷ [])

  unfoldable pub extract_header_field_values :
      ts.World → ts.MBuffer → ts.MLoc → ts.MLoc → List Bytes → List Bytes
  unfolding extract_values
  extract_header_field_values w buf loc field value_list =
      let num_values = ts.field_values_count w buf loc field in
      if num_values == 0
      then value_list ++ [] ∷ []
      else extract_values num_values w buf loc field 0 value_list

  -- The body of the loop for a field with this name.
  unfoldable pub add_field :
      ts.World → ts.MBuffer → ts.MLoc → ts.MLoc → Option Bytes → NameValuesMap → NameValuesMap
  add_field w buf loc field none m = m
  add_field w buf loc field (some name) m =
      if ltb 0 (length name)
      then modify name_less name (extract_header_field_values w buf loc field)
          (insert name_less name [] m)
      else m

  -- The loop of `checkAndInitHeaders`, from `field_loc` on.
  unfoldable pub read_fields :
      ℕ
      → ts.World
      → ts.MBuffer
      → ts.MLoc
      → Option ts.MLoc
      → NameValuesMap
      → NameValuesMap × ts.World
  read_fields zero w buf loc field_loc m = (m, w)
  read_fields (suc fuel) w buf loc none m = (m, w)
  read_fields (suc fuel) w buf loc (some field) m =
      let m' = add_field w buf loc field (ts.field_name_get w buf loc field) m in
      let next = ts.field_next w buf loc field in
      read_fields fuel (ts.mloc_release w buf loc field) buf loc next m'

  unfoldable pub init_from_fields : ts.MBuffer → ts.MLoc → Headers ts → Headers ts
  unfolding read_fields
  init_from_fields buf loc h =
      let w = h.world in
      let filled =
        read_fields (suc (ts.fields_count w buf loc)) w buf loc (ts.field_get w buf loc 0) [] in
      record h {
        name_values_map = record { value = filled.0; initialized = true };
        world = filled.1;
      }

  unfoldable pub init_from_handles :
      Option ts.MBuffer → Option ts.MLoc → Headers ts → Bool × Headers ts
  unfolding init_from_fields
  init_from_handles (some buf) (some loc) h = (true, init_from_fields buf loc h)
  init_from_handles _ _ h = (false, h)

  unfoldable pub check_and_init_headers : Bool → Headers ts → Bool × Headers ts
  check_and_init_headers caching h =
      if is_initialized caching h.name_values_map
      then (true, h)
      else init_from_handles h.hdr_buf h.hdr_loc h

  -- The loop of `doBasicErase`, from `field_loc` on.
  unfoldable pub destroy_fields : ℕ → ts.World → ts.MBuffer → ts.MLoc → Option ts.MLoc → ts.World
  destroy_fields zero w buf loc field_loc = w
  destroy_fields (suc fuel) w buf loc none = w
  destroy_fields (suc fuel) w buf loc (some field) =
      let next = ts.field_next_dup w buf loc field in
      destroy_fields fuel (ts.mloc_release (ts.field_destroy w buf loc field) buf loc field) buf loc
        next

  -- The branch of `doBasicErase` on a header that is not detached.
  unfoldable pub erase_fields : Bytes → Option ts.MBuffer → Option ts.MLoc → ts.World → ts.World
  unfolding destroy_fields
  erase_fields k (some buf) (some loc) w =
      destroy_fields (suc (ts.fields_count w buf loc)) w buf loc (ts.field_find w buf loc k)
  erase_fields k _ _ w = w

  -- The number of entries erased, and the object.
  unfoldable pub do_basic_erase : Bytes → Headers ts → ℕ × Headers ts
  do_basic_erase k h =
      let m = h.name_values_map in
      (
        count name_less k m.value,
        record h {
          name_values_map = set_ref m (erase name_less k m.value);
          world = if h.detached then h.world else erase_fields k h.hdr_buf h.hdr_loc h.world;
        },
      )

  -- `TSMimeHdrFieldFind`, or a new field with this name.
  unfoldable pub find_or_create : ts.World → ts.MBuffer → ts.MLoc → Bytes → ts.World × ts.MLoc
  find_or_create w buf loc name = elim (ts.field_find w buf loc name) [
    | some field ↦ (w, field)
    | none ↦
        let (w', field) = ts.field_create w buf loc in
        (ts.field_append (ts.field_name_set w' buf loc field name) buf loc field, field)
  ]

  unfoldable pub insert_values : ts.World → ts.MBuffer → ts.MLoc → ts.MLoc → List Bytes → ts.World
  insert_values w buf loc field [] = w
  insert_values w buf loc field (v ∷ vs) =
      insert_values (ts.field_value_append w buf loc field v) buf loc field vs

  -- The branch of `doBasicAppend` on a header that is not detached: the values of the map are
  -- read back from the field.
  unfoldable pub append_fields :
      Bytes → List Bytes → Option ts.MBuffer → Option ts.MLoc → Headers ts → Headers ts
  unfolding find_or_create insert_values
  append_fields name new_values (some buf) (some loc) h =
      let (w, field) = find_or_create h.world buf loc name in
      let w' = insert_values w buf loc field new_values in
      let m = h.name_values_map in
      record h {
        name_values_map = set_ref m (
            modify name_less name (λ _. extract_header_field_values w' buf loc field [])
              (insert name_less name [] m.value));
        world = ts.mloc_release w' buf loc field;
      }
  append_fields name new_values _ _ h = h

  -- The branch on a detached header, which has only the map.
  unfoldable pub append_detached : Bytes → List Bytes → Headers ts → Headers ts
  append_detached name new_values h =
      let m = h.name_values_map in
      record h {
        name_values_map = set_ref m (
            modify name_less name (λ value_list. value_list ++ new_values)
              (insert name_less name [] m.value));
      }

  unfoldable pub do_basic_append : Bytes → List Bytes → Headers ts → Headers ts
  unfolding append_detached append_fields
  do_basic_append name new_values h =
      if h.detached
      then append_detached name new_values h
      else append_fields name new_values h.hdr_buf h.hdr_loc h
