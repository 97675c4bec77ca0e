-- ===== src/Tests/HeaderFields.antt =====
-- Headers over a buffer with two fields of one name, and over one whose first field grows.
use atscppapi.Common.{
  ℕ, zero, Bytes, codes, ◌≡◌, refl, true, false, Option, none, some, List, [], ◌∷◌, ◌++◌,
  if◌then◌else◌, length, get_elem?,
}
use atscppapi.Comparator.{name_less}
use atscppapi.StdMap
use atscppapi.Mime.{MimeApi}
use atscppapi.InitializableValue.{uninitialized}
use atscppapi.Headers.State.{Headers, type_request}
use atscppapi.Headers.Fields.{insert_values}
use atscppapi.Headers.Values
use atscppapi.Headers.Detached.{same_name}
use atscppapi.Headers.Reading.{Field, KeepsFields, HasFields, IsField}
use atscppapi.Headers.Attached.{find-append, inserted}
use atscppapi.Headers.Gathered.{gathered, find-gathered}

next_field : ℕ → Option ℕ
next_field zero = some 1
next_field _ = none

field_name : ℕ → Option Bytes
field_name zero = some (codes "Host")
field_name _ = some (codes "host")

value_of : ℕ → ℕ → Option Bytes
value_of zero zero = some (codes "x")
value_of zero _ = some (codes "y")
value_of _ _ = none

count_of : ℕ → ℕ
count_of zero = 2
count_of _ = 0

abbrev two_fields : MimeApi
two_fields = record {
  World = Unit;
  MBuffer = Unit;
  MLoc = ℕ;
  fields_count = λ w b l. 2;
  field_get = λ w b l i. some 0;
  field_next = λ w b l f. next_field f;
  field_next_dup = λ w b l f. next_field f;
  field_find = λ w b l n. none;
  field_name_get = λ w b l f. field_name f;
  field_values_count = λ w b l f. count_of f;
  field_value_get = λ w b l f i. value_of f i;
  field_create = λ w b l. (tt, 2);
  field_name_set = λ w b l f n. tt;
  field_append = λ w b l f. tt;
  field_value_append = λ w b l f v. tt;
  field_destroy = λ w b l f. tt;
  mloc_release = λ w b l f. tt;
}

two_fields-KeepsFields : KeepsFields two_fields tt 0
two_fields-KeepsFields = record {
  at_next = λ w g f. refl;
  at_name = λ w g f. refl;
  at_count = λ w g f. refl;
  at_value = λ w g f i. refl;
}

abbrev hosts : List (Field two_fields)
hosts =
    record { field_loc = 0; name = some (codes "Host"); values = codes "x" ∷ codes "y" ∷ [] }
    ∷ record { field_loc = 1; name = some (codes "host"); values = [] }
    ∷ []

hosts-HasFields : HasFields two_fields tt 0 tt (some 0) hosts
unfolding next_field field_name value_of count_of
hosts-HasFields = (
  refl,
  (
    record { named = refl; counted = refl; valued = (refl, (refl, tt)) },
    (refl, (record { named = refl; counted = refl; valued = tt }, refl)),
  ),
)

abbrev unread : Headers two_fields
unread = record {
  type = type_request;
  hdr_buf = some tt;
  hdr_loc = some 0;
  name_values_map = uninitialized [];
  detached = false;
  request_cookies = uninitialized [];
  response_cookies = uninitialized [];
  world = tt;
}

find-gathered_example :
    (Values.find two_fields true (codes "HOST") unread).0 ≡ gathered (codes "HOST") hosts none
find-gathered_example =
    find-gathered true tt 0 two_fields-KeepsFields unread hosts refl refl refl hosts-HasFields refl
      (codes "HOST")

-- The world is the values of the first field of the name.
abbrev growing : MimeApi
growing = record {
  World = List Bytes;
  MBuffer = Unit;
  MLoc = ℕ;
  fields_count = λ w b l. 2;
  field_get = λ w b l i. some 0;
  field_next = λ w b l f. next_field f;
  field_next_dup = λ w b l f. next_field f;
  field_find = λ w b l n. some 0;
  field_name_get = λ w b l f. field_name f;
  field_values_count = λ w b l f. length w;
  field_value_get = λ w b l f i. get_elem? w i;
  field_create = λ w b l. (w, 2);
  field_name_set = λ w b l f n. w;
  field_append = λ w b l f. w;
  field_value_append = λ w b l f v. w ++ v ∷ [];
  field_destroy = λ w b l f. w;
  mloc_release = λ w b l f. w;
}

abbrev grown : Field growing
grown = record { field_loc = 0; name = some (codes "Host"); values = codes "x" ∷ codes "z" ∷ [] }

-- The value `y` stands in the second field.
abbrev both_read : Headers growing
both_read = record {
  type = type_request;
  hdr_buf = some tt;
  hdr_loc = some 0;
  name_values_map = record {
    value = (codes "Host", codes "x" ∷ codes "y" ∷ []) ∷ [];
    initialized = true;
  };
  detached = false;
  request_cookies = uninitialized [];
  response_cookies = uninitialized [];
  world = codes "x" ∷ [];
}

abbrev z_only : List Bytes
z_only = codes "z" ∷ []

grown-IsField : IsField growing tt 0 (inserted tt 0 (codes "host") z_only grown both_read) grown
unfolding field_name insert_values
grown-IsField = record { named = refl; counted = refl; valued = (refl, (refl, tt)) }

find-append_example :
    ((Values.append growing true (codes "host") z_only both_read).0
      ≡ some (codes "x" ∷ codes "z" ∷ []))
    × ((j : Bytes)
        → StdMap.find name_less j
            (Values.append growing true (codes "host") z_only both_read).1.name_values_map.value
          ≡ (if same_name (codes "host") j
              then some (codes "x" ∷ codes "z" ∷ [])
              else StdMap.find name_less j both_read.name_values_map.value))
find-append_example =
    find-append tt 0 (codes "host") z_only grown true both_read refl refl refl refl (tt, tt) refl
      grown-IsField
