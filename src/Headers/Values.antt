-- ===== src/Headers/Values.antt =====
-- The operations of `Headers` on names and values. An iterator is given by the values of the entry
-- that it points at, and `end()` by `none`.
use mathlib.Core.List.{reverse}
use atscppapi.Common.{
  ℕ, Bytes, codes, Bool, true, false, not, ◌++◌, Option, none, some, List, [], ◌∷◌, length,
  if◌then◌else◌,
}
use atscppapi.Comparator.{name_less}
use atscppapi.StdMap
use atscppapi.Mime.{MimeApi}
use atscppapi.Headers.State.{Headers, HeadersType, type_request, type_response, NameValuesMap}
use atscppapi.Headers.Fields.{check_and_init_headers, do_basic_erase, do_basic_append}

module _ {ts : MimeApi} where
  -- The part that `erase` and `append` share: a parsed cookie list may be out of date. The test is
  -- `CaseInsensitiveStringComparator()(k, name) == 0`, and that operator answers "less".
  unfoldable pub invalidate_cookies : Bytes → HeadersType → Headers ts → Headers ts
  invalidate_cookies k type_request h =
      if not (name_less k (codes "Cookie"))
      then record h { request_cookies = record { value = []; initialized = false } }
      else h
  invalidate_cookies k type_response h =
      if not (name_less k (codes "Set-Cookie"))
      then record h { response_cookies = record { value = []; initialized = false } }
      else h

module _ (ts : MimeApi) (caching : Bool) where
  unfoldable pub erase : Bytes → Headers ts → ℕ × Headers ts
  unfolding invalidate_cookies do_basic_erase check_and_init_headers
  erase k h =
      let (ready, h') = check_and_init_headers ts caching h in
      if ready then do_basic_erase ts k (invalidate_cookies k h'.type h') else (0, h')

  -- append(const pair<string, list<string> > &); the result is the iterator to the entry.
  unfoldable pub append : Bytes → List Bytes → Headers ts → Option (List Bytes) × Headers ts
  unfolding invalidate_cookies do_basic_append check_and_init_headers
  append key values h =
      let (ready, h') = check_and_init_headers ts caching h in
      let appended = do_basic_append ts key values (invalidate_cookies key h'.type h') in
      if ready
      then (StdMap.find name_less key appended.name_values_map.value, appended)
      else (none, h')

  -- append(const string &, const string &)
  unfoldable pub append_value : Bytes → Bytes → Headers ts → Option (List Bytes) × Headers ts
  unfolding append
  append_value key value h = append key (value ∷ []) h

  -- set(const pair<string, list<string> > &)
  unfoldable pub set : Bytes → List Bytes → Headers ts → Option (List Bytes) × Headers ts
  unfolding erase append
  set key values h = append key values (erase key h).1

  -- set(const string &, const string &)
  unfoldable pub set_value : Bytes → Bytes → Headers ts → Option (List Bytes) × Headers ts
  unfolding set
  set_value key value h = set key (value ∷ []) h

  -- The entries from begin() to end().
  unfoldable pub entries : Headers ts → NameValuesMap × Headers ts
  unfolding check_and_init_headers
  entries h = let (_, h') = check_and_init_headers ts caching h in (h'.name_values_map.value, h')

  -- The entries from rbegin() to rend().
  unfoldable pub reversed_entries : Headers ts → NameValuesMap × Headers ts
  unfolding check_and_init_headers
  reversed_entries h =
      let (_, h') = check_and_init_headers ts caching h in (reverse h'.name_values_map.value, h')

  unfoldable pub find : Bytes → Headers ts → Option (List Bytes) × Headers ts
  unfolding check_and_init_headers
  find k h =
      let (_, h') = check_and_init_headers ts caching h in
      (StdMap.find name_less k h'.name_values_map.value, h')

  unfoldable pub count : Bytes → Headers ts → ℕ × Headers ts
  unfolding check_and_init_headers
  count k h =
      let (_, h') = check_and_init_headers ts caching h in
      (StdMap.count name_less k h'.name_values_map.value, h')

  unfoldable pub size : Headers ts → ℕ × Headers ts
  unfolding check_and_init_headers
  size h =
      let (_, h') = check_and_init_headers ts caching h in (length h'.name_values_map.value, h')

  unfoldable pub empty : Headers ts → Bool × Headers ts
  unfolding check_and_init_headers
  empty h =
      let (_, h') = check_and_init_headers ts caching h in
      (elim h'.name_values_map.value [ [] ↦ true | _ ∷ _ ↦ false ], h')

-- The loop of `getJoinedValues` on a list, with the string so far.
unfoldable pub join_values : List Bytes → ℕ → Bytes → Bytes
join_values [] delimiter ret = ret
join_values (v ∷ vs) delimiter ret =
    join_values vs delimiter (elim ret [ [] ↦ v | c ∷ s ↦ (c ∷ s) ++ delimiter ∷ v ])

-- getJoinedValues(const list<string> &, char)
unfoldable pub joined_values : List Bytes → ℕ → Bytes
unfolding join_values
joined_values values delimiter = join_values values delimiter []

-- What the second overload makes of the entry that it finds: it passes no delimiter on.
unfoldable pub joined_found : Option (List Bytes) → Bytes
unfolding joined_values
joined_found none = []
joined_found (some values) = joined_values values b','

-- getJoinedValues(const string &, char)
module _ (ts : MimeApi) (caching : Bool) where
  unfoldable pub joined_values_of : Bytes → ℕ → Headers ts → Bytes × Headers ts
  unfolding check_and_init_headers joined_found
  joined_values_of key value_delimiter h =
      let (_, h') = check_and_init_headers ts caching h in
      (joined_found (StdMap.find name_less key h'.name_values_map.value), h')
