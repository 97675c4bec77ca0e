-- ===== src/Headers/CookieText.antt =====
-- The text of a `Cookie` header: the parser in `getRequestCookies`, and the printer in
-- `updateRequestCookieHeaderFromMap`. A position of a string is given by the characters from it on.
pub mod Parse
pub mod Print
pub mod RoundTrip
pub mod Fuel
pub mod Sorted
pub mod Strip
use atscppapi.Common.{
  ℕ, zero, suc, Bytes, Bool, true, false, ◌&&◌, ◌||◌, not, ◌++◌, Option, none, some, List, [], ◌∷◌,
  length, ◌==◌, leb, if◌then◌else◌, take, ◌-◌,
}
use atscppapi.StdString.{string_less}
use atscppapi.StdMap.{insert, modify}
use atscppapi.Headers.State.{RequestCookieMap}

-- std::isspace in the C locale.
unfoldable pub isspace : ℕ → Bool
isspace c = c == b' ' || (leb 9 c && leb c 13)

-- The first loop of `stripEnclosingWhitespace` with the erasure of what it passed.
unfoldable pub strip_front : Bytes → Bytes
strip_front [] = []
strip_front (c ∷ s) = if isspace c then strip_front s else c ∷ s

-- The second loop, from the end on.
unfoldable pub strip_back : Bytes → Bytes
strip_back [] = []
strip_back (c ∷ s) = elim (strip_back s) [
  | [] ↦ if isspace c then [] else c ∷ []
  | d ∷ t ↦ c ∷ d ∷ t
]

unfoldable pub strip_enclosing_whitespace : Bytes → Bytes
unfolding strip_front strip_back isspace
strip_enclosing_whitespace token = strip_back (strip_front token)

unfoldable pub add_cookie_to_map : RequestCookieMap → Bytes → Bytes → RequestCookieMap
add_cookie_to_map cookie_map name value =
    modify string_less name (λ value_list. value_list ++ value ∷ [])
      (insert string_less name [] cookie_map)

-- The loop over the name: the characters up to `=` or `;`, and the position of that.
unfoldable pub scan_name : Bytes → Bytes × Bytes
scan_name [] = ([], [])
scan_name (c ∷ s) =
    let rest = scan_name s in if c == b'=' || c == b';' then ([], c ∷ s) else (c ∷ rest.0, rest.1)

-- The loop over the value, where a quote opens or ends a part in which `;` stands for itself.
unfoldable pub scan_value : Bool → Bytes → Bytes × Bytes
scan_value within_quotes [] = ([], [])
scan_value within_quotes (c ∷ s) =
    let rest = scan_value (if c == b'"' then not within_quotes else within_quotes) s in
    if c == b';' && not within_quotes then ([], c ∷ s) else (c ∷ rest.0, rest.1)

-- `++end_pos`
abbrev pub after_one : Bytes → Bytes
after_one [] = []
after_one (c ∷ s) = s

abbrev pub is_empty : Bytes → Bool
is_empty [] = true
is_empty (c ∷ s) = false

-- What the parse of one value of the header came to: its end, or a return on an error.
pub data Parsed : Type 0 where
  finished stopped : RequestCookieMap → Parsed

-- The part of a round behind the scan for the name's end; `none` is one of the returns on an
-- error: a string that ends or has `;` before the `=`, an empty name, no character behind the `=`.
unfoldable pub read_value : Bytes → Bytes → Option (Bytes × Bytes × Bytes)
unfolding scan_value strip_enclosing_whitespace
read_value name [] = none
read_value name (d ∷ value_start) =
    let (value_at, value_end) = scan_value false value_start in
    if d == b';'
    then none
    else if is_empty name
    then none
    else if is_empty value_start
    then none
    else some (name, strip_enclosing_whitespace value_at, after_one value_end)

-- One round: the name, the value, and the position of the next name.
unfoldable pub read_cookie : Bytes → Option (Bytes × Bytes × Bytes)
unfolding read_value scan_name strip_enclosing_whitespace
read_cookie s =
    let (name_at, at_end) = scan_name s in read_value (strip_enclosing_whitespace name_at) at_end

unfoldable pub parse_loop : ℕ → Bytes → RequestCookieMap → Parsed
unfolding read_cookie add_cookie_to_map
parse_loop zero s m = finished m
parse_loop (suc fuel) [] m = finished m
parse_loop (suc fuel) (c ∷ s) m = elim (read_cookie (c ∷ s)) [
  | none ↦ stopped m
  | some (name, value, rest) ↦ parse_loop fuel rest (add_cookie_to_map m name value)
]

-- One value of the header; every round takes a character, so its length is fuel enough.
unfoldable pub parse_cookie_kv : Bytes → RequestCookieMap → Parsed
unfolding parse_loop
parse_cookie_kv cookie_kv m = parse_loop (length cookie_kv) cookie_kv m

-- The loop over the values; a return ends it.
unfoldable pub parse_cookies : List Bytes → RequestCookieMap → RequestCookieMap
unfolding parse_cookie_kv
parse_cookies [] m = m
parse_cookies (cookie_kv ∷ kvs) m = elim (parse_cookie_kv cookie_kv m) [
  | stopped m' ↦ m'
  | finished m' ↦ parse_cookies kvs m'
]

-- The two loops that build the header.
unfoldable pub print_values : Bytes → List Bytes → Bytes
print_values name [] = []
print_values name (value ∷ values) =
    name ++ b'=' ∷ (value ++ b';' ∷ b' ' ∷ print_values name values)

unfoldable pub print_entries : RequestCookieMap → Bytes
unfolding print_values
print_entries [] = []
print_entries ((name, values) ∷ m) = print_values name values ++ print_entries m

-- The header, without the last "; ".
unfoldable pub print_cookies : RequestCookieMap → Bytes
unfolding print_entries
print_cookies m = let s = print_entries m in take (length s - 2) s
