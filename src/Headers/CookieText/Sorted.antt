-- ===== src/Headers/CookieText/Sorted.antt =====
-- The parser keeps the cookie map in order.
use atscppapi.Common.{ℕ, zero, suc, Bytes, none, some, List, [], ◌∷◌}
use atscppapi.StdString.{string_less}
use atscppapi.StdMap.Laws.{IsSorted}
use atscppapi.StdMap.Multi.{append_at-IsSorted}
use atscppapi.Comparator.Order.{string_less-IsStrictWeakOrder}
use atscppapi.Headers.State.{RequestCookieMap}
use atscppapi.Headers.CookieText.{
  Parsed, finished, stopped, add_cookie_to_map, read_cookie, parse_loop, parse_cookie_kv,
  parse_cookies,
}

pub add_cookie_to_map-IsSorted :
    (m : RequestCookieMap) (name value : Bytes)
    → IsSorted string_less m
    → IsSorted string_less (add_cookie_to_map m name value)
unfolding add_cookie_to_map
add_cookie_to_map-IsSorted m name value s =
    append_at-IsSorted string_less string_less-IsStrictWeakOrder name (value ∷ []) m s

abbrev IsSortedResult : Parsed → Type 0
IsSortedResult (finished m) = IsSorted string_less m
IsSortedResult (stopped m) = IsSorted string_less m

parse_loop-IsSorted :
    (f : ℕ) (s : Bytes) (m : RequestCookieMap)
    → IsSorted string_less m
    → IsSortedResult (parse_loop f s m)
unfolding parse_loop
parse_loop-IsSorted zero s m h = h
parse_loop-IsSorted (suc f) [] m h = h
parse_loop-IsSorted (suc f) (c ∷ s) m h =
    elim (read_cookie (c ∷ s))
      as (λ o. IsSortedResult (elim o [
        | none ↦ stopped m
        | some (name, value, rest) ↦ parse_loop f rest (add_cookie_to_map m name value)
      ])) [
        | none ↦ h
        | some (name, value, rest) ↦
            parse_loop-IsSorted f rest _ (add_cookie_to_map-IsSorted m name value h)
      ]

parse_cookie_kv-IsSorted :
    (s : Bytes) (m : RequestCookieMap)
    → IsSorted string_less m
    → IsSortedResult (parse_cookie_kv s m)
unfolding parse_cookie_kv
parse_cookie_kv-IsSorted s m h = parse_loop-IsSorted _ s m h

-- Whatever the header holds, the map that it is parsed into stays in order.
pub parse_cookies-IsSorted :
    (kvs : List Bytes) (m : RequestCookieMap)
    → IsSorted string_less m
    → IsSorted string_less (parse_cookies kvs m)
unfolding parse_cookies parse_cookie_kv
parse_cookies-IsSorted [] m h = h
parse_cookies-IsSorted (kv ∷ kvs) m h =
    go (parse_cookie_kv kv m) (parse_cookie_kv-IsSorted kv m h) (parse_cookies-IsSorted kvs)
  where
    go :
        (p : Parsed)
        → IsSortedResult p
        → ((m' : RequestCookieMap)
            → IsSorted string_less m'
            → IsSorted string_less (parse_cookies kvs m'))
        → IsSorted string_less (elim p [ stopped m' ↦ m' | finished m' ↦ parse_cookies kvs m' ])
    go (finished m') k rest = rest m' k
    go (stopped m') k rest = k
