-- ===== src/Tests/HeaderText.antt =====
-- The text of names, values and cookies.
use atscppapi.Common.{codes, ◌≡◌, ◌≢◌, refl, ◌++◌, [], ◌∷◌, map, arith, Ordering}
use atscppapi.StdMap.Laws.{IsSorted}
use atscppapi.StdString.{string_less, string_compare}
use atscppapi.Comparator.{compare_names, normalize}
use atscppapi.Comparator.Order.{compare_names-string_compare}
use atscppapi.Comparator.Letters.{compare_names_z}
use atscppapi.Headers.State.{RequestCookieMap}
use atscppapi.Headers.CookieText.{
  parse_cookies, print_cookies, parse_loop, strip_enclosing_whitespace,
}
use atscppapi.Headers.CookieText.RoundTrip.{parse_cookies-print_cookies, IsPrintable}
use atscppapi.Headers.CookieText.Fuel.{parse_loop-fuel}
use atscppapi.Headers.CookieText.Parse.{IsCookie}
use atscppapi.Headers.Values.{joined_values}
use atscppapi.Headers.Joined.{joined_values-intercalate, intercalate, drop_empty}
use atscppapi.HttpMethod.{http_method_get, http_method_strings}
use atscppapi.HttpVersion.{http_version_1_0}
use atscppapi.AsyncHttpFetch.{request_text}
use atscppapi.AsyncHttpFetch.Text.{request_text-flatten, line, header_line}
use mathlib.Core.List.{flatten}

abbrev two_cookies : RequestCookieMap
two_cookies = (codes "a", codes "1" ∷ []) ∷ (codes "b", codes "\"x;y\"" ∷ []) ∷ []

two_cookies-IsSorted : IsSorted string_less two_cookies
unfolding string_less string_compare
two_cookies-IsSorted = ((refl, tt), (tt, tt))

plain-IsCookie : IsCookie (codes "a") (codes "1")
unfolding strip_enclosing_whitespace
plain-IsCookie = record {
  named = ground arith;
  name_chars = (ground arith, tt);
  name_stripped = refl;
  valued = ground arith;
  value_closed = (refl, refl);
  value_stripped = refl;
}

quoted-IsCookie : IsCookie (codes "b") (codes "\"x;y\"")
unfolding strip_enclosing_whitespace
quoted-IsCookie = record {
  named = ground arith;
  name_chars = (ground arith, tt);
  name_stripped = refl;
  valued = ground arith;
  value_closed = (refl, (refl, (refl, (refl, (refl, refl)))));
  value_stripped = refl;
}

one_value : codes "1" ∷ [] ≢ []
one_value = ground arith

quoted_value : codes "\"x;y\"" ∷ [] ≢ []
quoted_value = ground arith

two_cookies-IsPrintable : IsPrintable two_cookies
two_cookies-IsPrintable =
    (one_value, (plain-IsCookie, tt), (quoted_value, (quoted-IsCookie, tt), tt))

parse_cookies-print_cookies_example :
    parse_cookies (print_cookies two_cookies ∷ []) [] ≡ two_cookies
parse_cookies-print_cookies_example =
    parse_cookies-print_cookies two_cookies two_cookies-IsSorted two_cookies-IsPrintable

compare_names-string_compare_example :
    compare_names (codes "Cookie") (codes "HOST")
    ≡ string_compare (map normalize (codes "Cookie")) (map normalize (codes "HOST"))
compare_names-string_compare_example = compare_names-string_compare (codes "Cookie") (codes "HOST")

compare_names_z_example : compare_names (codes "siZe") (codes "size") ≡ Ordering.lt
compare_names_z_example = compare_names_z (codes "si") (codes "e") (codes "e")

joined_values-intercalate_example :
    joined_values (codes "" ∷ codes "a" ∷ codes "b" ∷ []) 44
    ≡ intercalate 44 (drop_empty (codes "" ∷ codes "a" ∷ codes "b" ∷ []))
joined_values-intercalate_example =
    joined_values-intercalate (codes "" ∷ codes "a" ∷ codes "b" ∷ []) 44

parse_loop-fuel_example : parse_loop 3 (codes "a=1") [] ≡ parse_loop 9 (codes "a=1") []
parse_loop-fuel_example = parse_loop-fuel 3 9 (codes "a=1") [] (omega arith) (omega arith)

request_text-flatten_example :
    request_text http_method_get (codes "http://x/") http_version_1_0 two_cookies
    ≡ flatten (
        line (codes "GET" ++ codes " " ++ codes "http://x/" ++ codes " " ++ codes "HTTP/1.0")
        ∷ (map header_line two_cookies ++ line [] ∷ []))
unfolding http_method_strings
request_text-flatten_example =
    request_text-flatten http_method_get (codes "http://x/") http_version_1_0 two_cookies
