-- ===== src/Tests/HeaderState.antt =====
-- Headers over small buffers.
use atscppapi.Common.{
  arith, ◌+◌, Bytes, codes, ◌≡◌, refl, true, false, ◌++◌, none, some, [], ◌∷◌, length,
  if◌then◌else◌,
}
use atscppapi.StdMap
use atscppapi.StdMap.{equiv}
use atscppapi.StdString.{string_less, string_compare}
use atscppapi.Comparator.{name_less}
use atscppapi.Comparator.Letters.{compare_names-lower, lower}
use atscppapi.InitializableValue.{uninitialized}
use atscppapi.Mime.{MimeApi}
use atscppapi.Headers.State.{Headers, type_request, NameValuesMap}
use atscppapi.Headers.Values
use atscppapi.Headers.Values.{joined_values_of}
use atscppapi.Headers.CookieText.{print_cookies, add_cookie_to_map}
use atscppapi.Headers.Cookies.{add_cookie, set_cookie, delete_cookie}
use atscppapi.Headers.Detached.{
  IsDetached, values_of, same_name, values_of-set, values_of-append, values_of-erase,
}
use atscppapi.StdMap.Multi.{values_or_none}
use atscppapi.Headers.CookieOps.{IsRequest, cookie_name}
use atscppapi.Headers.CookieJar.{
  cookies_of, cookies_of-set_cookie, cookies_of-delete_cookie, values_of-add_cookie, IsDeleted,
}
use atscppapi.Headers.Caching.{writes_uncached}

-- A buffer without header fields.
abbrev no_fields : MimeApi
no_fields = record {
  World = Unit;
  MBuffer = Unit;
  MLoc = Unit;
  fields_count = λ w b l. 0;
  field_get = λ w b l i. none;
  field_next = λ w b l f. none;
  field_next_dup = λ w b l f. none;
  field_find = λ w b l n. none;
  field_name_get = λ w b l f. none;
  field_values_count = λ w b l f. 0;
  field_value_get = λ w b l f i. none;
  field_create = λ w b l. (tt, tt);
  field_name_set = λ w b l f n. tt;
  field_append = λ w b l f. tt;
  field_value_append = λ w b l f v. tt;
  field_destroy = λ w b l f. tt;
  mloc_release = λ w b l f. tt;
}

abbrev fields : NameValuesMap
fields = (codes "Cookie", codes "a=1; b=2" ∷ []) ∷ (codes "Host", codes "x" ∷ codes "y" ∷ []) ∷ []

abbrev request : Headers no_fields
request = record {
  type = type_request;
  hdr_buf = none;
  hdr_loc = none;
  name_values_map = record { value = fields; initialized = true };
  detached = true;
  request_cookies = uninitialized [];
  response_cookies = uninitialized [];
  world = tt;
}

cookie_before_host : name_less (codes "Cookie") (codes "Host") ≡ true
unfolding name_less string_compare lower
cookie_before_host =
    rw
      (compare_names-lower (codes "Cookie") (codes "Host")
        (omega arith, (omega arith, (omega arith, (omega arith, (omega arith, (omega arith, tt))))))
        (omega arith, (omega arith, (omega arith, (omega arith, tt))))
        (
          ground arith,
          (ground arith, (ground arith, (ground arith, (ground arith, (ground arith, tt))))),
        )
        (ground arith, (ground arith, (ground arith, (ground arith, tt)))))
      refl

request-IsDetached : IsDetached request
request-IsDetached = record {
  detached = refl;
  initialized = refl;
  sorted = ((cookie_before_host, tt), (tt, tt));
}

request-IsRequest : IsRequest request
request-IsRequest = record { det = request-IsDetached; request = refl }

cookies_of-set_cookie_example :
    ((set_cookie no_fields true (codes "a") (codes "7") request).0 ≡ true)
    × ((j : Bytes)
        → StdMap.find string_less j
            (cookies_of (set_cookie no_fields true (codes "a") (codes "7") request).1)
          ≡ (if equiv string_less (codes "a") j
              then some (codes "7" ∷ [])
              else StdMap.find string_less j (cookies_of request)))
    × ((j : Bytes)
        → values_of (set_cookie no_fields true (codes "a") (codes "7") request).1 j ≡ (
            if same_name cookie_name j
            then some (
                print_cookies
                  (cookies_of (set_cookie no_fields true (codes "a") (codes "7") request).1)
                ∷ [])
            else values_of request j))
cookies_of-set_cookie_example =
    cookies_of-set_cookie request request-IsRequest tt (codes "a") (codes "7")

cookies_of-delete_cookie_example :
    IsDeleted request request-IsRequest tt
      (codes "a")
      (delete_cookie no_fields true (codes "a") request)
cookies_of-delete_cookie_example = cookies_of-delete_cookie request request-IsRequest tt (codes "a")

values_of-add_cookie_example :
    ((add_cookie no_fields true (codes "c") (codes "3") request).0 ≡ true)
    × ((j : Bytes)
        → values_of (add_cookie no_fields true (codes "c") (codes "3") request).1 j ≡ (
            if same_name cookie_name j
            then some (print_cookies (add_cookie_to_map [] (codes "c") (codes "3")) ∷ [])
            else values_of request j))
values_of-add_cookie_example =
    values_of-add_cookie request (codes "c") (codes "3") request-IsRequest

values_of-set_example :
    values_of (Values.set no_fields true (codes "Host") (codes "z" ∷ []) request).1 (codes "Cookie")
    ≡ (if same_name (codes "Host") (codes "Cookie")
        then some (codes "z" ∷ [])
        else values_of request (codes "Cookie"))
values_of-set_example =
    values_of-set (codes "Host") (codes "z" ∷ []) request request-IsDetached (codes "Cookie")

values_of-append_example :
    ((j : Bytes)
      → values_of (Values.append no_fields true (codes "Host") (codes "z" ∷ []) request).1 j ≡ (
          if same_name (codes "Host") j
          then some (values_or_none (values_of request (codes "Host")) ++ codes "z" ∷ [])
          else values_of request j))
    × ((Values.append no_fields true (codes "Host") (codes "z" ∷ []) request).0
        ≡ some (values_or_none (values_of request (codes "Host")) ++ codes "z" ∷ []))
values_of-append_example =
    values_of-append (codes "Host") (codes "z" ∷ []) request request-IsDetached

values_of-erase_example :
    ((j : Bytes)
      → values_of (Values.erase no_fields true (codes "host") request).1 j
        ≡ (if same_name (codes "host") j then none else values_of request j))
    × ((Values.erase no_fields true (codes "host") request).0
        ≡ elim (values_of request (codes "host")) [ none ↦ 0 | some _ ↦ 1 ])
    × (length (Values.erase no_fields true (codes "host") request).1.name_values_map.value
          + (Values.erase no_fields true (codes "host") request).0
        ≡ length fields)
values_of-erase_example = values_of-erase (codes "host") request request-IsDetached

writes_uncached_example :
    (Values.append no_fields false (codes "Host") [] request ≡ (none, request))
    × (Values.set no_fields false (codes "Host") [] request ≡ (none, request))
    × (Values.erase no_fields false (codes "Host") request ≡ (0, request))
    × (add_cookie no_fields false (codes "a") (codes "1") request ≡ (false, request))
    × (set_cookie no_fields false (codes "a") (codes "1") request ≡ (false, request))
    × (delete_cookie no_fields false (codes "a") request ≡ (false, request))
writes_uncached_example =
    writes_uncached request refl (codes "Host") [] (codes "a") (codes "1") refl
