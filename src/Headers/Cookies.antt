-- ===== src/Headers/Cookies.antt =====
-- The cookie operations of `Headers`.
use atscppapi.Common.{
  Option, Bytes, codes, Bool, true, false, none, some, List, [], ◌∷◌, if◌then◌else◌,
}
use atscppapi.StdString.{string_less}
use atscppapi.StdMap.{find, erase}
use atscppapi.InitializableValue.{is_initialized, set_initialized, set_ref}
use atscppapi.Mime.{MimeApi}
use atscppapi.Headers.State.{
  Headers, HeadersType, type_request, type_response, RequestCookieMap, ResponseCookie,
}
use atscppapi.Headers.Fields.{check_and_init_headers, do_basic_erase, do_basic_append}
use atscppapi.Headers.Values
use atscppapi.Headers.CookieText.{parse_cookies, print_cookies, add_cookie_to_map}

-- The cookies of the header that `find` gives, added to the map.
unfoldable pub parsed_cookies : Option (List Bytes) → RequestCookieMap → RequestCookieMap
unfolding parse_cookies
parsed_cookies none m = m
parsed_cookies (some cookie_kvs) m = parse_cookies cookie_kvs m

module _ (ts : MimeApi) (caching : Bool) where
  -- getRequestCookies, from where it marks the map as filled in.
  unfoldable pub read_request_cookies : Headers ts → Headers ts
  unfolding Values.find parsed_cookies
  read_request_cookies h =
      let marked = record h { request_cookies = set_initialized h.request_cookies true } in
      let (found, h') = Values.find ts caching (codes "Cookie") marked in
      let cookies = h'.request_cookies in
      record h' { request_cookies = set_ref cookies (parsed_cookies found cookies.value) }

  unfoldable pub load_request_cookies : HeadersType → Headers ts → Headers ts
  unfolding check_and_init_headers read_request_cookies
  load_request_cookies type_response h = h
  load_request_cookies type_request h =
      if is_initialized caching h.request_cookies
      then h
      else let (ready, h') = check_and_init_headers ts caching h in
        if ready then read_request_cookies h' else h'

  unfoldable pub get_request_cookies : Headers ts → RequestCookieMap × Headers ts
  unfolding load_request_cookies
  get_request_cookies h = let h' = load_request_cookies h.type h in (h'.request_cookies.value, h')

  unfoldable pub get_response_cookies : Headers ts → List ResponseCookie × Headers ts
  unfolding check_and_init_headers
  get_response_cookies h =
      let marked = λ (h' : Headers ts). record h' {
        response_cookies = set_initialized h'.response_cookies true;
      } in
      elim h.type [
        | type_request ↦ (h.response_cookies.value, h)
        | type_response ↦
            if is_initialized caching h.response_cookies
            then (h.response_cookies.value, h)
            else let (ready, h') = check_and_init_headers ts caching h in
              (h'.response_cookies.value, if ready then marked h' else h')
      ]

module _ (ts : MimeApi) where
  unfoldable pub update_request_cookie_header_from_map : Headers ts → Headers ts
  unfolding do_basic_erase do_basic_append print_cookies
  update_request_cookie_header_from_map h =
      let cookie_header = print_cookies h.request_cookies.value in
      do_basic_append ts (codes "Cookie") (cookie_header ∷ [])
        (do_basic_erase ts (codes "Cookie") h).1

module _ (ts : MimeApi) (caching : Bool) where
  -- addCookie(const string &, const string &)
  unfoldable pub add_cookie : Bytes → Bytes → Headers ts → Bool × Headers ts
  unfolding check_and_init_headers update_request_cookie_header_from_map add_cookie_to_map
  add_cookie name value h = elim h.type [
    | type_response ↦ (false, h)
    | type_request ↦
        let (ready, h') = check_and_init_headers ts caching h in
        let cookies = h'.request_cookies in
        let added = record h' {
          request_cookies = set_ref cookies (add_cookie_to_map cookies.value name value);
        } in
        if ready then (true, update_request_cookie_header_from_map ts added) else (false, h')
  ]

  -- setCookie(const string &, const string &)
  unfoldable pub set_cookie : Bytes → Bytes → Headers ts → Bool × Headers ts
  unfolding add_cookie get_request_cookies
  set_cookie name value h = elim h.type [
    | type_response ↦ (false, h)
    | type_request ↦
        let (ready, h') = check_and_init_headers ts caching h in
        let (_, loaded) = get_request_cookies ts caching h' in
        let cookies = loaded.request_cookies in
        let erased = record loaded {
          request_cookies = set_ref cookies (erase string_less name cookies.value);
        } in
        if ready then add_cookie name value erased else (false, h')
  ]

  unfoldable pub delete_request_cookie : Bytes → Headers ts → Headers ts
  unfolding get_request_cookies update_request_cookie_header_from_map
  delete_request_cookie name h =
      let (_, loaded) = get_request_cookies ts caching h in
      let cookies = loaded.request_cookies in
      elim (find string_less name cookies.value) [
        | none ↦ loaded
        | some _ ↦ update_request_cookie_header_from_map ts (record loaded {
          request_cookies = set_ref cookies (erase string_less name cookies.value);
        })
      ]

  unfoldable pub delete_cookie : Bytes → Headers ts → Bool × Headers ts
  unfolding check_and_init_headers delete_request_cookie get_response_cookies
  delete_cookie name h =
      let (ready, h') = check_and_init_headers ts caching h in
      if ready
      then elim h'.type [
        | type_request ↦ (true, delete_request_cookie name h')
        | type_response ↦ (true, (get_response_cookies ts caching h').1)
      ]
      else (false, h')

  -- addCookie(const ResponseCookie &), which goes on after a failed initialization.
  unfoldable pub add_response_cookie : ResponseCookie → Headers ts → Bool × Headers ts
  unfolding check_and_init_headers
  add_response_cookie cookie h = elim h.type [
    | type_request ↦ (false, h)
    | type_response ↦ (true, (check_and_init_headers ts caching h).1)
  ]

  -- setCookie(const ResponseCookie &)
  unfoldable pub set_response_cookie : ResponseCookie → Headers ts → Bool × Headers ts
  unfolding check_and_init_headers
  set_response_cookie cookie h = elim h.type [
    | type_request ↦ (false, h)
    | type_response ↦ let (ready, h') = check_and_init_headers ts caching h in (ready, h')
  ]
