-- ===== src/Headers/CookieOps.antt =====
-- The cookie operations on a detached request header with caching on.
use atscppapi.Headers.Cookies.{
  delete_request_cookie, set_cookie, delete_cookie, add_cookie, parsed_cookies,
  read_request_cookies, load_request_cookies, get_request_cookies,
  update_request_cookie_header_from_map,
}
use atscppapi.StdMap.Multi.{find-append_at, append_at-IsSorted, append_at}
use atscppapi.Headers.CookieText.{add_cookie_to_map, print_cookies}
use atscppapi.Common.{
  none, some, ◌∙◌, Bytes, codes, ◌≡◌, ap, true, [], ◌∷◌, arith, if◌then◌else◌, Bool-cases, inl, inr,
}
use atscppapi.Headers.Detached.{same_name, check_initialized, IsDetached, values_of, check_detached}
use atscppapi.Comparator.{name_less}
use atscppapi.Comparator.Order.{name_less-IsStrictWeakOrder}
use atscppapi.StdMap.Laws.{find-erase, erase-IsSorted, equiv_refl}
use atscppapi.StdString.{string_less}
use atscppapi.StdMap
use atscppapi.StdMap.{equiv}
use atscppapi.Mime.{MimeApi}
use atscppapi.Headers.State.{Headers, type_request, RequestCookieMap}
use atscppapi.Headers.Fields.{do_basic_erase, do_basic_append}
use atscppapi.Headers.Values

abbrev pub cookie_name : Bytes
cookie_name = codes "Cookie"

module _ {ts : MimeApi} where
  pub record IsRequest (h : Headers ts) : Type 0 where
    pub det : IsDetached h
    pub request : h.type ≡ type_request

  -- What the cookie map is once it is filled in.
  abbrev pub loaded_cookies : Headers ts → RequestCookieMap
  loaded_cookies h =
      if h.request_cookies.initialized
      then h.request_cookies.value
      else parsed_cookies (values_of h cookie_name) h.request_cookies.value

  abbrev pub with_cookies : Headers ts → RequestCookieMap → Headers ts
  with_cookies h m = record h { request_cookies = record { value = m; initialized = true } }

  read_lem :
      (h : Headers ts)
      → IsDetached h
      → read_request_cookies ts true h
        ≡ with_cookies h (parsed_cookies (values_of h cookie_name) h.request_cookies.value)
  unfolding read_request_cookies Values.find
  read_lem h d = rw (
      check_initialized
        (record h { request_cookies = record h.request_cookies { initialized = true } })
        d.initialized)

  load_request :
      (h : Headers ts)
      → IsDetached h
      → load_request_cookies ts true type_request h ≡ with_cookies h (loaded_cookies h)
  unfolding load_request_cookies
  load_request h d = elim (Bool-cases h.request_cookies.initialized) [
    | inl old ↦ ground (arith, old)
    | inr new ↦ ground (arith, new, check_detached h d, read_lem h d)
  ]

  load_lem :
      (h : Headers ts)
      → IsRequest h
      → load_request_cookies ts true h.type h ≡ with_cookies h (loaded_cookies h)
  load_lem h r = ap (λ t. load_request_cookies ts true t h) r.request ∙ load_request h r.det

  -- Reading the cookies parses the header once: the map is then kept, and nothing else changes.
  pub get_request_cookies_lem :
      (h : Headers ts)
      → IsRequest h
      → get_request_cookies ts true h ≡ (loaded_cookies h, with_cookies h (loaded_cookies h))
  unfolding get_request_cookies
  get_request_cookies_lem h r = rw (load_lem h r)

  updated :
      (h : Headers ts)
      → h.detached ≡ true
      → update_request_cookie_header_from_map ts h ≡ record h {
        name_values_map = record h.name_values_map {
          value =
              append_at name_less cookie_name
                (print_cookies h.request_cookies.value ∷ [])
                (StdMap.erase name_less cookie_name h.name_values_map.value);
        };
      }
  unfolding update_request_cookie_header_from_map do_basic_erase do_basic_append
  updated h d = ground (arith, d)

  -- The object with this cookie map, and the `Cookie` header printed from it.
  abbrev pub printed : Headers ts → RequestCookieMap → Headers ts
  printed h m = record h {
    request_cookies = record h.request_cookies { value = m };
    name_values_map = record h.name_values_map {
      value =
          append_at name_less cookie_name (print_cookies m ∷ [])
            (StdMap.erase name_less cookie_name h.name_values_map.value);
    };
  }

  pub values_of-printed :
      (h : Headers ts) (m : RequestCookieMap) (j : Bytes)
      → IsDetached h
      → values_of (printed h m) j
        ≡ (if same_name cookie_name j then some (print_cookies m ∷ []) else values_of h j)
  values_of-printed h m j d =
      let o = name_less-IsStrictWeakOrder in
      let s = d.sorted in
      ground (
        arith,
        find-append_at name_less o cookie_name (print_cookies m ∷ [])
            (StdMap.erase name_less cookie_name h.name_values_map.value)
            (erase-IsSorted name_less o cookie_name h.name_values_map.value s) j,
        find-erase name_less o cookie_name j h.name_values_map.value s,
        find-erase name_less o cookie_name cookie_name h.name_values_map.value s,
        equiv_refl name_less o cookie_name,
      )

  pub printed-IsRequest :
      (h : Headers ts) (m : RequestCookieMap) → IsRequest h → IsRequest (printed h m)
  printed-IsRequest h m r =
      let o = name_less-IsStrictWeakOrder in
      record {
        det = record {
          detached = r.det.detached;
          initialized = r.det.initialized;
          sorted =
              append_at-IsSorted name_less o cookie_name (print_cookies m ∷ []) _
                (erase-IsSorted name_less o cookie_name h.name_values_map.value r.det.sorted);
        };
        request = r.request;
      }

  pub add_cookie_lem :
      (h : Headers ts) (name value : Bytes)
      → IsRequest h
      → add_cookie ts true name value h
        ≡ (true, printed h (add_cookie_to_map h.request_cookies.value name value))
  unfolding add_cookie
  add_cookie_lem h name value r = ground (
    arith,
    r.request,
    check_detached h r.det,
    updated
        (record h {
          request_cookies = record h.request_cookies {
            value = add_cookie_to_map h.request_cookies.value name value;
          };
        })
        r.det.detached,
  )

  -- Setting a cookie: the cookies of the header are read, the named one is replaced by the one
  -- value, and the header is printed from the result.
  pub set_cookie_lem :
      (h : Headers ts) (name value : Bytes)
      → IsRequest h
      → set_cookie ts true name value h ≡ (
        true,
        printed
            (with_cookies h (loaded_cookies h))
            (add_cookie_to_map (StdMap.erase string_less name (loaded_cookies h)) name value),
      )
  unfolding set_cookie
  set_cookie_lem h name value r =
      let loaded = with_cookies h (loaded_cookies h) in
      let erased = record loaded {
        request_cookies = record loaded.request_cookies {
          value = StdMap.erase string_less name (loaded_cookies h);
        };
      } in
      ground (
        arith,
        r.request,
        check_detached h r.det,
        get_request_cookies_lem h r,
        add_cookie_lem erased name value (record {
          det = record {
            detached = r.det.detached;
            initialized = r.det.initialized;
            sorted = r.det.sorted;
          };
          request = r.request;
        }),
      )

  -- Deleting a cookie that is there: the others are printed.
  pub delete_cookie_lem :
      (h : Headers ts) (name : Bytes)
      → IsRequest h
      → delete_cookie ts true name h ≡ (
        true,
        elim (StdMap.find string_less name (loaded_cookies h)) [
          | none ↦ with_cookies h (loaded_cookies h)
          | some _ ↦
              printed
                (with_cookies h (loaded_cookies h))
                (StdMap.erase string_less name (loaded_cookies h))
        ],
      )
  unfolding delete_cookie delete_request_cookie
  delete_cookie_lem h name r =
      let loaded = with_cookies h (loaded_cookies h) in
      ground (
        arith,
        r.request,
        check_detached h r.det,
        get_request_cookies_lem h r,
        updated
            (record loaded {
              request_cookies = record loaded.request_cookies {
                value = StdMap.erase string_less name (loaded_cookies h);
              };
            })
            r.det.detached,
      )
