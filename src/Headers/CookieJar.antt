-- ===== src/Headers/CookieJar.antt =====
-- What the cookie operations mean for the cookies that a client reads and for the header that is
-- sent.
use atscppapi.StdMap.Laws.{find-equiv, IsSorted, find-erase, erase-IsSorted, equiv_refl}
use atscppapi.Common.{
  Option-cases, Bytes, ◌≡◌, refl, ap, Bool, true, Option, none, some, List, [], ◌∷◌, arith,
  if◌then◌else◌, inl, inr, subst, sym,
}
use atscppapi.StdString.{string_less}
use atscppapi.Comparator.Order.{string_less-IsStrictWeakOrder}
use atscppapi.StdMap
use atscppapi.StdMap.{equiv}
use atscppapi.StdMap.Multi.{find-append_at}
use atscppapi.Mime.{MimeApi}
use atscppapi.Headers.State.{Headers, RequestCookieMap}
use atscppapi.Headers.CookieText.{print_cookies, add_cookie_to_map}
use atscppapi.Headers.CookieText.Sorted.{parse_cookies-IsSorted}
use atscppapi.Headers.Cookies.{
  get_request_cookies, add_cookie, set_cookie, delete_cookie, parsed_cookies,
}
use atscppapi.Headers.Detached.{values_of, same_name}
use atscppapi.Headers.CookieOps.{
  IsRequest, cookie_name, loaded_cookies, with_cookies, printed, values_of-printed,
  printed-IsRequest, get_request_cookies_lem, add_cookie_lem, set_cookie_lem, delete_cookie_lem,
}

-- With caching on, `addCookie` on detached, initialized request headers, whose headers are in order,
-- succeeds and prints the `Cookie` header from the cookies that were read so far and the new one: the
-- old `Cookie` header does not count, and no other header changes.
pub values_of-add_cookie :
    {ts : MimeApi} (h : Headers ts) (name value : Bytes)
    → IsRequest h
    → ((add_cookie ts true name value h).0 ≡ true)
      × ((j : Bytes)
          → values_of (add_cookie ts true name value h).1 j ≡ (
              if same_name cookie_name j
              then some (print_cookies (add_cookie_to_map h.request_cookies.value name value) ∷ [])
              else values_of h j))
values_of-add_cookie h name value r = (
  ap (λ p. p.0) (add_cookie_lem h name value r),
  λ j. rw (add_cookie_lem h name value r) (values_of-printed h _ j r.det),
)

abbrev pub cookies_of : {ts : MimeApi} → Headers ts → RequestCookieMap
cookies_of {ts} h = (get_request_cookies ts true h).0

parsed_cookies-IsSorted :
    (found : Option (List Bytes)) (m : RequestCookieMap)
    → IsSorted string_less m
    → IsSorted string_less (parsed_cookies found m)
unfolding parsed_cookies
parsed_cookies-IsSorted none m s = s
parsed_cookies-IsSorted (some kvs) m s = parse_cookies-IsSorted kvs m s

module _ {ts : MimeApi} (h : Headers ts) (r : IsRequest h)
    (s : IsSorted string_less h.request_cookies.value) where
  loaded-IsSorted : IsSorted string_less (loaded_cookies h)
  loaded-IsSorted =
      ground (arith, parsed_cookies-IsSorted (values_of h cookie_name) h.request_cookies.value s)

  with_cookies-IsRequest : (m : RequestCookieMap) → IsRequest (with_cookies h m)
  with_cookies-IsRequest m = record {
    det = record {
      detached = r.det.detached;
      initialized = r.det.initialized;
      sorted = r.det.sorted;
    };
    request = r.request;
  }

  -- What a client reads once the cookies are loaded and printed.
  cookies_of-printed :
      (m : RequestCookieMap) → cookies_of (printed (with_cookies h (loaded_cookies h)) m) ≡ m
  cookies_of-printed m =
      ap (λ p. p.0)
        (get_request_cookies_lem _
          (printed-IsRequest _ m (with_cookies-IsRequest (loaded_cookies h))))

  cookies_of-loaded : cookies_of h ≡ loaded_cookies h
  cookies_of-loaded = ap (λ p. p.0) (get_request_cookies_lem h r)

  cookies_of-with_cookies : cookies_of (with_cookies h (loaded_cookies h)) ≡ loaded_cookies h
  cookies_of-with_cookies =
      ap (λ p. p.0) (get_request_cookies_lem _ (with_cookies-IsRequest (loaded_cookies h)))

  module _ (name value : Bytes) where
    replaced : RequestCookieMap
    unfolding add_cookie_to_map
    replaced = add_cookie_to_map (StdMap.erase string_less name (loaded_cookies h)) name value

    find-replaced :
        (j : Bytes)
        → StdMap.find string_less j replaced ≡ (
            if equiv string_less name j
            then some (value ∷ [])
            else StdMap.find string_less j (loaded_cookies h))
    unfolding replaced
    find-replaced j =
        let o = string_less-IsStrictWeakOrder in
        let sorted = loaded-IsSorted in
        ground (
          arith,
          find-append_at string_less o name (value ∷ [])
              (StdMap.erase string_less name (loaded_cookies h))
              (erase-IsSorted string_less o name (loaded_cookies h) sorted) j,
          find-erase string_less o name j (loaded_cookies h) sorted,
          find-erase string_less o name name (loaded_cookies h) sorted,
          equiv_refl string_less o name,
        )

    -- With caching on, `setCookie` on detached, initialized request headers, whose headers and cookies
    -- are in order, succeeds: the named cookie has the one value, every other cookie is as it was,
    -- the `Cookie` header is printed from all of them, and no other header changes.
    pub cookies_of-set_cookie :
        ((set_cookie ts true name value h).0 ≡ true)
        × ((j : Bytes)
            → StdMap.find string_less j (cookies_of (set_cookie ts true name value h).1) ≡ (
                if equiv string_less name j
                then some (value ∷ [])
                else StdMap.find string_less j (cookies_of h)))
        × ((j : Bytes)
            → values_of (set_cookie ts true name value h).1 j ≡ (
                if same_name cookie_name j
                then some (print_cookies (cookies_of (set_cookie ts true name value h).1) ∷ [])
                else values_of h j))
    unfolding replaced
    cookies_of-set_cookie = (
      ap (λ p. p.0) (set_cookie_lem h name value r),
      λ j.
          rw (set_cookie_lem h name value r, cookies_of-printed replaced)
            (cc (find-replaced j, cookies_of-loaded)),
      λ j.
          rw (set_cookie_lem h name value r, cookies_of-printed replaced)
            (values_of-printed _ replaced j r.det),
    )

  module _ (name : Bytes) where
    remaining : RequestCookieMap
    remaining = StdMap.erase string_less name (loaded_cookies h)

    find-remaining :
        (j : Bytes)
        → StdMap.find string_less j remaining
          ≡ (if equiv string_less name j then none else StdMap.find string_less j (cookies_of h))
    unfolding remaining
    find-remaining j = cc (
      find-erase string_less string_less-IsStrictWeakOrder name j (loaded_cookies h)
          loaded-IsSorted,
      cookies_of-loaded,
    )

    delete_there :
        (vs : List Bytes)
        → StdMap.find string_less name (cookies_of h) ≡ some vs
        → delete_cookie ts true name h
          ≡ (true, printed (with_cookies h (loaded_cookies h)) remaining)
    unfolding remaining
    delete_there vs e = ground (arith, delete_cookie_lem h name r, cookies_of-loaded)

    delete_missing :
        StdMap.find string_less name (cookies_of h) ≡ none
        → delete_cookie ts true name h ≡ (true, with_cookies h (loaded_cookies h))
    delete_missing e = ground (arith, delete_cookie_lem h name r, cookies_of-loaded)

    find-missing :
        (j : Bytes)
        → StdMap.find string_less name (cookies_of h) ≡ none
        → StdMap.find string_less j (cookies_of h)
          ≡ (if equiv string_less name j then none else StdMap.find string_less j (cookies_of h))
    find-missing j e =
        ground (arith, find-equiv string_less string_less-IsStrictWeakOrder name j (cookies_of h))

    -- The cookie is gone and the others are not; the header is printed anew if it was there.
    abbrev pub IsDeleted : Bool × Headers ts → Type 0
    IsDeleted (ok, h') =
        (ok ≡ true)
        × ((j : Bytes)
            → StdMap.find string_less j (cookies_of h') ≡ (
                if equiv string_less name j
                then none
                else StdMap.find string_less j (cookies_of h)))
        × ((j : Bytes)
            → values_of h' j ≡ elim (StdMap.find string_less name (cookies_of h)) [
              | none ↦ values_of h j
              | some _ ↦
                  if same_name cookie_name j
                  then some (print_cookies (cookies_of h') ∷ [])
                  else values_of h j
            ])

    -- With caching on, `deleteCookie` on detached, initialized request headers, whose headers and
    -- cookies are in order, succeeds: the named cookie is gone and every other cookie is as it was;
    -- if it was there, the `Cookie` header is printed from those that are left, and else it stays,
    -- as all other headers do.
    pub cookies_of-delete_cookie : IsDeleted (delete_cookie ts true name h)
    cookies_of-delete_cookie = elim (Option-cases (StdMap.find string_less name (cookies_of h))) [
      | inl missing ↦ subst IsDeleted (sym (delete_missing missing)) (
          rw missing (
            refl,
            λ j. cc (find-missing j missing, cookies_of-with_cookies, cookies_of-loaded),
            λ j. refl,
          ))
      | inr (vs, there) ↦ subst IsDeleted (sym (delete_there vs there)) (
          rw (there, cookies_of-printed remaining)
            (refl, find-remaining, λ j. values_of-printed _ remaining j r.det))
    ]
