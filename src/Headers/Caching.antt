-- ===== src/Headers/Caching.antt =====
-- Request headers without a buffer, with caching off.
use atscppapi.Common.{Bytes, ◌≡◌, false, none, List, arith}
use atscppapi.Mime.{MimeApi}
use atscppapi.Headers.State.{Headers, type_request}
use atscppapi.Headers.Fields.{check_and_init_headers, init_from_handles}
use atscppapi.Headers.Values
use atscppapi.Headers.Values.{invalidate_cookies}
use atscppapi.Headers.Cookies.{add_cookie, set_cookie, delete_cookie}

module _ {ts : MimeApi} (h : Headers ts) (no_buffer : h.hdr_buf ≡ none) where
  check_uncached : check_and_init_headers ts false h ≡ (false, h)
  unfolding check_and_init_headers init_from_handles
  check_uncached = ground (arith, no_buffer)

  set_uncached : (k : Bytes) (vs : List Bytes) → Values.set ts false k vs h ≡ (none, h)
  unfolding Values.set Values.append Values.erase
  set_uncached k vs = ground (arith, check_uncached)

  add_cookie_uncached :
      (name value : Bytes) → h.type ≡ type_request → add_cookie ts false name value h ≡ (false, h)
  unfolding add_cookie
  add_cookie_uncached name value e = ground (arith, check_uncached, e)

  -- With caching off, no write to request headers without a buffer, as detached ones, does anything:
  -- `append` and `set` give `end()`, `erase` gives 0, and adding, setting and deleting a request
  -- cookie fail.
  pub writes_uncached :
      (k : Bytes) (vs : List Bytes) (name value : Bytes)
      → h.type ≡ type_request
      → (Values.append ts false k vs h ≡ (none, h))
        × (Values.set ts false k vs h ≡ (none, h))
        × (Values.erase ts false k h ≡ (0, h))
        × (add_cookie ts false name value h ≡ (false, h))
        × (set_cookie ts false name value h ≡ (false, h))
        × (delete_cookie ts false name h ≡ (false, h))
  unfolding Values.append Values.erase set_cookie delete_cookie
  writes_uncached k vs name value e = (
    ground (arith, check_uncached),
    set_uncached k vs,
    ground (arith, check_uncached),
    add_cookie_uncached name value e,
    ground (arith, check_uncached, e),
    ground (arith, check_uncached),
  )
