-- ===== src/ClientRequest/Pristine.antt =====
-- The handles of the pristine URL.
use atscppapi.Common.{
  sym, subst, ap, ◌∙◌, ℕ, Option, none, some, List, [], ◌∷◌, ◌≡◌, refl, arith, Option-cases, inl,
  inr,
}
use atscppapi.Mime.{MimeApi}
use atscppapi.Url
use atscppapi.Url.{UrlApi, both}
use atscppapi.Request.{RequestApi}
use atscppapi.ClientRequest.{ClientRequest, new, get_pristine_url, fetch_pristine_url, released}

module _ {mime : MimeApi} {urls : UrlApi} where
  -- Calls of the getter, with what Traffic Server would give each time.
  unfoldable pub gets :
      List (Option urls.MBuffer × Option urls.MLoc)
      → ClientRequest mime urls
      → ClientRequest mime urls
  unfolding get_pristine_url
  gets [] s = s
  gets (fetched ∷ fs) s = gets fs (get_pristine_url fetched s).1

  record IsPristine (s : ClientRequest mime urls) : Type 0 where
    kept : both s.pristine_url.hdr_buf s.pristine_url.url_loc ≡ released s

  fetch-IsPristine :
      (f : Option urls.MBuffer × Option urls.MLoc) (s : ClientRequest mime urls)
      → s.pristine_url_loc ≡ none
      → IsPristine s
      → IsPristine (fetch_pristine_url f s)
  unfolding fetch_pristine_url released Url.init
  fetch-IsPristine (some buf, some loc) s e v = record { kept = refl }
  fetch-IsPristine (none, none) s e v = let k = v.kept in record { kept = ground arith }
  fetch-IsPristine (none, some loc) s e v = let k = v.kept in record { kept = ground arith }
  fetch-IsPristine (some buf, none) s e v = let k = v.kept in record { kept = ground arith }

  get_missing :
      (f : Option urls.MBuffer × Option urls.MLoc) (s : ClientRequest mime urls)
      → s.pristine_url_loc ≡ none
      → (get_pristine_url f s).1 ≡ fetch_pristine_url f s
  unfolding get_pristine_url
  get_missing f s e = ground arith

  get_there :
      (f : Option urls.MBuffer × Option urls.MLoc) (s : ClientRequest mime urls) (loc : urls.MLoc)
      → s.pristine_url_loc ≡ some loc
      → (get_pristine_url f s).1 ≡ s
  unfolding get_pristine_url
  get_there f s loc e = ground arith

  get-IsPristine :
      (f : Option urls.MBuffer × Option urls.MLoc) (s : ClientRequest mime urls)
      → IsPristine s
      → IsPristine (get_pristine_url f s).1
  get-IsPristine f s v = elim (Option-cases s.pristine_url_loc) [
    | inl missing ↦
        subst IsPristine (sym (get_missing f s missing)) (fetch-IsPristine f s missing v)
    | inr (loc, there) ↦ subst IsPristine (sym (get_there f s loc there)) v
  ]

  gets-IsPristine :
      (fs : List (Option urls.MBuffer × Option urls.MLoc)) (s : ClientRequest mime urls)
      → IsPristine s
      → IsPristine (gets fs s)
  unfolding gets
  gets-IsPristine [] s v = v
  gets-IsPristine (f ∷ fs) s v = gets-IsPristine fs _ (get-IsPristine f s v)

  gets-some :
      (fs : List (Option urls.MBuffer × Option urls.MLoc)) (s : ClientRequest mime urls)
      (loc : urls.MLoc)
      → s.pristine_url_loc ≡ some loc
      → gets fs s ≡ s
  unfolding gets
  gets-some [] s loc e = refl
  gets-some (f ∷ fs) s loc e = ap (gets fs) (get_there f s loc e) ∙ gets-some fs s loc e

  new-IsPristine :
      (ts : RequestApi mime urls) (txn : ℕ) (hdr_buf : Option mime.MBuffer)
      (hdr_loc : Option mime.MLoc) (w : mime.World) (parts : urls.World)
      → IsPristine (new ts txn hdr_buf hdr_loc w parts)
  unfolding new released Url.new
  new-IsPristine ts txn hdr_buf hdr_loc w parts = record { kept = refl }

  first_loc :
      (ts : RequestApi mime urls) (txn : ℕ) (hdr_buf : Option mime.MBuffer)
      (hdr_loc : Option mime.MLoc) (w : mime.World) (parts : urls.World) (buf : Option urls.MBuffer)
      (loc : urls.MLoc)
      → (get_pristine_url (buf, some loc) (new ts txn hdr_buf hdr_loc w parts)).1.pristine_url_loc
        ≡ some loc
  unfolding new get_pristine_url fetch_pristine_url
  first_loc ts txn hdr_buf hdr_loc w parts none loc = refl
  first_loc ts txn hdr_buf hdr_loc w parts (some b) loc = refl

  -- Whatever the getter is given, the location that the destructor releases, if any, is the one that
  -- the pristine URL reads from, in the same buffer, and once a location was given nothing changes.
  pub released-gets :
      (ts : RequestApi mime urls) (txn : ℕ) (hdr_buf : Option mime.MBuffer)
      (hdr_loc : Option mime.MLoc) (w : mime.World) (parts : urls.World)
      (fs : List (Option urls.MBuffer × Option urls.MLoc)) (buf : Option urls.MBuffer)
      (loc : urls.MLoc)
      → let s = new ts txn hdr_buf hdr_loc w parts in
        let first = (get_pristine_url (buf, some loc) s).1 in
        (both (gets fs s).pristine_url.hdr_buf (gets fs s).pristine_url.url_loc
          ≡ released (gets fs s))
        × (gets fs first ≡ first)
  released-gets ts txn hdr_buf hdr_loc w parts fs buf loc = (
    (gets-IsPristine fs _ (new-IsPristine ts txn hdr_buf hdr_loc w parts)).kept,
    gets-some fs _ loc (first_loc ts txn hdr_buf hdr_loc w parts buf loc),
  )
