-- ===== src/Response/Line.antt =====
-- What the getters read back.
use atscppapi.Common.{ℕ, Bytes, Bool, true, false, some, ◌∷◌, ◌≡◌, arith}
use atscppapi.Mime.{MimeApi}
use atscppapi.Response.{
  ResponseApi, Response, set_status_code, get_status_code, set_reason_phrase, get_reason_phrase,
  read_phrase, assign_phrase,
}

-- Documented behaviour of Traffic Server: the header holds the status and the phrase that were set.
pub record KeepsLine {mime : MimeApi} (ts : ResponseApi mime) : Type 0 where
  pub status_get-set :
      (w : mime.World) (buf : mime.MBuffer) (loc : mime.MLoc) (c : ℕ)
      → ts.status_get (ts.status_set w buf loc c) buf loc ≡ c
  pub reason_get-set :
      (w : mime.World) (buf : mime.MBuffer) (loc : mime.MLoc) (p : Bytes)
      → ts.reason_get (ts.reason_set w buf loc p) buf loc ≡ some p

module _ {mime : MimeApi} (ts : ResponseApi mime) (k : KeepsLine ts) (s : Response mime)
    (buf : mime.MBuffer) (loc : mime.MLoc) where
  status_read :
      (caching : Bool) (code : ℕ)
      → s.hdr_buf ≡ some buf
      → s.hdr_loc ≡ some loc
      → (get_status_code ts caching (set_status_code ts code s)).0 ≡ code
  unfolding set_status_code get_status_code
  status_read true code b l = ground (arith, k.status_get-set s.headers.world buf loc code)
  status_read false code b l = ground (arith, k.status_get-set s.headers.world buf loc code)

  phrase_read :
      (caching : Bool) (c : ℕ) (p : Bytes)
      → s.hdr_buf ≡ some buf
      → s.hdr_loc ≡ some loc
      → (get_reason_phrase ts caching (set_reason_phrase ts (c ∷ p) s)).0 ≡ c ∷ p
  unfolding set_reason_phrase get_reason_phrase read_phrase assign_phrase
  phrase_read true c p b l = ground (arith, k.reason_get-set s.headers.world buf loc (c ∷ p))
  phrase_read false c p b l = ground (arith, k.reason_get-set s.headers.world buf loc (c ∷ p))

-- With or without caching, and whatever was cached before, the status that was set on a response with
-- handles is the one read, and so is a phrase that is not empty.
get-set_line :
    {mime : MimeApi} (ts : ResponseApi mime) (k : KeepsLine ts) (s : Response mime)
    (buf : mime.MBuffer) (loc : mime.MLoc) (caching : Bool) (code c : ℕ) (phrase : Bytes)
    → s.hdr_buf ≡ some buf
    → s.hdr_loc ≡ some loc
    → ((get_status_code ts caching (set_status_code ts code s)).0 ≡ code)
      × ((get_reason_phrase ts caching (set_reason_phrase ts (c ∷ phrase) s)).0 ≡ c ∷ phrase)
get-set_line ts k s buf loc caching code c phrase b l =
    (status_read ts k s buf loc caching code b l, phrase_read ts k s buf loc caching c phrase b l)
