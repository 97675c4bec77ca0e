-- ===== src/Url/Cache.antt =====
-- The cache in front of the URL.
use atscppapi.Url.{
  set_scheme, set_port, set_host, set_query, reset, get_url_string, get_scheme, get_query, get_port,
  get_host, InitializableValue, UrlApi, Url, fill, get_path, set_path,
}
use atscppapi.Common.{false, ℕ, Bytes, ◌≡◌, refl, Bool, true, Option, none, some, [], ◌∷◌, arith}

abbrev pub text_of : Option Bytes → Bytes
text_of none = []
text_of (some s) = s

-- Documented behaviour of Traffic Server: a part that was set is the part that is read.
pub record ReadsWhatWasSet (ts : UrlApi) : Type 0 where
  pub path_set_lem :
      (w : ts.World) (b : ts.MBuffer) (l : ts.MLoc) (s : Bytes)
      → (ts.path_set w b l s).0 ≡ true
      → text_of (ts.path_get (ts.path_set w b l s).1 b l) ≡ s
  pub query_set_lem :
      (w : ts.World) (b : ts.MBuffer) (l : ts.MLoc) (s : Bytes)
      → (ts.query_set w b l s).0 ≡ true
      → text_of (ts.query_get (ts.query_set w b l s).1 b l) ≡ s
  pub scheme_set_lem :
      (w : ts.World) (b : ts.MBuffer) (l : ts.MLoc) (s : Bytes)
      → (ts.scheme_set w b l s).0 ≡ true
      → text_of (ts.scheme_get (ts.scheme_set w b l s).1 b l) ≡ s
  pub host_set_lem :
      (w : ts.World) (b : ts.MBuffer) (l : ts.MLoc) (s : Bytes)
      → (ts.host_set w b l s).0 ≡ true
      → text_of (ts.host_get (ts.host_set w b l s).1 b l) ≡ s
  pub port_set_lem :
      (w : ts.World) (b : ts.MBuffer) (l : ts.MLoc) (n : ℕ)
      → (ts.port_set w b l n).0 ≡ true
      → ts.port_get (ts.port_set w b l n).1 b l ≡ n

fill_text :
    (o : Option Bytes) (v : InitializableValue Bytes)
    → text_of o ≡ v.value
    → (fill o v).value ≡ v.value
unfolding fill
fill_text none v h = refl
fill_text (some []) v h = refl
fill_text (some (c ∷ s)) v h = h

-- A part of a URL, with a value for it.
pub data Part : Type 0 where
  path query scheme host : Bytes → Part
  port : ℕ → Part

module _ {ts : UrlApi} (laws : ReadsWhatWasSet ts) (caching : Bool) (u : Url ts) (b : ts.MBuffer)
    (l : ts.MLoc) (has_buf : u.hdr_buf ≡ some b) (has_loc : u.url_loc ≡ some l) where
  path_read :
      (s : Bytes)
      → (ts.path_set u.world b l s).0 ≡ true
      → (get_path ts caching (set_path ts s u)).0 ≡ s
  unfolding get_path set_path
  path_read s ok = ground (
    arith,
    has_buf,
    has_loc,
    ok,
    fill_text (ts.path_get (ts.path_set u.world b l s).1 b l)
        (record { value = s; initialized = true }),
    laws.path_set_lem u.world b l s,
  )

  query_read :
      (s : Bytes)
      → (ts.query_set u.world b l s).0 ≡ true
      → (get_query ts caching (set_query ts s u)).0 ≡ s
  unfolding get_query set_query
  query_read s ok = ground (
    arith,
    has_buf,
    has_loc,
    ok,
    fill_text (ts.query_get (ts.query_set u.world b l s).1 b l)
        (record { value = s; initialized = true }),
    laws.query_set_lem u.world b l s,
  )

  scheme_read :
      (s : Bytes)
      → (ts.scheme_set u.world b l s).0 ≡ true
      → (get_scheme ts caching (set_scheme ts s u)).0 ≡ s
  unfolding get_scheme set_scheme
  scheme_read s ok = ground (
    arith,
    has_buf,
    has_loc,
    ok,
    fill_text (ts.scheme_get (ts.scheme_set u.world b l s).1 b l)
        (record { value = s; initialized = true }),
    laws.scheme_set_lem u.world b l s,
  )

  host_read :
      (s : Bytes)
      → (ts.host_set u.world b l s).0 ≡ true
      → (get_host ts caching (set_host ts s u)).0 ≡ s
  unfolding get_host set_host
  host_read s ok = ground (
    arith,
    has_buf,
    has_loc,
    ok,
    fill_text (ts.host_get (ts.host_set u.world b l s).1 b l)
        (record { value = s; initialized = true }),
    laws.host_set_lem u.world b l s,
  )

  port_read :
      (n : ℕ) → (ts.port_set u.world b l n).0 ≡ true → (get_port ts caching (set_port ts n u)).0 ≡ n
  unfolding get_port set_port
  port_read n ok = ground (arith, has_buf, has_loc, ok, laws.port_set_lem u.world b l n)

  -- Traffic Server took the part.
  abbrev pub Takes : Part → Type 0
  Takes (path s) = (ts.path_set u.world b l s).0 ≡ true
  Takes (query s) = (ts.query_set u.world b l s).0 ≡ true
  Takes (scheme s) = (ts.scheme_set u.world b l s).0 ≡ true
  Takes (host s) = (ts.host_set u.world b l s).0 ≡ true
  Takes (port n) = (ts.port_set u.world b l n).0 ≡ true

  -- The getter after the setter gives the part.
  abbrev pub ReadBack : Part → Type 0
  ReadBack (path s) = (get_path ts caching (set_path ts s u)).0 ≡ s
  ReadBack (query s) = (get_query ts caching (set_query ts s u)).0 ≡ s
  ReadBack (scheme s) = (get_scheme ts caching (set_scheme ts s u)).0 ≡ s
  ReadBack (host s) = (get_host ts caching (set_host ts s u)).0 ≡ s
  ReadBack (port n) = (get_port ts caching (set_port ts n u)).0 ≡ n

  -- When a setter is called on an attached URL, and Traffic Server takes the new part and reads what
  -- was set, the getter of this part then gives it, with caching on and off.
  pub parts_read : (p : Part) → Takes p → ReadBack p
  parts_read (path s) taken = path_read s taken
  parts_read (query s) taken = query_read s taken
  parts_read (scheme s) taken = scheme_read s taken
  parts_read (host s) taken = host_read s taken
  parts_read (port n) taken = port_read n taken

-- What a getter leaves when Traffic Server has this text: an empty one does not count.
abbrev pub text_or : Bytes → Bytes → Bytes
text_or [] old = old
text_or (c ∷ s) old = c ∷ s

fill-text_or :
    (o : Option Bytes) (v : InitializableValue Bytes)
    → (fill o v).value ≡ text_or (text_of o) v.value
unfolding fill
fill-text_or none v = refl
fill-text_or (some []) v = refl
fill-text_or (some (c ∷ s)) v = refl

module _ {ts : UrlApi} (caching : Bool) (u : Url ts) (b : ts.MBuffer) (l : ts.MLoc)
    (has_buf : u.hdr_buf ≡ some b) (has_loc : u.url_loc ≡ some l) where
  -- After a reset a getter asks Traffic Server again; if that has no such part, or an empty one,
  -- the getter still returns the text from before the reset.
  pub parts-reset :
      ((get_path ts caching (reset u)).0 ≡ text_or (text_of (ts.path_get u.world b l)) u.path.value)
      × ((get_query ts caching (reset u)).0
          ≡ text_or (text_of (ts.query_get u.world b l)) u.query.value)
      × ((get_scheme ts caching (reset u)).0
          ≡ text_or (text_of (ts.scheme_get u.world b l)) u.scheme.value)
      × ((get_host ts caching (reset u)).0
          ≡ text_or (text_of (ts.host_get u.world b l)) u.host.value)
      × ((get_port ts caching (reset u)).0 ≡ ts.port_get u.world b l)
  unfolding reset get_path get_query get_scheme get_host get_port
  parts-reset = (
    ground (
      arith,
      has_buf,
      has_loc,
      fill-text_or (ts.path_get u.world b l) (record { value = u.path.value; initialized = false }),
    ),
    ground (
      arith,
      has_buf,
      has_loc,
      fill-text_or (ts.query_get u.world b l)
          (record { value = u.query.value; initialized = false }),
    ),
    ground (
      arith,
      has_buf,
      has_loc,
      fill-text_or (ts.scheme_get u.world b l)
          (record { value = u.scheme.value; initialized = false }),
    ),
    ground (
      arith,
      has_buf,
      has_loc,
      fill-text_or (ts.host_get u.world b l) (record { value = u.host.value; initialized = false }),
    ),
    ground (arith, has_buf, has_loc),
  )

  string_after :
      (w : ts.World)
      → (get_url_string ts caching (record u {
        world = w;
        url_string = record { value = u.url_string.value; initialized = false };
      })).0
        ≡ text_or (text_of (ts.string_get w b l)) u.url_string.value
  unfolding get_url_string
  string_after w = ground (
    arith,
    has_buf,
    has_loc,
    fill-text_or (ts.string_get w b l) (record { value = u.url_string.value; initialized = false }),
  )

  -- After any setter, whether Traffic Server took the value or not, the string of the whole URL is
  -- asked for anew.
  url_string-set :
      (s : Bytes) (n : ℕ)
      → ((get_url_string ts caching (set_path ts s u)).0
          ≡ text_or (text_of (ts.string_get (ts.path_set u.world b l s).1 b l)) u.url_string.value)
        × ((get_url_string ts caching (set_query ts s u)).0
            ≡ text_or
                (text_of (ts.string_get (ts.query_set u.world b l s).1 b l))
                u.url_string.value)
        × ((get_url_string ts caching (set_scheme ts s u)).0
            ≡ text_or
                (text_of (ts.string_get (ts.scheme_set u.world b l s).1 b l))
                u.url_string.value)
        × ((get_url_string ts caching (set_host ts s u)).0
            ≡ text_or
                (text_of (ts.string_get (ts.host_set u.world b l s).1 b l))
                u.url_string.value)
        × ((get_url_string ts caching (set_port ts n u)).0
            ≡ text_or
                (text_of (ts.string_get (ts.port_set u.world b l n).1 b l))
                u.url_string.value)
  unfolding set_path set_query set_scheme set_host set_port get_url_string
  url_string-set s n = (
    ground (arith, has_buf, has_loc, string_after (ts.path_set u.world b l s).1),
    ground (arith, has_buf, has_loc, string_after (ts.query_set u.world b l s).1),
    ground (arith, has_buf, has_loc, string_after (ts.scheme_set u.world b l s).1),
    ground (arith, has_buf, has_loc, string_after (ts.host_set u.world b l s).1),
    ground (arith, has_buf, has_loc, string_after (ts.port_set u.world b l n).1),
  )
