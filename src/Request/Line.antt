-- ===== src/Request/Line.antt =====
-- The method and the version that a request gives.
use atscppapi.Common.{
  ℕ, suc, Bytes, Bool, true, false, Option, none, some, ◌≡◌, ◌≢◌, refl, sym, ap, subst, ◌∙◌, arith,
  ◌==◌, ==_iff, Bool-cases, inl, inr, if◌then◌else◌,
}
use atscppapi.InitializableValue.{InitializableValue, set_value}
use atscppapi.StdMap.Laws.{IsSorted}
use atscppapi.Comparator.{name_less}
use atscppapi.HttpMethod.{
  HttpMethod, http_method_unknown, http_method_get, http_method_post, http_method_head,
  http_method_connect, http_method_delete, http_method_icp_query, http_method_options,
  http_method_purge, http_method_put, http_method_trace,
}
use atscppapi.HttpVersion.{HttpVersion}
use atscppapi.Mime.{MimeApi}
use atscppapi.Url.{UrlApi}
use atscppapi.Headers.Detached.{IsDetached, init_detached-IsDetached}
use atscppapi.Headers.State.{type_request}
use atscppapi.Request.{
  RequestApi, Request, new, from_string, parse_url, method_at, read_method, get_method, get_version,
}

-- Documented behaviour of Traffic Server: the known methods have different strings.
pub record NamesMethods {mime : MimeApi} {urls : UrlApi} (ts : RequestApi mime urls) : Type 0 where
  pub distinct : (m n : HttpMethod) → ts.address m ≡ ts.address n → m ≡ n

all_methods :
    (m : HttpMethod)
    → m ≢ http_method_unknown
    → m ≢ http_method_get
    → m ≢ http_method_post
    → m ≢ http_method_head
    → m ≢ http_method_connect
    → m ≢ http_method_delete
    → m ≢ http_method_icp_query
    → m ≢ http_method_options
    → m ≢ http_method_purge
    → m ≢ http_method_put
    → m ≢ http_method_trace
    → ⊥
all_methods m u a b c d e f g h i j = ground arith

module _ {mime : MimeApi} {urls : UrlApi} (ts : RequestApi mime urls) where
  -- The parts of a request that its URL does not change.
  record SameLine (s t : Request mime urls) : Type 0 where
    method : t.method ≡ s.method
    version : t.version ≡ s.version
    hdr_loc : t.hdr_loc ≡ s.hdr_loc
    map : t.headers.name_values_map ≡ s.headers.name_values_map
    detached : t.headers.detached ≡ s.headers.detached

  parse_url-SameLine :
      (buf : mime.MBuffer) (loc : Option urls.MLoc) (url_str : Bytes) (s : Request mime urls)
      → SameLine s (parse_url ts buf loc url_str s)
  unfolding parse_url
  parse_url-SameLine buf none url_str s = record {
    method = refl;
    version = refl;
    hdr_loc = refl;
    map = refl;
    detached = refl;
  }
  parse_url-SameLine buf (some loc) url_str s = ground arith

  from_string-line :
      (url_str : Bytes) (method : HttpMethod) (version : HttpVersion) (w : mime.World)
      (parts : urls.World)
      → let s = from_string ts url_str method version w parts in
        (s.method ≡ record { value = method; initialized = true })
        × (s.version ≡ record { value = version; initialized = true })
        × (s.hdr_loc ≡ none)
        × IsDetached s.headers
  unfolding from_string new
  from_string-line url_str method version w parts =
      let (buf, w') = ts.buffer_create w in
      let (loc, w'') = ts.url_create w' buf in
      let kept = parse_url-SameLine buf loc url_str _ in
      let d = init_detached-IsDetached {ts = mime} type_request w in
      (
        kept.method,
        kept.version,
        kept.hdr_loc,
        record {
          detached = kept.detached ∙ d.detached;
          initialized = ap (λ m. m.initialized) kept.map ∙ d.initialized;
          sorted = subst (λ m. IsSorted name_less m.value) (sym kept.map) d.sorted;
        },
      )

  method_kept :
      (s : Request mime urls) (method : HttpMethod) (caching : Bool)
      → s.method ≡ record { value = method; initialized = true }
      → s.hdr_loc ≡ none
      → (get_method ts caching s).0 ≡ method
  unfolding get_method
  method_kept s method true m l = ground arith
  method_kept s method false m l = ground arith

  version_kept :
      (s : Request mime urls) (version : HttpVersion) (caching : Bool)
      → s.version ≡ record { value = version; initialized = true }
      → s.hdr_loc ≡ none
      → (get_version ts caching s).0 ≡ version
  unfolding get_version
  version_kept s version true v l = ground arith
  version_kept s version false v l = ground arith

  -- A request that is made from a string, whether that is a URL or not, gives the method and the
  -- version that it was made with, with caching on and off, and its headers are detached.
  pub line-from_string :
      (url_str : Bytes) (method : HttpMethod) (version : HttpVersion) (w : mime.World)
      (parts : urls.World) (caching : Bool)
      → let s = from_string ts url_str method version w parts in
        ((get_method ts caching s).0 ≡ method)
        × ((get_version ts caching s).0 ≡ version)
        × IsDetached s.headers
  line-from_string url_str method version w parts caching =
      let (m, v, l, d) = from_string-line url_str method version w parts in
      (method_kept _ method caching m l, version_kept _ version caching v l, d)

  -- One comparison of the chain: either it is this method, or it is told further on.
  told_here :
      (n : NamesMethods ts) (m x : HttpMethod) (v rest : InitializableValue HttpMethod)
      → (m ≢ x → rest.value ≡ m)
      → (if ts.address m == ts.address x then set_value v x else rest).value ≡ m
  told_here n m x v rest further = elim (Bool-cases (ts.address m == ts.address x)) [
    | inl same ↦ rw same (sym (n.distinct m x ((==_iff _ _).0 same)))
    | inr other ↦ rw other (further (λ e. ground (arith, ap ts.address e)))
  ]

  method_at-address :
      (n : NamesMethods ts) (m : HttpMethod) (v : InitializableValue HttpMethod)
      → m ≢ http_method_unknown
      → (method_at ts (ts.address m) v).value ≡ m
  unfolding method_at
  method_at-address n m v u = told_here n m _ v _ (λ a. told_here n m _ v _ (λ b.
      told_here n m _ v _ (λ c. told_here n m _ v _ (λ d. told_here n m _ v _ (λ e.
        told_here n m _ v _ (λ f. told_here n m _ v _ (λ g. told_here n m _ v _ (λ h.
          told_here n m _ v _
            (λ i. told_here n m _ v _ (λ j. absurd (all_methods m u a b c d e f g h i j)))))))))))

  -- On a request with handles that has not been read yet, a known method is told by its string.
  get_method-address :
      (s : Request mime urls) (buf : mime.MBuffer) (loc : mime.MLoc) (m : HttpMethod) (len : ℕ)
      (caching : Bool)
      → NamesMethods ts
      → m ≢ http_method_unknown
      → s.method.initialized ≡ false
      → s.hdr_buf ≡ some buf
      → s.hdr_loc ≡ some loc
      → ts.method_get s.headers.world buf loc ≡ some (ts.address m, suc len)
      → (get_method ts caching s).0 ≡ m
  unfolding get_method read_method
  get_method-address s buf loc m len true n known fresh b l str =
      ground (arith, method_at-address n m s.method known)
  get_method-address s buf loc m len false n known fresh b l str =
      ground (arith, method_at-address n m s.method known)
