-- ===== src/Request.antt =====
-- src/Request.cc: a request with its headers and its URL, on the buffers of Traffic Server or made
-- from a string.
pub mod Line
use atscppapi.Common.{
  ℕ, Bytes, Bool, true, false, ◌||◌, ◌==◌, ltb, Option, none, some, List, [], ◌∷◌, if◌then◌else◌,
}
use atscppapi.InitializableValue.{InitializableValue, uninitialized, set_value, is_initialized}
use atscppapi.HttpMethod.{
  HttpMethod, http_method_unknown, http_method_get, http_method_post, http_method_head,
  http_method_connect, http_method_delete, http_method_icp_query, http_method_options,
  http_method_purge, http_method_put, http_method_trace,
}
use atscppapi.HttpVersion.{HttpVersion, http_version_unknown, get_http_version}
use atscppapi.Mime.{MimeApi}
use atscppapi.Url
use atscppapi.Url.{UrlApi, Url}
use atscppapi.Headers.State
use atscppapi.Headers.State.{Headers, type_request, is_some, init_detached}

-- The functions of Traffic Server (ts/ts.h) on requests.
pub record RequestApi (mime : MimeApi) (urls : UrlApi) : Type 0 where
  -- The buffer, as the URL functions take it.
  pub url_buffer : Option mime.MBuffer → Option urls.MBuffer
  -- TS_HTTP_MAJOR and TS_HTTP_MINOR
  pub major : ℕ → ℕ
  pub minor : ℕ → ℕ
  -- TSHttpHdrVersionGet (`none` for TS_ERROR), and TSHttpHdrMethodGet: the address of the string,
  -- unless it is null, and its length
  pub version_get : mime.World → mime.MBuffer → mime.MLoc → Option ℕ
  pub method_get : mime.World → mime.MBuffer → mime.MLoc → Option (ℕ × ℕ)
  -- The addresses TS_HTTP_METHOD_GET and so on; for HTTP_METHOD_UNKNOWN there is none.
  pub address : HttpMethod → ℕ
  -- TSHttpHdrUrlGet
  pub url_get : mime.World → Option mime.MBuffer → Option mime.MLoc → Option urls.MLoc
  -- TSMBufferCreate, TSUrlCreate, TSUrlParse: whether the result is TS_PARSE_DONE
  pub buffer_create : mime.World → mime.MBuffer × mime.World
  pub url_create : mime.World → mime.MBuffer → Option urls.MLoc × mime.World
  pub url_parse : mime.World → mime.MBuffer → urls.MLoc → Bytes → Bool × mime.World
  -- TSHandleMLocRelease of the URL, with its parent or none, and TSMBufferDestroy
  pub url_release : mime.World → Option mime.MBuffer → Option mime.MLoc → urls.MLoc → mime.World
  pub buffer_destroy : mime.World → Option mime.MBuffer → mime.World

-- RequestState; the world of the buffers is that of the headers.
pub record Request (mime : MimeApi) (urls : UrlApi) : Type 0 where
  pub hdr_buf : Option mime.MBuffer
  pub hdr_loc : Option mime.MLoc
  pub url_loc : Option urls.MLoc
  pub url : Url urls
  pub headers : Headers mime
  pub method : InitializableValue HttpMethod
  pub version : InitializableValue HttpVersion
  pub destroy_buf : Bool

module _ {mime : MimeApi} {urls : UrlApi} (ts : RequestApi mime urls) where
  -- Request()
  unfoldable pub new : mime.World → urls.World → Request mime urls
  new world parts = record {
    hdr_buf = none;
    hdr_loc = none;
    url_loc = none;
    url = Url.new none none parts;
    headers = State.new type_request world;
    method = uninitialized http_method_unknown;
    version = uninitialized http_version_unknown;
    destroy_buf = false;
  }

  abbrev with_world : Request mime urls → mime.World → Request mime urls
  with_world s w = record s { headers = record (s.headers) { world = w } }

  -- `url_.init` at the location, unless that is null.
  unfoldable pub init_url :
      Option mime.MBuffer → Option urls.MLoc → Request mime urls → Request mime urls
  init_url buf none s = record s { url_loc = none }
  init_url buf (some loc) s = record s {
    url_loc = some loc;
    url = Url.init (ts.url_buffer buf) (some loc) s.url;
  }

  unfoldable pub init :
      Option mime.MBuffer → Option mime.MLoc → Request mime urls → Request mime urls
  unfolding init_url
  init buf loc s =
      if is_some s.hdr_buf || is_some s.hdr_loc
      then s
      else init_url buf (ts.url_get s.headers.world buf loc)
          (record s { hdr_buf = buf; hdr_loc = loc; headers = State.init buf loc s.headers })

  -- The part of the constructor from a string behind TSUrlCreate.
  unfoldable pub parse_url :
      mime.MBuffer → Option urls.MLoc → Bytes → Request mime urls → Request mime urls
  parse_url buf none url_str s = record s { url_loc = none }
  parse_url buf (some loc) url_str s =
      let (parsed, world) = ts.url_parse s.headers.world buf loc url_str in
      let located = with_world (record s { url_loc = some loc }) world in
      if parsed
      then record located { url = Url.init (ts.url_buffer (some buf)) (some loc) s.url }
      else located

  -- Request(const string &, HttpMethod, HttpVersion)
  unfoldable pub from_string :
      Bytes → HttpMethod → HttpVersion → mime.World → urls.World → Request mime urls
  unfolding new parse_url
  from_string url_str method version world parts =
      let s = new world parts in
      let (buf, world') = ts.buffer_create world in
      let (loc, world'') = ts.url_create world' buf in
      parse_url buf loc url_str (
        with_world
          (record s {
            hdr_buf = some buf;
            headers = init_detached s.headers;
            method = set_value s.method method;
            version = set_value s.version version;
            destroy_buf = true;
          })
          world'')

  -- The chain of comparisons with the known strings; the value stays for any other string.
  unfoldable pub method_at : ℕ → InitializableValue HttpMethod → InitializableValue HttpMethod
  method_at str v =
      if str == ts.address http_method_get
      then set_value v http_method_get
      else if str == ts.address http_method_post
      then set_value v http_method_post
      else if str == ts.address http_method_head
      then set_value v http_method_head
      else if str == ts.address http_method_connect
      then set_value v http_method_connect
      else if str == ts.address http_method_delete
      then set_value v http_method_delete
      else if str == ts.address http_method_icp_query
      then set_value v http_method_icp_query
      else if str == ts.address http_method_options
      then set_value v http_method_options
      else if str == ts.address http_method_purge
      then set_value v http_method_purge
      else if str == ts.address http_method_put
      then set_value v http_method_put
      else if str == ts.address http_method_trace
      then set_value v http_method_trace
      else v

  unfoldable pub read_method :
      Option (ℕ × ℕ) → InitializableValue HttpMethod → InitializableValue HttpMethod
  unfolding method_at
  read_method none v = v
  read_method (some (str, len)) v = if ltb 0 len then method_at str v else v

  module _ (caching : Bool) where
    unfoldable pub get_method : Request mime urls → HttpMethod × Request mime urls
    unfolding read_method
    get_method s = if is_initialized caching s.method then (s.method.value, s) else elim s.hdr_buf [
      | none ↦ (s.method.value, s)
      | some buf ↦ elim s.hdr_loc [
        | none ↦ (s.method.value, s)
        | some loc ↦
            let method = read_method (ts.method_get s.headers.world buf loc) s.method in
            (method.value, record s { method = method })
      ]
    ]

    unfoldable pub get_version : Request mime urls → HttpVersion × Request mime urls
    unfolding get_http_version
    get_version s =
        if is_initialized caching s.version then (s.version.value, s) else elim s.hdr_buf [
          | none ↦ (s.version.value, s)
          | some buf ↦ elim s.hdr_loc [
            | none ↦ (s.version.value, s)
            | some loc ↦
                let version =
                  get_http_version ts.major ts.minor (ts.version_get s.headers.world buf loc) in
                (version, record s { version = set_value s.version version })
          ]
        ]

  -- ~Request
  unfoldable pub delete : Request mime urls → mime.World
  delete s = elim s.url_loc [
    | none ↦ s.headers.world
    | some loc ↦
        if s.destroy_buf
        then ts.buffer_destroy (ts.url_release s.headers.world s.hdr_buf none loc) s.hdr_buf
        else ts.url_release s.headers.world s.hdr_buf s.hdr_loc loc
  ]
