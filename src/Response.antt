-- ===== src/Response.antt =====
-- src/Response.cc: a response with its headers.
pub mod Line
use atscppapi.Common.{ℕ, Bytes, Bool, true, false, Option, none, some, List, [], ◌∷◌, if◌then◌else◌}
use atscppapi.InitializableValue.{
  InitializableValue, uninitialized, set_value, set_ref, is_initialized,
}
use atscppapi.HttpVersion.{HttpVersion, http_version_unknown, get_http_version}
use atscppapi.Mime.{MimeApi}
use atscppapi.Headers.State
use atscppapi.Headers.State.{Headers, HeadersType, type_request, type_response, set_type}

-- The functions of Traffic Server (ts/ts.h) on the first line of a response, in the same buffers.
pub record ResponseApi (mime : MimeApi) : Type 0 where
  -- TS_HTTP_MAJOR and TS_HTTP_MINOR
  pub major : ℕ → ℕ
  pub minor : ℕ → ℕ
  -- TSHttpHdrVersionGet (`none` for TS_ERROR), TSHttpHdrStatusGet and Set, TSHttpHdrReasonGet and Set
  pub version_get : mime.World → mime.MBuffer → mime.MLoc → Option ℕ
  pub status_get : mime.World → mime.MBuffer → mime.MLoc → ℕ
  pub status_set : mime.World → mime.MBuffer → mime.MLoc → ℕ → mime.World
  pub reason_get : mime.World → mime.MBuffer → mime.MLoc → Option Bytes
  pub reason_set : mime.World → mime.MBuffer → mime.MLoc → Bytes → mime.World

-- HTTP_STATUS_UNKNOWN
abbrev http_status_unknown : ℕ
http_status_unknown = 0

-- ResponseState; the world is that of the headers.
pub record Response (mime : MimeApi) : Type 0 where
  pub hdr_buf : Option mime.MBuffer
  pub hdr_loc : Option mime.MLoc
  pub version : InitializableValue HttpVersion
  pub status_code : InitializableValue ℕ
  pub reason_phrase : InitializableValue Bytes
  pub headers : Headers mime

-- The handles, if neither is null.
abbrev pub handles : {mime : MimeApi} → Response mime → Option (mime.MBuffer × mime.MLoc)
handles s = elim s.hdr_buf [
  | none ↦ none
  | some buf ↦ elim s.hdr_loc [ none ↦ none | some loc ↦ some (buf, loc) ]
]

module _ {mime : MimeApi} where
  unfoldable pub new : mime.World → Response mime
  unfolding set_type
  new world = record {
    hdr_buf = none;
    hdr_loc = none;
    version = uninitialized http_version_unknown;
    status_code = uninitialized http_status_unknown;
    reason_phrase = uninitialized [];
    headers = set_type type_response (State.new type_request world);
  }

  unfoldable pub init : Option mime.MBuffer → Option mime.MLoc → Response mime → Response mime
  init hdr_buf hdr_loc s = record s {
    hdr_buf = hdr_buf;
    hdr_loc = hdr_loc;
    headers = State.init hdr_buf hdr_loc s.headers;
  }

  -- `if (str && length)` around `getValueRef().assign`, which leaves the mark as it is.
  unfoldable pub assign_phrase : Option Bytes → Response mime → Response mime
  assign_phrase none s = s
  assign_phrase (some []) s = s
  assign_phrase (some (c ∷ str)) s = record s { reason_phrase = set_ref s.reason_phrase (c ∷ str) }

  abbrev with_world : Response mime → mime.World → Response mime
  with_world s w = record s { headers = record (s.headers) { world = w } }

module _ {mime : MimeApi} (ts : ResponseApi mime) where
  unfoldable pub read_phrase : Response mime → Response mime
  unfolding assign_phrase
  read_phrase s = elim (handles s) [
    | none ↦ s
    | some (buf, loc) ↦ assign_phrase (ts.reason_get s.headers.world buf loc) s
  ]

  unfoldable pub set_status_code : ℕ → Response mime → Response mime
  set_status_code code s = elim (handles s) [
    | none ↦ s
    | some (buf, loc) ↦ record (with_world s (ts.status_set s.headers.world buf loc code)) {
      status_code = set_value s.status_code code;
    }
  ]

  unfoldable pub set_reason_phrase : Bytes → Response mime → Response mime
  set_reason_phrase phrase s = elim (handles s) [
    | none ↦ s
    | some (buf, loc) ↦ record (with_world s (ts.reason_set s.headers.world buf loc phrase)) {
      reason_phrase = set_value s.reason_phrase phrase;
    }
  ]

  module _ (caching : Bool) where
    unfoldable pub get_version : Response mime → HttpVersion × Response mime
    unfolding get_http_version
    get_version s =
        if is_initialized caching s.version then (s.version.value, s) else elim (handles s) [
          | none ↦ (http_version_unknown, s)
          | some (buf, loc) ↦
              let version =
                get_http_version ts.major ts.minor (ts.version_get s.headers.world buf loc) in
              (version, record s { version = set_value s.version version })
        ]

    unfoldable pub get_status_code : Response mime → ℕ × Response mime
    get_status_code s =
        if is_initialized caching s.status_code
        then (s.status_code.value, s)
        else elim (handles s) [
          | none ↦ (http_status_unknown, s)
          | some (buf, loc) ↦
              let code = ts.status_get s.headers.world buf loc in
              (code, record s { status_code = set_value s.status_code code })
        ]

    unfoldable pub get_reason_phrase : Response mime → Bytes × Response mime
    unfolding read_phrase
    get_reason_phrase s =
        let read = read_phrase s in
        if is_initialized caching s.reason_phrase
        then (s.reason_phrase.value, s)
        else (read.reason_phrase.value, read)
