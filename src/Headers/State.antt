-- ===== src/Headers/State.antt =====
-- The state of a `Headers` object, its constructor and the two ways to initialize it.
use atscppapi.Common.{
  ℕ, Bytes, Bool, true, false, ◌||◌, Option, none, some, List, [], if◌then◌else◌,
}
use atscppapi.StdMap.{Map}
use atscppapi.InitializableValue.{InitializableValue, uninitialized, set_initialized}
use atscppapi.Mime.{MimeApi}

-- Headers::Type
pub data HeadersType : Type 0 where
  type_request type_response : HeadersType

-- Headers::NameValuesMap, ordered by `name_less`, and Headers::RequestCookieMap, ordered by
-- `string_less`.
abbrev pub NameValuesMap : Type 0
NameValuesMap = Map Bytes (List Bytes)

abbrev pub RequestCookieMap : Type 0
RequestCookieMap = Map Bytes (List Bytes)

-- The `int`s are given as their bit patterns.
pub record ResponseCookie : Type 0 where
  pub name : Bytes
  pub value : Bytes
  pub comment : Bytes
  pub domain : Bytes
  pub max_age : ℕ
  pub path : Bytes
  pub secure : Bool
  pub version : ℕ

-- HeadersState, and `world`, the buffers of Traffic Server that the handles point into.
pub record Headers (ts : MimeApi) : Type 0 where
  pub type : HeadersType
  pub hdr_buf : Option ts.MBuffer
  pub hdr_loc : Option ts.MLoc
  pub name_values_map : InitializableValue NameValuesMap
  pub detached : Bool
  pub request_cookies : InitializableValue RequestCookieMap
  pub response_cookies : InitializableValue (List ResponseCookie)
  pub world : ts.World

abbrev pub is_some {ℓ} : {A : Type ℓ} → Option A → Bool
is_some none = false
is_some (some a) = true

module _ {ts : MimeApi} where
  -- Headers(Type)
  unfoldable pub new : HeadersType → ts.World → Headers ts
  new type world = record {
    type = type;
    hdr_buf = none;
    hdr_loc = none;
    name_values_map = uninitialized [];
    detached = false;
    request_cookies = uninitialized [];
    response_cookies = uninitialized [];
    world = world;
  }

  unfoldable pub set_type : HeadersType → Headers ts → Headers ts
  set_type type h = record h { type = type }

  unfoldable pub init : Option ts.MBuffer → Option ts.MLoc → Headers ts → Headers ts
  init hdr_buf hdr_loc h =
      if is_some h.hdr_buf || is_some h.hdr_loc || h.detached
      then h
      else record h { hdr_buf = hdr_buf; hdr_loc = hdr_loc }

  unfoldable pub init_detached : Headers ts → Headers ts
  init_detached h =
      if is_some h.hdr_buf || is_some h.hdr_loc || h.detached
      then h
      else record h { detached = true; name_values_map = set_initialized h.name_values_map true }
