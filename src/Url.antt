-- ===== src/Url.antt =====
-- src/Url.cc: a cache of the parts of a URL in front of Traffic Server's marshal buffer.
pub mod Cache
use atscppapi.Common.{
  ℕ, Bytes, Bool, true, false, ◌&&◌, Option, none, some, List, [], ◌∷◌, if◌then◌else◌,
}
use atscppapi.InitializableValue.{
  InitializableValue, uninitialized, set_value, is_initialized, set_initialized,
}

-- The URL functions of Traffic Server (ts/ts.h): `World` is the contents of its marshal buffers. A
-- getter gives `none` for a null pointer, a setter whether it returned TS_SUCCESS.
pub record UrlApi : Type 1 where
  pub World : Type 0
  pub MBuffer : Type 0
  pub MLoc : Type 0
  -- TSUrlStringGet, TSUrlPathGet, TSUrlHttpQueryGet, TSUrlSchemeGet, TSUrlHostGet, TSUrlPortGet
  pub string_get : World → MBuffer → MLoc → Option Bytes
  pub path_get : World → MBuffer → MLoc → Option Bytes
  pub query_get : World → MBuffer → MLoc → Option Bytes
  pub scheme_get : World → MBuffer → MLoc → Option Bytes
  pub host_get : World → MBuffer → MLoc → Option Bytes
  pub port_get : World → MBuffer → MLoc → ℕ
  -- TSUrlPathSet, TSUrlHttpQuerySet, TSUrlSchemeSet, TSUrlHostSet, TSUrlPortSet
  pub path_set : World → MBuffer → MLoc → Bytes → Bool × World
  pub query_set : World → MBuffer → MLoc → Bytes → Bool × World
  pub scheme_set : World → MBuffer → MLoc → Bytes → Bool × World
  pub host_set : World → MBuffer → MLoc → Bytes → Bool × World
  pub port_set : World → MBuffer → MLoc → ℕ → Bool × World

-- UrlState, and `world`, the buffers that the handles point into. A port is below 2 ^ 16.
pub record Url (ts : UrlApi) : Type 0 where
  pub hdr_buf : Option ts.MBuffer
  pub url_loc : Option ts.MLoc
  pub url_string : InitializableValue Bytes
  pub path : InitializableValue Bytes
  pub query : InitializableValue Bytes
  pub host : InitializableValue Bytes
  pub scheme : InitializableValue Bytes
  pub port : InitializableValue ℕ
  pub world : ts.World

-- The handles, if neither is null: `Url::isInitialized()`.
abbrev pub both {ℓ κ} : {A : Type ℓ} {B : Type κ} → Option A → Option B → Option (A × B)
both (some a) (some b) = some (a, b)
both _ _ = none

-- `if (memptr && length)` around an assignment.
unfoldable pub fill : Option Bytes → InitializableValue Bytes → InitializableValue Bytes
fill none v = v
fill (some []) v = v
fill (some (c ∷ s)) v = set_value v (c ∷ s)

module _ {ts : UrlApi} where
  unfoldable pub new : Option ts.MBuffer → Option ts.MLoc → ts.World → Url ts
  new hdr_buf url_loc world = record {
    hdr_buf = hdr_buf;
    url_loc = url_loc;
    url_string = uninitialized [];
    path = uninitialized [];
    query = uninitialized [];
    host = uninitialized [];
    scheme = uninitialized [];
    port = uninitialized 0;
    world = world;
  }

  unfoldable pub init : Option ts.MBuffer → Option ts.MLoc → Url ts → Url ts
  init hdr_buf url_loc u = record u { hdr_buf = hdr_buf; url_loc = url_loc }

  unfoldable pub reset : Url ts → Url ts
  reset u = record u {
    url_string = set_initialized u.url_string false;
    path = set_initialized u.path false;
    query = set_initialized u.query false;
    host = set_initialized u.host false;
    scheme = set_initialized u.scheme false;
    port = set_initialized u.port false;
  }

-- The five getters of strings differ in the field and in the function that fills it.
abbrev pub refreshed {ℓ κ} :
    {A : Type ℓ} {H : Type κ}
    → Bool
    → Option H
    → (H → InitializableValue A → InitializableValue A)
    → InitializableValue A
    → InitializableValue A
refreshed caching none read v = v
refreshed caching (some h) read v = if is_initialized caching v then v else read h v

module _ (ts : UrlApi) (caching : Bool) where
  unfoldable pub get_url_string : Url ts → Bytes × Url ts
  unfolding fill
  get_url_string u =
      let read = λ (h : ts.MBuffer × ts.MLoc). fill (ts.string_get u.world h.0 h.1) in
      let v = refreshed caching (both u.hdr_buf u.url_loc) read u.url_string in
      (v.value, record u { url_string = v })

  unfoldable pub get_path : Url ts → Bytes × Url ts
  unfolding fill
  get_path u =
      let read = λ (h : ts.MBuffer × ts.MLoc). fill (ts.path_get u.world h.0 h.1) in
      let v = refreshed caching (both u.hdr_buf u.url_loc) read u.path in
      (v.value, record u { path = v })

  unfoldable pub get_query : Url ts → Bytes × Url ts
  unfolding fill
  get_query u =
      let read = λ (h : ts.MBuffer × ts.MLoc). fill (ts.query_get u.world h.0 h.1) in
      let v = refreshed caching (both u.hdr_buf u.url_loc) read u.query in
      (v.value, record u { query = v })

  unfoldable pub get_scheme : Url ts → Bytes × Url ts
  unfolding fill
  get_scheme u =
      let read = λ (h : ts.MBuffer × ts.MLoc). fill (ts.scheme_get u.world h.0 h.1) in
      let v = refreshed caching (both u.hdr_buf u.url_loc) read u.scheme in
      (v.value, record u { scheme = v })

  unfoldable pub get_host : Url ts → Bytes × Url ts
  unfolding fill
  get_host u =
      let read = λ (h : ts.MBuffer × ts.MLoc). fill (ts.host_get u.world h.0 h.1) in
      let v = refreshed caching (both u.hdr_buf u.url_loc) read u.host in
      (v.value, record u { host = v })

  unfoldable pub get_port : Url ts → ℕ × Url ts
  get_port u =
      let read = λ (h : ts.MBuffer × ts.MLoc) (v : InitializableValue ℕ).
        set_value v (ts.port_get u.world h.0 h.1) in
      let v = refreshed caching (both u.hdr_buf u.url_loc) read u.port in
      (v.value, record u { port = v })

-- A setter: the string of the URL is out of date whether or not Traffic Server takes the value.
abbrev pub assigned {ℓ} : {A : Type ℓ} → Bool → A → InitializableValue A → InitializableValue A
assigned success a v = if success then set_value v a else v

module _ (ts : UrlApi) where
  unfoldable pub set_path : Bytes → Url ts → Url ts
  set_path path u = elim (both u.hdr_buf u.url_loc) [
    | none ↦ u
    | some (buf, loc) ↦
        let (success, world) = ts.path_set u.world buf loc path in
        record u {
          url_string = set_initialized u.url_string false;
          path = assigned success path u.path;
          world = world;
        }
  ]

  unfoldable pub set_query : Bytes → Url ts → Url ts
  set_query query u = elim (both u.hdr_buf u.url_loc) [
    | none ↦ u
    | some (buf, loc) ↦
        let (success, world) = ts.query_set u.world buf loc query in
        record u {
          url_string = set_initialized u.url_string false;
          query = assigned success query u.query;
          world = world;
        }
  ]

  unfoldable pub set_scheme : Bytes → Url ts → Url ts
  set_scheme scheme u = elim (both u.hdr_buf u.url_loc) [
    | none ↦ u
    | some (buf, loc) ↦
        let (success, world) = ts.scheme_set u.world buf loc scheme in
        record u {
          url_string = set_initialized u.url_string false;
          scheme = assigned success scheme u.scheme;
          world = world;
        }
  ]

  unfoldable pub set_host : Bytes → Url ts → Url ts
  set_host host u = elim (both u.hdr_buf u.url_loc) [
    | none ↦ u
    | some (buf, loc) ↦
        let (success, world) = ts.host_set u.world buf loc host in
        record u {
          url_string = set_initialized u.url_string false;
          host = assigned success host u.host;
          world = world;
        }
  ]

  unfoldable pub set_port : ℕ → Url ts → Url ts
  set_port port u = elim (both u.hdr_buf u.url_loc) [
    | none ↦ u
    | some (buf, loc) ↦
        let (success, world) = ts.port_set u.world buf loc port in
        record u {
          url_string = set_initialized u.url_string false;
          port = assigned success port u.port;
          world = world;
        }
  ]
