-- ===== src/AsyncHttpFetch/Events.antt =====
-- The state of a fetch in src/AsyncHttpFetch.cc, and what happens when its event comes.
pub mod Outcome
use atscppapi.Common.{
  ℕ, Bytes, Bool, true, false, Option, none, some, List, [], ◌∷◌, length, if◌then◌else◌,
}
use atscppapi.Mime.{MimeApi}
use atscppapi.Response
use atscppapi.Response.{Response}

-- AsyncHttpFetch::Result, which are also the events.
pub data Result : Type 0 where
  result_success result_timeout result_failure : Result

-- The functions of Traffic Server (ts/ts.h) for the answer to a fetch.
pub record FetchApi (mime : MimeApi) : Type 0 where
  -- TSFetchRespGet: the data
  pub resp_get : mime.World → Bytes
  -- TSHttpParserCreate and TSHttpParserDestroy; the parser is part of the world
  pub parser_create : mime.World → mime.World
  pub parser_destroy : mime.World → mime.World
  -- TSMBufferCreate, TSHttpHdrCreate, TSHttpHdrTypeSet with TS_HTTP_TYPE_RESPONSE
  pub buffer_create : mime.World → mime.MBuffer × mime.World
  pub hdr_create : mime.World → mime.MBuffer → mime.MLoc × mime.World
  pub hdr_type_set : mime.World → mime.MBuffer → mime.MLoc → mime.World
  -- TSHttpHdrParseResp: whether it answers TS_PARSE_DONE, and the data where it stopped
  pub hdr_parse_resp : mime.World → mime.MBuffer → mime.MLoc → Bytes → Bool × (Bytes × mime.World)
  -- TSHandleMLocRelease without a parent, TSMBufferDestroy, TSContDestroy
  pub handle_release : mime.World → Option mime.MBuffer → mime.MLoc → mime.World
  pub buffer_destroy : mime.World → mime.MBuffer → mime.World
  pub cont_destroy : mime.World → mime.World

-- AsyncHttpFetchState without the request; `body` is the data that the pointer points to.
pub record Fetch (mime : MimeApi) : Type 0 where
  pub response : Response mime
  pub result : Result
  pub body : Option Bytes
  pub body_size : ℕ
  pub hdr_buf : Option mime.MBuffer
  pub hdr_loc : Option mime.MLoc

module _ {mime : MimeApi} (ts : FetchApi mime) where
  unfoldable pub new : mime.World → Fetch mime
  new w = record {
    response = Response.new w;
    result = result_failure;
    body = none;
    body_size = 0;
    hdr_buf = none;
    hdr_loc = none;
  }

  -- ~AsyncHttpFetchState
  unfoldable pub delete : Fetch mime → mime.World → mime.World
  delete s w =
      let released : mime.World = elim s.hdr_loc [
        | none ↦ w
        | some loc ↦ ts.handle_release w s.hdr_buf loc
      ] in
      elim s.hdr_buf [ none ↦ released | some buf ↦ ts.buffer_destroy released buf ]

  -- utils::internal::initResponse, in the world of the new header.
  unfoldable init_response : mime.MBuffer → mime.MLoc → Response mime → mime.World → Response mime
  init_response buf loc r w =
      Response.init (some buf) (some loc) (record r { headers = record (r.headers) { world = w } })

  -- The part of `handleFetchEvents` at RESULT_SUCCESS: the event to go on with, the state, the world.
  unfoldable pub take_answer : Fetch mime → mime.World → Result × (Fetch mime × mime.World)
  unfolding init_response
  take_answer s w =
      let answer = ts.resp_get w in
      let (buf, w1) = ts.buffer_create (ts.parser_create w) in
      let (loc, w2) = ts.hdr_create w1 buf in
      let (parsed, (data_start, w3)) =
        ts.hdr_parse_resp (ts.hdr_type_set w2 buf loc) buf loc answer in
      let made = record s { hdr_buf = some buf; hdr_loc = some loc } in
      let answered = record made {
        body = some data_start;
        body_size = length data_start;
        response = init_response buf loc s.response w3;
      } in
      if parsed
      then (result_success, (answered, ts.parser_destroy w3))
      else (result_failure, (made, ts.parser_destroy w3))

  -- What the receiver finds when it is dispatched to: the state and the world before it.
  unfoldable pub at_dispatch : Result → Fetch mime → mime.World → Fetch mime × mime.World
  unfolding take_answer
  at_dispatch result_success s w =
      let (event, (s', w')) = take_answer s w in (record s' { result = event }, w')
  at_dispatch result_timeout s w = (record s { result = result_timeout }, w)
  at_dispatch result_failure s w = (record s { result = result_failure }, w)

  -- handleFetchEvents. `dispatch` is what the dispatch controller does, to the world, with the
  -- provider; then the provider is deleted, and the continuation destroyed.
  unfoldable pub handle_fetch_events :
      (Fetch mime → mime.World → mime.World) → Result → Fetch mime → mime.World → mime.World
  unfolding at_dispatch delete
  handle_fetch_events dispatch event s w =
      let (s', w') = at_dispatch event s w in ts.cont_destroy (delete s' (dispatch s' w'))
