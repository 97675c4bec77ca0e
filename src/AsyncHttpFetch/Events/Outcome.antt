-- ===== src/AsyncHttpFetch/Events/Outcome.antt =====
-- What the receiver of a fetch finds, and what is left when its event was handled.
use atscppapi.Common.{
  ℕ, suc, ◌-◌, Bytes, Bool, true, false, Option, none, some, length, if◌then◌else◌, ◌≡◌, refl, ◌∙◌,
  ◌⊎◌, inl, inr, arith,
}
use atscppapi.Mime.{MimeApi}
use atscppapi.AsyncHttpFetch.Events.{
  Result, result_success, result_timeout, result_failure, FetchApi, Fetch, new, delete, take_answer,
  at_dispatch, handle_fetch_events,
}

-- Documented behaviour of Traffic Server, for how many buffers and parsers there are.
pub record CountsObjects {mime : MimeApi} (ts : FetchApi mime) (buffers parsers : mime.World → ℕ)
    : Type 0 where
  pub buffers-parser_create : (w : mime.World) → buffers (ts.parser_create w) ≡ buffers w
  pub parsers-parser_create : (w : mime.World) → parsers (ts.parser_create w) ≡ suc (parsers w)
  pub buffers-parser_destroy : (w : mime.World) → buffers (ts.parser_destroy w) ≡ buffers w
  pub parsers-parser_destroy : (w : mime.World) → parsers (ts.parser_destroy w) ≡ parsers w - 1
  pub buffers-buffer_create : (w : mime.World) → buffers (ts.buffer_create w).1 ≡ suc (buffers w)
  pub parsers-buffer_create : (w : mime.World) → parsers (ts.buffer_create w).1 ≡ parsers w
  pub buffers-buffer_destroy :
      (w : mime.World) (b : mime.MBuffer) → buffers (ts.buffer_destroy w b) ≡ buffers w - 1
  pub parsers-buffer_destroy :
      (w : mime.World) (b : mime.MBuffer) → parsers (ts.buffer_destroy w b) ≡ parsers w
  pub at_hdr_create :
      (w : mime.World) (b : mime.MBuffer)
      → (buffers (ts.hdr_create w b).1 ≡ buffers w) × (parsers (ts.hdr_create w b).1 ≡ parsers w)
  pub at_hdr_type_set :
      (w : mime.World) (b : mime.MBuffer) (l : mime.MLoc)
      → (buffers (ts.hdr_type_set w b l) ≡ buffers w)
        × (parsers (ts.hdr_type_set w b l) ≡ parsers w)
  pub at_hdr_parse_resp :
      (w : mime.World) (b : mime.MBuffer) (l : mime.MLoc) (d : Bytes)
      → (buffers (ts.hdr_parse_resp w b l d).1.1 ≡ buffers w)
        × (parsers (ts.hdr_parse_resp w b l d).1.1 ≡ parsers w)
  pub at_handle_release :
      (w : mime.World) (b : Option mime.MBuffer) (l : mime.MLoc)
      → (buffers (ts.handle_release w b l) ≡ buffers w)
        × (parsers (ts.handle_release w b l) ≡ parsers w)
  pub at_cont_destroy :
      (w : mime.World)
      → (buffers (ts.cont_destroy w) ≡ buffers w) × (parsers (ts.cont_destroy w) ≡ parsers w)

-- A result and a body go together: success with the rest of the data and its length, and any other
-- result with no body and the length 0.
abbrev pub IsConsistent : {mime : MimeApi} → Fetch mime → Type 0
IsConsistent s =
    ((s.result ≡ result_success)
      × ((rest : Bytes) × ((s.body ≡ some rest) × (s.body_size ≡ length rest))))
    ⊎ (((s.result ≡ result_timeout) ⊎ (s.result ≡ result_failure))
        × ((s.body ≡ none) × (s.body_size ≡ 0)))

for_both : {A : Type 0} (P : A → Type 0) (b : Bool) (x y : A) → P x → P y → P (if b then x else y)
for_both P true x y h k = h
for_both P false x y h k = k

module _ {mime : MimeApi} (ts : FetchApi mime) where
  abbrev Consistent : Result × (Fetch mime × mime.World) → Type 0
  Consistent (event, (s, w)) = IsConsistent (record s { result = event })

  -- Whatever the event and the answer are, the receiver of a new fetch finds either success, with a
  -- body and its length, or a timeout or a failure, with no body and the length 0.
  pub at_dispatch-IsConsistent :
      (event : Result) (w v : mime.World) → IsConsistent (at_dispatch ts event (new ts w) v).0
  unfolding at_dispatch take_answer new
  at_dispatch-IsConsistent result_success w v =
      for_both Consistent _ _ _ (inl (refl, (_, (refl, refl)))) (inr (inr refl, (refl, refl)))
  at_dispatch-IsConsistent result_timeout w v = inr (inl refl, (refl, refl))
  at_dispatch-IsConsistent result_failure w v = inr (inr refl, (refl, refl))

  module _ (buffers parsers : mime.World → ℕ) (c : CountsObjects ts buffers parsers) where
    -- With the handles of an answer and one buffer more, the end gives the buffer back.
    Gives : mime.World → Result × (Fetch mime × mime.World) → Type 0
    Gives v (event, (s, w)) =
        (buf : mime.MBuffer) × ((loc : mime.MLoc) × (((s.hdr_buf ≡ some buf)
              × (s.hdr_loc ≡ some loc))
            × ((buffers w ≡ suc (buffers v)) × (parsers w ≡ parsers v))))

    take_answer-Gives : (s : Fetch mime) (v : mime.World) → Gives v (take_answer ts s v)
    unfolding take_answer Gives
    take_answer-Gives s v =
        let (buf, w1) = ts.buffer_create (ts.parser_create v) in
        let (loc, w2) = ts.hdr_create w1 buf in
        let typed = ts.hdr_type_set w2 buf loc in
        let (parsed, (data_start, w3)) = ts.hdr_parse_resp typed buf loc (ts.resp_get v) in
        let made = c.at_hdr_create w1 buf in
        let set = c.at_hdr_type_set w2 buf loc in
        let read = c.at_hdr_parse_resp typed buf loc (ts.resp_get v) in
        let counts : (buffers (ts.parser_destroy w3) ≡ suc (buffers v))
            × (parsers (ts.parser_destroy w3) ≡ parsers v) =
          (
            omega (
              arith,
              c.buffers-parser_destroy w3,
              read.0,
              set.0,
              made.0,
              c.buffers-buffer_create (ts.parser_create v),
              c.buffers-parser_create v,
            ),
            omega (
              arith,
              c.parsers-parser_destroy w3,
              read.1,
              set.1,
              made.1,
              c.parsers-buffer_create (ts.parser_create v),
              c.parsers-parser_create v,
            ),
          ) in
        for_both (Gives v) parsed _ _ (buf, (loc, ((refl, refl), counts)))
          (buf, (loc, ((refl, refl), counts)))

    delete-full :
        (s : Fetch mime) (u : mime.World) (buf : mime.MBuffer) (loc : mime.MLoc)
        → s.hdr_buf ≡ some buf
        → s.hdr_loc ≡ some loc
        → delete ts s u ≡ ts.buffer_destroy (ts.handle_release u (some buf) loc) buf
    unfolding delete
    delete-full s u buf loc b l = ground arith

    abbrev Same : mime.World → mime.World → Type 0
    Same w v = (buffers w ≡ buffers v) × (parsers w ≡ parsers v)

    -- The end of the handler, for a state that has the handles of an answer.
    given_back :
        (v u : mime.World) (r : Result × (Fetch mime × mime.World))
        → Gives v r
        → Same u r.1.1
        → Same (ts.cont_destroy (delete ts (record (r.1.0) { result = r.0 }) u)) v
    unfolding Gives
    given_back v u (event, (s, w)) (buf, (loc, (has, counts))) kept =
        let released = ts.handle_release u (some buf) loc in
        let d = delete-full (record s { result = event }) u buf loc has.0 has.1 in
        let r = c.at_handle_release u (some buf) loc in
        let e = c.at_cont_destroy (ts.buffer_destroy released buf) in
        rw d (
          omega (arith, e.0, c.buffers-buffer_destroy released buf, r.0, kept.0, counts.0),
          omega (arith, e.1, c.parsers-buffer_destroy released buf, r.1, kept.1, counts.1),
        )

    -- When the receiver leaves the numbers of buffers and parsers as they are, so does the handler:
    -- what it creates for the answer is destroyed again, whatever the event and the parser's result.
    pub objects-handle_fetch_events :
        (dispatch : Fetch mime → mime.World → mime.World)
        → ((s : Fetch mime) (w : mime.World)
            → (buffers (dispatch s w) ≡ buffers w) × (parsers (dispatch s w) ≡ parsers w))
        → (event : Result) (w v : mime.World)
        → (buffers (handle_fetch_events ts dispatch event (new ts w) v) ≡ buffers v)
          × (parsers (handle_fetch_events ts dispatch event (new ts w) v) ≡ parsers v)
    unfolding handle_fetch_events at_dispatch delete new
    objects-handle_fetch_events dispatch keeps result_success w v =
        let r = take_answer ts (new ts w) v in
        let s = record (r.1.0) { result = r.0 } in
        given_back v (dispatch s r.1.1) r (take_answer-Gives (new ts w) v) (keeps s r.1.1)
    objects-handle_fetch_events dispatch keeps result_timeout w v =
        let s = record (new ts w) { result = result_timeout } in
        let e = c.at_cont_destroy (dispatch s v) in let k = keeps s v in (e.0 ∙ k.0, e.1 ∙ k.1)
    objects-handle_fetch_events dispatch keeps result_failure w v =
        let s = record (new ts w) { result = result_failure } in
        let e = c.at_cont_destroy (dispatch s v) in let k = keeps s v in (e.0 ∙ k.0, e.1 ∙ k.1)
