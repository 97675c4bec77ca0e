-- ===== src/Tests/Fetches.antt =====
-- A fetch whose answer is in memory.
use atscppapi.Common.{ℕ, suc, ◌-◌, codes, true, none, some, ◌≡◌, refl, drop}
use atscppapi.Mime.{MimeApi}
use atscppapi.AsyncHttpFetch.Events
use atscppapi.AsyncHttpFetch.Events.{
  Fetch, FetchApi, Result, result_success, result_failure, at_dispatch, handle_fetch_events,
}
use atscppapi.AsyncHttpFetch.Events.Outcome.{
  CountsObjects, IsConsistent, at_dispatch-IsConsistent, objects-handle_fetch_events,
}

-- The world is the number of buffers and that of parsers.
abbrev counting : MimeApi
counting = record {
  MBuffer = Unit;
  MLoc = Unit;
  World = ℕ × ℕ;
  fields_count = λ w b l. 0;
  field_get = λ w b l i. none;
  field_next = λ w b l f. none;
  field_next_dup = λ w b l f. none;
  field_find = λ w b l n. none;
  field_name_get = λ w b l f. none;
  field_values_count = λ w b l f. 0;
  field_value_get = λ w b l f i. none;
  field_create = λ w b l. (w, tt);
  field_name_set = λ w b l f n. w;
  field_append = λ w b l f. w;
  field_value_append = λ w b l f v. w;
  field_destroy = λ w b l f. w;
  mloc_release = λ w b l f. w;
}

-- The answer has a header of three bytes.
abbrev answers : FetchApi counting
answers = record {
  resp_get = λ w. codes "hdrbody";
  parser_create = λ w. (w.0, suc w.1);
  parser_destroy = λ w. (w.0, w.1 - 1);
  buffer_create = λ w. (tt, (suc w.0, w.1));
  hdr_create = λ w b. (tt, w);
  hdr_type_set = λ w b l. w;
  hdr_parse_resp = λ w b l d. (true, (drop 3 d, w));
  handle_release = λ w b l. w;
  buffer_destroy = λ w b. (w.0 - 1, w.1);
  cont_destroy = λ w. w;
}

abbrev buffers : ℕ × ℕ → ℕ
buffers w = w.0

abbrev parsers : ℕ × ℕ → ℕ
parsers w = w.1

answers-CountsObjects : CountsObjects answers buffers parsers
answers-CountsObjects = record {
  buffers-parser_create = λ w. refl;
  parsers-parser_create = λ w. refl;
  buffers-parser_destroy = λ w. refl;
  parsers-parser_destroy = λ w. refl;
  buffers-buffer_create = λ w. refl;
  parsers-buffer_create = λ w. refl;
  buffers-buffer_destroy = λ w b. refl;
  parsers-buffer_destroy = λ w b. refl;
  at_hdr_create = λ w b. (refl, refl);
  at_hdr_type_set = λ w b l. (refl, refl);
  at_hdr_parse_resp = λ w b l d. (refl, refl);
  at_handle_release = λ w b l. (refl, refl);
  at_cont_destroy = λ w. (refl, refl);
}

at_dispatch-IsConsistent_example :
    IsConsistent (at_dispatch answers result_success (Events.new answers (0, 0)) (0, 0)).0
at_dispatch-IsConsistent_example = at_dispatch-IsConsistent answers result_success (0, 0) (0, 0)

abbrev ignores : Fetch counting → ℕ × ℕ → ℕ × ℕ
ignores s w = w

objects-handle_fetch_events_example :
    (buffers (handle_fetch_events answers ignores result_success (Events.new answers (2, 1)) (2, 1))
      ≡ 2)
    × (parsers
          (handle_fetch_events answers ignores result_success (Events.new answers (2, 1)) (2, 1))
        ≡ 1)
objects-handle_fetch_events_example =
    objects-handle_fetch_events answers buffers parsers answers-CountsObjects ignores
      (λ s w. (refl, refl)) result_success (2, 1) (2, 1)

body_taken :
    Fetch.body (at_dispatch answers result_success (Events.new answers (0, 0)) (0, 0)).0
    ≡ some (codes "body")
unfolding at_dispatch Events.new
body_taken = refl
