-- ===== src/Tests/Responses.antt =====
-- A response in memory.
use atscppapi.Common.{◌≡◌, false, ℕ, Bytes, codes, refl, none, some}
use atscppapi.Mime.{MimeApi}
use atscppapi.Response
use atscppapi.Response.{
  ResponseApi, Response, set_status_code, get_status_code, set_reason_phrase, get_reason_phrase,
}
use atscppapi.Response.Line.{KeepsLine}

-- A response line in memory: the status and the phrase.
abbrev line_fields : MimeApi
line_fields = record {
  MBuffer = Unit;
  MLoc = Unit;
  World = ℕ × Bytes;
  fields_count = λ w b l. 0;
  field_get = λ w b l i. none;
  field_next = λ w b l f. none;
  field_next_dup = λ w b l f. none;
  field_find = λ w b l n. none;
  field_name_get = λ w b l f. none;
  field_values_count = λ w b l f. 0;
  field_value_get = λ w b l f i. none;
  field_create = λ w b l. (w, tt);
  field_name_set = λ w b l f n. w;
  field_append = λ w b l f. w;
  field_value_append = λ w b l f v. w;
  field_destroy = λ w b l f. w;
  mloc_release = λ w b l f. w;
}

abbrev line_in_memory : ResponseApi line_fields
line_in_memory = record {
  major = λ n. 1;
  minor = λ n. 1;
  version_get = λ w b l. some 65537;
  status_get = λ w b l. w.0;
  status_set = λ w b l c. (c, w.1);
  reason_get = λ w b l. some w.1;
  reason_set = λ w b l p. (w.0, p);
}

line_in_memory-KeepsLine : KeepsLine line_in_memory
line_in_memory-KeepsLine = record {
  status_get-set = λ w b l c. refl;
  reason_get-set = λ w b l p. refl;
}

abbrev ok_response : Response line_fields
unfolding Response.new Response.init
ok_response = Response.init (some tt) (some tt) (Response.new (200, codes "OK"))

status_set :
    (get_status_code line_in_memory false (set_status_code line_in_memory 404 ok_response)).0 ≡ 404
unfolding ok_response get_status_code set_status_code
status_set = refl
