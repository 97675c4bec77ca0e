-- ===== src/Tests/Urls.antt =====
-- A URL in memory.
use atscppapi.Common.{ℕ, Bytes, codes, ◌≡◌, refl, true, some, []}
use atscppapi.InitializableValue.{uninitialized}
use atscppapi.Url.{
  UrlApi, Url, reset, get_path, get_query, get_scheme, get_host, get_port, set_query,
}
use atscppapi.Url.Cache.{ReadsWhatWasSet, parts_read, parts-reset, text_or, query}

-- A URL in memory that takes every value.
abbrev PartsOfUrl : Type 0
PartsOfUrl = Bytes × ℕ

abbrev url_in_memory : UrlApi
url_in_memory = record {
  World = PartsOfUrl;
  MBuffer = Unit;
  MLoc = Unit;
  string_get = λ w b l. some w.0;
  path_get = λ w b l. some w.0;
  query_get = λ w b l. some w.0;
  scheme_get = λ w b l. some w.0;
  host_get = λ w b l. some w.0;
  port_get = λ w b l. w.1;
  path_set = λ w b l s. (true, (s, w.1));
  query_set = λ w b l s. (true, (s, w.1));
  scheme_set = λ w b l s. (true, (s, w.1));
  host_set = λ w b l s. (true, (s, w.1));
  port_set = λ w b l p. (true, (w.0, p));
}

url_in_memory-ReadsWhatWasSet : ReadsWhatWasSet url_in_memory
url_in_memory-ReadsWhatWasSet = record {
  path_set_lem = λ w b l s ok. refl;
  query_set_lem = λ w b l s ok. refl;
  scheme_set_lem = λ w b l s ok. refl;
  host_set_lem = λ w b l s ok. refl;
  port_set_lem = λ w b l p ok. refl;
}

abbrev url : Url url_in_memory
url = record {
  hdr_buf = some tt;
  url_loc = some tt;
  url_string = uninitialized [];
  path = record { value = codes "old"; initialized = true };
  query = uninitialized [];
  host = uninitialized [];
  scheme = uninitialized [];
  port = uninitialized 0;
  world = (codes "old", 80);
}

parts_read_example :
    (get_query url_in_memory true (set_query url_in_memory (codes "p") url)).0 ≡ codes "p"
parts_read_example =
    parts_read url_in_memory-ReadsWhatWasSet true url tt tt refl refl (query (codes "p")) refl

parts-reset_example :
    ((get_path url_in_memory true (reset url)).0 ≡ text_or (codes "old") (codes "old"))
    × ((get_query url_in_memory true (reset url)).0 ≡ text_or (codes "old") [])
    × ((get_scheme url_in_memory true (reset url)).0 ≡ text_or (codes "old") [])
    × ((get_host url_in_memory true (reset url)).0 ≡ text_or (codes "old") [])
    × ((get_port url_in_memory true (reset url)).0 ≡ 80)
parts-reset_example = parts-reset true url tt tt refl refl
