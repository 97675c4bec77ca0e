-- ===== src/Tests/Requests.antt =====
-- Requests whose parts Traffic Server has in memory.
use atscppapi.Common.{
  Option, get_or, sym, ap, ◌∙◌, ℕ, codes, ◌≡◌, ◌≢◌, false, none, some, List, [], ◌∷◌, arith,
}
use atscppapi.InitializableValue.{uninitialized}
use atscppapi.HttpMethod.{
  HttpMethod, http_method_unknown, http_method_get, http_method_post, http_method_head,
  http_method_connect, http_method_delete, http_method_icp_query, http_method_options,
  http_method_purge, http_method_put, http_method_trace,
}
use atscppapi.HttpVersion.{http_version_unknown, http_version_1_0}
use atscppapi.Mime.{MimeApi}
use atscppapi.Url.{UrlApi, both}
use atscppapi.Headers.State.{type_request}
use atscppapi.Headers.Detached.{IsDetached}
use atscppapi.ClientRequest
use atscppapi.ClientRequest.{get_pristine_url, released}
use atscppapi.ClientRequest.Pristine.{gets, released-gets}
use atscppapi.Request.{RequestApi, Request, from_string, get_method, get_version}
use atscppapi.Request.Line.{NamesMethods, line-from_string}

abbrev empty_buffer : MimeApi
empty_buffer = record {
  World = Unit;
  MBuffer = Unit;
  MLoc = Unit;
  fields_count = λ w b l. 0;
  field_get = λ w b l i. none;
  field_next = λ w b l f. none;
  field_next_dup = λ w b l f. none;
  field_find = λ w b l n. none;
  field_name_get = λ w b l f. none;
  field_values_count = λ w b l f. 0;
  field_value_get = λ w b l f i. none;
  field_create = λ w b l. (tt, tt);
  field_name_set = λ w b l f n. tt;
  field_append = λ w b l f. tt;
  field_value_append = λ w b l f v. tt;
  field_destroy = λ w b l f. tt;
  mloc_release = λ w b l f. tt;
}

abbrev no_urls : UrlApi
no_urls = record {
  World = Unit;
  MBuffer = Unit;
  MLoc = Unit;
  string_get = λ w b l. none;
  path_get = λ w b l. none;
  query_get = λ w b l. none;
  scheme_get = λ w b l. none;
  host_get = λ w b l. none;
  port_get = λ w b l. 80;
  path_set = λ w b l s. (false, w);
  query_set = λ w b l s. (false, w);
  scheme_set = λ w b l s. (false, w);
  host_set = λ w b l s. (false, w);
  port_set = λ w b l p. (false, w);
}

abbrev address_of : HttpMethod → ℕ
address_of http_method_unknown = 0
address_of http_method_get = 1
address_of http_method_post = 2
address_of http_method_head = 3
address_of http_method_connect = 4
address_of http_method_delete = 5
address_of http_method_icp_query = 6
address_of http_method_options = 7
address_of http_method_purge = 8
address_of http_method_put = 9
address_of http_method_trace = 10

abbrev posts : RequestApi empty_buffer no_urls
posts = record {
  url_buffer = λ b. some tt;
  major = λ n. 1;
  minor = λ n. 0;
  version_get = λ w b l. some 65536;
  method_get = λ w b l. some (2, 4);
  address = address_of;
  url_get = λ w b l. none;
  buffer_create = λ w. (tt, tt);
  url_create = λ w b. (some tt, tt);
  url_parse = λ w b l s. (false, tt);
  url_release = λ w b p l. tt;
  buffer_destroy = λ w b. tt;
}

abbrev all_methods : List HttpMethod
all_methods =
    http_method_unknown ∷ http_method_get ∷ http_method_post ∷ http_method_head
    ∷ http_method_connect ∷ http_method_delete ∷ http_method_icp_query ∷ http_method_options
    ∷ http_method_purge ∷ http_method_put ∷ http_method_trace ∷ []

abbrev method_of : ℕ → HttpMethod
method_of n = get_or all_methods n http_method_unknown

method_of-address_of : (m : HttpMethod) → method_of (address_of m) ≡ m
method_of-address_of m = ground arith

posts-NamesMethods : NamesMethods posts
posts-NamesMethods = record {
  distinct = λ m n e. sym (method_of-address_of m) ∙ ap method_of e ∙ method_of-address_of n;
}

abbrev unread : Request empty_buffer no_urls
unread = record {
  hdr_buf = some tt;
  hdr_loc = some tt;
  url_loc = none;
  url = record {
    hdr_buf = none;
    url_loc = none;
    url_string = uninitialized [];
    path = uninitialized [];
    query = uninitialized [];
    host = uninitialized [];
    scheme = uninitialized [];
    port = uninitialized 0;
    world = tt;
  };
  headers = record {
    type = type_request;
    hdr_buf = some tt;
    hdr_loc = some tt;
    name_values_map = uninitialized [];
    detached = false;
    request_cookies = uninitialized [];
    response_cookies = uninitialized [];
    world = tt;
  };
  method = uninitialized http_method_unknown;
  version = uninitialized http_version_unknown;
  destroy_buf = false;
}

post_known : http_method_post ≢ http_method_unknown
post_known = ground arith

line-from_string_example :
    ((get_method posts false
        (from_string posts (codes "u") http_method_put http_version_1_0 tt tt)).0
      ≡ http_method_put)
    × ((get_version posts false
          (from_string posts (codes "u") http_method_put http_version_1_0 tt tt)).0
        ≡ http_version_1_0)
    × IsDetached (from_string posts (codes "u") http_method_put http_version_1_0 tt tt).headers
line-from_string_example =
    line-from_string posts (codes "u") http_method_put http_version_1_0 tt tt false

abbrev two_fetches : List (Option no_urls.MBuffer × Option no_urls.MLoc)
two_fetches = (none, none) ∷ (some tt, some tt) ∷ []

released-gets_example :
    (both
        (gets two_fetches (ClientRequest.new posts 7 none none tt tt)).pristine_url.hdr_buf
        (gets two_fetches (ClientRequest.new posts 7 none none tt tt)).pristine_url.url_loc
      ≡ released (gets two_fetches (ClientRequest.new posts 7 none none tt tt)))
    × (gets two_fetches
          (get_pristine_url (some tt, some tt) (ClientRequest.new posts 7 none none tt tt)).1
        ≡ (get_pristine_url (some tt, some tt) (ClientRequest.new posts 7 none none tt tt)).1)
released-gets_example = released-gets posts 7 none none tt tt two_fetches (some tt) tt
