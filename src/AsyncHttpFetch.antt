-- ===== src/AsyncHttpFetch.antt =====
-- src/AsyncHttpFetch.cc: the text of the request that `run` hands to TSFetchUrl.
pub mod Text
pub mod Events
use atscppapi.Common.{ℕ, Bytes, codes, Bool, ◌++◌, List, [], ◌∷◌}
use atscppapi.HttpMethod.{HttpMethod, http_method_strings}
use atscppapi.HttpVersion.{HttpVersion, http_version_strings}
use atscppapi.Headers.State.{NameValuesMap}
use atscppapi.Headers.Values.{joined_values}

abbrev crlf : Bytes
crlf = 13 ∷ 10 ∷ []

-- The loop over the headers.
unfoldable pub header_lines : NameValuesMap → Bytes → Bytes
unfolding joined_values
header_lines [] request_str = request_str
header_lines ((name, values) ∷ hs) request_str =
    header_lines hs (request_str ++ name ++ codes ": " ++ joined_values values 44 ++ crlf)

-- `headers` are those of the request, in order.
unfoldable pub request_text : HttpMethod → Bytes → HttpVersion → NameValuesMap → Bytes
unfolding header_lines
request_text method url version headers =
    header_lines headers (
      http_method_strings method
      ++ codes " "
      ++ url
      ++ codes " "
      ++ http_version_strings version
      ++ crlf)
    ++ crlf
