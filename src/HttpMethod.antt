-- ===== src/HttpMethod.antt =====
-- src/HttpMethod.cc, src/include/atscppapi/HttpMethod.h
use atscppapi.Common.{Bytes, codes}

pub data HttpMethod : Type 0 where
  http_method_unknown http_method_get http_method_post http_method_head : HttpMethod
  http_method_connect http_method_delete http_method_icp_query : HttpMethod
  http_method_options http_method_purge http_method_put http_method_trace : HttpMethod

-- HTTP_METHOD_STRINGS
unfoldable pub http_method_strings : HttpMethod → Bytes
http_method_strings http_method_unknown = codes "UNKNOWN"
http_method_strings http_method_get = codes "GET"
http_method_strings http_method_post = codes "POST"
http_method_strings http_method_head = codes "HEAD"
http_method_strings http_method_connect = codes "CONNECT"
http_method_strings http_method_delete = codes "DELETE"
http_method_strings http_method_icp_query = codes "ICP_QUERY"
http_method_strings http_method_options = codes "OPTIONS"
http_method_strings http_method_purge = codes "PURGE"
http_method_strings http_method_put = codes "PUT"
http_method_strings http_method_trace = codes "TRACE"
