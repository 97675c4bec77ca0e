-- ===== src/HttpVersion.antt =====
-- src/HttpVersion.cc, src/include/atscppapi/HttpVersion.h, and `getHttpVersion` of
-- src/utils_internal.cc.
use atscppapi.Common.{ℕ, Bytes, codes, ◌&&◌, ◌==◌, Option, none, some, if◌then◌else◌}

pub data HttpVersion : Type 0 where
  http_version_unknown http_version_0_9 http_version_1_0 http_version_1_1 : HttpVersion

-- HTTP_VERSION_STRINGS
abbrev pub http_version_strings : HttpVersion → Bytes
http_version_strings http_version_unknown = codes "UNKNOWN"
http_version_strings http_version_0_9 = codes "HTTP/0.9"
http_version_strings http_version_1_0 = codes "HTTP/1.0"
http_version_strings http_version_1_1 = codes "HTTP/1.1"

-- `version` is what TSHttpHdrVersionGet returned, `none` for TS_ERROR; `major` and `minor` are the
-- macros TS_HTTP_MAJOR and TS_HTTP_MINOR.
unfoldable pub get_http_version : (ℕ → ℕ) → (ℕ → ℕ) → Option ℕ → HttpVersion
get_http_version major minor none = http_version_unknown
get_http_version major minor (some version) =
    if (major version == 0) && (minor version == 0)
    then http_version_0_9
    else if (major version == 1) && (minor version == 0)
    then http_version_1_0
    else if (major version == 1) && (minor version == 1)
    then http_version_1_1
    else http_version_unknown
