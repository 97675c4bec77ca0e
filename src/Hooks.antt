-- ===== src/Hooks.antt =====
-- src/include/atscppapi/Plugin.h, src/Plugin.cc and the hook functions of src/utils_internal.cc: the
-- types of hooks, the hooks of Traffic Server behind them, and the methods that its events call.
pub mod Dispatch
use atscppapi.Common.{ℕ, Bytes, codes, Option, none, some, List, [], ◌∷◌}

-- Plugin::HookType, in the order of its numbers.
pub data HookType : Type 0 where
  hook_read_request_headers_pre_remap hook_read_request_headers_post_remap : HookType
  hook_send_request_headers hook_read_response_headers hook_send_response_headers : HookType
  hook_os_dns : HookType

-- The values of TSHttpHookID (ts/ts.h) that the source names.
pub data HookId : Type 0 where
  pre_remap_hook post_remap_hook send_request_hdr_hook read_response_hdr_hook : HookId
  send_response_hdr_hook os_dns_hook txn_close_hook : HookId
  request_transform_hook response_transform_hook : HookId

-- TransformationPlugin::Type
pub data TransformationType : Type 0 where
  request_transformation response_transformation : TransformationType

-- The values of TSEvent (ts/ts.h) that the handlers of transactions name, and any other.
pub data Event : Type 0 where
  pre_remap post_remap send_request_hdr read_response_hdr send_response_hdr os_dns : Event
  txn_close : Event
  other_event : ℕ → Event

-- The methods of a `Plugin`.
pub data Handler : Type 0 where
  handle_read_request_headers_pre_remap handle_read_request_headers_post_remap : Handler
  handle_send_request_headers handle_read_response_headers : Handler
  handle_send_response_headers handle_os_dns : Handler

unfoldable pub convert_internal_hook_to_ts_hook : HookType → HookId
convert_internal_hook_to_ts_hook hook_read_request_headers_post_remap = post_remap_hook
convert_internal_hook_to_ts_hook hook_read_request_headers_pre_remap = pre_remap_hook
convert_internal_hook_to_ts_hook hook_read_response_headers = read_response_hdr_hook
convert_internal_hook_to_ts_hook hook_send_request_headers = send_request_hdr_hook
convert_internal_hook_to_ts_hook hook_send_response_headers = send_response_hdr_hook
convert_internal_hook_to_ts_hook hook_os_dns = os_dns_hook

unfoldable pub convert_internal_transformation_type_to_ts_hook : TransformationType → HookId
convert_internal_transformation_type_to_ts_hook response_transformation = response_transform_hook
convert_internal_transformation_type_to_ts_hook request_transformation = request_transform_hook

-- The switch of `invokePluginForEvent`; `none` is the failed assertion.
unfoldable pub invoked_handler : Event → Option Handler
invoked_handler pre_remap = some handle_read_request_headers_pre_remap
invoked_handler post_remap = some handle_read_request_headers_post_remap
invoked_handler send_request_hdr = some handle_send_request_headers
invoked_handler read_response_hdr = some handle_read_response_headers
invoked_handler send_response_hdr = some handle_send_response_headers
invoked_handler os_dns = some handle_os_dns
invoked_handler _ = none

-- The value of the enumerator.
abbrev pub hook_index : HookType → ℕ
hook_index hook_read_request_headers_pre_remap = 0
hook_index hook_read_request_headers_post_remap = 1
hook_index hook_send_request_headers = 2
hook_index hook_read_response_headers = 3
hook_index hook_send_response_headers = 4
hook_index hook_os_dns = 5

abbrev pub hook_type_strings : List Bytes
hook_type_strings =
    codes "HOOK_READ_REQUEST_HEADERS_PRE_REMAP"
    ∷ codes "HOOK_READ_REQUEST_HEADERS_POST_REMAP"
    ∷ codes "HOOK_SEND_REQUEST_HEADERS"
    ∷ codes "HOOK_READ_RESPONSE_HEADERS"
    ∷ codes "HOOK_SEND_RESPONSE_HEADERS"
    ∷ codes "HOOK_OS_DNS"
    ∷ []
