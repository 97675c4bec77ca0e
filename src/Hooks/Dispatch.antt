-- ===== src/Hooks/Dispatch.antt =====
-- Events reach the method that is named for the hook.
use atscppapi.Common.{◌≡◌, some}
use atscppapi.Hooks.{
  HookType, HookId, Event, Handler, convert_internal_hook_to_ts_hook, invoked_handler,
  hook_read_request_headers_pre_remap, hook_read_request_headers_post_remap,
  hook_send_request_headers, hook_read_response_headers, hook_send_response_headers, hook_os_dns,
  pre_remap_hook, post_remap_hook, send_request_hdr_hook, read_response_hdr_hook,
  send_response_hdr_hook, os_dns_hook, txn_close_hook, pre_remap, post_remap, send_request_hdr,
  read_response_hdr, send_response_hdr, os_dns, txn_close, handle_read_request_headers_pre_remap,
  handle_read_request_headers_post_remap, handle_send_request_headers, handle_read_response_headers,
  handle_send_response_headers, handle_os_dns,
}

-- Documented behaviour of Traffic Server: the event that it sends at each hook.
pub record EventsOfHooks (event_of : HookId → Event) : Type 0 where
  pub at_pre_remap : event_of pre_remap_hook ≡ pre_remap
  pub at_post_remap : event_of post_remap_hook ≡ post_remap
  pub at_send_request_hdr : event_of send_request_hdr_hook ≡ send_request_hdr
  pub at_read_response_hdr : event_of read_response_hdr_hook ≡ read_response_hdr
  pub at_send_response_hdr : event_of send_response_hdr_hook ≡ send_response_hdr
  pub at_os_dns : event_of os_dns_hook ≡ os_dns
  pub at_txn_close : event_of txn_close_hook ≡ txn_close

-- The method whose comment in Plugin.h names the hook.
abbrev pub handler_for : HookType → Handler
handler_for hook_read_request_headers_pre_remap = handle_read_request_headers_pre_remap
handler_for hook_read_request_headers_post_remap = handle_read_request_headers_post_remap
handler_for hook_send_request_headers = handle_send_request_headers
handler_for hook_read_response_headers = handle_read_response_headers
handler_for hook_send_response_headers = handle_send_response_headers
handler_for hook_os_dns = handle_os_dns

-- A plugin that registers a hook of any type gets the event of that hook by the method for it.
registered_handler :
    (event_of : HookId → Event) (t : HookType)
    → EventsOfHooks event_of
    → invoked_handler (event_of (convert_internal_hook_to_ts_hook t)) ≡ some (handler_for t)
unfolding convert_internal_hook_to_ts_hook invoked_handler
registered_handler event_of hook_read_request_headers_pre_remap e = rw e.at_pre_remap
registered_handler event_of hook_read_request_headers_post_remap e = rw e.at_post_remap
registered_handler event_of hook_send_request_headers e = rw e.at_send_request_hdr
registered_handler event_of hook_read_response_headers e = rw e.at_read_response_hdr
registered_handler event_of hook_send_response_headers e = rw e.at_send_response_hdr
registered_handler event_of hook_os_dns e = rw e.at_os_dns
