-- ===== src/Tests/Plugins.antt =====
-- Plugins, timers, logs and statistics.
use atscppapi.Common.{
  arith, ◌++◌, ℕ, ◌+◌, codes, ◌≡◌, refl, true, false, Option, none, some, [], ◌∷◌,
}
use atscppapi.Hooks.{
  hook_send_response_headers, response_transformation, HookId, Event, pre_remap_hook,
  post_remap_hook, send_request_hdr_hook, read_response_hdr_hook, send_response_hdr_hook,
  os_dns_hook, txn_close_hook, pre_remap, post_remap, send_request_hdr, read_response_hdr,
  send_response_hdr, os_dns, txn_close, other_event,
}
use atscppapi.AsyncTimer
use atscppapi.PluginHooks.{
  TransformationPlugin, new_transformation_plugin, delete_transformation_plugin,
}
use atscppapi.PluginHooks.Handles.{serve_all, register_all, nothing, transformation_plugin_served}
use atscppapi.Hooks.Dispatch.{EventsOfHooks}
use atscppapi.TransactionManagement.{Transaction, Handles, Entity, handle_transaction_events}
use atscppapi.TransactionManagement.Lifetime.{close_deletes, IsCoherent, guarded, deleted}
use atscppapi.Logger
use atscppapi.Logger.{TextLogApi, Logger, log_level_debug, log_level_info}
use atscppapi.AsyncTimer.{TimerApi}

abbrev event_of : HookId → Event
event_of pre_remap_hook = pre_remap
event_of post_remap_hook = post_remap
event_of send_request_hdr_hook = send_request_hdr
event_of read_response_hdr_hook = read_response_hdr
event_of send_response_hdr_hook = send_response_hdr
event_of os_dns_hook = os_dns
event_of txn_close_hook = txn_close
event_of _ = other_event 0

event_of-EventsOfHooks : EventsOfHooks event_of
event_of-EventsOfHooks = record {
  at_pre_remap = refl;
  at_post_remap = refl;
  at_send_request_hdr = refl;
  at_read_response_hdr = refl;
  at_send_response_hdr = refl;
  at_os_dns = refl;
  at_txn_close = refl;
}

abbrev no_handles : Handles
no_handles = record { hdr_buf = none; hdr_loc = none }

abbrev transaction : Transaction
transaction = record {
  txn = 1;
  plugins = 10 ∷ 11 ∷ [];
  client_request_hdr = record { hdr_buf = some 2; hdr_loc = some 3 };
  server_request_hdr = no_handles;
  server_request = none;
  server_response_hdr = no_handles;
  server_response = none;
  client_response_hdr = no_handles;
  client_response = none;
  context_values = (codes "k", 5) ∷ [];
}

abbrev fetched : Entity → Option Handles
fetched e = some (record { hdr_buf = some 4; hdr_loc = some 6 })

abbrev mutex_of : ℕ → ℕ
mutex_of p = p + 100

close_deletes_example :
    (deleted (handle_transaction_events mutex_of fetched txn_close transaction).0 ≡ 10 ∷ 11 ∷ [])
    × (guarded mutex_of none (handle_transaction_events mutex_of fetched txn_close transaction).0
        ≡ true)
    × ((handle_transaction_events mutex_of fetched txn_close transaction).1 ≡ none)
close_deletes_example = close_deletes mutex_of fetched transaction

transaction-IsCoherent : IsCoherent transaction
transaction-IsCoherent = record {
  server_request = (refl, refl);
  server_response = (refl, refl);
  client_response = (refl, refl);
}

-- Text logs that are counted but cannot be made.
abbrev no_logs : TextLogApi
no_logs = record {
  World = ℕ;
  TextLogObject = Unit;
  add_timestamp_mode = 1;
  do_not_rename_mode = 2;
  create = λ w file mode. (none, w);
  rolling_enabled_set = λ w o n. w;
  rolling_interval_set = λ w o n. w;
  flush = λ w o. w;
  write = λ w o fmt m. w + 1;
  destroy = λ w o. w;
}

abbrev failed : Logger no_logs
unfolding Logger.init Logger.new
failed = (Logger.init (codes "a") true false log_level_debug false 60 (Logger.new 0)).1

abbrev timers : TimerApi
timers = record {
  World = ℕ;
  Action = ℕ;
  schedule = λ w n. (some w, w + 1);
  schedule_every = λ w n. (some w, w + 1);
  action_cancel = λ w a. w;
  cont_destroy = λ w. w;
  handle_async_complete = λ w. (true, w);
}

abbrev gzip_plugin : TransformationPlugin
gzip_plugin = record {
  base = record { plugin = 1; cont = 2; ats_txn_handle = 3; mutex = 4 };
  state = 5;
  vconn = 6;
  output_buffer = 7;
  output_buffer_reader = 8;
}

transformation_plugin_served_example :
    serve_all
      (new_transformation_plugin response_transformation gzip_plugin
        ++ (register_all (hook_send_response_headers ∷ []) gzip_plugin.base
            ++ delete_transformation_plugin gzip_plugin))
      nothing
    ≡ some nothing
transformation_plugin_served_example =
    transformation_plugin_served (hook_send_response_headers ∷ []) response_transformation
      gzip_plugin (omega arith)
