-- ===== src/PluginHooks.antt =====
-- How plugins come and go in src/GlobalPlugin.cc, src/TransactionPlugin.cc and
-- src/TransformationPlugin.cc, and `setupTransactionManagement` of src/utils_internal.cc: what each
-- constructor, `registerHook` and destructor asks of Traffic Server, in order. The addresses that
-- Traffic Server gives to new objects are arguments.
pub mod Handles
use atscppapi.Common.{ℕ, Bool, ◌++◌, List, [], ◌∷◌}
use atscppapi.Hooks.{
  HookType, HookId, TransformationType, convert_internal_hook_to_ts_hook,
  convert_internal_transformation_type_to_ts_hook, post_remap_hook, send_request_hdr_hook,
  read_response_hdr_hook, send_response_hdr_hook, txn_close_hook,
}

-- The handler of a continuation.
pub data ContHandler : Type 0 where
  handle_transaction_events handle_global_plugin_events : ContHandler
  handle_transaction_plugin_events handle_transformation_plugin_events : ContHandler

-- A call of Traffic Server; continuations, buffers and readers are known by their addresses, and the
-- connection of a transformation is a continuation too.
pub data Request : Type 0 where
  cont_create transform_create : ℕ → ContHandler → Request
  cont_data_set : ℕ → ℕ → Request
  cont_destroy : ℕ → Request
  hook_add : HookId → ℕ → Request
  txn_hook_add : ℕ → HookId → ℕ → Request
  buffer_create buffer_destroy : ℕ → Request
  reader_alloc : ℕ → ℕ → Request
  reader_free : ℕ → Request

-- GlobalPluginState, without the pointer back, and with its own address.
pub record GlobalPlugin : Type 0 where
  pub state : ℕ
  pub cont : ℕ
  pub ignore_internal_transactions : Bool

-- TransactionPluginState, and the address of the plugin.
pub record TransactionPlugin : Type 0 where
  pub plugin : ℕ
  pub cont : ℕ
  pub ats_txn_handle : ℕ
  pub mutex : ℕ

-- What TransformationPluginState has of Traffic Server, and its own address, with the base class.
pub record TransformationPlugin : Type 0 where
  pub base : TransactionPlugin
  pub state : ℕ
  pub vconn : ℕ
  pub output_buffer : ℕ
  pub output_buffer_reader : ℕ

unfoldable pub setup_transaction_management : ℕ → List Request
setup_transaction_management cont =
    cont_create cont handle_transaction_events
    ∷ hook_add post_remap_hook cont
    ∷ hook_add send_request_hdr_hook cont
    ∷ hook_add read_response_hdr_hook cont
    ∷ hook_add send_response_hdr_hook cont
    ∷ hook_add txn_close_hook cont
    ∷ []

-- GlobalPlugin(bool), without the setup, which is done once for all plugins.
unfoldable pub new_global_plugin : GlobalPlugin → List Request
new_global_plugin p =
    cont_create p.cont handle_global_plugin_events ∷ cont_data_set p.cont p.state ∷ []

unfoldable pub register_global_hook : HookType → GlobalPlugin → List Request
register_global_hook hook_type p = hook_add (convert_internal_hook_to_ts_hook hook_type) p.cont ∷ []

unfoldable pub delete_global_plugin : GlobalPlugin → List Request
delete_global_plugin p = cont_destroy p.cont ∷ []

unfoldable pub new_transaction_plugin : TransactionPlugin → List Request
new_transaction_plugin p =
    cont_create p.cont handle_transaction_plugin_events ∷ cont_data_set p.cont p.plugin ∷ []

unfoldable pub register_hook : HookType → TransactionPlugin → List Request
register_hook hook_type p =
    txn_hook_add p.ats_txn_handle (convert_internal_hook_to_ts_hook hook_type) p.cont ∷ []

unfoldable pub delete_transaction_plugin : TransactionPlugin → List Request
delete_transaction_plugin p = cont_destroy p.cont ∷ []

-- The constructor of the base class, that of the state, and the body.
unfoldable pub new_transformation_plugin : TransformationType → TransformationPlugin → List Request
unfolding new_transaction_plugin
new_transformation_plugin type p =
    new_transaction_plugin p.base
    ++ (buffer_create p.output_buffer
        ∷ reader_alloc p.output_buffer_reader p.output_buffer
        ∷ transform_create p.vconn handle_transformation_plugin_events
        ∷ cont_data_set p.vconn p.state
        ∷ txn_hook_add p.base.ats_txn_handle (convert_internal_transformation_type_to_ts_hook type)
            p.vconn
        ∷ [])

-- `cleanupTransformation` leaves the number 0xDEADDEAD as data.
abbrev dead : ℕ
dead = 3735936685

unfoldable pub cleanup_transformation : ℕ → List Request
cleanup_transformation vconn = cont_data_set vconn dead ∷ cont_destroy vconn ∷ []

-- The body, the destructor of the state, where no pointer is null, and that of the base class.
unfoldable pub delete_transformation_plugin : TransformationPlugin → List Request
unfolding cleanup_transformation delete_transaction_plugin
delete_transformation_plugin p =
    cleanup_transformation p.vconn
    ++ (reader_free p.output_buffer_reader
        ∷ buffer_destroy p.output_buffer
        ∷ delete_transaction_plugin p.base)
