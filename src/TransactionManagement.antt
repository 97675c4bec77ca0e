-- ===== src/TransactionManagement.antt =====
-- The life of a `Transaction` object: `getTransaction` and `handleTransactionEvents` of
-- src/utils_internal.cc, the lists of plugins and context values and the header handles of
-- src/Transaction.cc, and the two handlers of plugin events in src/GlobalPlugin.cc and
-- src/TransactionPlugin.cc. What the handlers do to the world is a list of actions.
pub mod Lifetime
pub mod Forwarding
pub mod ErrorBody
pub mod Released
use atscppapi.Common.{
  ℕ, Bytes, Bool, true, false, not, ◌&&◌, ◌++◌, Option, none, some, List, [], ◌∷◌, if◌then◌else◌,
}
use atscppapi.StdString.{string_less}
use atscppapi.StdMap.{Map, find, insert, modify}
use atscppapi.Hooks.{
  Event, Handler, invoked_handler, post_remap, send_request_hdr, read_response_hdr,
  send_response_hdr, txn_close,
}

-- An entity of a transaction whose handles are fetched from Traffic Server when it has them.
pub data Entity : Type 0 where
  server_request server_response client_response : Entity

-- The handles of an entity: the buffer and the location, each null or not.
pub record Handles : Type 0 where
  pub hdr_buf : Option ℕ
  pub hdr_loc : Option ℕ

-- TransactionState; plugins and context values are known by their addresses, and an object for
-- the entity by the handles that its `init` was called with, if it was.
pub record Transaction : Type 0 where
  pub txn : ℕ
  pub plugins : List ℕ
  pub client_request_hdr : Handles
  pub server_request_hdr : Handles
  pub server_request : Option Handles
  pub server_response_hdr : Handles
  pub server_response : Option Handles
  pub client_response_hdr : Handles
  pub client_response : Option Handles
  pub context_values : Map Bytes ℕ

abbrev no_handles : Handles
no_handles = record { hdr_buf = none; hdr_loc = none }

-- Transaction(void *), with the handles that TSHttpTxnClientReqGet gives.
unfoldable pub new : ℕ → Handles → Transaction
new txn client_request_hdr = record {
  txn = txn;
  plugins = [];
  client_request_hdr = client_request_hdr;
  server_request_hdr = no_handles;
  server_request = none;
  server_response_hdr = no_handles;
  server_response = none;
  client_response_hdr = no_handles;
  client_response = none;
  context_values = [];
}

unfoldable pub add_plugin : ℕ → Transaction → Transaction
add_plugin plugin t = record t { plugins = t.plugins ++ plugin ∷ [] }

-- A null pointer for a missing key.
unfoldable pub get_context_value : Bytes → Transaction → Option ℕ
get_context_value key t = find string_less key t.context_values

unfoldable pub set_context_value : Bytes → ℕ → Transaction → Transaction
set_context_value key value t = record t {
  context_values =
      modify string_less key (λ _. value) (insert string_less key value t.context_values);
}

-- The functor `initializeHandles`: `fetched` is what the getter of Traffic Server gives, `none`
-- where it does not return TS_SUCCESS.
unfoldable pub initialize_handles : Option Handles → Handles → Option Handles
initialize_handles fetched h = elim h.hdr_buf [
  | some _ ↦ none
  | none ↦ elim h.hdr_loc [ some _ ↦ none | none ↦ fetched ]
]

-- initServerRequest, initServerResponse, initClientResponse
unfoldable pub init_server_request : Option Handles → Transaction → Transaction
unfolding initialize_handles
init_server_request fetched t = elim (initialize_handles fetched t.server_request_hdr) [
  | none ↦ t
  | some h ↦ record t { server_request_hdr = h; server_request = some h }
]

unfoldable pub init_server_response : Option Handles → Transaction → Transaction
unfolding initialize_handles
init_server_response fetched t = elim (initialize_handles fetched t.server_response_hdr) [
  | none ↦ t
  | some h ↦ record t { server_response_hdr = h; server_response = some h }
]

unfoldable pub init_client_response : Option Handles → Transaction → Transaction
unfolding initialize_handles
init_client_response fetched t = elim (initialize_handles fetched t.client_response_hdr) [
  | none ↦ t
  | some h ↦ record t { client_response_hdr = h; client_response = some h }
]

-- getTransaction: the argument that is stored with the transaction of Traffic Server, or a new
-- object, which is stored.
unfoldable pub get_transaction : Option Transaction → ℕ → Handles → Transaction × Option Transaction
unfolding new
get_transaction none txn client_request_hdr = let t = new txn client_request_hdr in (t, some t)
get_transaction (some t) txn client_request_hdr = (t, some t)

-- What a handler of events does.
pub data Action : Type 0 where
  lock unlock : ℕ → Action
  delete_plugin : ℕ → Action
  delete_transaction reset_client_url reenable assertion_failed : Action
  invoke : ℕ → Handler → Action

module _ (mutex_of : ℕ → ℕ) where
  -- The loop at TXN_CLOSE.
  unfoldable pub delete_plugins : List ℕ → List Action
  delete_plugins [] = []
  delete_plugins (p ∷ ps) =
      lock (mutex_of p) ∷ delete_plugin p ∷ unlock (mutex_of p) ∷ delete_plugins ps

  -- handleTransactionEvents; the object is `none` once it is deleted. `fetch` is what Traffic
  -- Server's getters give for an entity at this event.
  unfoldable pub handle_transaction_events :
      (Entity → Option Handles) → Event → Transaction → List Action × Option Transaction
  unfolding delete_plugins init_server_request init_server_response init_client_response
  handle_transaction_events fetch post_remap t = (reset_client_url ∷ reenable ∷ [], some t)
  handle_transaction_events fetch send_request_hdr t =
      (reenable ∷ [], some (init_server_request (fetch server_request) t))
  handle_transaction_events fetch read_response_hdr t =
      (reenable ∷ [], some (init_server_response (fetch server_response) t))
  handle_transaction_events fetch send_response_hdr t =
      (reenable ∷ [], some (init_client_response (fetch client_response) t))
  handle_transaction_events fetch txn_close t =
      (delete_plugins t.plugins ++ delete_transaction ∷ reenable ∷ [], none)
  handle_transaction_events fetch _ t = (assertion_failed ∷ [], some t)

  -- ::invokePluginForEvent
  unfoldable pub invoke_plugin_for_event : ℕ → Event → List Action
  invoke_plugin_for_event plugin event = elim (invoked_handler event) [
    | none ↦ assertion_failed ∷ []
    | some handler ↦ invoke plugin handler ∷ []
  ]

  -- handleTransactionPluginEvents, with the scoped lock of the plugin's mutex.
  unfoldable pub handle_transaction_plugin_events : ℕ → Event → List Action
  unfolding invoke_plugin_for_event
  handle_transaction_plugin_events plugin event =
      lock (mutex_of plugin)
      ∷ (invoke_plugin_for_event plugin event ++ unlock (mutex_of plugin) ∷ [])

  -- handleGlobalPluginEvents
  unfoldable pub handle_global_plugin_events : Bool → Bool → ℕ → Event → List Action
  unfolding invoke_plugin_for_event
  handle_global_plugin_events ignore_internal_transactions is_internal plugin event =
      if ignore_internal_transactions && is_internal
      then reenable ∷ []
      else invoke_plugin_for_event plugin event
