-- ===== src/TransactionManagement/Lifetime.antt =====
-- Deletion under locks, handles that are fetched once, and context values.
use atscppapi.Common.{
  append-nil, ◌∙◌, ℕ, Bytes, ◌≡◌, refl, ap, Bool, true, false, ◌&&◌, ◌++◌, ◌==◌, Option, none, some,
  List, [], ◌∷◌, arith, if◌then◌else◌,
}
use atscppapi.StdString.{string_less}
use atscppapi.StdMap.{equiv}
use atscppapi.StdMap.Laws.{IsSorted, find-insert, find-modify, equiv_refl}
use atscppapi.Comparator.Order.{string_less-IsStrictWeakOrder}
use atscppapi.Hooks.{
  Event, txn_close, invoked_handler, post_remap, send_request_hdr, read_response_hdr,
  send_response_hdr,
}
use atscppapi.TransactionManagement.{
  Transaction, Handles, Entity, Action, lock, unlock, delete_plugin, invoke, delete_plugins,
  handle_transaction_events, handle_transaction_plugin_events, invoke_plugin_for_event,
  get_context_value, set_context_value, initialize_handles, init_server_request,
  init_server_response, init_client_response,
}

abbrev pub holds : Option ℕ → ℕ → Bool
holds none m = false
holds (some n) m = n == m

-- Plugins are deleted and called only with their mutex held, a lock is only taken when none is
-- held, and none is held at the end.
unfoldable pub guarded : (ℕ → ℕ) → Option ℕ → List Action → Bool
guarded mutex_of none [] = true
guarded mutex_of (some m) [] = false
guarded mutex_of none (lock m ∷ acts) = guarded mutex_of (some m) acts
guarded mutex_of (some n) (lock m ∷ acts) = false
guarded mutex_of held (unlock m ∷ acts) = holds held m && guarded mutex_of none acts
guarded mutex_of held (delete_plugin p ∷ acts) =
    holds held (mutex_of p) && guarded mutex_of held acts
guarded mutex_of held (invoke p h ∷ acts) = holds held (mutex_of p) && guarded mutex_of held acts
guarded mutex_of held (_ ∷ acts) = guarded mutex_of held acts

-- The plugins that a list of actions deletes.
unfoldable pub deleted : List Action → List ℕ
deleted [] = []
deleted (delete_plugin p ∷ acts) = p ∷ deleted acts
deleted (_ ∷ acts) = deleted acts

same_number : (m : ℕ) → (m == m) ≡ true
same_number m = ground arith

module _ (mutex_of : ℕ → ℕ) where
  guarded-delete_plugins :
      (ps : List ℕ) (acts : List Action)
      → guarded mutex_of none acts ≡ true
      → guarded mutex_of none (delete_plugins mutex_of ps ++ acts) ≡ true
  unfolding guarded delete_plugins
  guarded-delete_plugins [] acts h = h
  guarded-delete_plugins (p ∷ ps) acts h =
      rw (same_number (mutex_of p)) (guarded-delete_plugins ps acts h)

  deleted-delete_plugins :
      (ps : List ℕ) (acts : List Action)
      → deleted (delete_plugins mutex_of ps ++ acts) ≡ ps ++ deleted acts
  unfolding deleted delete_plugins
  deleted-delete_plugins [] acts = refl
  deleted-delete_plugins (p ∷ ps) acts = ap (◌∷◌ p) (deleted-delete_plugins ps acts)

  -- When a transaction closes, each of its plugins is deleted once, in the order in which they
  -- were added and with its own mutex held, no mutex stays locked, and the object is gone.
  pub close_deletes :
      (fetch : Entity → Option Handles) (t : Transaction)
      → let (actions, rest) = handle_transaction_events mutex_of fetch txn_close t in
        (deleted actions ≡ t.plugins) × (guarded mutex_of none actions ≡ true) × (rest ≡ none)
  unfolding handle_transaction_events guarded deleted
  close_deletes fetch t = (
    deleted-delete_plugins t.plugins _ ∙ append-nil t.plugins,
    guarded-delete_plugins t.plugins _ refl,
    refl,
  )

  -- A transaction plugin is called with its mutex held, for every event that calls it.
  guarded-transaction_plugin :
      (plugin : ℕ) (event : Event)
      → guarded mutex_of none (handle_transaction_plugin_events mutex_of plugin event) ≡ true
  unfolding handle_transaction_plugin_events invoke_plugin_for_event invoked_handler guarded
  guarded-transaction_plugin plugin event = ground arith

  -- The events of a transaction one after the other, each with what Traffic Server's getters give
  -- at it; what follows the deletion of the object does not count.
  unfoldable pub run : Transaction → List ((Entity → Option Handles) × Event) → Transaction
  unfolding handle_transaction_events
  run t [] = t
  run t ((fetch, e) ∷ es) = elim (handle_transaction_events mutex_of fetch e t).1 [
    | none ↦ t
    | some t' ↦ run t' es
  ]

-- Either nothing was fetched, or the object has the handles that are released at the end.
abbrev pub IsLinked : Handles → Option Handles → Type 0
IsLinked h none = (h.hdr_buf ≡ none) × (h.hdr_loc ≡ none)
IsLinked h (some k) = k ≡ h

pub record IsCoherent (t : Transaction) : Type 0 where
  pub server_request : IsLinked t.server_request_hdr t.server_request
  pub server_response : IsLinked t.server_response_hdr t.server_response
  pub client_response : IsLinked t.client_response_hdr t.client_response

init_server_request-IsCoherent :
    (f : Option Handles) (t : Transaction) → IsCoherent t → IsCoherent (init_server_request f t)
unfolding init_server_request initialize_handles
init_server_request-IsCoherent f t c = ground arith

init_server_response-IsCoherent :
    (f : Option Handles) (t : Transaction) → IsCoherent t → IsCoherent (init_server_response f t)
unfolding init_server_response initialize_handles
init_server_response-IsCoherent f t c = ground arith

init_client_response-IsCoherent :
    (f : Option Handles) (t : Transaction) → IsCoherent t → IsCoherent (init_client_response f t)
unfolding init_client_response initialize_handles
init_client_response-IsCoherent f t c = ground arith

-- The object for each entity has exactly the handles that the transaction holds for it and will
-- release, after any events.
pub run-IsCoherent :
    (mutex_of : ℕ → ℕ) (t : Transaction) (es : List ((Entity → Option Handles) × Event))
    → IsCoherent t
    → IsCoherent (run mutex_of t es)
unfolding run
run-IsCoherent mutex_of t [] c = c
run-IsCoherent mutex_of t ((fetch, post_remap) ∷ es) c = run-IsCoherent mutex_of t es c
run-IsCoherent mutex_of t ((fetch, send_request_hdr) ∷ es) c =
    run-IsCoherent mutex_of _ es (init_server_request-IsCoherent _ t c)
run-IsCoherent mutex_of t ((fetch, read_response_hdr) ∷ es) c =
    run-IsCoherent mutex_of _ es (init_server_response-IsCoherent _ t c)
run-IsCoherent mutex_of t ((fetch, send_response_hdr) ∷ es) c =
    run-IsCoherent mutex_of _ es (init_client_response-IsCoherent _ t c)
run-IsCoherent mutex_of t ((fetch, txn_close) ∷ es) c = c
run-IsCoherent mutex_of t ((fetch, _) ∷ es) c = run-IsCoherent mutex_of t es c

-- A context value is found under its key, and those under other keys stay.
get-set_context_value :
    (key j : Bytes) (value : ℕ) (t : Transaction)
    → IsSorted string_less t.context_values
    → get_context_value j (set_context_value key value t)
      ≡ (if equiv string_less key j then some value else get_context_value j t)
unfolding get_context_value set_context_value
get-set_context_value key j value t s = rw (find-modify string_less string_less-IsStrictWeakOrder) (
    ground (
      arith,
      find-insert string_less string_less-IsStrictWeakOrder key key value t.context_values s,
      find-insert string_less string_less-IsStrictWeakOrder key j value t.context_values s,
      equiv_refl string_less string_less-IsStrictWeakOrder key,
    ))
