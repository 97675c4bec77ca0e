-- ===== src/TransactionManagement/Forwarding.antt =====
-- The methods of src/Transaction.cc that call Traffic Server for the transaction, and its destructor.
use atscppapi.Common.{
  ℕ, ◌+◌, Bytes, codes, Bool, true, ◌++◌, Option, none, some, List, [], ◌∷◌, length,
}
use atscppapi.CString.{store, c_str, strncpy}
use atscppapi.TransactionManagement.{Transaction, Handles}

-- TS_EVENT_HTTP_CONTINUE and TS_EVENT_HTTP_ERROR
pub data TxnEvent : Type 0 where
  http_continue http_error : TxnEvent

-- Transaction::TimeoutType
pub data TimeoutType : Type 0 where
  timeout_dns timeout_connect timeout_no_activity timeout_active : TimeoutType

-- The functions of Traffic Server (ts/ts.h) on a transaction. A socket address is known by where it
-- is, or null.
pub record TxnApi : Type 1 where
  pub World : Type 0
  -- TSmalloc: what is in the new block
  pub malloc : ℕ → Bytes
  -- TSHttpTxnReenable
  pub reenable : World → ℕ → TxnEvent → World
  -- TSHttpTxnErrorBodySet: the body, its length and the content type, each in a block
  pub error_body_set : World → ℕ → Bytes → ℕ → Bytes → World
  -- TSHttpIsInternalRequest, TSCacheUrlSet, TSHttpTxnServerAddrSet: whether they return TS_SUCCESS
  pub is_internal_request : World → ℕ → Bool
  pub cache_url_set : World → ℕ → Bytes → Bool × World
  pub server_addr_set : World → ℕ → Option ℕ → Bool × World
  -- TSHttpTxnEffectiveUrlStringGet: the string with its length, unless it is null
  pub effective_url_string_get : World → ℕ → Option Bytes
  -- TSHttpTxnIncomingAddrGet, ClientAddrGet, NextHopAddrGet, ServerAddrGet
  pub incoming_addr_get : World → ℕ → Option ℕ
  pub client_addr_get : World → ℕ → Option ℕ
  pub next_hop_addr_get : World → ℕ → Option ℕ
  pub server_addr_get : World → ℕ → Option ℕ
  -- TSHttpTxnClientIncomingPortSet
  pub client_incoming_port_set : World → ℕ → ℕ → World
  -- TSHttpTxnDNSTimeoutSet, ConnectTimeoutSet, NoActivityTimeoutSet, ActiveTimeoutSet
  pub dns_timeout_set : World → ℕ → ℕ → World
  pub connect_timeout_set : World → ℕ → ℕ → World
  pub no_activity_timeout_set : World → ℕ → ℕ → World
  pub active_timeout_set : World → ℕ → ℕ → World

-- ~Transaction: the handles that are released, in order; those of the client's request always, the
-- others if neither is null.
unfoldable pub release_if : Handles → List Handles
release_if h = elim h.hdr_buf [
  | none ↦ []
  | some buf ↦ elim h.hdr_loc [ none ↦ [] | some loc ↦ h ∷ [] ]
]

unfoldable pub delete : Transaction → List Handles
unfolding release_if
delete t =
    t.client_request_hdr
    ∷ (release_if t.server_request_hdr
        ++ (release_if t.server_response_hdr ++ release_if t.client_response_hdr))

-- A text in a new block: the block, the copy of the text, and the zero after it. `none` is an access
-- out of bounds.
unfoldable pub copied_block : (ℕ → Bytes) → Bytes → Option Bytes
unfolding strncpy store c_str
copied_block malloc s = elim (strncpy 0 (c_str s) (length s) (malloc (length s + 1))) [
  | none ↦ none
  | some block ↦ store (length s) 0 block
]

module _ (ts : TxnApi) where
  unfoldable pub resume : Transaction → ts.World → ts.World
  resume t w = ts.reenable w t.txn http_continue

  unfoldable pub error : Transaction → ts.World → ts.World
  error t w = ts.reenable w t.txn http_error

  unfoldable pub set_error_body : Bytes → Transaction → ts.World → Option ts.World
  unfolding copied_block
  set_error_body page t w = elim (copied_block ts.malloc page) [
    | none ↦ none
    | some res_bdy ↦ elim (copied_block ts.malloc (codes "text/html")) [
      | none ↦ none
      | some content_type ↦ some (ts.error_body_set w t.txn res_bdy (length page) content_type)
    ]
  ]

  -- error(const std::string &)
  unfoldable pub error_page : Bytes → Transaction → ts.World → Option ts.World
  unfolding set_error_body error
  error_page page t w = elim (set_error_body page t w) [ none ↦ none | some w' ↦ some (error t w') ]

  unfoldable pub is_internal_request : Transaction → ts.World → Bool
  is_internal_request t w = ts.is_internal_request w t.txn

  unfoldable pub get_effective_url : Transaction → ts.World → Bytes
  get_effective_url t w = elim (ts.effective_url_string_get w t.txn) [ none ↦ [] | some buf ↦ buf ]

  unfoldable pub set_cache_url : Bytes → Transaction → ts.World → Bool × ts.World
  set_cache_url cache_url t w = ts.cache_url_set w t.txn cache_url

  unfoldable pub get_incoming_address : Transaction → ts.World → Option ℕ
  get_incoming_address t w = ts.incoming_addr_get w t.txn

  unfoldable pub get_client_address : Transaction → ts.World → Option ℕ
  get_client_address t w = ts.client_addr_get w t.txn

  unfoldable pub get_next_hop_address : Transaction → ts.World → Option ℕ
  get_next_hop_address t w = ts.next_hop_addr_get w t.txn

  unfoldable pub get_server_address : Transaction → ts.World → Option ℕ
  get_server_address t w = ts.server_addr_get w t.txn

  unfoldable pub set_server_address : Option ℕ → Transaction → ts.World → Bool × ts.World
  set_server_address sockaddress t w = ts.server_addr_set w t.txn sockaddress

  -- The result is always true.
  unfoldable pub set_incoming_port : ℕ → Transaction → ts.World → Bool × ts.World
  set_incoming_port port t w = (true, ts.client_incoming_port_set w t.txn port)

  unfoldable pub set_timeout : TimeoutType → ℕ → Transaction → ts.World → ts.World
  set_timeout timeout_dns time_ms t w = ts.dns_timeout_set w t.txn time_ms
  set_timeout timeout_connect time_ms t w = ts.connect_timeout_set w t.txn time_ms
  set_timeout timeout_no_activity time_ms t w = ts.no_activity_timeout_set w t.txn time_ms
  set_timeout timeout_active time_ms t w = ts.active_timeout_set w t.txn time_ms
