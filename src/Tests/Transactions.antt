-- ===== src/Tests/Transactions.antt =====
-- A transaction whose world keeps the last error body, and the events of one.
use atscppapi.Common.{
  ℕ, zero, suc, Bytes, codes, true, false, ◌++◌, Option, none, some, List, [], ◌∷◌, length, ◌≡◌,
  refl, arith,
}
use atscppapi.CString.{cut}
use atscppapi.Hooks.{Event, send_request_hdr, read_response_hdr, txn_close}
use atscppapi.TransactionManagement.{Transaction, Handles, Entity, new}
use atscppapi.TransactionManagement.Lifetime.{run}
use atscppapi.TransactionManagement.Forwarding.{TxnApi, set_error_body, error_page, delete}
use atscppapi.TransactionManagement.ErrorBody.{set_error_body-cut, error_page-HasNoNul}

sevens : ℕ → Bytes
sevens zero = []
sevens (suc n) = 7 ∷ sevens n

length-sevens : (n : ℕ) → length (sevens n) ≡ n
unfolding sevens
length-sevens zero = refl
length-sevens (suc n) = omega (arith, length-sevens n)

-- The last body, its length and its content type.
abbrev Body : Type 0
Body = Bytes × ℕ × Bytes

abbrev kept : TxnApi
kept = record {
  World = Body;
  malloc = sevens;
  reenable = λ w txn e. w;
  error_body_set = λ w txn body n type. (body, n, type);
  is_internal_request = λ w txn. false;
  cache_url_set = λ w txn url. (true, w);
  server_addr_set = λ w txn a. (true, w);
  effective_url_string_get = λ w txn. none;
  incoming_addr_get = λ w txn. none;
  client_addr_get = λ w txn. none;
  next_hop_addr_get = λ w txn. none;
  server_addr_get = λ w txn. none;
  client_incoming_port_set = λ w txn port. w;
  dns_timeout_set = λ w txn n. w;
  connect_timeout_set = λ w txn n. w;
  no_activity_timeout_set = λ w txn n. w;
  active_timeout_set = λ w txn n. w;
}

abbrev client : Handles
client = record { hdr_buf = some 1; hdr_loc = some 2 }

abbrev server : Handles
server = record { hdr_buf = some 3; hdr_loc = some 4 }

abbrev txn : Transaction
txn = new 9 client

abbrev no_body : Body
no_body = ([], 0, [])

-- A page with a zero in it.
abbrev torn : Bytes
torn = 60 ∷ 0 ∷ 62 ∷ []

set_error_body-cut_example :
    set_error_body kept torn txn no_body ≡ some (cut torn ++ 0 ∷ [], 3, codes "text/html" ++ 0 ∷ [])
set_error_body-cut_example = set_error_body-cut kept length-sevens torn txn no_body

error_page-HasNoNul_example :
    error_page kept (codes "no") txn no_body
    ≡ some (codes "no" ++ 0 ∷ [], 2, codes "text/html" ++ 0 ∷ [])
error_page-HasNoNul_example =
    error_page-HasNoNul kept length-sevens (codes "no") txn no_body (omega arith, (omega arith, tt))

abbrev fetches : Entity → Option Handles
fetches e = some server

abbrev events : List ((Entity → Option Handles) × Event)
events = (fetches, send_request_hdr) ∷ (fetches, read_response_hdr) ∷ (fetches, txn_close) ∷ []

abbrev at_end : Transaction
at_end = run (λ p. 0) (new 9 client) events

three_released : delete at_end ≡ client ∷ server ∷ server ∷ []
unfolding delete new run
three_released = refl
