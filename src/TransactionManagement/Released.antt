-- ===== src/TransactionManagement/Released.antt =====
-- What the destructor of a transaction releases.
use atscppapi.Common.{ℕ, ◌≡◌, Option, none, some, List, [], ◌∷◌}
use atscppapi.Hooks.{Event}
use atscppapi.TransactionManagement.{Transaction, Handles, Entity}

-- Neither handle is null.
abbrev pub IsFull : Handles → Type 0
IsFull h = (buf : ℕ) × ((loc : ℕ) × ((h.hdr_buf ≡ some buf) × (h.hdr_loc ≡ some loc)))

abbrev pub AllFull : Option Handles → Type 0
AllFull none = Unit
AllFull (some h) = IsFull h

-- What Traffic Server's getters give at each event, where they succeed, is not null.
abbrev pub GivesFull : List ((Entity → Option Handles) × Event) → Type 0
GivesFull [] = Unit
GivesFull ((fetch, e) ∷ es) = ((x : Entity) → AllFull (fetch x)) × GivesFull es

abbrev pub given : Option Handles → List Handles
given none = []
given (some h) = h ∷ []

record IsWhole (t : Transaction) : Type 0 where
  server_request : AllFull t.server_request
  server_response : AllFull t.server_response
  client_response : AllFull t.client_response
