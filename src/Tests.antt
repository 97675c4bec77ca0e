-- ===== src/Tests.antt =====
-- Concrete runs of the models, and the theorems at concrete inputs. The interfaces to Traffic Server
-- are filled with small functions here.
mod HeaderText
mod HeaderFields
mod HeaderState
mod Responses
mod Urls
mod Requests
mod Plugins
mod Streams
mod Gzip
mod Deflates
mod Locks
mod Dispatches
mod Addresses
mod Transactions
mod Fetches
