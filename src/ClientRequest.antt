-- ===== src/ClientRequest.antt =====
-- src/ClientRequest.cc: the request of a client, and the URL that it had before remapping. What
-- TSHttpTxnPristineUrlGet gives is an argument of the getter.
pub mod Pristine
use atscppapi.Common.{ℕ, Option, none, some}
use atscppapi.Mime.{MimeApi}
use atscppapi.Url
use atscppapi.Url.{UrlApi, Url}
use atscppapi.Request
use atscppapi.Request.{Request, RequestApi}

-- ClientRequestState, and the request that it is; a transaction is known by its address.
pub record ClientRequest (mime : MimeApi) (urls : UrlApi) : Type 0 where
  pub request : Request mime urls
  pub txn : ℕ
  pub pristine_hdr_buf : Option urls.MBuffer
  pub pristine_url_loc : Option urls.MLoc
  pub pristine_url : Url urls

module _ {mime : MimeApi} {urls : UrlApi} (ts : RequestApi mime urls) where
  unfoldable pub new :
      ℕ → Option mime.MBuffer → Option mime.MLoc → mime.World → urls.World → ClientRequest mime urls
  new txn hdr_buf hdr_loc world parts = record {
    request = Request.init ts hdr_buf hdr_loc (Request.new ts world parts);
    txn = txn;
    pristine_hdr_buf = none;
    pristine_url_loc = none;
    pristine_url = Url.new none none parts;
  }

module _ {mime : MimeApi} {urls : UrlApi} where
  -- The handles that were fetched; the URL is initialized if neither is null.
  unfoldable pub fetch_pristine_url :
      Option urls.MBuffer × Option urls.MLoc → ClientRequest mime urls → ClientRequest mime urls
  fetch_pristine_url (some buf, some loc) s = record s {
    pristine_hdr_buf = some buf;
    pristine_url_loc = some loc;
    pristine_url = Url.init (some buf) (some loc) s.pristine_url;
  }
  fetch_pristine_url (buf, loc) s = record s { pristine_hdr_buf = buf; pristine_url_loc = loc }

  unfoldable pub get_pristine_url :
      Option urls.MBuffer × Option urls.MLoc
      → ClientRequest mime urls
      → Url urls × ClientRequest mime urls
  unfolding fetch_pristine_url
  get_pristine_url fetched s = elim s.pristine_url_loc [
    | some _ ↦ (s.pristine_url, s)
    | none ↦ let s' = fetch_pristine_url fetched s in (s'.pristine_url, s')
  ]

  -- What ~ClientRequest releases: a location in a buffer, without a parent.
  unfoldable pub released : ClientRequest mime urls → Option (urls.MBuffer × urls.MLoc)
  released s = elim s.pristine_url_loc [
    | none ↦ none
    | some loc ↦ elim s.pristine_hdr_buf [ none ↦ none | some buf ↦ some (buf, loc) ]
  ]
