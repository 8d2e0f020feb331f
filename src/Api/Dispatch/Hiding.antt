-- ===== src/Api/Dispatch/Hiding.antt =====
-- `forbidden` from the service is answered as 404.
use ot_sec_file_transfer.Base.{
  ℕ, ◌≡◌, arith, Bool, true, false, not, ◌||◌, List, [], ◌∷◌, Option, none, some, codes, notfound,
  ◌==◌,
}
use ot_sec_file_transfer.Transaction.Types.{Transaction}
use ot_sec_file_transfer.Transaction.Service.Reading
use ot_sec_file_transfer.Transaction.Service.Uploading
use ot_sec_file_transfer.Transaction.Service.Committing
use ot_sec_file_transfer.Api.Http.{status_for}
use ot_sec_file_transfer.Api.Context.{
  App, RequestContext, World, Answer, send, send_file, answer, Response, error_response, of_error,
  given, fail_hidden, hidden, json_response, no_content,
}
use ot_sec_file_transfer.Api.Handlers
use ot_sec_file_transfer.Api.Routes.{
  Endpoint, create, list, get, commit, list_files, upload, download, remove_file, receive,
}
use ot_sec_file_transfer.Api.Dispatch.{handle}

-- The handlers of `TransactionHandlers`.
unfoldable pub is_transaction_endpoint : Endpoint → Bool
is_transaction_endpoint create = true
is_transaction_endpoint list = true
is_transaction_endpoint get = true
is_transaction_endpoint commit = true
is_transaction_endpoint list_files = true
is_transaction_endpoint upload = true
is_transaction_endpoint download = true
is_transaction_endpoint remove_file = true
is_transaction_endpoint receive = true
is_transaction_endpoint _ = false

abbrev pub status_of : {D : Type 0} → Answer D → ℕ
status_of (send res) = res.status
status_of (send_file file sha256) = 200

unfoldable pub has_status : {D : Type 0} → ℕ → List (Answer D) → Bool
has_status n [] = false
has_status n (a ∷ sent) = status_of a == n || has_status n sent

module _ {S U D : Type 0} (app : App S U D) where
  -- No handler of transactions answers with 403.
  pub handle_hides_forbidden :
      (e : Endpoint) (ctx : RequestContext) (w : World S D)
      → is_transaction_endpoint e ≡ true
      → w.sent ≡ []
      → has_status 403 (handle app e ctx w).sent ≡ false
  unfolding handle answer fail_hidden hidden error_response status_for json_response no_content
      is_transaction_endpoint has_status Handlers.create Handlers.list Handlers.get Handlers.commit
      Handlers.list_files Handlers.upload Handlers.find_download Handlers.download
      Handlers.remove_file Handlers.receive
  handle_hides_forbidden create ctx w t h = ground arith
  handle_hides_forbidden list ctx w t h = ground arith
  handle_hides_forbidden get ctx w t h = ground arith
  handle_hides_forbidden commit ctx w t h = ground arith
  handle_hides_forbidden list_files ctx w t h = ground arith
  handle_hides_forbidden upload ctx w t h = ground arith
  handle_hides_forbidden download ctx w t h = ground arith
  handle_hides_forbidden remove_file ctx w t h = ground arith
  handle_hides_forbidden receive ctx w t h = ground arith
  handle_hides_forbidden _ ctx w t h = ground arith

abbrev pub reads : Endpoint → Bool
reads get = true
reads list_files = true
reads download = true
reads _ = false

abbrev pub writes : Endpoint → Bool
writes commit = true
writes upload = true
writes remove_file = true
writes _ = false

-- There is no such transaction, or one that the caller may not use.
abbrev pub is_denied : (Transaction → Bool) → Option Transaction → Bool
is_denied may none = true
is_denied may (some tx) = not (may tx)

-- A 404 with the detail of the error that the service gives where there is no such transaction, or
-- with the detail of `TransactionHandlers::fail` where there is one.
abbrev pub refusal : Option Transaction → Response
refusal none = error_response notfound of_error
refusal (some tx) = error_response notfound (given (codes "no such transaction"))
