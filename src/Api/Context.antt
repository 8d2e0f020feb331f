-- ===== src/Api/Context.antt =====
-- api/http.hpp, router.hpp and the adapter `HeaderAuthenticator` of app/main/main.cpp: what a handler
-- reads and what it may change. A handler that returns early with `fail` is a chain of results,
-- which `answer` turns into the one response; what is read from the connection is part of the request.
use ot_sec_file_transfer.Base.{
  ℕ, Bool, true, false, List, [], ◌∷◌, Option, if◌then◌else◌, Text, Dict, codes, ErrCode, forbidden,
  notfound, Result, ok, err, Void,
}
use ot_sec_file_transfer.Common.Json.{JsonText}
use ot_sec_file_transfer.Transaction.Service.Core.{Caller, Service, Server, M}
use ot_sec_file_transfer.Auth.Sessions.{SessionOptions}
use ot_sec_file_transfer.Auth.Limiter.{LimiterOptions}
use ot_sec_file_transfer.Auth.Authenticator.{Guard, Peer}
use ot_sec_file_transfer.Api.Http.{status_for}
use ot_sec_file_transfer.Api.Json.{PeerView}

-- The `detail` of `error_body`: a text that the code of the API gives, or the one that the error came
-- with, which is no part of the model's errors.
pub data Detail : Type 0 where
  of_error : Detail
  given : Text → Detail

-- A body is a text, or `error_body`.
pub data Body : Type 0 where
  text : Text → Body
  error : ErrCode → Detail → Body

pub record Response : Type 0 where
  pub status : ℕ
  pub body : Body
  pub content_type : Text
  pub headers : List (Text × Text)

unfoldable pub json_response : ℕ → Text → Response
json_response status body = record {
  status = status;
  body = text body;
  content_type = codes "application/json";
  headers = [];
}

unfoldable pub error_response : ErrCode → Detail → Response
error_response e detail = record {
  status = status_for e;
  body = error e detail;
  content_type = codes "application/json";
  headers = [];
}

unfoldable pub no_content : Response
no_content = record { status = 204; body = text []; content_type = []; headers = [] }

-- The calls of `Exchange` that answer a request.
pub data Answer (D : Type 0) : Type 0 where
  send : Response → Answer D
  send_file : D → List ℕ → Answer D

-- A request with what the calls on its exchange return: `read_body_string` for each limit, the
-- chunks of `read_body` before its 0, and `send_file`. `now`, `fresh_id` and `random` are what the clock, the generator of
-- identifiers and `RAND_bytes` give.
pub record Request : Type 0 where
  pub method : ℕ
  pub target : Text
  pub authorization : Text
  pub checksum : Text
  pub source : Text
  pub read_body_string : ℕ → Result Text
  pub chunks : List (Result Text)
  pub file_sent : Void
  pub now : ℕ
  pub fresh_id : Text
  pub random : Option (List ℕ)

pub record RequestContext : Type 0 where
  pub request : Request
  pub caller : Caller
  pub params : Dict Text
  pub query : Dict Text

pub record AdminOptions : Type 0 where
  pub business_log : Text
  pub default_log_lines : ℕ
  pub max_log_lines : ℕ
  pub max_json_bytes : ℕ
  pub instance : Text
  pub version : Text
  pub auth_provider : Text
  pub peers : List PeerView

-- The state of a server, and the answers to the request, newest first.
pub record World (S D : Type 0) : Type 0 where
  pub server : Server S
  pub guard : Guard
  pub sent : List (Answer D)

-- The parts that the handlers and the dispatcher refer to. `read_log` is `read_business_log`.
pub record App (S U D : Type 0) : Type 0 where
  pub service : Service S U D
  pub json : JsonText
  pub max_json_bytes : ℕ
  pub admin_options : AdminOptions
  pub started_at : ℕ
  pub read_log : Text → ℕ → ℕ → ℕ → Result (List Text)
  pub session_options : SessionOptions
  pub limiter_options : LimiterOptions
  pub sha256 : Text → Result (List ℕ)
  pub directory : Text → Text → Result Text
  pub is_member : Text → Text → Bool
  pub admin_group : Text
  pub accepted : List Peer

abbrev pub Handler : Type 0 → Type 0 → Type 0 → Type 0
Handler S D A = World S D → Result A × World S D

abbrev pub resume :
    {S D A B : Type 0} → Result A × World S D → (A → Handler S D B) → Result B × World S D
resume (ok a, w) f = f a w
resume (err e, w) f = (err e, w)

infixl 5 ◌>>=◌ ◌>>◌
abbrev pub ◌>>=◌ : {S D A B : Type 0} → Handler S D A → (A → Handler S D B) → Handler S D B
◌>>=◌ m f w = resume (m w) f

abbrev pub ◌>>◌ : {S D B : Type 0} → Handler S D (Unit {0}) → Handler S D B → Handler S D B
◌>>◌ m k = ◌>>=◌ m (λ _. k)

abbrev pub lift : {S D A : Type 0} → Result A → Handler S D A
lift r w = (r, w)

abbrev pub in_service : {S D A : Type 0} → M S A → Handler S D A
in_service m w = ((m w.server).0, record w { server = (m w.server).1 })

abbrev pub read_service : {S D A : Type 0} → (Server S → A) → Handler S D A
read_service m w = (ok (m w.server), w)

abbrev pub in_guard : {S D A : Type 0} → (Guard → Result A × Guard) → Handler S D A
in_guard m w = ((m w.guard).0, record w { guard = (m w.guard).1 })

abbrev pub responded : {S D : Type 0} → World S D → Bool
responded w = elim w.sent [ [] ↦ false | _ ∷ _ ↦ true ]

abbrev pub respond : {S D : Type 0} → Answer D → World S D → World S D
respond a w = record w { sent = a ∷ w.sent }

-- `AdminHandlers::fail`
unfoldable pub fail : {S D : Type 0} → ErrCode → World S D → World S D
fail e w = if responded w then w else respond (send (error_response e of_error)) w

-- What `TransactionHandlers::fail` sends.
unfoldable pub hidden : ErrCode → Response
unfolding error_response
hidden forbidden = error_response notfound (given (codes "no such transaction"))
hidden e = error_response e of_error

-- `TransactionHandlers::fail`
unfoldable pub fail_hidden : {S D : Type 0} → ErrCode → World S D → World S D
fail_hidden e w = if responded w then w else respond (send (hidden e)) w

abbrev pub finished :
    {S D : Type 0} → (ErrCode → World S D → World S D) → Result Response × World S D → World S D
finished failed (err e, w) = failed e w
finished failed (ok response, w) = respond (send response) w

-- The end of a handler: `fail` after an early return, or the response.
unfoldable pub answer :
    {S D : Type 0}
    → (ErrCode → World S D → World S D)
    → Handler S D Response
    → World S D
    → World S D
answer failed handler w = finished failed (handler w)
