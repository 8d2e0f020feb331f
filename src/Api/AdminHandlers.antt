-- ===== src/Api/AdminHandlers.antt =====
-- api/admin_handlers.hpp and admin_handlers.cpp, and api/auth_handlers.hpp and auth_handlers.cpp: the
-- administration of transactions and sessions, and the two token routes. The technical log is not
-- modelled.
use ot_sec_file_transfer.Base.{
  ℕ, ◌+◌, ◌*◌, ◌^◌, ◌≡◌, Bool, true, false, not, ◌||◌, List, [], ◌∷◌, ◌++◌, Option, none, some,
  if◌then◌else◌, Text, Dict, codes, same, precedes, is_empty, length, leb, ltb, ◌==◌, lookup,
  Result, ok, err, internal, validation, notfound, or_fail, fail_if,
}
use ot_sec_file_transfer.Base
use ot_sec_file_transfer.Common.Numbers.{from_chars}
use ot_sec_file_transfer.Common.Times.{parse_iso8601}
use ot_sec_file_transfer.Transaction.Types.{Transaction, State, to_string, parse_state}
use ot_sec_file_transfer.Transaction.Service.Core.{BizEvent, BizEventType, record_event}
use ot_sec_file_transfer.Transaction.Service.Core
use ot_sec_file_transfer.Transaction.Service.Removing
use ot_sec_file_transfer.Transaction.Service.Reading
use ot_sec_file_transfer.Transaction.Service.Reading.{AdminFilter}
use ot_sec_file_transfer.Auth.Sessions
use ot_sec_file_transfer.Auth.Sessions.{Scope, user, admin, SessionInfo, IssuedToken}
use ot_sec_file_transfer.Auth.Authenticator.{issue_token, revoke_token}
use ot_sec_file_transfer.Api.Json.{
  decode_retention, encode_admin_transaction, encode_admin_transaction_list, encode_token,
  encode_status, encode_sessions, encode_revoked,
}
use ot_sec_file_transfer.Api.Handlers.{id_param}
use ot_sec_file_transfer.Api.Context.{
  App, RequestContext, Handler, Response, json_response, no_content, in_service, read_service,
  in_guard, lift, ◌>>=◌, ◌>>◌,
}

-- The query value, when there is one.
unfoldable pub time_query : RequestContext → Text → Result (Option ℕ)
time_query ctx key = elim (lookup key ctx.query) [
  | none ↦ ok none
  | some text ↦ elim (parse_iso8601 text) [ err e ↦ err validation | ok ts ↦ ok (some ts) ]
]

abbrev pub state_query : Option Text → Result (Option State)
state_query none = ok none
state_query (some text) = elim (parse_state text) [ err e ↦ err e | ok state ↦ ok (some state) ]

abbrev pub text_or : Option Text → Text → Text
text_or none default = default
text_or (some text) default = text

unfoldable pub filter_from : RequestContext → Result AdminFilter
filter_from ctx = Base.◌>>=◌ (state_query (lookup (codes "state") ctx.query)) λ state.
    Base.◌>>=◌ (time_query ctx (codes "from")) λ from.
      Base.◌>>=◌ (time_query ctx (codes "to")) λ to. ok (record {
        user = text_or (lookup (codes "user") ctx.query) [];
        state = state;
        from = from;
        to = to;
      })

-- `++map[key]` on a `std::map`, which is sorted by its keys.
unfoldable pub increment : Text → Dict ℕ → Dict ℕ
increment key [] = (key, 1) ∷ []
increment key ((k, n) ∷ counts) =
    if same k key
    then (k, n + 1) ∷ counts
    else (if precedes key k then (key, 1) ∷ (k, n) ∷ counts else (k, n) ∷ increment key counts)

unfoldable pub count_states : List Transaction → Dict ℕ → Dict ℕ
count_states [] counts = counts
count_states (tx ∷ txs) counts = count_states txs (increment (to_string tx.state) counts)

-- The lines of the log, each with its end.
unfoldable pub join_lines : List Text → Text
join_lines [] = []
join_lines (line ∷ lines) = line ++ 10 ∷ join_lines lines

-- The query value "limit".
unfoldable pub limit_of : Option Text → ℕ → ℕ → Result ℕ
limit_of none default max_lines = ok default
limit_of (some text) default max_lines = elim (from_chars (2 ^ 64) text) [
  | none ↦ err validation
  | some limit ↦ if limit == 0 || ltb max_lines limit then err validation else ok limit
]

abbrev pub time_or : Option ℕ → ℕ → ℕ
time_or none default = default
time_or (some t) default = t

abbrev pub with_header : Text → Text → Response → Response
with_header name value res = record res { headers = res.headers ++ (name, value) ∷ [] }

module _ {S U D : Type 0} (app : App S U D) where
  -- `AdminHandlers::login` and `AuthHandlers::login`, which differ in the scope of the token.
  unfoldable pub login : Scope → RequestContext → Handler S D Response
  login scope ctx = do
    issued ← in_guard (
        issue_token app.session_options app.sha256 ctx.request.random ctx.caller.name scope
          ctx.request.now)
    lift (
        ok (
          with_header (codes "Cache-Control") (codes "no-store") (
            json_response 200
              (encode_token app.json issued.token ctx.caller.name issued.expires_at))))

  -- `AdminHandlers::logout` and `AuthHandlers::logout`.
  unfoldable pub logout : RequestContext → Handler S D Response
  logout ctx = do
    in_guard (λ g. (ok tt, revoke_token app.session_options app.sha256 ctx.request.authorization g))
    lift (ok no_content)

  unfoldable pub list : RequestContext → Handler S D Response
  list ctx = do
    filter ← lift (filter_from ctx)
    txs ← read_service (Reading.admin_list ctx.caller filter)
    lift (ok (json_response 200 (encode_admin_transaction_list app.json txs)))

  unfoldable pub get : RequestContext → Handler S D Response
  get ctx = do
    id ← lift (id_param ctx)
    found ← read_service (Reading.admin_get ctx.caller id)
    tx ← lift found
    lift (ok (json_response 200 (encode_admin_transaction app.json tx)))

  unfoldable pub remove : RequestContext → Handler S D Response
  remove ctx = do
    id ← lift (id_param ctx)
    in_service (Removing.admin_delete app.service ctx.caller id)
    lift (ok no_content)

  unfoldable pub retention : RequestContext → Handler S D Response
  retention ctx = do
    id ← lift (id_param ctx)
    body ← lift (ctx.request.read_body_string app.admin_options.max_json_bytes)
    days ← lift (decode_retention app.json body)
    tx ← in_service (Removing.set_retention app.service ctx.caller id days)
    lift (ok (json_response 200 (encode_admin_transaction app.json tx)))

  live_sessions : ℕ → Handler S D (List SessionInfo)
  live_sessions now = in_guard λ g.
      let listed = Sessions.list app.session_options now g.sessions in
      (ok listed.0, record g { sessions = listed.1 })

  unfoldable pub status : RequestContext → Handler S D Response
  unfolding live_sessions
  status ctx = do
    outgoing ← read_service Reading.list_outgoing
    sessions ← live_sessions ctx.request.now
    txs ←
        read_service (
          Reading.admin_list ctx.caller
            (record { user = []; state = none; from = none; to = none }))
    lift (
        ok (
          json_response 200 (
            encode_status app.json (record {
              instance = app.admin_options.instance;
              version = app.admin_options.version;
              auth_provider = app.admin_options.auth_provider;
              started_at = app.started_at;
              now = ctx.request.now;
              peers = app.admin_options.peers;
              transactions = count_states txs [];
              outgoing = length outgoing;
              sessions = length sessions;
            }))))

  unfoldable pub sessions : RequestContext → Handler S D Response
  unfolding live_sessions
  sessions ctx = do
    live ← live_sessions ctx.request.now
    lift (ok (json_response 200 (encode_sessions app.json live)))

  unfoldable pub revoked_event : Text → Core.Caller → BizEvent
  revoked_event name caller = record {
    type = BizEventType.sessions_revoked;
    tx = none;
    actor = caller.name;
    subject = name;
    from_user = [];
    to_user = [];
    to_server = [];
    file = none;
    size = none;
    sha256 = none;
    file_count = none;
    total_bytes = none;
    retention_days = none;
  }

  unfoldable pub revoke_user : RequestContext → Handler S D Response
  revoke_user ctx = do
    name ← lift (or_fail (lookup (codes "user") ctx.params) internal)
    count ← in_guard λ g.
        let ended = Sessions.revoke_user name g.sessions in
        (ok ended.0, record g { sessions = ended.1 })
    in_service (record_event (revoked_event name ctx.caller))
    lift (ok (json_response 200 (encode_revoked app.json name count)))

  unfoldable pub log : RequestContext → Handler S D Response
  log ctx = do
    lift (fail_if (is_empty app.admin_options.business_log) notfound)
    from_query ← lift (time_query ctx (codes "from"))
    from ← lift (or_fail from_query validation)
    to ← lift (time_query ctx (codes "to"))
    limit ← lift (
        limit_of (lookup (codes "limit") ctx.query) app.admin_options.default_log_lines
          app.admin_options.max_log_lines)
    lines ←
        lift (
          app.read_log app.admin_options.business_log from (time_or to (ctx.request.now + 1)) limit)
    let res = json_response 200 (join_lines lines)
    lift (ok (record res { content_type = codes "application/x-ndjson" }))
