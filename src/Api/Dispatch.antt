-- ===== src/Api/Dispatch.antt =====
-- api/server/dispatch.cpp: from a request to the handler of its route, with `HeaderAuthenticator` of
-- app/main/main.cpp. Where an exception of the code below a handler leaves the request, if one is
-- thrown, is the parameter `thrown`.
pub mod Guarding
pub mod Hiding
use ot_sec_file_transfer.Base.{
  ℕ, ◌≡◌, Bool, true, false, not, List, [], ◌∷◌, ◌++◌, Option, none, some, if◌then◌else◌, Text,
  codes, ErrCode, auth, conflict, internal, Result, ok, err,
}
use ot_sec_file_transfer.Transaction.Service.Core.{Caller}
use ot_sec_file_transfer.Auth.Sessions
use ot_sec_file_transfer.Auth.Authenticator.{
  Guard, is_auth, authenticate_user, authenticate_password, authenticate_peer, authenticate_admin,
  authenticate_admin_password,
}
use ot_sec_file_transfer.Api.Router.{
  Access, user, password, peer, admin, admin_password, Entry, Match, match,
}
use ot_sec_file_transfer.Api.Context.{
  App, Request, RequestContext, World, Response, send, error_response, of_error, given, respond,
  responded, fail, fail_hidden, answer,
}
use ot_sec_file_transfer.Api.Handlers
use ot_sec_file_transfer.Api.AdminHandlers
use ot_sec_file_transfer.Api.Routes.{
  Endpoint, create, list, get, commit, list_files, upload, download, remove_file, receive, login,
  logout, admin_login, admin_logout, admin_list, admin_get, admin_remove, retention, status,
  sessions, revoke_user, log,
}

unfoldable pub caller_of : Bool → Bool → Result Text → Result Caller
caller_of is_peer is_admin (err e) = err e
caller_of is_peer is_admin (ok name) =
    ok (record { name = name; is_peer = is_peer; is_admin = is_admin })

-- The status of a request that no route takes.
unfoldable pub unmatched : ErrCode → Response
unmatched conflict = record (error_response conflict of_error) { status = 405 }
unmatched e = error_response e of_error

abbrev pub realm : Access → Text
realm peer = codes "Bearer realm=\"confide-peer\""
realm _ = codes "Basic realm=\"confide\""

-- The response to a caller that is not accepted.
unfoldable pub refused : Access → ErrCode → Response
refused access e =
    let res = error_response e of_error in
    if is_auth e
    then record res { headers = res.headers ++ (codes "WWW-Authenticate", realm access) ∷ [] }
    else res

module _ {S U D : Type 0} (app : App S U D) where
  unfoldable pub authenticate : Access → Request → Guard → Result Caller × Guard
  unfolding caller_of
  authenticate access req g =
      let by_password =
        authenticate_password app.limiter_options app.directory req.authorization req.source req.now
          g in
      let by_user =
        authenticate_user app.session_options app.sha256 app.limiter_options app.directory
          req.authorization req.source req.now g in
      let by_admin =
        authenticate_admin app.session_options app.sha256 app.limiter_options app.directory
          app.is_member app.admin_group req.authorization req.source req.now g in
      let by_admin_password =
        authenticate_admin_password app.session_options app.sha256 app.limiter_options app.directory
          app.is_member app.admin_group req.authorization req.source req.now g in
      elim access [
        | peer ↦
            (caller_of true false (authenticate_peer app.accepted app.sha256 req.authorization), g)
        | password ↦ (caller_of false false by_password.0, by_password.1)
        | admin ↦ (caller_of false true by_admin.0, by_admin.1)
        | admin_password ↦ (caller_of false true by_admin_password.0, by_admin_password.1)
        | user ↦ (caller_of false false by_user.0, by_user.1)
      ]

  -- `route.handler(ctx)`
  unfoldable pub handle : Endpoint → RequestContext → World S D → World S D
  handle create ctx = answer fail_hidden (Handlers.create app ctx)
  handle list ctx = answer fail_hidden (Handlers.list app ctx)
  handle get ctx = answer fail_hidden (Handlers.get app ctx)
  handle commit ctx = answer fail_hidden (Handlers.commit app ctx)
  handle list_files ctx = answer fail_hidden (Handlers.list_files app ctx)
  handle upload ctx = answer fail_hidden (Handlers.upload app ctx)
  handle download ctx = Handlers.download app ctx
  handle remove_file ctx = answer fail_hidden (Handlers.remove_file app ctx)
  handle receive ctx = answer fail_hidden (Handlers.receive app ctx)
  handle login ctx =
      answer (λ e. respond (send (error_response e of_error)))
        (AdminHandlers.login app Sessions.user ctx)
  handle logout ctx = answer fail (AdminHandlers.logout app ctx)
  handle admin_login ctx = answer fail (AdminHandlers.login app Sessions.admin ctx)
  handle admin_logout ctx = answer fail (AdminHandlers.logout app ctx)
  handle admin_list ctx = answer fail (AdminHandlers.list app ctx)
  handle admin_get ctx = answer fail (AdminHandlers.get app ctx)
  handle admin_remove ctx = answer fail (AdminHandlers.remove app ctx)
  handle retention ctx = answer fail (AdminHandlers.retention app ctx)
  handle status ctx = answer fail (AdminHandlers.status app ctx)
  handle sessions ctx = answer fail (AdminHandlers.sessions app ctx)
  handle revoke_user ctx = answer fail (AdminHandlers.revoke_user app ctx)
  handle log ctx = answer fail (AdminHandlers.log app ctx)

module _ {S U D : Type 0} (app : App S U D)
    (thrown : Endpoint → RequestContext → World S D → Option (World S D)) where
  -- `route.handler(ctx)` up to its end or to an exception.
  unfoldable pub run_handler : Endpoint → RequestContext → World S D → World S D
  run_handler endpoint ctx w = elim (thrown endpoint ctx w) [
    | none ↦ handle app endpoint ctx w
    | some broken ↦ broken
  ]

  -- After the handler: a request that is not answered gets a 500.
  unfoldable pub answered : World S D → World S D
  answered w =
      if responded w
      then w
      else respond (send (error_response internal (given (codes "internal error")))) w

  unfoldable pub run_route : Option Endpoint → RequestContext → World S D → World S D
  unfolding answered run_handler
  run_route none ctx w = answered w
  run_route (some endpoint) ctx w = answered (run_handler endpoint ctx w)

  unfoldable pub serve_match : Request → World S D → Match Endpoint → World S D
  unfolding refused run_route
  serve_match req w found =
      let (caller, g) = authenticate app found.route.access req w.guard in
      let w' = record w { guard = g } in
      elim caller [
        | err e ↦ respond (send (refused found.route.access e)) w'
        | ok accepted ↦
            run_route found.route.handler
              (record {
                request = req;
                caller = accepted;
                params = found.params;
                query = found.query;
              })
              w'
      ]

  unfoldable pub dispatch : List (Entry Endpoint) → Request → World S D → World S D
  unfolding unmatched serve_match
  dispatch router req w = elim (match req.method req.target router) [
    | err e ↦ respond (send (unmatched e)) w
    | ok found ↦ serve_match req w found
  ]
