-- ===== src/Api/Dispatch/Guarding.antt =====
-- Who reaches the handlers of the administrators, and what the others learn.
use ot_sec_file_transfer.Base.{
  before_first, after_first, ℕ, ◌≡◌, arith, Bool, true, false, not, ◌&&◌, ◌||◌, List, [], ◌∷◌,
  Option, none, some, is_empty, Text, Result-cases, inl, inr, ok,
}
use ot_sec_file_transfer.Transaction.Service.Core.{Caller}
use ot_sec_file_transfer.Auth.Authenticator.{Guard, authenticate_admin, authenticate_admin_password}
use ot_sec_file_transfer.Api.Router.{
  Access, user, password, peer, admin, admin_password, Route, Entry, Match, match, select, add,
  decode_all, split_path, or_empty,
}
use ot_sec_file_transfer.Api.Context.{App, Request}
use ot_sec_file_transfer.Api.Routes.{
  Endpoint, admin_login, admin_logout, admin_list, admin_get, admin_remove, retention, status,
  sessions, revoke_user, log, router, register, transaction_routes, auth_routes, admin_routes,
}
use ot_sec_file_transfer.Api.Dispatch.{authenticate, caller_of}

unfoldable pub every_route : {H : Type 0} → (Route H → Bool) → List (Entry H) → Bool
every_route p [] = true
every_route p (e ∷ entries) = p e.route && every_route p entries

module _ {H : Type 0} (p : Route H → Bool) where
  select-every_route :
      (method : ℕ) (segments : List Text) (query : Text) (path_matched : Bool)
      (entries : List (Entry H)) (found : Match H)
      → select method segments query path_matched entries ≡ ok found
      → every_route p entries ≡ true
      → p found.route ≡ true
  unfolding select every_route
  select-every_route method segments query path_matched [] found h q = ground arith
  select-every_route method segments query path_matched (e ∷ entries) found h q = ground (
    arith,
    select-every_route method segments query path_matched entries found,
    select-every_route method segments query true entries found,
  )

  pub match-every_route :
      (method : ℕ) (target : Text) (entries : List (Entry H)) (found : Match H)
      → match method target entries ≡ ok found
      → every_route p entries ≡ true
      → p found.route ≡ true
  unfolding match
  match-every_route method target entries found h q =
      let path = before_first b'?' target in
      elim (Result-cases (decode_all (split_path path))) [
        | inl e ↦ ground arith
        | inr (segments, e) ↦ ground (
          arith,
          select-every_route method segments (or_empty (after_first b'?' target)) false entries
              found,
        )
      ]

-- The handlers of `AdminHandlers`.
unfoldable pub is_admin_endpoint : Endpoint → Bool
is_admin_endpoint admin_login = true
is_admin_endpoint admin_logout = true
is_admin_endpoint admin_list = true
is_admin_endpoint admin_get = true
is_admin_endpoint admin_remove = true
is_admin_endpoint retention = true
is_admin_endpoint status = true
is_admin_endpoint sessions = true
is_admin_endpoint revoke_user = true
is_admin_endpoint log = true
is_admin_endpoint _ = false

abbrev pub for_admins : Access → Bool
for_admins admin = true
for_admins admin_password = true
for_admins _ = false

abbrev pub is_admin_handler : Option Endpoint → Bool
is_admin_handler none = false
is_admin_handler (some e) = is_admin_endpoint e

abbrev is_guarded : Route Endpoint → Bool
is_guarded r = not (is_admin_handler r.handler) || for_admins r.access

router-is_guarded :
    (admin_group : Text) (entries : List (Entry Endpoint))
    → router admin_group ≡ ok entries
    → every_route is_guarded entries ≡ true
unfolding router every_route is_admin_endpoint register transaction_routes auth_routes admin_routes
    add
router-is_guarded admin_group entries h = ground arith

module _ {S U D : Type 0} (app : App S U D) where
  authenticate-for_admins :
      (access : Access) (req : Request) (g : Guard) (caller : Caller)
      → for_admins access ≡ true
      → (authenticate app access req g).0 ≡ ok caller
      → (caller.is_admin ≡ true)
        × ((is_empty app.admin_group ≡ false) × (app.is_member caller.name app.admin_group ≡ true))
  unfolding authenticate caller_of authenticate_admin authenticate_admin_password
  authenticate-for_admins user req g caller a h = ground arith
  authenticate-for_admins password req g caller a h = ground arith
  authenticate-for_admins peer req g caller a h = ground arith
  authenticate-for_admins admin req g caller a h = ground arith
  authenticate-for_admins admin_password req g caller a h = ground arith

  -- On the router that the server builds, a request whose route leads to a handler of the
  -- administrators, and whose caller is accepted, has a caller that is marked as an administrator and
  -- is a member of the admin group, and there is such a group.
  pub admin_caller :
      (entries : List (Entry Endpoint)) (req : Request) (g : Guard) (found : Match Endpoint)
      (caller : Caller)
      → router app.admin_group ≡ ok entries
      → match req.method req.target entries ≡ ok found
      → is_admin_handler found.route.handler ≡ true
      → (authenticate app found.route.access req g).0 ≡ ok caller
      → (caller.is_admin ≡ true)
        × ((is_empty app.admin_group ≡ false) × (app.is_member caller.name app.admin_group ≡ true))
  admin_caller entries req g found caller r m e a =
      let guarded =
        match-every_route is_guarded req.method req.target entries found m
          (router-is_guarded app.admin_group entries r) in
      authenticate-for_admins found.route.access req g caller (ground arith) a
