-- ===== src/Api/Routes.antt =====
-- The tables of `register_routes` in api/handlers.cpp, admin_handlers.cpp and auth_handlers.cpp, and
-- the order in which app/main/main.cpp adds them.
use ot_sec_file_transfer.Base.{
  ℕ, List, [], ◌∷◌, some, if◌then◌else◌, is_empty, Text, codes, Result, ok, ◌>>=◌,
}
use ot_sec_file_transfer.Api.Router.{
  Access, user, password, peer, admin, admin_password, Route, Entry, add,
}

-- The handlers by name.
pub data Endpoint : Type 0 where
  create list get commit list_files upload download remove_file receive : Endpoint
  login logout : Endpoint
  admin_login admin_logout admin_list admin_get admin_remove retention status sessions : Endpoint
  revoke_user log : Endpoint

-- `http::verb`
abbrev pub delete_verb : ℕ
delete_verb = 1

abbrev pub get_verb : ℕ
get_verb = 2

abbrev pub post_verb : ℕ
post_verb = 4

abbrev pub put_verb : ℕ
put_verb = 5

abbrev def : ℕ → Text → Access → Endpoint → Route Endpoint
def method pattern access handler = record {
  method = method;
  pattern = pattern;
  access = access;
  handler = some handler;
}

unfoldable pub transaction_routes : List (Route Endpoint)
transaction_routes =
    def post_verb (codes "/transactions") user create
    ∷ def get_verb (codes "/transactions") user list
    ∷ def get_verb (codes "/transactions/{id}") user get
    ∷ def post_verb (codes "/transactions/{id}/commit") user commit
    ∷ def get_verb (codes "/transactions/{id}/files") user list_files
    ∷ def put_verb (codes "/transactions/{id}/files/{path*}") user upload
    ∷ def get_verb (codes "/transactions/{id}/files/{path*}") user download
    ∷ def delete_verb (codes "/transactions/{id}/files/{path*}") user remove_file
    ∷ def post_verb (codes "/internal/transactions") peer receive
    ∷ def get_verb (codes "/internal/transactions/{id}") peer get
    ∷ def put_verb (codes "/internal/transactions/{id}/files/{path*}") peer upload
    ∷ def post_verb (codes "/internal/transactions/{id}/commit") peer commit
    ∷ []

unfoldable pub auth_routes : List (Route Endpoint)
auth_routes =
    def post_verb (codes "/auth/token") password login
    ∷ def delete_verb (codes "/auth/token") user logout
    ∷ []

unfoldable pub admin_routes : List (Route Endpoint)
admin_routes =
    def post_verb (codes "/admin/token") admin_password admin_login
    ∷ def delete_verb (codes "/admin/token") admin admin_logout
    ∷ def get_verb (codes "/admin/transactions") admin admin_list
    ∷ def get_verb (codes "/admin/transactions/{id}") admin admin_get
    ∷ def delete_verb (codes "/admin/transactions/{id}") admin admin_remove
    ∷ def put_verb (codes "/admin/transactions/{id}/retention") admin retention
    ∷ def get_verb (codes "/admin/status") admin status
    ∷ def get_verb (codes "/admin/sessions") admin sessions
    ∷ def delete_verb (codes "/admin/sessions/{user}") admin revoke_user
    ∷ def get_verb (codes "/admin/log") admin log
    ∷ []

-- The loop of `register_routes`.
unfoldable pub register :
    List (Route Endpoint) → List (Entry Endpoint) → Result (List (Entry Endpoint))
register [] router = ok router
register (d ∷ defs) router = do added ← add d router; register defs added

-- The router of `serve`: without an admin group it has no routes for administrators.
unfoldable pub router : Text → Result (List (Entry Endpoint))
router admin_group = do
  with_transactions ← register transaction_routes []
  with_auth ← register auth_routes with_transactions
  if is_empty admin_group then ok with_auth else register admin_routes with_auth
