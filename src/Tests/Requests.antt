-- ===== src/Tests/Requests.antt =====
-- Requests to a server, from the request line to the answer.
use ot_sec_file_transfer.Base.{
  ℕ, ◌≡◌, refl, true, false, List, [], ◌∷◌, some, Text, codes, is_empty, lookup, ok, err, notfound,
  internal, before_first, after_first, same,
}
use ot_sec_file_transfer.Common.Ids
use ot_sec_file_transfer.Common.Paths
use ot_sec_file_transfer.Storage.Interface.{StoredFile}
use ot_sec_file_transfer.Transaction.Repository.{find}
use ot_sec_file_transfer.Transaction.Service.Core.{Caller, Server}
use ot_sec_file_transfer.Transaction.Service.Access.{
  may_read, may_write, is_sender, is_target, is_origin_peer,
}
use ot_sec_file_transfer.Transaction.Service.History.{creates, run}
use ot_sec_file_transfer.Api.Urls.{url_decode}
use ot_sec_file_transfer.Api.Router.{
  admin, Entry, Match, match, add, parse_segments, parse_segment, param_segment, split_path,
  split_on, has_param, has_route, select, match_segments, decode_all, parse_query, parse_pairs,
  join_rest,
}
use ot_sec_file_transfer.Api.Context.{
  App, Request, RequestContext, World, send, respond, error_response, given, no_content,
}
use ot_sec_file_transfer.Api.Handlers.{id_param, path_param, expected_digest}
use ot_sec_file_transfer.Api.Routes.{
  Endpoint, get, status, get_verb, router, register, transaction_routes, auth_routes, admin_routes,
}
use ot_sec_file_transfer.Api.Dispatch.{run_route, authenticate, caller_of}
use ot_sec_file_transfer.Api.Dispatch.Guarding.{admin_caller, is_admin_endpoint}
use ot_sec_file_transfer.Api.Dispatch.Hiding.{refusal}
use ot_sec_file_transfer.Tests.Memory.{Disk, Upload, service, empty, alice, to_bob}
use ot_sec_file_transfer.Tests.Service.{running}
use ot_sec_file_transfer.Tests.Sessions.{sessions_for_an_hour, sha256, limits}
use ot_sec_file_transfer.Tests.Login.{
  directory, is_member, g, source, group, header, peers, logging_in,
}
use ot_sec_file_transfer.Tests.JsonTexts.{json_text}
use ot_sec_file_transfer.Tests.Documents.{uuid}

abbrev app : App Disk Upload StoredFile
app = record {
  service = service;
  json = json_text;
  max_json_bytes = 65536;
  admin_options = record {
    business_log = [];
    default_log_lines = 1000;
    max_log_lines = 10000;
    max_json_bytes = 65536;
    instance = codes "siteA";
    version = codes "1.2.0";
    auth_provider = codes "local";
    peers = [];
  };
  started_at = 50;
  read_log = λ file from to limit. ok [];
  session_options = sessions_for_an_hour;
  limiter_options = limits;
  sha256 = sha256;
  directory = directory;
  is_member = is_member;
  admin_group = group;
  accepted = peers;
}

abbrev request : ℕ → Text → Request
request method target = record {
  method = method;
  target = target;
  authorization = header;
  checksum = [];
  source = source;
  read_body_string = λ limit. ok [];
  chunks = [];
  file_sent = ok tt;
  now = 100;
  fresh_id = uuid;
  random = some (1 ∷ []);
}

routing : Unit {0}
unfolding router register transaction_routes auth_routes admin_routes add parse_segments
    parse_segment param_segment split_path split_on has_param has_route match select match_segments
    decode_all parse_query parse_pairs join_rest url_decode lookup same before_first after_first
routing = tt

-- The routes of a server with an admin group.
abbrev entries : List (Entry Endpoint)
unfolding routing
entries = elim (router group) [ err e ↦ [] | ok added ↦ added ]

abbrev world : Server Disk → World Disk StoredFile
world s = record { server = s; guard = g; sent = [] }

abbrev status_request : Request
status_request = request get_verb (codes "/admin/status")

abbrev found : Match Endpoint
unfolding routing
found = record {
  route = record {
    method = get_verb;
    pattern = codes "/admin/status";
    access = admin;
    handler = some status;
  };
  params = [];
  query = [];
}

abbrev accepted : Caller
accepted = record { name = codes "bob"; is_peer = false; is_admin = true }

admin_caller_example :
    (accepted.is_admin ≡ true) × ((is_empty group ≡ false) × (is_member accepted.name group ≡ true))
unfolding routing logging_in authenticate caller_of is_admin_endpoint
admin_caller_example = admin_caller app entries status_request g found accepted refl refl refl refl

-- What carol, to whom it is not sent, asks about the transaction of alice.
abbrev carol : Caller
carol = record { name = codes "carol"; is_peer = false; is_admin = false }

abbrev ctx : RequestContext
ctx = record {
  request = request get_verb (codes "/transactions/123e4567-e89b-42d3-a456-426614174000/files/a");
  caller = carol;
  params = (codes "id", uuid) ∷ (codes "path", codes "a") ∷ [];
  query = [];
}

abbrev one : Server Disk
unfolding running
one = run service (creates alice to_bob uuid 100 ∷ []) empty

asking : Unit {0}
unfolding id_param path_param expected_digest lookup same find may_read may_write is_sender
    is_target is_origin_peer Ids.parse Ids.check_chars Ids.is_lower_hex Paths.parse
    Paths.check_bytes Paths.is_forbidden_char Paths.check_parts Paths.check_part
asking = tt

-- There is one, and so the answer says.
found_one :
    refusal (find uuid one.repo) ≡ error_response notfound (given (codes "no such transaction"))
unfolding running asking
found_one = refl

-- An exception before an answer is sent: the dispatcher sends a 500.
thrown_before :
    (run_route app (λ e ctx w. some w) (some get) ctx (world one)).sent
    ≡ send (error_response internal (given (codes "internal error"))) ∷ []
unfolding run_route
thrown_before = refl

-- An exception after it: the dispatcher sends nothing more.
thrown_after :
    (run_route app (λ e ctx w. some (respond (send no_content) w)) (some get) ctx (world one)).sent
    ≡ send no_content ∷ []
unfolding run_route
thrown_after = refl
