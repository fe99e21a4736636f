-- ===== src/Witnesses/Served.antt =====
-- The theorems on the HTTP interface at concrete requests.
use lazarus.Journal.{audit_values, stored_event}
use lazarus.Tables.{write}
use lazarus.Base.{
  ℕ, length, all, ◌<◌, ◌≤◌, String, ◌≡◌, refl, true, false, some, List, [], ◌∷◌, arith,
}
use lazarus.Json.{str}
use lazarus.Errors.{ok}
use lazarus.Json.{print, json_size}
use lazarus.Model.{next_version}
use lazarus.Text.{valid_id, sql_length}
use lazarus.Canonical.{canonical_json_default}
use lazarus.Tables.{insert_maintenance}
use lazarus.Mutations.Create.{
  create_maintenance, checked_creation, new_maintenance, marshal_maintenance,
}
use lazarus.Precondition.{require}
use lazarus.Tables.{find_maintenance, find_target, insert_event}
use lazarus.Journal.{append_event}
use lazarus.Api.Handlers.{handle_transition_target}
use lazarus.Api.Server.Outcome.{succeeded}
use lazarus.Api.Server.Stale.{HasVersion, handle_transition_target-stale}
use lazarus.Guarantees.Verified.{is_timely}
use lazarus.Witnesses.{rows, t1}
use lazarus.Model.{is_positive}
use lazarus.Text.{trim_space, trim_left, is_space, matches_name}
use lazarus.Reads.{Codec}
use lazarus.Auth.{Token}
use lazarus.Verify.Application.{verify_application_data}
use lazarus.Guarantees.Commands.{empty_db}
use lazarus.Scenario.{unary_env, unary, count, admin, stopping_db}
use lazarus.Api.Decimal.{format_int}
use lazarus.Api.IfMatch.{accepted, version_etag, version_precondition, parse_tags, size}
use lazarus.Api.IfMatch.Terminates.{has_ended, parse_tags-ends}
use lazarus.Api.IfMatch.RoundTrip.{version_precondition-version_etag}
use lazarus.Api.Query.{query_page_limit, query_get, query_page_limit-bounds}
use lazarus.Api.Request.{Request, Body, object}
use lazarus.Api.Response.{nothing}
use lazarus.Api.Routes.{route_of}
use lazarus.Api.Server.{Server, Outside, serve}
use lazarus.Api.Server.Served.{Serves, serve-IsServed, serve-refused}
use lazarus.Api.Sessions.{Visit, serve_all, serve_all-verified}
use lazarus.Api.Handlers.{plain}

abbrev unary_codec : Codec
unfolding unary count
unary_codec = record {
  encode = λ s. s;
  decode = λ s. some s;
  format_int = unary;
  parse_int = λ s. some (count s);
}

abbrev web : Outside
web = record {
  world = record { env = unary_env; codec = unary_codec; now = 20; stamp = 20 };
  digest = λ s. s;
  fresh_request_id = "fresh";
  store_ready = true;
  metrics_text = λ _. plain 200 nothing;
  backup_created = λ _ db. (plain 201 nothing, db);
  backup_sent = λ _ _ db. (plain 200 nothing, db);
}

abbrev operator : Token
operator = record { name = "ops"; role = "operator"; value = "secret" }

abbrev server : Server
server = record {
  auth = some (operator ∷ []);
  has_store = true;
  ready = true;
  version = "1";
  requests = 0;
  errors = 0;
}

-- PATCH /api/v1/maintenance/m1 to the state `stopped`
abbrev patch : String → List String → Request
patch authorization if_match = record {
  method = "PATCH";
  segments = "api" ∷ "v1" ∷ "maintenance" ∷ "m1" ∷ [];
  query = [];
  authorization = authorization;
  if_match = if_match;
  request_id = "r7";
  body = record {
    size = 19;
    text = object (record { name = "state"; size = 9; value = str "stopped" } ∷ []);
  };
}

abbrev current : Request
current = patch "Bearer secret" ("\"3\"" ∷ [])

abbrev untagged : Request
untagged = patch "Bearer secret" []

serve-IsServed_example :
    Serves web server "r7" current stopping_db (serve web server "r7" current stopping_db)
unfolding route_of
serve-IsServed_example = serve-IsServed web server "r7" current stopping_db refl

untagged_refused : ((serve web server "r7" untagged stopping_db).0).status ≡ 428
unfolding serve is_space trim_left matches_name
untagged_refused = refl

serve-refused_example : (serve web server "r7" untagged stopping_db).1 ≡ stopping_db
unfolding route_of serve
serve-refused_example = serve-refused web server "r7" untagged stopping_db refl refl

-- POST /api/v1/maintenance with the identifier m1
abbrev created : Request
created = record {
  method = "POST";
  segments = "api" ∷ "v1" ∷ "maintenance" ∷ [];
  query = [];
  authorization = "Bearer secret";
  if_match = [];
  request_id = "r1";
  body = record {
    size = 23;
    text = object (record { name = "maintenance_id"; size = 4; value = str "m1" } ∷ []);
  };
}

abbrev visit : ℕ → Request → Visit
visit now request = record {
  now = now;
  stamp = now;
  fresh_request_id = "f1";
  store_ready = true;
  request = request;
}

abbrev visits : List Visit
visits = visit 20 created ∷ visit 21 untagged ∷ visit 22 created ∷ []

visits_timely : all (is_timely unary_env) (serve_all web visits server empty_db).1.captures ≡ true
unfolding serve_all route_of serve is_space trim_left matches_name size format_int next_version
    require version_etag find_maintenance create_maintenance checked_creation new_maintenance
    marshal_maintenance append_event insert_maintenance insert_event canonical_json_default valid_id
    trim_space sql_length is_positive print unary count json_size audit_values stored_event write
visits_timely = refl

one_created : length (serve_all web visits server empty_db).1.maintenances ≡ 1
unfolding serve_all route_of serve is_space trim_left matches_name size format_int next_version
    require version_etag find_maintenance create_maintenance checked_creation new_maintenance
    marshal_maintenance append_event insert_maintenance insert_event canonical_json_default valid_id
    trim_space sql_length is_positive print unary count json_size audit_values stored_event write
one_created = refl

serve_all-verified_example :
    verify_application_data unary_env (serve_all web visits server empty_db).1 ≡ ok tt
unfolding route_of
serve_all-verified_example = serve_all-verified web visits server refl visits_timely

parse_tags-ends_example : has_ended (parse_tags 12 "\"3\", W/\"4\"") ≡ true
unfolding size
parse_tags-ends_example = parse_tags-ends 12 "\"3\", W/\"4\"" (omega arith)

version_precondition-version_etag_example :
    version_precondition (version_etag 3 ∷ [])
    ≡ accepted (record { any_version = false; versions = 3 ∷ [] })
unfolding is_positive
version_precondition-version_etag_example = version_precondition-version_etag 3 refl

query_page_limit-bounds_example : (0 < 50) × (50 ≤ 200)
unfolding query_page_limit query_get
query_page_limit-bounds_example = query_page_limit-bounds (("limit", "50") ∷ []) refl

-- PATCH of the target t1 to the state `stopping`
abbrev stop_body : Body
stop_body = record {
  size = 20;
  text = object (record { name = "state"; size = 10; value = str "stopping" } ∷ []);
}

t1_elsewhere : ¬ HasVersion "m1" "t1" 5 rows
unfolding find_target
t1_elsewhere h =
    let known : some (record t1 { version = 2 }) ≡ some h.t = h.found in
    ground (arith, known, h.version)

handle_transition_target-stale_example :
    (succeeded
        (handle_transition_target web.world admin "m1" "t1" stop_body (version_etag 5 ∷ []) rows).0
      ≡ false)
    × ((handle_transition_target web.world admin "m1" "t1" stop_body (version_etag 5 ∷ []) rows).1
        ≡ rows)
unfolding is_positive
handle_transition_target-stale_example =
    handle_transition_target-stale web.world admin "m1" "t1" 5 rows stop_body refl t1_elsewhere
