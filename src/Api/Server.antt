-- ===== src/Api/Server.antt =====
-- `ServeHTTP` of internal/api/server.go, and `serve` and `require` of routes.go. The digest of a
-- token, the answers of the two backup handlers, the probe of the database and the text of the
-- metrics are given.
pub mod Outcome
pub mod Gate
pub mod Served
pub mod Stale
use lazarus.Base.{
  ℕ, ◌+◌, String, Bool, true, false, not, ◌&&◌, ◌||◌, ◌==◌, leb, if◌then◌else◌, Option, none, some,
  List, [], ◌∷◌,
}
use lazarus.Json.{obj, str, end, field}
use lazarus.Model.{AuditContext}
use lazarus.Tables.{Db}
use lazarus.Auth.{Principal, Token, authenticate, require}
use lazarus.Api.Request.{Request, request_id_of}
use lazarus.Api.Response.{Response, Content, nothing, json_value, write_error, with_header}
use lazarus.Api.Routes.{
  Route, health, ready, version_route, metrics, list_maintenances, create_maintenance_route,
  get_maintenance, transition_maintenance_route, get_capture_route, capture_route, get_target_route,
  transition_target_route, add_observation_route, list_events_route, create_backup, backup_artifact,
  method_not_allowed, no_route, is_read, is_api_path, route_of,
}
use lazarus.Api.Handlers.{
  World, plain, handle_list_maintenances, handle_create_maintenance, handle_get_maintenance,
  handle_transition_maintenance, handle_get_capture, handle_capture_maintenance, handle_get_target,
  handle_transition_target, handle_add_target_observation, handle_list_events,
}

-- `auth` and `store` may be nil; the counters are those of the metrics
pub record Server : Type 0 where
  pub auth : Option (List Token)
  pub has_store : Bool
  pub ready : Bool
  pub version : String
  pub requests : ℕ
  pub errors : ℕ

-- what the handlers that are not modelled, and the standard library, give
pub record Outside : Type 0 where
  pub world : World
  pub digest : String → String
  pub fresh_request_id : String
  pub store_ready : Bool
  pub metrics_text : Server → Response
  pub backup_created : AuditContext → Db → Response × Db
  pub backup_sent : String → AuditContext → Db → Response × Db

abbrev status_content : String → String → Content
status_content status version =
    json_value (obj (field "status" (str status) (field "version" (str version) end)))

unfoldable pub handle_ready : Outside → Server → Response
unfolding write_error
handle_ready o s =
    if not s.ready || not s.has_store || not o.store_ready
    then write_error 503 "not_ready"
    else plain 200 (status_content "ready" s.version)

-- `auditContext`
abbrev pub audit_context : Principal → String → AuditContext
audit_context p request_id = record { actor = p.name; role = p.role; request_id = request_id }

-- the role that a route requires
unfoldable pub required_role : Route → Option String
required_role list_maintenances = some "reader"
required_role create_maintenance_route = some "operator"
required_role (get_maintenance _) = some "reader"
required_role (transition_maintenance_route _) = some "operator"
required_role (get_capture_route _) = some "reader"
required_role (capture_route _) = some "operator"
required_role (get_target_route _ _) = some "reader"
required_role (transition_target_route _ _) = some "operator"
required_role (add_observation_route _ _) = some "operator"
required_role list_events_route = some "reader"
required_role create_backup = some "admin"
required_role (backup_artifact _) = some "admin"
required_role _ = none

-- the handlers behind the roles
unfoldable pub handle : Outside → AuditContext → Route → Request → Db → Response × Db
unfolding handle_list_maintenances handle_create_maintenance handle_get_maintenance
    handle_transition_maintenance handle_get_capture handle_capture_maintenance handle_get_target
    handle_transition_target handle_add_target_observation handle_list_events write_error
handle o audit list_maintenances r db = (handle_list_maintenances o.world r.query db, db)
handle o audit create_maintenance_route r db = handle_create_maintenance o.world audit r.body db
handle o audit (get_maintenance id) r db = (handle_get_maintenance id db, db)
handle o audit (transition_maintenance_route id) r db =
    handle_transition_maintenance o.world audit id r.body r.if_match db
handle o audit (get_capture_route id) r db = (handle_get_capture id db, db)
handle o audit (capture_route id) r db = handle_capture_maintenance o.world audit id r.body db
handle o audit (get_target_route id tid) r db = (handle_get_target id tid db, db)
handle o audit (transition_target_route id tid) r db =
    handle_transition_target o.world audit id tid r.body r.if_match db
handle o audit (add_observation_route id tid) r db =
    handle_add_target_observation o.world audit id tid r.body r.if_match db
handle o audit list_events_route r db = (handle_list_events o.world r.query db, db)
handle o audit create_backup r db = o.backup_created audit db
handle o audit (backup_artifact filename) r db = o.backup_sent filename audit db
handle o audit _ r db = (write_error 404 "not_found", db)

-- the routes that need no role
unfoldable pub handle_plain : Outside → Server → Route → Response
unfolding handle_ready
handle_plain o s health = plain 200 (status_content "ok" s.version)
handle_plain o s ready = handle_ready o s
handle_plain o s version_route = plain 200 (json_value (obj (field "version" (str s.version) end)))
handle_plain o s metrics = o.metrics_text s
handle_plain o s method_not_allowed = plain 405 nothing
handle_plain o s _ = plain 404 nothing

-- `s.require(role, next)`
unfoldable pub require_role :
    String → Option Principal → (Principal → Db → Response × Db) → Db → Response × Db
unfolding require write_error
require_role role none next db = (write_error 503 "authentication_unavailable", db)
require_role role (some p) next db =
    if require p role then next p db else (write_error 403 "forbidden", db)

-- `s.routes.ServeHTTP`
unfoldable pub routes_serve :
    Outside → Server → String → Option Principal → Request → Db → Response × Db
unfolding require_role handle handle_plain route_of required_role
routes_serve o s request_id principal r db = elim (required_role (route_of r.method r.segments)) [
  | none ↦ (handle_plain o s (route_of r.method r.segments), db)
  | some role ↦
      require_role role principal
        (λ p. handle o (audit_context p request_id) (route_of r.method r.segments) r) db
]

-- `serve` behind the check of the credential
unfoldable pub serve_principal :
    Outside → Server → String → Principal → Request → Db → Response × Db
unfolding routes_serve write_error
serve_principal o s request_id p r db =
    if not s.has_store
    then (write_error 503 "store_unavailable", db)
    else if not s.ready && not (is_read r.method)
    then (write_error 503 "service_draining", db)
    else routes_serve o s request_id (some p) r db

-- the outcome of `s.auth.Authenticate`
abbrev pub serve_known : Outside → Server → String → Request → Db → Option Principal → Response × Db
serve_known o s request_id r db none =
    (with_header "WWW-Authenticate" "Bearer realm=\"lazarus\"" (write_error 401 "unauthorized"), db)
serve_known o s request_id r db (some p) = serve_principal o s request_id p r db

abbrev pub serve_configured :
    Outside → Server → String → Request → Db → Option (List Token) → Response × Db
serve_configured o s request_id r db none = (write_error 503 "authentication_unavailable", db)
serve_configured o s request_id r db (some tokens) =
    serve_known o s request_id r db (authenticate o.digest r.authorization tokens)

unfoldable pub serve_api : Outside → Server → String → Request → Db → Response × Db
unfolding serve_principal authenticate write_error
serve_api o s request_id r db = serve_configured o s request_id r db s.auth

abbrev pub answer_header : String → String → Response × Db → Response × Db
answer_header name value (response, db) = (with_header name value response, db)

unfoldable pub serve : Outside → Server → String → Request → Db → Response × Db
unfolding serve_api routes_serve is_api_path
serve o s request_id r db =
    if is_api_path r.segments
    then answer_header "Cache-Control" "no-store" (serve_api o s request_id r db)
    else routes_serve o s request_id none r db

-- an answer in the counter of errors
abbrev counted : Server → Response × Db → Response × Server × Db
counted s (response, db) =
    (response, if leb 400 response.status then record s { errors = s.errors + 1 } else s, db)

-- `ServeHTTP`: the counters of the server, and the tables
unfoldable pub serve_http : Outside → Server → Request → Db → Response × Server × Db
unfolding request_id_of serve
serve_http o s r db =
    let request_id = request_id_of o.fresh_request_id r in
    let entered = record s { requests = s.requests + 1 } in
    counted entered (answer_header "X-Request-ID" request_id (serve o entered request_id r db))
