-- ===== src/Api/Handlers.antt =====
-- The handlers of internal/api/handlers.go, from a request and the tables to an answer and the
-- tables. The clock, the decimal and base64 texts and the random identifier are given.
use lazarus.Base.{ℕ, ◌*◌, String, not, ◌&&◌, ◌==◌, if◌then◌else◌, Option, none, some, List, [], ◌∷◌}
use lazarus.Text.{trim_space}
use lazarus.Json.{Raw, is_empty}
use lazarus.Env.{Env}
use lazarus.Errors.{Result, ok, err, ◌>>=◌}
use lazarus.Model.{
  Time, AuditContext, Maintenance, MaintenanceAggregate, Capture, CaptureResult,
  TargetTransitionResult,
}
use lazarus.Precondition.{VersionPrecondition}
use lazarus.Tables.{Db}
use lazarus.Mutations.Create.{create_maintenance}
use lazarus.Mutations.Capture.{capture_maintenance}
use lazarus.Mutations.Change.{transition_maintenance}
use lazarus.Mutations.Target.{transition_target}
use lazarus.Mutations.Observe.{add_observation}
use lazarus.Reads.{
  Codec, get_capture, get_target, get_maintenance_aggregate, list_events, list_maintenances,
}
use lazarus.Api.IfMatch.{IfMatch, accepted, rejected, version_precondition, version_etag}
use lazarus.Api.Query.{Query, maintenance_list_options, event_list_options}
use lazarus.Api.Request.{
  Body, MaintenanceRequest, StateChangeRequest, is_json_object, decode_json_object, decode_json,
  set_maintenance_field, set_change_field, no_maintenance, no_change, store_value,
}
use lazarus.Api.Response.{
  Response, Content, nothing, maintenance_content, target_content, capture_content,
  maintenance_page, event_page, write_store_error, write_error, write_if_match_error, with_header,
}

-- what a handler takes from outside
pub record World : Type 0 where
  pub env : Env
  pub codec : Codec
  pub now : Time
  -- the clock that the capture reads first
  pub stamp : Time

-- `writeJSON`, under an entity tag
abbrev pub tagged : ℕ → ℕ → Content → Response
tagged status version content = record {
  status = status;
  headers = ("ETag", version_etag version) ∷ [];
  content = content;
}

abbrev pub plain : ℕ → Content → Response
plain status content = record { status = status; headers = []; content = content }

-- `if err != nil { s.writeStoreError(w, err); return }`
abbrev pub answer {ℓ} : {A : Type ℓ} → (A → Response) → Result A → Response
answer f (ok a) = f a
answer f (err e) = write_store_error e

abbrev pub answer_with {ℓ} : {A : Type ℓ} → (A → Response) → Result A × Db → Response × Db
answer_with f (result, db) = (answer f result, db)

unfoldable pub handle_list_maintenances : World → Query → Db → Response
unfolding maintenance_list_options list_maintenances write_store_error
handle_list_maintenances w query db =
    answer (λ page. plain 200 (maintenance_page page))
      (do opts ← maintenance_list_options query; list_maintenances w.codec opts db)

-- the row that the handler asks for
abbrev pub requested_row : MaintenanceRequest → Maintenance
requested_row r = record {
  id = r.maintenance_id;
  state = "new";
  change_ticket = r.change_ticket;
  workflow_version = r.workflow_version;
  metadata = r.metadata;
  version = 0;
  created_at = 0;
  updated_at = 0;
}

abbrev pub created_answer : Maintenance → Response
created_answer m =
    tagged 201 m.version (maintenance_content (record { maintenance = m; targets = [] }))

-- the request once it is decoded
unfoldable pub create_requested : World → AuditContext → MaintenanceRequest → Db → Response × Db
unfolding trim_space is_json_object create_maintenance write_error write_store_error version_etag
create_requested w audit r db =
    if trim_space r.maintenance_id == ""
    then (write_error 400 "maintenance_id_required", db)
    else if not (is_empty r.metadata) && not (is_json_object r.metadata)
    then (write_error 400 "metadata_must_be_object", db)
    else answer_with created_answer (create_maintenance w.env w.now (requested_row r) audit db)

-- a body that does not decode is refused
abbrev pub with_decoded {ℓ} :
    {A : Type ℓ} → Option A → (A → Db → Response × Db) → Db → Response × Db
with_decoded none next db = (write_error 400 "invalid_json", db)
with_decoded (some a) next db = next a db

unfoldable pub handle_create_maintenance : World → AuditContext → Body → Db → Response × Db
unfolding decode_json set_maintenance_field create_requested write_error
handle_create_maintenance w audit body db =
    with_decoded (decode_json set_maintenance_field no_maintenance body) (create_requested w audit)
      db

unfoldable pub handle_get_maintenance : String → Db → Response
unfolding get_maintenance_aggregate write_store_error version_etag
handle_get_maintenance id db =
    answer (λ a. tagged 200 (a.maintenance).version (maintenance_content a))
      (get_maintenance_aggregate id db)

-- an If-Match header that does not parse is refused
abbrev pub with_if_match : IfMatch → (VersionPrecondition → Db → Response × Db) → Db → Response × Db
with_if_match (rejected code) next db = (write_if_match_error code, db)
with_if_match (accepted precondition) next db = next precondition db

-- the checks of both handlers of a change of state
unfoldable pub with_change :
    List String
    → (StateChangeRequest → VersionPrecondition → Db → Response × Db)
    → StateChangeRequest
    → Db
    → Response × Db
unfolding is_json_object version_precondition write_error write_if_match_error
with_change if_match change r db =
    if not (is_empty r.detail) && not (is_json_object r.detail)
    then (write_error 400 "detail_must_be_object", db)
    else with_if_match (version_precondition if_match) (change r) db

abbrev pub change_answer : MaintenanceAggregate → Response
change_answer a = tagged 200 (a.maintenance).version (maintenance_content a)

unfoldable pub handle_transition_maintenance :
    World → AuditContext → String → Body → List String → Db → Response × Db
unfolding decode_json set_change_field with_change transition_maintenance write_error
    write_store_error version_etag
handle_transition_maintenance w audit id body if_match db =
    with_decoded (decode_json set_change_field no_change body)
      (with_change if_match λ r precondition before.
        answer_with change_answer
          (transition_maintenance w.now id (store_value r) precondition audit before))
      db

unfoldable pub handle_get_capture : String → Db → Response
unfolding get_capture write_store_error
handle_get_capture id db = answer (λ c. plain 200 (capture_content c)) (get_capture id db)

abbrev pub given_capture : Raw → Capture
given_capture payload = record {
  maintenance_id = "";
  captured_at = 0;
  payload = payload;
  sha256 = "";
}

abbrev pub captured_answer : CaptureResult → Response
captured_answer c = plain (if c.created then 201 else 200) (capture_content c.capture)

unfoldable pub handle_capture_maintenance :
    World → AuditContext → String → Body → Db → Response × Db
unfolding decode_json_object capture_maintenance write_error write_store_error
handle_capture_maintenance w audit id body db =
    with_decoded (decode_json_object (2 * 1024 * 1024) body)
      (λ payload before.
        answer_with captured_answer
          (capture_maintenance w.env w.stamp w.now id (given_capture payload) audit before))
      db

unfoldable pub handle_get_target : String → String → Db → Response
unfolding get_target write_store_error version_etag
handle_get_target mid tid db =
    answer (λ t. tagged 200 t.version (target_content t)) (get_target mid tid db)

abbrev pub target_answer : TargetTransitionResult → Response
target_answer c =
    with_header "X-Maintenance-ETag" (version_etag c.maintenance_version)
      (tagged 200 (c.target).version (target_content c.target))

unfoldable pub handle_transition_target :
    World → AuditContext → String → String → Body → List String → Db → Response × Db
unfolding decode_json set_change_field with_change transition_target write_error write_store_error
    version_etag
handle_transition_target w audit mid tid body if_match db =
    with_decoded (decode_json set_change_field no_change body)
      (with_change if_match λ r precondition before.
        answer_with target_answer
          (transition_target w.now mid tid (store_value r) precondition audit before))
      db

unfoldable pub handle_add_target_observation :
    World → AuditContext → String → String → Body → List String → Db → Response × Db
unfolding decode_json_object version_precondition add_observation write_error write_if_match_error
    write_store_error
handle_add_target_observation w audit mid tid body if_match db =
    with_decoded (decode_json_object (64 * 1024) body)
      (λ payload. with_if_match (version_precondition if_match) λ precondition before.
        answer_with (λ _. plain 204 nothing)
          (add_observation w.now mid tid payload precondition audit before))
      db

unfoldable pub handle_list_events : World → Query → Db → Response
unfolding event_list_options list_events write_store_error
handle_list_events w query db =
    answer (λ page. plain 200 (event_page page))
      (do opts ← event_list_options query; list_events w.codec opts db)
