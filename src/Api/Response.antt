-- ===== src/Api/Response.antt =====
-- What internal/api/server.go answers: `writeStoreError`, `writeError` and `writeIfMatchError`. A
-- JSON body is the value that is encoded; the `message` of an error is left out.
use lazarus.Base.{ℕ, String, ◌==◌, if◌then◌else◌, List, [], ◌∷◌}
use lazarus.Json.{Json, Fields, obj, str, num, end, field}
use lazarus.Errors.{
  StoreError, not_found, precondition_required, forbidden, invalid, corrupt, db_error,
  unique_violation, conflict, conflict_base, version_conflict_base,
}
use lazarus.Model.{Capture, Maintenance, MaintenanceAggregate, Target, Event, is_positive}
use lazarus.Reads.{Page}

pub data Content : Type 0 where
  nothing : Content
  json_value : Json → Content
  maintenance_content : MaintenanceAggregate → Content
  target_content : Target → Content
  capture_content : Capture → Content
  maintenance_page : Page Maintenance → Content
  event_page : Page Event → Content

pub record Response : Type 0 where
  pub status : ℕ
  pub headers : List (String × String)
  pub content : Content

-- the code and the status of an error
unfoldable pub store_error_code : StoreError → String × ℕ
store_error_code not_found = ("not_found", 404)
store_error_code forbidden = ("forbidden", 403)
store_error_code (conflict c) = elim c.base [
  | version_conflict_base ↦ ("version_conflict", 412)
  | conflict_base ↦ ("conflict", 409)
]
store_error_code precondition_required = ("if_match_required", 428)
store_error_code invalid = ("invalid_resource", 400)
store_error_code corrupt = ("internal_error", 500)
store_error_code db_error = ("internal_error", 500)
store_error_code unique_violation = ("internal_error", 500)

abbrev text_detail : String → String → Fields → Fields
text_detail name value rest = if value == "" then rest else field name (str value) rest

abbrev version_detail : String → ℕ → Fields → Fields
unfolding is_positive
version_detail name value rest = if is_positive value then field name (num value) rest else rest

-- the details of a ConflictError that are set
unfoldable pub conflict_details : StoreError → Fields
unfolding version_detail
conflict_details (conflict c) = text_detail "reason" c.reason (
    text_detail "resource_type" c.resource_type (
      text_detail "resource_id" c.resource_id (
        text_detail "holder" c.holder (
          version_detail "expected_version" c.expected_version (
            version_detail "current_version" c.current_version (
              text_detail "current_state" c.current_state
                (text_detail "requested_state" c.requested_state end)))))))
conflict_details _ = end

unfoldable pub write_store_error : StoreError → Response
unfolding store_error_code conflict_details
write_store_error e = record {
  status = (store_error_code e).1;
  headers = [];
  content = json_value (obj (field "error" (str (store_error_code e).0) (conflict_details e)));
}

unfoldable pub write_error : ℕ → String → Response
write_error status code = record {
  status = status;
  headers = [];
  content = json_value (obj (field "error" (str code) end));
}

unfoldable pub write_if_match_error : String → Response
write_if_match_error code = record {
  status = if code == "if_match_required" then 428 else 400;
  headers = [];
  content = json_value (
      obj (
        field "error" (str code) (
          field "detail"
            (str (
              if code == "if_match_required"
              then "send If-Match with a strong ETag, a tag list, or *"
              else "If-Match must use RFC entity-tag syntax or *"))
            end)));
}

-- `w.Header().Set` before the answer
abbrev pub with_header : String → String → Response → Response
with_header name value r = record r { headers = (name, value) ∷ r.headers }
