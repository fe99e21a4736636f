-- ===== src/Api/Routes.antt =====
-- `buildRoutes` and `isAPIPath` of internal/api/routes.go: which handler the segments of a clean path
-- and the method select. A pattern of GET also takes HEAD, and a wildcard takes no empty segment.
use lazarus.Base.{String, Bool, false, not, ◌&&◌, ◌||◌, ◌==◌, if◌then◌else◌, List, [], ◌∷◌}

pub data Route : Type 0 where
  health ready version_route metrics : Route
  list_maintenances create_maintenance_route : Route
  get_maintenance transition_maintenance_route get_capture_route capture_route : String → Route
  get_target_route transition_target_route add_observation_route : String → String → Route
  list_events_route create_backup : Route
  backup_artifact : String → Route
  method_not_allowed no_route : Route

abbrev pub is_read : String → Bool
is_read method = method == "GET" || method == "HEAD"

abbrev reading : String → Route → Route
reading method route = if is_read method then route else method_not_allowed

-- a read, or one other method
abbrev reading_or : String → Route → String → Route → Route
reading_or method route other other_route =
    if is_read method then route else if method == other then other_route else method_not_allowed

abbrev only : String → String → Route → Route
only method wanted route = if method == wanted then route else method_not_allowed

abbrev named : String → Bool
named segment = not (segment == "")

-- the paths below /api/v1
unfoldable pub api_route : String → List String → Route
api_route method (a ∷ []) =
    if a == "maintenance"
    then reading_or method list_maintenances "POST" create_maintenance_route
    else if a == "events"
    then reading method list_events_route
    else no_route
api_route method (a ∷ b ∷ []) =
    if a == "maintenance" && named b
    then reading_or method (get_maintenance b) "PATCH" (transition_maintenance_route b)
    else if a == "admin" && b == "backups"
    then only method "POST" create_backup
    else no_route
api_route method (a ∷ b ∷ c ∷ []) =
    if a == "maintenance" && named b && c == "capture"
    then reading_or method (get_capture_route b) "PUT" (capture_route b)
    else if a == "admin" && b == "backups" && named c
    then reading method (backup_artifact c)
    else no_route
api_route method (a ∷ b ∷ c ∷ d ∷ []) =
    if a == "maintenance" && named b && c == "targets" && named d
    then reading_or method (get_target_route b d) "PATCH" (transition_target_route b d)
    else no_route
api_route method (a ∷ b ∷ c ∷ d ∷ e ∷ []) =
    if a == "maintenance" && named b && c == "targets" && named d && e == "observations"
    then only method "POST" (add_observation_route b d)
    else no_route
api_route method _ = no_route

unfoldable pub plain_route : String → List String → Route
plain_route method (a ∷ []) =
    if a == "healthz" || a == "livez" || a == "startupz"
    then reading method health
    else if a == "readyz"
    then reading method ready
    else if a == "version"
    then reading method version_route
    else if a == "metrics"
    then reading method metrics
    else no_route
plain_route method _ = no_route

unfoldable pub is_api_path : List String → Bool
is_api_path (a ∷ b ∷ rest) = a == "api" && b == "v1"
is_api_path _ = false

unfoldable pub route_of : String → List String → Route
unfolding api_route plain_route is_api_path
route_of method (a ∷ b ∷ rest) =
    if is_api_path (a ∷ b ∷ rest) then api_route method rest else plain_route method (a ∷ b ∷ rest)
route_of method segments = plain_route method segments
