-- ===== src/Api/Server/Gate.antt =====
-- Who may change the tables: a request that does is authenticated, has the role, is no read, and
-- comes while the server is ready.
use lazarus.Base.{
  String, ◌≡◌, refl, ◌⊎◌, inl, inr, Bool, true, false, ◌==◌, Option, none, some, List, [], ◌∷◌,
  arith, if◌then◌else◌, eq_iff,
}
use lazarus.Tables.{Db}
use lazarus.Auth.{Principal, require}
use lazarus.Api.Request.{Request}
use lazarus.Api.Response.{Response, write_error}
use lazarus.Api.Routes.{
  Route, health, ready, version_route, metrics, list_maintenances, create_maintenance_route,
  get_maintenance, transition_maintenance_route, get_capture_route, capture_route, get_target_route,
  transition_target_route, add_observation_route, list_events_route, create_backup, backup_artifact,
  method_not_allowed, no_route, is_read, route_of, api_route,
}
use lazarus.Api.Server.{
  Server, Outside, audit_context, required_role, handle, handle_plain, require_role, routes_serve,
}
use lazarus.Api.Server.Outcome.{
  IsExecuted, IsOutcome, create-IsOutcome, capture-IsOutcome, transition_maintenance-IsOutcome,
  transition_target-IsOutcome, add_observation-IsOutcome,
}

-- the routes whose handlers work on files
abbrev pub is_backup : Route → Bool
is_backup create_backup = true
is_backup (backup_artifact _) = true
is_backup _ = false

-- the routes of the five operations
abbrev pub mutates : Route → Bool
mutates create_maintenance_route = true
mutates (transition_maintenance_route _) = true
mutates (capture_route _) = true
mutates (transition_target_route _ _) = true
mutates (add_observation_route _ _) = true
mutates _ = false

-- what a principal does on a route
abbrev pub Acts : Outside → Principal → String → Route → Db → Response × Db → Type 0
Acts o p request_id route db x =
    (x.1 ≡ db)
    ⊎ ((mutates route ≡ true)
        × (require p "operator" ≡ true)
        × IsExecuted o.world.env (audit_context p request_id) db x)

if-same :
    (b : Bool) (x y : Response × Db) (db : Db) → x.1 ≡ db → y.1 ≡ db → (if b then x else y).1 ≡ db
if-same true x y db h k = h
if-same false x y db h k = k

require_role-Acts :
    (o : Outside) (p : Principal) (request_id : String) (route : Route)
    (next : Principal → Db → Response × Db) (db : Db)
    → mutates route ≡ true
    → IsOutcome o.world.env (audit_context p request_id) db (next p db)
    → Acts o p request_id route db (require_role "operator" (some p) next db)
unfolding require_role
require_role-Acts o p request_id route next db moves outcome =
    gate (require p "operator") refl outcome
  where
    gate :
        (b : Bool)
        → require p "operator" ≡ b
        → IsOutcome o.world.env (audit_context p request_id) db (next p db)
        → Acts o p request_id route db (if b then next p db else (write_error 403 "forbidden", db))
    gate false e result = inl refl
    gate true e (inl same) = inl same
    gate true e (inr done) = inr (moves, e, done)

reads-Acts :
    (o : Outside) (p : Principal) (request_id : String) (route : Route) (role : String)
    (next : Principal → Db → Response × Db) (db : Db)
    → (next p db).1 ≡ db
    → Acts o p request_id route db (require_role role (some p) next db)
unfolding require_role
reads-Acts o p request_id route role next db same =
    inl (if-same (require p role) (next p db) (write_error 403 "forbidden", db) db same refl)

-- what the routes do for a principal
module _ (o : Outside) (s : Server) (request_id : String) (p : Principal) (r : Request)
    (db : Db) where
  -- the handler of a route
  abbrev next : Route → Principal → Db → Response × Db
  next route q = handle o (audit_context q request_id) route r

  abbrev routed : Route → Response × Db
  routed route = elim (required_role route) as (λ _. Response × Db) [
    | none ↦ (handle_plain o s route, db)
    | some role ↦ require_role role (some p) (next route) db
  ]

  routed-Acts :
      (route : Route) → is_backup route ≡ false → Acts o p request_id route db (routed route)
  unfolding required_role handle
  routed-Acts health h = inl refl
  routed-Acts ready h = inl refl
  routed-Acts version_route h = inl refl
  routed-Acts metrics h = inl refl
  routed-Acts method_not_allowed h = inl refl
  routed-Acts no_route h = inl refl
  routed-Acts list_maintenances h =
      reads-Acts o p request_id list_maintenances "reader" (next list_maintenances) db refl
  routed-Acts (get_maintenance id) h =
      reads-Acts o p request_id (get_maintenance id) "reader" (next (get_maintenance id)) db refl
  routed-Acts (get_capture_route id) h =
      reads-Acts o p request_id (get_capture_route id) "reader" (next (get_capture_route id)) db
        refl
  routed-Acts (get_target_route id tid) h =
      reads-Acts o p request_id (get_target_route id tid) "reader" (next (get_target_route id tid))
        db refl
  routed-Acts list_events_route h =
      reads-Acts o p request_id list_events_route "reader" (next list_events_route) db refl
  routed-Acts create_maintenance_route h =
      require_role-Acts o p request_id create_maintenance_route (next create_maintenance_route) db
        refl (create-IsOutcome o.world (audit_context p request_id) db r.body)
  routed-Acts (transition_maintenance_route id) h =
      require_role-Acts o p request_id (transition_maintenance_route id)
        (next (transition_maintenance_route id)) db refl
        (transition_maintenance-IsOutcome o.world (audit_context p request_id) db id r.body
          r.if_match)
  routed-Acts (capture_route id) h =
      require_role-Acts o p request_id (capture_route id) (next (capture_route id)) db refl
        (capture-IsOutcome o.world (audit_context p request_id) db id r.body)
  routed-Acts (transition_target_route id tid) h =
      require_role-Acts o p request_id (transition_target_route id tid)
        (next (transition_target_route id tid)) db refl
        (transition_target-IsOutcome o.world (audit_context p request_id) db id tid r.body
          r.if_match)
  routed-Acts (add_observation_route id tid) h =
      require_role-Acts o p request_id (add_observation_route id tid)
        (next (add_observation_route id tid)) db refl
        (add_observation-IsOutcome o.world (audit_context p request_id) db id tid r.body r.if_match)
  routed-Acts create_backup h = ground (arith, h)
  routed-Acts (backup_artifact filename) h = ground (arith, h)

  pub routes_serve-Acts :
      is_backup (route_of r.method r.segments) ≡ false
      → Acts o p request_id
          (route_of r.method r.segments)
          db
          (routes_serve o s request_id (some p) r db)
  unfolding routes_serve
  routes_serve-Acts h = routed-Acts (route_of r.method r.segments) h

-- without a principal the routes change nothing
pub routes_serve-same :
    (o : Outside) (s : Server) (request_id : String) (r : Request) (db : Db)
    → (routes_serve o s request_id none r db).1 ≡ db
unfolding routes_serve require_role
routes_serve-same o s request_id r db = go (required_role (route_of r.method r.segments))
  where
    go :
        (role : Option String)
        → (elim role as (λ _. Response × Db) [
          | none ↦ (handle_plain o s (route_of r.method r.segments), db)
          | some wanted ↦
              require_role wanted none
                (λ p. handle o (audit_context p request_id) (route_of r.method r.segments) r)
                db
        ]).1
          ≡ db
    go none = refl
    go (some wanted) = refl

post-writes : (method : String) → (method == "POST") ≡ true → is_read method ≡ false
post-writes method h = rw ((eq_iff method "POST").0 h) refl

pub api_route-writes :
    (method : String) (segments : List String)
    → mutates (api_route method segments) ≡ true
    → is_read method ≡ false
unfolding api_route
api_route-writes method [] h = ground (arith, h)
api_route-writes method (a ∷ []) h = ground (arith, h)
api_route-writes method (a ∷ b ∷ []) h = ground (arith, h)
api_route-writes method (a ∷ b ∷ c ∷ []) h = ground (arith, h)
api_route-writes method (a ∷ b ∷ c ∷ d ∷ []) h = ground (arith, h)
api_route-writes method (a ∷ b ∷ c ∷ d ∷ e ∷ []) h = ground (arith, h, post-writes method)
api_route-writes method (a ∷ b ∷ c ∷ d ∷ e ∷ f ∷ rest) h = ground (arith, h)
