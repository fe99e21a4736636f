-- ===== src/Api/Query.antt =====
-- The query parameters of internal/api/server.go: `queryPageLimit`, `rejectUnknownQuery` and the
-- options of the two lists. A query is its names and values in order.
use lazarus.Base.{
  ℕ, ◌<◌, ◌≤◌, ◌≡◌, inl, inr, arith, Bool-cases, String, not, ◌&&◌, ◌||◌, ◌==◌, ltb, if◌then◌else◌,
  Option, none, some, List, [], ◌∷◌, any, all,
}
use lazarus.Text.{trim_space}
use lazarus.Errors.{Result, ok, err, invalid, guard, refuse, ◌>>=◌, ◌>>◌}
use lazarus.Reads.{MaintenanceListOptions, EventListOptions}
use lazarus.Api.Decimal.{parse_int}

abbrev pub Query : Type 0
Query = List (String × String)

-- url.Values.Get
unfoldable pub query_get : String → Query → String
query_get name [] = ""
query_get name ((key, value) ∷ rest) = if key == name then value else query_get name rest

-- strconv.Atoi and the bounds of a limit
abbrev checked_limit : Option ℕ → Result ℕ
checked_limit none = err invalid
checked_limit (some limit) = if ltb limit 1 || ltb 200 limit then err invalid else ok limit

unfoldable pub query_page_limit : Query → Result ℕ
unfolding query_get trim_space parse_int
query_page_limit query =
    let value = trim_space (query_get "limit" query) in
    if value == "" then ok 100 else checked_limit (parse_int value)

unfoldable pub reject_unknown_query : Query → List String → Result (Unit {0})
reject_unknown_query query allowed =
    guard (all (λ (entry : String × String). any (λ name. name == entry.0) allowed) query) invalid

abbrev trimmed : String → Query → String
unfolding query_get trim_space
trimmed name query = trim_space (query_get name query)

unfoldable pub maintenance_list_options : Query → Result MaintenanceListOptions
unfolding reject_unknown_query query_page_limit trimmed
maintenance_list_options query = do
  reject_unknown_query query
      ("state" ∷ "maintenance_id" ∷ "change_ticket" ∷ "workflow_version" ∷ "cursor" ∷ "limit" ∷ [])
  limit ← query_page_limit query
  ok (record {
    state = trimmed "state" query;
    maintenance_id = trimmed "maintenance_id" query;
    change_ticket = trimmed "change_ticket" query;
    workflow_version = trimmed "workflow_version" query;
    cursor = trimmed "cursor" query;
    limit = limit;
  })

unfoldable pub event_list_options : Query → Result EventListOptions
unfolding reject_unknown_query query_page_limit trimmed
event_list_options query = do
  reject_unknown_query query (
      "maintenance_id" ∷ "target_id" ∷ "event_type" ∷ "resource_type" ∷ "resource_id" ∷ "actor"
      ∷ "role" ∷ "request_id" ∷ "cursor" ∷ "limit" ∷ [])
  limit ← query_page_limit query
  refuse (not (trimmed "target_id" query == "") && trimmed "maintenance_id" query == "") invalid
  ok (record {
    maintenance_id = trimmed "maintenance_id" query;
    target_id = trimmed "target_id" query;
    event_type = trimmed "event_type" query;
    resource_type = trimmed "resource_type" query;
    resource_id = trimmed "resource_id" query;
    actor = trimmed "actor" query;
    role = trimmed "role" query;
    request_id = trimmed "request_id" query;
    cursor = trimmed "cursor" query;
    limit = limit;
  })

checked_limit-bounds :
    (o : Option ℕ) {limit : ℕ} → checked_limit o ≡ ok limit → (0 < limit) × (limit ≤ 200)
checked_limit-bounds none h = cc
checked_limit-bounds (some n) h = ground (arith, h)

-- A limit that a request gives and that is accepted is at least 1 and at most 200, as is the limit
-- of a request that gives none.
pub query_page_limit-bounds :
    (query : Query) {limit : ℕ} → query_page_limit query ≡ ok limit → (0 < limit) × (limit ≤ 200)
unfolding query_page_limit
query_page_limit-bounds query {limit} h =
    elim (Bool-cases (trim_space (query_get "limit" query) == "")) [
      | inl unset ↦ ground (arith, h, unset)
      | inr given ↦
          checked_limit-bounds (parse_int (trim_space (query_get "limit" query)))
            (ground (arith, h, given))
    ]
