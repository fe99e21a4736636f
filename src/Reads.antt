-- ===== src/Reads.antt =====
-- internal/store/reads.go: the reads of one row and the pages of maintenances and events, newest
-- first. base64 and strconv are parameters; a page limit is the 64-bit pattern of an int.
pub mod Pages
use lazarus.Base.{
  ℕ, zero, suc, ◌+◌, ◌-◌, String, Bool, true, false, not, ◌&&◌, ◌||◌, ◌==◌, ltb, leb, eqb,
  if◌then◌else◌, Option, none, some, List, [], ◌∷◌, ◌++◌, length, select, map,
}
use lazarus.Text.{valid_id, trim_space}
use lazarus.Errors.{Result, ok, err, invalid, guard, refuse, ◌>>=◌, ◌>>◌}
use lazarus.Model.{is_positive, Capture, Maintenance, MaintenanceAggregate, Target, Event}
use lazarus.Lifecycle.{valid_maintenance_state}
use lazarus.Tables.{Db, JournalRow, find_maintenance, find_capture, find_target, list_targets}
use lazarus.Journal.{scan_event}
use lazarus.Mutations.Target.{or_not_found}

unfoldable pub get_capture : String → Db → Result Capture
unfolding find_capture
get_capture id db = or_not_found (find_capture id db)

unfoldable pub get_target : String → String → Db → Result Target
unfolding find_target
get_target maintenance_id id db = do
  guard (valid_id maintenance_id && valid_id id) invalid
  or_not_found (find_target maintenance_id id db)

unfoldable pub get_maintenance_aggregate : String → Db → Result MaintenanceAggregate
unfolding find_maintenance
get_maintenance_aggregate id db = do
  guard (valid_id id) invalid
  m ← or_not_found (find_maintenance id db)
  targets ← list_targets id db
  ok (record { maintenance = m; targets = targets })

unfoldable pub page_limit : ℕ → ℕ
unfolding is_positive
page_limit value = if not (is_positive value) then 100 else if ltb 200 value then 200 else value

-- base64.RawURLEncoding and the decimal texts of strconv; `parse_int` gives a 64-bit pattern
pub record Codec : Type 0 where
  pub encode : String → String
  pub decode : String → Option String
  pub format_int : ℕ → String
  pub parse_int : String → Option ℕ

unfoldable pub decode_cursor : Codec → String → Result String
decode_cursor codec value = if trim_space value == "" then ok "" else elim (codec.decode value) [
  | none ↦ err invalid
  | some decoded ↦ if decoded == "" then err invalid else ok decoded
]

-- strconv.ParseInt, and `id < 1`
abbrev pub parsed_cursor : Option ℕ → Result ℕ
parsed_cursor none = err invalid
parsed_cursor (some id) = if is_positive id then ok id else err invalid

unfoldable pub decode_event_cursor : Codec → String → Result ℕ
unfolding decode_cursor is_positive
decode_event_cursor codec value = do
  decoded ← decode_cursor codec value
  if decoded == "" then ok 0 else parsed_cursor (codec.parse_int decoded)

-- a filter that is given must agree
abbrev pub agrees : String → String → Bool
agrees wanted value = wanted == "" || value == wanted

abbrev pub agrees_null : String → Option String → Bool
agrees_null wanted none = wanted == ""
agrees_null wanted (some value) = wanted == "" || value == wanted

-- `rowid < ?`, where there is a cursor
abbrev pub is_before : ℕ → ℕ → Bool
is_before cursor key = eqb cursor 0 || ltb key cursor

abbrev pub take {ℓ} : {A : Type ℓ} → ℕ → List A → List A
take zero xs = []
take (suc n) [] = []
take (suc n) (x ∷ xs) = x ∷ take n xs

abbrev pub reversed {ℓ} : {A : Type ℓ} → List A → List A → List A
reversed [] done = done
reversed (x ∷ xs) done = reversed xs (x ∷ done)

-- `items[limit-1]`
abbrev pub nth_key {ℓ} : {A : Type ℓ} → (A → ℕ) → ℕ → List A → ℕ
nth_key key n [] = 0
nth_key key zero (x ∷ xs) = key x
nth_key key (suc n) (x ∷ xs) = nth_key key n xs

pub record Page {ℓ} (A : Type ℓ) : Type ℓ where
  pub items : List A
  pub next_cursor : String

-- the page of the rows that LIMIT limit+1 leaves
unfoldable pub page_of {ℓ} : {A : Type ℓ} → Codec → (A → ℕ) → ℕ → List A → Page A
page_of codec key limit rows =
    let fetched = take (limit + 1) rows in
    if ltb limit (length fetched)
    then record {
      items = take limit fetched;
      next_cursor = codec.encode (codec.format_int (nth_key key (limit - 1) fetched));
    }
    else record { items = fetched; next_cursor = "" }

pub record EventListOptions : Type 0 where
  pub maintenance_id : String
  pub target_id : String
  pub event_type : String
  pub resource_type : String
  pub resource_id : String
  pub actor : String
  pub role : String
  pub request_id : String
  pub cursor : String
  pub limit : ℕ

abbrev pub event_selected : EventListOptions → JournalRow → Bool
event_selected opts row =
    agrees_null opts.maintenance_id row.maintenance_id
    && agrees_null opts.target_id row.target_id
    && agrees opts.event_type row.event_type
    && agrees opts.resource_type row.resource_type
    && agrees opts.resource_id row.resource_id
    && agrees opts.actor row.actor
    && agrees opts.role row.role
    && agrees opts.request_id row.request_id

-- the matching rows before the cursor, newest first
abbrev pub events_before : EventListOptions → ℕ → Db → List JournalRow
events_before opts cursor db =
    select (λ row. is_before cursor row.journal_id && event_selected opts row)
      (reversed db.journal [])

unfoldable pub list_events : Codec → EventListOptions → Db → Result (Page Event)
unfolding decode_event_cursor page_limit page_of
list_events codec opts db = do
  guard (opts.maintenance_id == "" || valid_id opts.maintenance_id) invalid
  guard (opts.target_id == "" || valid_id opts.target_id) invalid
  refuse (not (opts.target_id == "") && opts.maintenance_id == "") invalid
  cursor ← decode_event_cursor codec opts.cursor
  ok (
      page_of codec (λ e. e.id) (page_limit opts.limit)
        (map scan_event (events_before opts cursor db)))

pub record MaintenanceListOptions : Type 0 where
  pub state : String
  pub maintenance_id : String
  pub change_ticket : String
  pub workflow_version : String
  pub cursor : String
  pub limit : ℕ

-- the rows with their rowids, which count the insertions: no row of the table is ever deleted
abbrev pub with_rowids : ℕ → List Maintenance → List (ℕ × Maintenance)
with_rowids n [] = []
with_rowids n (m ∷ ms) = (n, m) ∷ with_rowids (n + 1) ms

abbrev pub maintenance_selected : MaintenanceListOptions → Maintenance → Bool
maintenance_selected opts m =
    agrees opts.state m.state
    && agrees opts.maintenance_id m.id
    && agrees opts.change_ticket m.change_ticket
    && agrees opts.workflow_version m.workflow_version

abbrev pub maintenances_before : MaintenanceListOptions → ℕ → Db → List (ℕ × Maintenance)
maintenances_before opts cursor db =
    select (λ row. is_before cursor row.0 && maintenance_selected opts row.1)
      (reversed (with_rowids 1 db.maintenances) [])

unfoldable pub list_maintenances : Codec → MaintenanceListOptions → Db → Result (Page Maintenance)
unfolding decode_event_cursor page_limit page_of
list_maintenances codec opts db = do
  guard (opts.state == "" || valid_maintenance_state opts.state) invalid
  guard (opts.maintenance_id == "" || valid_id opts.maintenance_id) invalid
  cursor ← decode_event_cursor codec opts.cursor
  let page =
      page_of codec (λ row. row.0) (page_limit opts.limit) (maintenances_before opts cursor db)
  ok (record {
    items = map (λ (row : ℕ × Maintenance). row.1) page.items;
    next_cursor = page.next_cursor;
  })
