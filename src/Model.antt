-- ===== src/Model.antt =====
-- The types of internal/store/store.go. Strings are texts, a time.Time is an instant of
-- the years 0 to 9999 in UTC, the years of the clock, counted in nanoseconds from Go's zero time (the
-- instants of the year 0 are numbered last), and an int64 is its 64-bit pattern.
use lazarus.Base.{
  ℕ, ◌+◌, ◌%◌, ◌^◌, ◌<◌, ◌≡◌, true, arith, String, Bool, ◌&&◌, Option, List, ltb, eqb,
}
use lazarus.Json.{Raw}

abbrev pub Time : Type 0
Time = ℕ

-- What a text of RFC 3339 with an offset may name: once moved to UTC, an instant of the years 0 to
-- 9999, or one up to a day outside them.
pub data Moment : Type 0 where
  within : Time → Moment
  outside : ℕ → Moment

-- time.Parse of the RFC3339Nano text that Format gives, its error ignored: the text of a year
-- past 9999 or before 0 does not parse, which leaves the zero time
unfoldable pub read_back : Moment → Time
read_back (within t) = t
read_back (outside _) = 0

-- time.Time.IsZero
abbrev pub is_zero : Time → Bool
is_zero t = eqb t 0

abbrev pub int64_limit : ℕ
int64_limit = 2 ^ 63

-- `v + 1` on an int64, which wraps
unfoldable pub next_version : ℕ → ℕ
next_version v = (v + 1) % 2 ^ 64

-- `v > 0` on an int64
unfoldable pub is_positive : ℕ → Bool
is_positive v = ltb 0 v && ltb v int64_limit

pub is_positive-pos : (v : ℕ) → is_positive v ≡ true → 0 < v
unfolding is_positive
is_positive-pos v h = ground arith

pub record AuditContext : Type 0 where
  pub actor : String
  pub role : String
  pub request_id : String

pub record StateChange : Type 0 where
  pub state : String
  pub justification : String
  pub detail : Raw

pub record Capture : Type 0 where
  pub maintenance_id : String
  pub captured_at : Time
  pub payload : Raw
  pub sha256 : String

pub record CaptureResult : Type 0 where
  pub capture : Capture
  pub created : Bool

pub record Maintenance : Type 0 where
  pub id : String
  pub state : String
  pub change_ticket : String
  pub workflow_version : String
  pub metadata : Raw
  pub version : ℕ
  pub created_at : Time
  pub updated_at : Time

pub record Target : Type 0 where
  pub id : String
  pub maintenance_id : String
  pub lock_key : String
  pub state : String
  pub original_state : String
  pub kind : String
  pub host : String
  pub observed_at : Option Time
  pub metadata : Raw
  pub version : ℕ
  pub created_at : Time
  pub updated_at : Time

pub record MaintenanceAggregate : Type 0 where
  pub maintenance : Maintenance
  pub targets : List Target

pub record TargetTransitionResult : Type 0 where
  pub target : Target
  pub maintenance_version : ℕ

pub record Event : Type 0 where
  pub id : ℕ
  pub type : String
  pub occurred_at : Time
  pub request_id : String
  pub actor : String
  pub role : String
  pub resource_type : String
  pub resource_id : String
  pub maintenance_id : String
  pub target_id : String
  pub from_state : String
  pub to_state : String
  pub from_version : ℕ
  pub to_version : ℕ
  pub aggregate_version : ℕ
  pub payload : Raw
