-- ===== src/Env.antt =====
-- What the store takes from Go's standard library and the model does not define: the hex SHA-256
-- of a text, and the RFC 3339 text of an instant.
use lazarus.Base.{String, ◌≡◌, Option, some}
use lazarus.Json.{Raw}
use lazarus.Model.{Time, Moment, within}

pub record Env : Type 0 where
  pub sha256_hex : Raw → String
  pub format_time : Time → String
  pub parse_time : String → Option Moment
  -- RFC3339Nano keeps every nanosecond of a UTC instant of the years 0 to 9999
  pub parse-format : (t : Time) → parse_time (format_time t) ≡ some (within t)
