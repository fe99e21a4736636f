-- ===== src/Lib.antt =====
-- A model of Lazarus, a store of maintenances and the targets they stop and start again, and
-- proofs about it.
--
-- The store (internal/store) keeps four tables: maintenances, one capture for each, the targets
-- that a capture names, and a journal of events. Five operations change them, each in one
-- transaction under a mutex, and append what they did to the journal. The verification reads the
-- journal again, replays it from nothing and compares the result with the rows. The HTTP interface
-- (internal/api) turns a request into one operation or read, once the bearer tokens of
-- internal/auth say that its sender may call it.
--
-- Files and the code they are about:
--   Base          the shared names, Boolean tests and list lemmas
--   Text          strings.TrimSpace, validID, SQLite's length, name folding of encoding/json
--   Json          JSON values, json.Marshal and json.Unmarshal as the store uses them
--   Canonical     canonicalJSON and its relatives (store.go, mutations.go)
--   Errors        the error values of store.go; a fallible function returns a Result
--   Model         the types of store.go
--   Lifecycle     lifecycle.go
--   Precondition  VersionPrecondition of store.go
--   Tables        the tables of schema.sql, the statements run on them, and Store.write
--   Journal       events.go and auditValues; scanEvent of verify.go
--   Payloads      validJustification, and the checks of payloads in verify.go
--   Mutations     mutations.go: Create, Capture, Change (TransitionMaintenance), Target
--                 (TransitionTarget) and Observe (AddObservation)
--   Replay        replayMaintenance.apply and validateEventShape of verify.go
--   Verify        verifyApplicationData of verify.go: the locks, every maintenance (with
--                 loadCaptureForVerify and verifyMaintenanceReplay), Global (verifyGlobalEvents)
--   Manifest      BackupManifest and the JSON of backups
--   Backups       RecordBackupCreated (backup.go) and RecordBackupDownload (artifacts.go); Rotation
--                 (rotateBackupsWithAge), Cleanup (cleanupBackupTemps) and Artifact (the names of
--                 BackupArtifact)
--   Agreement     when rows and journal agree, and that each operation keeps it so
--   Exclusion     that no lock key is active in two maintenances
--   Guarantees    what holds across calls
--   Reads         reads.go, pageLimit and the cursors
--   Auth          internal/auth/auth.go
--   Api           internal/api: IfMatch (versionPrecondition), Query, Request (bodies),
--                 Response (errors), Routes, Handlers and Server (ServeHTTP); Sessions is requests
--                 one after another
--   Scenario      concrete calls, and Witnesses the theorems at them
--
-- How the code is read:
--   * A state is any text, as in Go. An int64 is its 64-bit pattern: `next_version` wraps, while
--     SQL's version+1 in `bump_targets` does not, and a version past int64 then fails to scan.
--   * A json.RawMessage is its length and the value it decodes to; canonical text is determined by
--     its value. Objects keep their fields in the order of the text; canonicalJSON sorts them by
--     key and keeps the last of each key (Json.Normal).
--   * The clock is an argument, and stays in the years 0 to 9999. A Time is an instant of these
--     years, as nanoseconds since Go's zero time. A text of RFC 3339 with an offset can also name an
--     instant up to a day outside them, so parsing gives a Moment.
--   * A column of text that holds an instant is the Time that the reads parse out of it. That is the
--     instant itself for those of the clock; an `observed_at` outside the years 0 to 9999 is stored
--     as a text that does not parse, and reads back as the zero time (`read_back`).
--   * SHA-256 and the RFC 3339 text of an instant are the record Env, with the one law that a
--     formatted Time parses to itself. base64 and strconv of a cursor are the record Codec; the digest of
--     a token is a function. The decimal texts of an If-Match header are Api.Decimal.
--   * A statement by primary key touches the one row of that key, the first that matches. A
--     constraint that fails is `db_error`, and the primary key of maintenance `unique_violation`.
--     A transaction that fails leaves the tables as they were. The mutex makes every history a
--     sequence of calls.
--   * Texts of errors are left out; a ConflictError keeps its fields. The errors of the replay are
--     all `corrupt`, as its caller wraps them.
--   * The map of targets of a replay is a list of entries. Loops are structural recursion on their
--     lists, so no fuel is needed; the digits of a number are counted with the number as fuel. The
--     loop over the tags of an If-Match header has one unit of fuel more than the header has
--     characters, and each round takes at least one.
--   * A request is its method, the segments of its path, its query, the headers that are read and
--     its body, the value that encoding/json reads; http.ServeMux redirects a path that is not
--     clean before any handler. An answer is a status, the headers that are set and the value
--     that is encoded. A server may have no authenticator and no store, as in Go.
--
-- Not modelled: opening a database and its schema checks, copying and checking a database for a
-- backup, the two handlers of backups (parameters of the server), the text of the metrics, the
-- command line, and New of internal/auth.
mod Base
pub mod Text
pub mod Json
pub mod Errors
pub mod Model
pub mod Lifecycle
pub mod Precondition
pub mod Tables
pub mod Journal
pub mod Payloads
pub mod Env
pub mod Canonical
pub mod Mutations
pub mod Replay
pub mod Verify
pub mod Manifest
pub mod Backups
pub mod Agreement
pub mod Exclusion
pub mod Guarantees
pub mod Auth
pub mod Reads
pub mod Api
pub mod Scenario
pub mod Witnesses
