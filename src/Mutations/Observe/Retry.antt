-- ===== src/Mutations/Observe/Retry.antt =====
-- Observations that are sent again under the same request id.
use lazarus.Base.{
  find-append_none, ◌*◌, ◌⊎◌, ◌∙◌, String, ◌≡◌, refl, true, false, ltb, none, some, [], ◌∷◌,
  eq_refl, arith,
}
use lazarus.Json.{Raw, raw_eq, is_empty}
use lazarus.Errors.{ok}
use lazarus.Text.{valid_id}
use lazarus.Text.Trim.{valid_id-ne_empty}
use lazarus.Model.{Time, AuditContext, Event}
use lazarus.Canonical.{canonical_json_object}
use lazarus.Tables.{Db, JournalRow}
use lazarus.Journal.{append_event, audit_values, stored_event, or_system}
use lazarus.Journal.Written.{journal_row, append_event-IsAppended, or_system-ne_empty}
use lazarus.Mutations.Observe.{find_observation, is_observation, observed_event}

-- the journal has the observation, or it is appended
pub record IsRecorded (mid tid : String) (payload : Raw) (audit : AuditContext) (db db' : Db)
    : Type 0 where
  pub row : JournalRow
  pub found : find_observation mid tid (audit_values audit).request_id db ≡ some row
  pub equal : raw_eq row.payload payload ≡ true
  pub same : db' ≡ db

pub record IsNew (now : Time) (mid tid : String) (payload : Raw) (audit : AuditContext)
    (db db' : Db) : Type 0 where
  pub free : find_observation mid tid (audit_values audit).request_id db ≡ none
  pub appended : append_event (observed_event now mid tid (audit_values audit) payload) db ≡ ok db'

pub record Passed (now : Time) (mid tid : String) (given : Raw) (audit : AuditContext) (db db' : Db)
    : Type 0 where
  pub payload : Raw
  pub named : valid_id mid ≡ true
  pub target_named : valid_id tid ≡ true
  pub canonical : canonical_json_object given ≡ ok payload
  pub fits : ltb (64 * 1024) payload.size ≡ false
  pub outcome : IsRecorded mid tid payload audit db db' ⊎ IsNew now mid tid payload audit db db'

module _ (now : Time) (mid tid : String) (payload : Raw) (audit : AuditContext) (db : Db)
    (named : valid_id mid ≡ true) (target_named : valid_id tid ≡ true)
    (full : is_empty payload ≡ false) where
  abbrev event : Event
  event = observed_event now mid tid (audit_values audit) payload

  is_own : is_observation mid tid (audit_values audit).request_id (journal_row event db) ≡ true
  unfolding stored_event audit_values
  is_own = ground (
    arith,
    valid_id-ne_empty mid named,
    valid_id-ne_empty tid target_named,
    or_system-ne_empty audit.request_id,
    eq_refl mid,
    eq_refl tid,
    eq_refl (or_system audit.request_id),
  )

  found :
      (db' : Db)
      → find_observation mid tid (audit_values audit).request_id db ≡ none
      → append_event event db ≡ ok db'
      → find_observation mid tid (audit_values audit).request_id db' ≡ some (journal_row event db)
  unfolding find_observation
  found db' free appended = rw ((append_event-IsAppended event db db' appended).written) (
      find-append_none (is_observation mid tid (audit_values audit).request_id) db.journal
        (journal_row event db ∷ []) free
      ∙ rw is_own refl)
