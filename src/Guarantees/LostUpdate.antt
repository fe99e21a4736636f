-- ===== src/Guarantees/LostUpdate.antt =====
-- Two changes of a target cannot both rest on one version of it.
use lazarus.Base.{
  ℕ, String, ◌≡◌, ◌≢◌, refl, sym, ap, ◌∙◌, false, eqb, some, [], ◌∷◌, arith, find, update_first,
  find-update_first_self, map_option, eqb→eq,
}
use lazarus.Errors.{ok}
use lazarus.Model.{Time, next_version, AuditContext, StateChange, Target, TargetTransitionResult}
use lazarus.Precondition.{VersionPrecondition, match, require}
use lazarus.Tables.{Db, is_target, find_target}
use lazarus.Tables.Keys.{find-holds_id, find-holds_target}
use lazarus.Tables.Write.{write-ok}
use lazarus.Journal.Written.{append_event-IsAppended}
use lazarus.Mutations.Target.{transition_target, checked_target_change}
use lazarus.Mutations.Target.Accepted.{accepted}
use lazarus.Mutations.Target.Guarded.{transition_target-IsGuarded, body}
use lazarus.Agreement.TargetChange.Rows.{set_target, record_target_change-append}

-- an If-Match header with one version
abbrev pub at_version : ℕ → VersionPrecondition
at_version v = record { any_version = false; versions = v ∷ [] }

pub next_version-fresh : (v : ℕ) → eqb v (next_version v) ≡ false
unfolding next_version
next_version-fresh v = ground arith

module _ (now : Time) (mid tid : String) (change : StateChange) (v : ℕ) (audit : AuditContext)
    (db : Db) (res : TargetTransitionResult) where
  -- the target after the accepted change
  changed :
      (transition_target now mid tid change (at_version v) audit db).0 ≡ ok res
      → (x : Target) × (find_target mid tid
            (transition_target now mid tid change (at_version v) audit db).1
          ≡ some x)
        × (eqb v x.version ≡ false)
  unfolding transition_target find_target match require
  changed done =
      let ran = write-ok db (checked_target_change now mid tid change (at_version v) audit) done in
      let b = body now mid tid change (at_version v) audit db res _ ran in
      let a = accepted now mid tid change (at_version v) audit b.0 db _ res b.1 in
      let rows =
        record_target_change-append a.type now a.m a.t change.state audit b.0 db _ res a.recorded in
      let appended = append_event-IsAppended _ _ _ rows.0 in
      let same = find-holds_id mid db a.found in
      let target_same = find-holds_target mid tid db a.target_found in
      let version : v ≡ a.t.version = eqb→eq v a.t.version (ground (arith, a.matched)) in
      (
        set_target now change.state (next_version a.t.version) a.t,
        ap (λ (d : Db). find (is_target mid tid) d.targets) appended.written
            ∙ (λ i. find (is_target mid tid) (
                update_first (is_target (same i) (target_same i))
                  (set_target now change.state (next_version a.t.version)) db.targets))
            ∙ find-update_first_self (is_target mid tid)
                (set_target now change.state (next_version a.t.version)) (λ x. refl) db.targets
            ∙ ap (map_option (set_target now change.state (next_version a.t.version)))
                a.target_found,
        rw version (next_version-fresh a.t.version),
      )

  -- After a change of a target that was accepted at the version `v`, no change of that target with
  -- the same If-Match version is accepted, whatever it asks for.
  pub transition_target-no_lost_update :
      (now' : Time) (change' : StateChange) (audit' : AuditContext) (res' : TargetTransitionResult)
      → (transition_target now mid tid change (at_version v) audit db).0 ≡ ok res
      → (transition_target now' mid tid change'
          (at_version v)
          audit'
          (transition_target now mid tid change (at_version v) audit db).1).0
        ≢ ok res'
  unfolding match
  transition_target-no_lost_update now' change' audit' res' done again =
      let x = changed done in
      let g = transition_target-IsGuarded now' mid tid change' (at_version v) audit' _ res' again in
      ground (arith, g.current, x.2, sym g.target_found ∙ x.1)
