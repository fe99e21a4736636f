-- ===== src/Guarantees/Global.antt =====
-- The events that name no maintenance, whatever calls the store has served.
use lazarus.Base.{
  ℕ, ◌+◌, ◌≡◌, refl, ap, ◌∙◌, inl, inr, Bool, true, false, not, ◌&&◌, none, some, List, [], ◌∷◌,
  ◌++◌, map, arith, ◌==◌, length, all, select,
}
use mathlib.Core.List.{append-nil}
use lazarus.Base.{select-append, map-append}
use lazarus.Env.{Env}
use lazarus.Errors.{ok}
use lazarus.Errors.Chains.{result_outcome}
use lazarus.Model.{Event}
use lazarus.Tables.{Db}
use lazarus.Journal.{append_event, stored_event, scan_event}
use lazarus.Journal.Written.{with_row, journal_row, scan-journal_row, append_event-IsAppended}
use lazarus.Verify.Global.{
  is_global, global_events, verify_global_event, verify_each_global, verify_global_events,
}
use lazarus.Backups.{created_event, downloaded_event}
use lazarus.Backups.Appended.{
  is_complete, append_event-named, created-verified, downloaded-verified,
}
use lazarus.Guarantees.Commands.{
  Command, backup_created_call, backup_download_call, create_call, capture_call, maintenance_call,
  target_call, observation_call, execute, execute_all,
}
use lazarus.Guarantees.Logged.{backup_event_of, execute-IsLogged}

-- The manifest of a recorded backup has a digest and a size, and a downloaded artifact has a name.
abbrev pub is_sound : Command → Bool
is_sound (backup_created_call m audit) = is_complete m
is_sound (backup_download_call now m artifact audit) = is_complete m && not (artifact == "")
is_sound _ = true

verify_each_global-append :
    (env : Env) (es : List Event) (e : Event)
    → verify_each_global env es ≡ ok tt
    → verify_global_event env e ≡ ok tt
    → verify_each_global env (es ++ e ∷ []) ≡ ok tt
unfolding verify_each_global
verify_each_global-append env [] e h here = ground (arith, here)
verify_each_global-append env (x ∷ es) e h here =
    elim (result_outcome (verify_global_event env x)) [
      | inl (_, done) ↦ ground (arith, h, done, verify_each_global-append env es e)
      | inr (_, failed) ↦ ground (arith, h, failed)
    ]

module _ (e : Event) (db : Db) where
  owned_row :
      (e.maintenance_id == "") ≡ false → (journal_row e db).maintenance_id ≡ some e.maintenance_id
  unfolding stored_event
  owned_row owner = rw owner refl

  free_row : e.maintenance_id ≡ "" → (journal_row e db).maintenance_id ≡ none
  unfolding stored_event
  free_row free = rw free refl

  global_events-owned :
      (e.maintenance_id == "") ≡ false → global_events (with_row e db) ≡ global_events db
  unfolding global_events
  global_events-owned owner =
      rw (select-append is_global db.journal (journal_row e db ∷ []))
        (rw (owned_row owner) (rw append-nil))

  free_rows :
      e.maintenance_id ≡ "" → select is_global (journal_row e db ∷ []) ≡ journal_row e db ∷ []
  free_rows free = ground (arith, free_row free)

  global_events-free :
      e.maintenance_id ≡ ""
      → global_events (with_row e db)
        ≡ global_events db ++ record (stored_event e) { id = length db.journal + 1 } ∷ []
  unfolding global_events
  global_events-free free = rw (select-append is_global db.journal (journal_row e db ∷ [])) (
      rw (free_rows free) (
        rw (map-append scan_event (select is_global db.journal) (journal_row e db ∷ []))
          (rw scan-journal_row)))

-- what an appended event of a backup shows the verification
IsAccepted : Env → Event → ℕ → Type 0
IsAccepted env e key =
    (e.maintenance_id ≡ "")
    × (verify_global_event env (record (stored_event e) { id = key }) ≡ ok tt)

some_inj : {a b : Event} → some a ≡ some b → a ≡ b
some_inj h = cc

backup-IsAccepted :
    (env : Env) (c : Command) (e : Event) (db db' : Db)
    → is_sound c ≡ true
    → backup_event_of env c ≡ some e
    → append_event e db ≡ ok db'
    → IsAccepted env e (length db.journal + 1)
unfolding IsAccepted
backup-IsAccepted env (backup_created_call m audit) e db db' sound h appended =
    let same : created_event env m audit ≡ e = some_inj h in
    let done : append_event (created_event env m audit) db ≡ ok db' =
      ap (λ x. append_event x db) same ∙ appended in
    rw (← same) (
      refl,
      created-verified env m audit (length db.journal + 1) (omega arith)
          (append_event-IsAppended _ _ _ done).dated (append_event-named _ _ _ done) sound,
    )
backup-IsAccepted env (backup_download_call now m artifact audit) e db db' sound h appended =
    let same : downloaded_event now m artifact audit ≡ e = some_inj h in
    let done : append_event (downloaded_event now m artifact audit) db ≡ ok db' =
      ap (λ x. append_event x db) same ∙ appended in
    rw (← same) (
      refl,
      downloaded-verified env now m artifact audit (length db.journal + 1) (omega arith)
          (append_event-IsAppended _ _ _ done).dated (append_event-named _ _ _ done)
          (ground (arith, sound)) (ground (arith, sound)),
    )
backup-IsAccepted env (create_call _ _ _) e db db' sound h appended = cc
backup-IsAccepted env (capture_call _ _ _ _ _) e db db' sound h appended = cc
backup-IsAccepted env (maintenance_call _ _ _ _ _) e db db' sound h appended = cc
backup-IsAccepted env (target_call _ _ _ _ _ _) e db db' sound h appended = cc
backup-IsAccepted env (observation_call _ _ _ _ _ _) e db db' sound h appended = cc

journal_only : (a b : Db) → a.journal ≡ b.journal → global_events a ≡ global_events b
unfolding global_events
journal_only a b same = ap (λ rows. map scan_event (select is_global rows)) same

-- Every call keeps the events that name no maintenance acceptable.
execute-global :
    (env : Env) (c : Command) (db : Db)
    → is_sound c ≡ true
    → verify_global_events env db ≡ ok tt
    → verify_global_events env (execute env c db) ≡ ok tt
unfolding verify_global_events IsAccepted
execute-global env c db sound old = elim (execute-IsLogged env c db) [
  | inl same ↦ rw same old
  | inr l ↦
      let written = (append_event-IsAppended _ _ _ l.appended).written in
      let before : global_events l.rows ≡ global_events db = journal_only l.rows db l.same in
      elim l.owner [
        | inl owned ↦
            ap (λ d. verify_each_global env (global_events d)) written
            ∙ ap (verify_each_global env) (global_events-owned l.event l.rows owned ∙ before)
            ∙ old
        | inr (backup, unchanged) ↦
            let accepted =
              backup-IsAccepted env c l.event l.rows (execute env c db) sound backup l.appended in
            ap (λ d. verify_each_global env (global_events d)) written
            ∙ ap (verify_each_global env) (global_events-free l.event l.rows accepted.0)
            ∙ verify_each_global-append env (global_events l.rows) _
                (ap (verify_each_global env) before ∙ old) accepted.1
      ]
]

pub execute_all-global :
    (env : Env) (cs : List Command) (db : Db)
    → all is_sound cs ≡ true
    → verify_global_events env db ≡ ok tt
    → verify_global_events env (execute_all env cs db) ≡ ok tt
unfolding execute_all
execute_all-global env [] db sound old = old
execute_all-global env (c ∷ cs) db sound old =
    execute_all-global env cs (execute env c db) (ground (arith, sound))
      (execute-global env c db (ground (arith, sound)) old)
