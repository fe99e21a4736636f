-- ===== src/Guarantees/Verified.antt =====
-- `verifyMaintenanceReplay` of internal/store/verify.go accepts what agrees with the journal.
use lazarus.Base.{
  String, Bool, false, Option, none, inl, inr, Bool-cases, Option-cases, all, find, ◌==◌, suc, ◌≡◌,
  refl, sym, ap, ◌∙◌, true, some, List, [], ◌∷◌, map, arith, length, eqb_refl,
}
use lazarus.Env.{Env}
use lazarus.Errors.{Result, ok, err}
use lazarus.Errors.Chains.{result_outcome}
use lazarus.Model.{Target, Maintenance, Capture, Moment, within, outside, read_back}
use lazarus.Mutations.Capture.{read_back_opt}
use lazarus.Mutations.Capture.Parse.{CaptureTarget, parse_capture_targets}
use lazarus.Tables.{
  find_capture, Db, find_maintenance, targets_of, sort_by_id, insert_sorted, list_targets,
}
use lazarus.Mutations.Change.Barriers.{all-sort_by_id}
use lazarus.Replay.{ReplayMaintenance, SavedCapture}
use lazarus.Verify.{load_capture_for_verify, no_capture, targets_match, verify_maintenance_replay}
use lazarus.Agreement.{of_time, stored_input, Agrees, entry_of, input_of}
use lazarus.Agreement.Distinct.{are_distinct, load_capture-distinct, meets, all-meets}
use lazarus.Guarantees.Replayable.{Agrees-IsReplayed}

length-insert_sorted :
    (t : Target) (ts : List Target) → length (insert_sorted t ts) ≡ suc (length ts)
unfolding insert_sorted
length-insert_sorted t [] = refl
length-insert_sorted t (u ∷ us) = ground (arith, length-insert_sorted t us)

length-sort_by_id : (ts : List Target) → length (sort_by_id ts) ≡ length ts
unfolding sort_by_id
length-sort_by_id [] = refl
length-sort_by_id (t ∷ ts) = length-insert_sorted t (sort_by_id ts) ∙ ap suc (length-sort_by_id ts)

length-map : {A B : Type 0} (f : A → B) (xs : List A) → length (map f xs) ≡ length xs
length-map f [] = refl
length-map f (x ∷ xs) = ap suc (length-map f xs)

-- the rows of the targets, listed by id, against their own inputs and entries
targets_match-own :
    (r : ReplayMaintenance) (saved : SavedCapture) (rows : List Target)
    → saved.inputs ≡ map input_of rows
    → r.targets ≡ map entry_of rows
    → are_distinct saved.inputs ≡ true
    → targets_match r saved (sort_by_id rows) ≡ true
unfolding targets_match
targets_match-own r saved rows inputs entries distinct =
    let apart : are_distinct (map input_of rows) ≡ true = rw (← inputs) distinct in
    rw (inputs, entries, length-map input_of rows, length-map entry_of rows, length-sort_by_id rows)
      (rw (all-sort_by_id (meets rows) rows, all-meets rows apart)
        (ground (arith, eqb_refl (length rows))))

-- the moment is an instant of the years 0 to 9999, or there is none
abbrev reads_back : Option Moment → Bool
reads_back (some (outside _)) = false
reads_back _ = true

abbrev all_read_back : Result (List CaptureTarget) → Bool
all_read_back (err _) = true
all_read_back (ok inputs) = all (λ (input : CaptureTarget). reads_back input.observed_at) inputs

-- every `observed_at` of the capture is an instant of the years 0 to 9999
abbrev pub is_timely : Env → Capture → Bool
is_timely env capture = all_read_back (parse_capture_targets env capture.payload)

stored_input-own :
    (inputs : List CaptureTarget)
    → all_read_back (ok inputs) ≡ true
    → map stored_input inputs ≡ inputs
unfolding read_back
stored_input-own [] h = refl
stored_input-own (input ∷ rest) h =
    let further : map stored_input rest ≡ rest = stored_input-own rest (ground (arith, h)) in
    let same : stored_input input ≡ input = by_time input.observed_at (ground (arith, h)) in
    rw (further, same) refl
  where
    by_time :
        (o : Option Moment)
        → reads_back o ≡ true
        → record input { observed_at = of_time (read_back_opt o) }
          ≡ record input { observed_at = o }
    by_time none k = refl
    by_time (some (within t)) k = refl
    by_time (some (outside n)) k = absurd (ground (arith, k))

all-find :
    (p : Capture → Bool) (id : String) (captures : List Capture) {capture : Capture}
    → all p captures ≡ true
    → find (λ (c : Capture). c.maintenance_id == id) captures ≡ some capture
    → p capture ≡ true
all-find p id [] h found = absurd (ground (arith, found))
all-find p id (c ∷ cs) {capture} h found = elim (Bool-cases (c.maintenance_id == id)) [
  | inl own ↦ let same : c ≡ capture = ground (arith, found, own) in rw (← same) (ground (arith, h))
  | inr other ↦ all-find p id cs (ground (arith, h)) (ground (arith, found, other))
]

-- what loads of a timely capture is stored as it is
load_capture-stored :
    (env : Env) (id : String) (db : Db) {saved : SavedCapture}
    → all (is_timely env) db.captures ≡ true
    → load_capture_for_verify env id db ≡ ok saved
    → map stored_input saved.inputs ≡ saved.inputs
unfolding load_capture_for_verify find_capture
load_capture-stored env id db {saved} timely h = elim (Option-cases (find_capture id db)) [
  | inl gone ↦
      let none_saved : no_capture ≡ saved = ground (arith, h, gone) in rw (← none_saved) refl
  | inr (capture, there) ↦
      let good : is_timely env capture ≡ true =
        all-find (is_timely env) id db.captures timely there in
      elim (result_outcome (parse_capture_targets env capture.payload)) [
        | inl (inputs, parsed) ↦
            let same : inputs ≡ saved.inputs = ground (arith, h, there, parsed) in
            rw (← same) (stored_input-own inputs (ap all_read_back (sym parsed) ∙ good))
        | inr (e, refused) ↦ absurd (ground (arith, h, there, refused))
      ]
]

-- A maintenance that agrees with its journal passes the whole check, its targets included, where
-- the captures are timely.
pub Agrees-verified :
    (env : Env) (db : Db) (m : Maintenance)
    → all (is_timely env) db.captures ≡ true
    → find_maintenance m.id db ≡ some m
    → Agrees env db m
    → verify_maintenance_replay env m.id db ≡ ok tt
unfolding verify_maintenance_replay list_targets
Agrees-verified env db m timely found a =
    let checked = Agrees-IsReplayed env db m a in
    let matched : targets_match a.replay a.saved (sort_by_id (targets_of m.id db)) ≡ true =
      targets_match-own a.replay a.saved (targets_of m.id db)
        (sym (a.inputs ∙ load_capture-stored env m.id db timely a.loaded)) a.targets
        (load_capture-distinct env m.id db a.loaded) in
    ground (arith, found, a.loaded, a.replayed, checked.matches, a.fit, matched)
