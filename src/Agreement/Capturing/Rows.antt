-- ===== src/Agreement/Capturing/Rows.antt =====
-- The tables after a first capture, as the checks of the journal see them.
use lazarus.Base.{
  ◌+◌, String, ◌≡◌, refl, sym, ap, ◌∙◌, inl, inr, true, false, ◌==◌, eq_refl, none, some, List, [],
  ◌∷◌, ◌++◌, map, select, length, arith, select-append, find-append_none, find-append_some,
  Option-cases,
}
use mathlib.Core.List.{append-nil}
use lazarus.Model.{Time, Capture, Maintenance}
use lazarus.Tables.{Db, find_capture, count_captures, targets_of}
use lazarus.Mutations.Capture.{captured_target}
use lazarus.Mutations.Capture.Parse.{CaptureTarget}
use lazarus.Mutations.Capture.Accepted.{capture_rows}
use lazarus.Replay.{target_entry}
use lazarus.Agreement.{all, stored_input, entry_of, input_of, in_range}

select-captured :
    (id : String) (stamp : Time) (inputs : List CaptureTarget)
    → select (λ t. t.maintenance_id == id) (map (captured_target id stamp) inputs)
      ≡ map (captured_target id stamp) inputs
select-captured id stamp [] = refl
select-captured id stamp (input ∷ rest) = rw (eq_refl id, select-captured id stamp rest) refl

select-captured_other :
    (mid id : String) (stamp : Time) (inputs : List CaptureTarget)
    → (mid == id) ≡ false
    → select (λ t. t.maintenance_id == id) (map (captured_target mid stamp) inputs) ≡ []
select-captured_other mid id stamp [] apart = refl
select-captured_other mid id stamp (input ∷ rest) apart =
    rw apart (select-captured_other mid id stamp rest apart)

entries-captured :
    (id : String) (stamp : Time) (inputs : List CaptureTarget)
    → map entry_of (map (captured_target id stamp) inputs) ≡ map target_entry inputs
entries-captured id stamp [] = refl
entries-captured id stamp (input ∷ rest) =
    ap (λ es. target_entry input ∷ es) (entries-captured id stamp rest)

inputs-captured :
    (id : String) (stamp : Time) (inputs : List CaptureTarget)
    → map input_of (map (captured_target id stamp) inputs) ≡ map stored_input inputs
inputs-captured id stamp [] = refl
inputs-captured id stamp (input ∷ rest) =
    ap (λ is. stored_input input ∷ is) (inputs-captured id stamp rest)

fit-captured :
    (id : String) (stamp : Time) (inputs : List CaptureTarget)
    → all in_range (map (captured_target id stamp) inputs) ≡ true
fit-captured id stamp [] = refl
fit-captured id stamp (input ∷ rest) = fit-captured id stamp rest

module _ (now : Time) (m : Maintenance) (capture : Capture) (inputs : List CaptureTarget)
    (db : Db) where
  pub entries-capture_rows :
      targets_of m.id db ≡ []
      → map entry_of (targets_of m.id (capture_rows now m capture inputs db))
        ≡ map target_entry inputs
  unfolding targets_of
  entries-capture_rows none_before =
      rw
        (select-append (λ t. t.maintenance_id == m.id) db.targets
          (map (captured_target m.id capture.captured_at) inputs))
        (rw (none_before, select-captured m.id capture.captured_at inputs)
          (entries-captured m.id capture.captured_at inputs))

  pub targets_of-capture_rows_other :
      (id : String)
      → (m.id == id) ≡ false
      → targets_of id (capture_rows now m capture inputs db) ≡ targets_of id db
  unfolding targets_of
  targets_of-capture_rows_other id apart =
      rw
        (select-append (λ t. t.maintenance_id == id) db.targets
          (map (captured_target m.id capture.captured_at) inputs))
        (rw (select-captured_other m.id id capture.captured_at inputs apart)
          (append-nil (select (λ t. t.maintenance_id == id) db.targets)))

  pub find_capture-capture_rows :
      find_capture m.id db ≡ none
      → (capture.maintenance_id == m.id) ≡ true
      → find_capture m.id (capture_rows now m capture inputs db) ≡ some capture
  unfolding find_capture
  find_capture-capture_rows free own =
      find-append_none (λ c. c.maintenance_id == m.id) db.captures (capture ∷ []) free ∙ rw own refl

  pub find_capture-capture_rows_other :
      (id : String)
      → (capture.maintenance_id == id) ≡ false
      → find_capture id (capture_rows now m capture inputs db) ≡ find_capture id db
  unfolding find_capture
  find_capture-capture_rows_other id apart = elim (Option-cases (find_capture id db)) [
    | inl gone ↦
        find-append_none (λ c. c.maintenance_id == id) db.captures (capture ∷ []) gone
        ∙ rw apart (sym gone)
    | inr (c, there) ↦
        find-append_some (λ c. c.maintenance_id == id) db.captures (capture ∷ []) there ∙ sym there
  ]

  pub count_captures-capture_rows :
      count_captures m.id db ≡ 0
      → (capture.maintenance_id == m.id) ≡ true
      → count_captures m.id (capture_rows now m capture inputs db) ≡ 1
  unfolding count_captures
  count_captures-capture_rows before own =
      rw (select-append (λ c. c.maintenance_id == m.id) db.captures (capture ∷ [])) (
        ground (
          arith,
          before,
          own,
          length-append (select (λ c. c.maintenance_id == m.id) db.captures) (capture ∷ []),
        ))
    where
      length-append : (xs ys : List Capture) → length (xs ++ ys) ≡ length xs + length ys
      length-append [] ys = omega arith
      length-append (x ∷ xs) ys = ground (arith, length-append xs ys)

  pub count_captures-capture_rows_other :
      (id : String)
      → (capture.maintenance_id == id) ≡ false
      → count_captures id (capture_rows now m capture inputs db) ≡ count_captures id db
  unfolding count_captures
  count_captures-capture_rows_other id apart =
      rw (select-append (λ c. c.maintenance_id == id) db.captures (capture ∷ []))
        (rw apart (rw append-nil refl))

  targets_of-capture_rows :
      targets_of m.id db ≡ []
      → targets_of m.id (capture_rows now m capture inputs db)
        ≡ map (captured_target m.id capture.captured_at) inputs
  unfolding targets_of
  targets_of-capture_rows none_before =
      select-append (λ t. t.maintenance_id == m.id) db.targets
        (map (captured_target m.id capture.captured_at) inputs)
      ∙ rw (none_before) (select-captured m.id capture.captured_at inputs)

  pub inputs-capture_rows :
      targets_of m.id db ≡ []
      → map input_of (targets_of m.id (capture_rows now m capture inputs db))
        ≡ map stored_input inputs
  inputs-capture_rows none_before =
      ap (map input_of) (targets_of-capture_rows none_before)
      ∙ inputs-captured m.id capture.captured_at inputs

  pub fit-capture_rows :
      targets_of m.id db ≡ []
      → all in_range (targets_of m.id (capture_rows now m capture inputs db)) ≡ true
  fit-capture_rows none_before =
      ap (all in_range) (targets_of-capture_rows none_before)
      ∙ fit-captured m.id capture.captured_at inputs
