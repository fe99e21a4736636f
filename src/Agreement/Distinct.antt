-- ===== src/Agreement/Distinct.antt =====
-- The targets of a capture have different ids, so each row meets its own input and its own entry.
use lazarus.Base.{
  String, ◌≡◌, refl, inl, inr, Bool, true, false, not, ◌&&◌, Option, none, some, List, [], ◌∷◌, map,
  arith, ◌==◌, eq_iff, eq_refl, all, any, find, eqb_refl, Bool-cases, Option-cases,
}
use lazarus.Json.{Raw, is_empty}
use lazarus.Json.{Items}
use lazarus.Json.Decode.{object_fields, decode_field, assign_raw}
use lazarus.Payloads.{decoded, unset}
use lazarus.Json.Equality.{raw_eq_refl}
use lazarus.Env.{Env}
use lazarus.Errors.{Result, ok, ◌>>=◌}
use lazarus.Errors.Chains.{result_outcome}
use lazarus.Model.{Time, Target}
use lazarus.Tables.{Db, find_capture}
use lazarus.Mutations.Capture.Parse.{
  CaptureTarget, check_target, check_targets, decode_targets, target_items, parse_capture_targets,
}
use lazarus.Replay.{SavedCapture, has_name}
use lazarus.Verify.{load_capture_for_verify, target_matches, same_time, is_input}
use lazarus.Agreement.{of_time, entry_of, input_of}

-- no id twice
abbrev pub are_distinct : List CaptureTarget → Bool
are_distinct [] = true
are_distinct (x ∷ xs) = not (any (is_input x.target_id) xs) && are_distinct xs

abbrev is_fresh : List String → CaptureTarget → Bool
is_fresh seen target = not (any (λ s. s == target.target_id) seen)

check_target-fresh :
    (seen : List String) (target : CaptureTarget) {checked : CaptureTarget}
    → check_target seen target ≡ ok checked
    → (is_fresh seen checked ≡ true) × (checked.target_id ≡ target.target_id)
unfolding check_target
check_target-fresh seen target h = ground (arith, h)

all-fresh :
    (s : String) (seen : List String) (xs : List CaptureTarget)
    → all (is_fresh (s ∷ seen)) xs ≡ (all (is_fresh seen) xs && not (any (is_input s) xs))
all-fresh s seen [] = refl
all-fresh s seen (x ∷ xs) =
    ground (arith, all-fresh s seen xs, eq_iff s x.target_id, eq_iff x.target_id s)

check_targets-fresh :
    (seen : List String) (targets : List CaptureTarget) {result : List CaptureTarget}
    → check_targets seen targets ≡ ok result
    → (all (is_fresh seen) result ≡ true) × (are_distinct result ≡ true)
unfolding check_targets
check_targets-fresh seen [] h = ground (arith, h)
check_targets-fresh seen (target ∷ rest) {result} h =
    elim (result_outcome (check_target seen target)) [
      | inr (e, refused) ↦ ground (arith, h, refused)
      | inl (checked, done) ↦ elim (result_outcome (check_targets (target.target_id ∷ seen) rest)) [
        | inr (e, refused) ↦ ground (arith, h, done, refused)
        | inl (further, more) ↦ ground (
          arith,
          h,
          done,
          more,
          check_target-fresh seen target done,
          all-fresh target.target_id seen further,
          (check_targets-fresh (target.target_id ∷ seen) rest more).0,
          (check_targets-fresh (target.target_id ∷ seen) rest more).1,
        )
      ]
    ]

-- what follows every successful decoding
after_decoding :
    {A B : Type 0} (o : Option A) (f : A → Result B) (P : Type 0) {b : B}
    → ((a : A) → f a ≡ ok b → P)
    → decoded o f ≡ ok b
    → P
after_decoding none f P step h = cc
after_decoding (some a) f P step h = step a h

parse_capture_targets-distinct :
    (env : Env) (payload : Raw) {inputs : List CaptureTarget}
    → parse_capture_targets env payload ≡ ok inputs
    → are_distinct inputs ≡ true
unfolding parse_capture_targets
parse_capture_targets-distinct env payload {inputs} h =
    after_decoding (object_fields payload.value) _ Goal
      (λ fields h1.
        after_decoding (decode_field assign_raw "targets" fields unset) _ Goal
          (λ envelope h2. elim (Bool-cases (is_empty envelope)) [
            | inl e ↦ let none_there : [] ≡ inputs = ground (arith, h2, e) in rw (← none_there) refl
            | inr e ↦
                after_decoding (target_items envelope.value) _ Goal
                  (λ items h3. after_items items h3) (ground (arith, h2, e))
          ])
          h1)
      h
  where
    Goal : Type 0
    Goal = are_distinct inputs ≡ true

    after_items :
        (items : Items)
        → (decode_targets env items >>= λ targets. check_targets [] targets) ≡ ok inputs
        → Goal
    after_items items h = elim (result_outcome (decode_targets env items)) [
      | inl (targets, done) ↦
          (check_targets-fresh [] targets {result = inputs} (ground (arith, h, done))).1
      | inr (failure, refused) ↦ ground (arith, h, refused)
    ]

-- What loads has targets with different ids.
pub load_capture-distinct :
    (env : Env) (id : String) (db : Db) {saved : SavedCapture}
    → load_capture_for_verify env id db ≡ ok saved
    → are_distinct saved.inputs ≡ true
unfolding load_capture_for_verify
load_capture-distinct env id db {saved} h = elim (Option-cases (find_capture id db)) [
  | inl gone ↦ ground (arith, h, gone)
  | inr (capture, there) ↦ elim (result_outcome (parse_capture_targets env capture.payload)) [
    | inl (inputs, parsed) ↦
        ground (arith, h, there, parsed, parse_capture_targets-distinct env capture.payload parsed)
    | inr (e, refused) ↦ ground (arith, h, there, refused)
  ]
]

same_time_refl : (t : Option Time) → same_time t (of_time t) ≡ true
unfolding same_time
same_time_refl none = refl
same_time_refl (some t) = eqb_refl t

-- a row that has its input and its entry
target_matches-own : (t : Target) → target_matches (some (input_of t)) (some (entry_of t)) t ≡ true
unfolding target_matches
target_matches-own t = ground (
  arith,
  eq_refl t.lock_key,
  eq_refl t.original_state,
  eq_refl t.kind,
  eq_refl t.host,
  same_time_refl t.observed_at,
  raw_eq_refl t.metadata,
  eq_refl t.state,
  eqb_refl t.version,
)

-- a row of a list meets its own input and entry
abbrev pub meets : List Target → Target → Bool
meets rows t =
    target_matches (find (is_input t.id) (map input_of rows))
      (find (has_name t.id) (map entry_of rows)) t

meets-later :
    (x : Target) (rows ts : List Target)
    → any (is_input x.id) (map input_of ts) ≡ false
    → all (meets rows) ts ≡ true
    → all (meets (x ∷ rows)) ts ≡ true
meets-later x rows [] h all_met = refl
meets-later x rows (t ∷ ts) h all_met =
    ground (arith, h, all_met, meets-later x rows ts, eq_iff x.id t.id, eq_iff t.id x.id)

-- Every row meets its own input and entry, if the ids differ.
pub all-meets :
    (rows : List Target) → are_distinct (map input_of rows) ≡ true → all (meets rows) rows ≡ true
all-meets [] h = refl
all-meets (x ∷ xs) h =
    let own : meets (x ∷ xs) x ≡ true = rw (eq_refl x.id) (target_matches-own x) in
    ground (arith, h, own, meets-later x xs xs, all-meets xs)
