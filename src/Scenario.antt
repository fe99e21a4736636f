-- ===== src/Scenario.antt =====
-- One maintenance with one target, as calls of the store on a new database: created, captured, and
-- stopping. The digest is constant and an instant is written in unary.
use lazarus.Base.{ℕ, zero, suc, String, ◌≡◌, refl, ap, true, none, some, List, [], ◌∷◌}
use lazarus.Json.{Raw, obj, str, arr, nil, cons, field, end, print}
use lazarus.Env.{Env}
use lazarus.Model.{within, AuditContext, StateChange, Maintenance, Capture}
use lazarus.Precondition.{VersionPrecondition}
use lazarus.Tables.{Db}
use lazarus.Guarantees.Commands.{
  Command, create_call, capture_call, maintenance_call, execute_all, empty_db,
}

unfoldable pub unary : ℕ → String
unary zero = ""
unary (suc n) = String.◌∷◌ "1" (unary n)

unfoldable pub count : String → ℕ
count String.[] = 0
count (String.◌∷◌ c s) = suc (count s)

pub count-unary : (n : ℕ) → count (unary n) ≡ n
unfolding count unary
count-unary zero = refl
count-unary (suc n) = ap suc (count-unary n)

abbrev pub unary_env : Env
unfolding unary count
unary_env = record {
  sha256_hex = λ _. "digest";
  format_time = unary;
  parse_time = λ s. some (within (count s));
  parse-format = λ t. ap (λ n. some (within n)) (count-unary t);
}

abbrev pub admin : AuditContext
admin = record { actor = "ops"; role = "admin"; request_id = "r1" }

abbrev pub no_raw : Raw
no_raw = record { size = 0; value = none }

abbrev pub requested : Maintenance
requested = record {
  id = "m1";
  state = "";
  change_ticket = "CHG1";
  workflow_version = "";
  metadata = no_raw;
  version = 0;
  created_at = 0;
  updated_at = 0;
}

abbrev pub capture_payload : Raw
capture_payload = print (
    obj (
      field "targets"
        (arr (
          cons
            (obj (
              field "lock_key" (str "lock1")
                (field "original_state" (str "running") (field "target_id" (str "t1") end))))
            nil))
        end))

abbrev pub requested_capture : Capture
requested_capture = record {
  maintenance_id = "";
  captured_at = 0;
  payload = capture_payload;
  sha256 = "";
}

abbrev pub to_state : String → StateChange
to_state state = record { state = state; justification = ""; detail = no_raw }

abbrev pub any_version : VersionPrecondition
any_version = record { any_version = true; versions = [] }

abbrev pub creation : Command
creation = create_call 5 requested admin

abbrev pub capturing : Command
capturing = capture_call 6 7 "m1" requested_capture admin

abbrev pub stopping : Command
stopping = maintenance_call 8 "m1" (to_state "stopping") any_version admin

abbrev pub calls : List Command
calls = creation ∷ capturing ∷ stopping ∷ []

abbrev pub stopping_db : Db
stopping_db = execute_all unary_env calls empty_db
