-- ===== src/Verify/Application.antt =====
-- `verifyApplicationData` of internal/store/verify.go: the locks, every maintenance in the order
-- of its id, then the events that name none.
use Prim.Native.Nat.{Ordering}
use Prim.Native.String.{compare}
use lazarus.Base.{String, List, [], ◌∷◌, map}
use lazarus.Env.{Env}
use lazarus.Errors.{Result, ok, ◌>>◌}
use lazarus.Tables.{Db}
use lazarus.Verify.{verify_lock_exclusivity, verify_maintenance_replay}
use lazarus.Verify.Global.{verify_global_events}

unfoldable pub insert_id : String → List String → List String
insert_id id [] = id ∷ []
insert_id id (other ∷ rest) =
    let further = insert_id id rest in
    elim (compare id other) [ Ordering.gt ↦ other ∷ further | _ ↦ id ∷ other ∷ rest ]

-- ORDER BY id
unfoldable pub sort_ids : List String → List String
unfolding insert_id
sort_ids [] = []
sort_ids (id ∷ ids) = insert_id id (sort_ids ids)

-- the loop over the ids
unfoldable pub verify_each : Env → List String → Db → Result (Unit {0})
unfolding verify_maintenance_replay
verify_each env [] db = ok tt
verify_each env (id ∷ ids) db = do verify_maintenance_replay env id db; verify_each env ids db

unfoldable pub verify_application_data : Env → Db → Result (Unit {0})
unfolding verify_lock_exclusivity sort_ids verify_each verify_global_events
verify_application_data env db = do
  verify_lock_exclusivity db
  verify_each env (sort_ids (map (λ m. m.id) db.maintenances)) db
  verify_global_events env db
