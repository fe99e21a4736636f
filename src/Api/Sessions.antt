-- ===== src/Api/Sessions.antt =====
-- Requests one after another, from a new database on.
use lazarus.Base.{
  ◌+◌, String, ◌≡◌, refl, sym, ap, ◌∙◌, inl, inr, Bool, true, false, not, List, [], ◌∷◌, ◌++◌, all,
  arith,
}
use lazarus.Env.{Env}
use lazarus.Errors.{ok}
use lazarus.Model.{Time}
use lazarus.Tables.{Db}
use lazarus.Verify.Application.{verify_application_data}
use lazarus.Guarantees.Commands.{Command, execute, execute_all, empty_db}
use lazarus.Guarantees.Global.{is_sound}
use lazarus.Guarantees.Verified.{is_timely}
use lazarus.Guarantees.Application.{reachable-verified}
use lazarus.Api.Request.{Request, request_id_of}
use lazarus.Api.Routes.{route_of}
use lazarus.Api.Server.{Server, Outside, serve, serve_http}
use lazarus.Api.Server.Gate.{is_backup}
use lazarus.Api.Server.Served.{serve-IsServed}

-- a request, with the clocks that it meets
pub record Visit : Type 0 where
  pub now : Time
  pub stamp : Time
  pub fresh_request_id : String
  pub store_ready : Bool
  pub request : Request

abbrev pub outside_of : Outside → Visit → Outside
outside_of o v = record o {
  world = record (o.world) { now = v.now; stamp = v.stamp };
  fresh_request_id = v.fresh_request_id;
  store_ready = v.store_ready;
}

abbrev next_visit : {R : Type 0} → R × Server × Db → (Server → Db → Server × Db) → Server × Db
next_visit (response, server, db) rest = rest server db

unfoldable pub serve_all : Outside → List Visit → Server → Db → Server × Db
unfolding serve_http
serve_all o [] s db = (s, db)
serve_all o (v ∷ vs) s db = next_visit (serve_http (outside_of o v) s v.request db) (serve_all o vs)

-- the request is for no backup
abbrev pub leaves_files : Visit → Bool
leaves_files v = not (is_backup (route_of v.request.method v.request.segments))

-- the tables are those of some calls of the store
pub record IsReached (env : Env) (db : Db) : Type 0 where
  pub commands : List Command
  pub sound : all is_sound commands ≡ true
  pub reached : db ≡ execute_all env commands empty_db

execute_all-append :
    (env : Env) (cs : List Command) (c : Command) (db : Db)
    → execute_all env (cs ++ c ∷ []) db ≡ execute env c (execute_all env cs db)
unfolding execute_all
execute_all-append env [] c db = refl
execute_all-append env (x ∷ cs) c db = execute_all-append env cs c (execute env x db)

all-append_one :
    (cs : List Command) (c : Command)
    → all is_sound cs ≡ true
    → is_sound c ≡ true
    → all is_sound (cs ++ c ∷ []) ≡ true
all-append_one [] c h here = rw here refl
all-append_one (x ∷ cs) c h here = ground (arith, h, all-append_one cs c, here)

IsReached-step :
    (env : Env) (c : Command) (db db' : Db)
    → is_sound c ≡ true
    → db' ≡ execute env c db
    → IsReached env db
    → IsReached env db'
IsReached-step env c db db' sound h old = record {
  commands = old.commands ++ c ∷ [];
  sound = all-append_one old.commands c old.sound sound;
  reached =
      h ∙ ap (execute env c) old.reached ∙ sym (execute_all-append env old.commands c empty_db);
}

IsReached-along : (env : Env) {a b : Db} → b ≡ a → IsReached env a → IsReached env b
IsReached-along env same old = rw same old

serve-IsReached :
    (o : Outside) (s : Server) (request_id : String) (r : Request) (db : Db)
    → is_backup (route_of r.method r.segments) ≡ false
    → IsReached o.world.env db
    → IsReached o.world.env (serve o s request_id r db).1
serve-IsReached o s request_id r db files old = elim (serve-IsServed o s request_id r db files) [
  | inl same ↦ IsReached-along o.world.env same old
  | inr done ↦
      IsReached-step o.world.env (done.executed).command db (serve o s request_id r db).1
        (done.executed).sound (done.executed).executed old
]

-- Whatever requests come, none of them for a backup, the tables are those after some calls of the
-- operations of the store, one after another on a new database.
pub serve_all-IsReached :
    (o : Outside) (visits : List Visit) (s : Server) (db : Db)
    → all leaves_files visits ≡ true
    → IsReached o.world.env db
    → IsReached o.world.env (serve_all o visits s db).1
unfolding serve_all serve_http
serve_all-IsReached o [] s db files old = old
serve_all-IsReached o (v ∷ vs) s db files old =
    let entered : Server = record s { requests = s.requests + 1 } in
    let request_id : String = request_id_of v.fresh_request_id v.request in
    serve_all-IsReached o vs _ (serve (outside_of o v) entered request_id v.request db).1
      (ground (arith, files))
      (serve-IsReached (outside_of o v) entered request_id v.request db (ground (arith, files)) old)

-- After any requests to a server with a new database, none of them for a backup, in any order,
-- whoever sent them and whatever their answers, the verification of the application's data passes,
-- where each `observed_at` of the captures that were saved is, in UTC, an instant of the years 0 to
-- 9999.
pub serve_all-verified :
    (o : Outside) (visits : List Visit) (s : Server)
    → all leaves_files visits ≡ true
    → all (is_timely o.world.env) (serve_all o visits s empty_db).1.captures ≡ true
    → verify_application_data o.world.env (serve_all o visits s empty_db).1 ≡ ok tt
unfolding execute_all
serve_all-verified o visits s files timely =
    let made : IsReached o.world.env (serve_all o visits s empty_db).1 =
      serve_all-IsReached o visits s empty_db files
        (record { commands = []; sound = refl; reached = refl }) in
    ap (verify_application_data o.world.env) made.reached
    ∙ reachable-verified o.world.env made.commands made.sound
        (sym (ap (λ (db : Db). all (is_timely o.world.env) db.captures) made.reached) ∙ timely)
