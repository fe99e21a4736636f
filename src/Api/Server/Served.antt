-- ===== src/Api/Server/Served.antt =====
-- What `ServeHTTP` does to the tables.
use lazarus.Base.{
  String, ◌≡◌, refl, ◌⊎◌, inl, inr, Bool, true, false, not, ◌&&◌, Option, none, some, List, [], ◌∷◌,
  arith, leb, if◌then◌else◌,
}
use lazarus.Tables.{Db}
use lazarus.Auth.{Principal, Token, authenticate, require}
use lazarus.Api.Request.{Request}
use lazarus.Api.Response.{Response, write_error}
use lazarus.Api.Routes.{is_read, is_api_path, route_of, plain_route}
use lazarus.Api.Server.{
  Server, Outside, audit_context, routes_serve, serve_principal, serve_known, serve_configured,
  serve_api, serve, answer_header,
}
use lazarus.Api.Server.Outcome.{IsExecuted}
use lazarus.Api.Server.Gate.{
  is_backup, mutates, Acts, routes_serve-Acts, routes_serve-same, api_route-writes,
}

plain_route-reads :
    (method : String) (segments : List String) → mutates (plain_route method segments) ≡ false
unfolding plain_route
plain_route-reads method [] = refl
plain_route-reads method (a ∷ []) = ground arith
plain_route-reads method (a ∷ b ∷ rest) = refl

route_of-writes :
    (method : String) (segments : List String)
    → mutates (route_of method segments) ≡ true
    → is_read method ≡ false
unfolding route_of
route_of-writes method [] h = ground (arith, h, plain_route-reads method [])
route_of-writes method (a ∷ []) h = ground (arith, h, plain_route-reads method (a ∷ []))
route_of-writes method (a ∷ b ∷ rest) h =
    ground (arith, h, plain_route-reads method (a ∷ b ∷ rest), api_route-writes method rest)

-- A request that changes the tables: who sent it, and the operation that it is.
pub record IsServed (o : Outside) (s : Server) (request_id : String) (r : Request) (db : Db)
    (x : Response × Db) : Type 0 where
  pub tokens : List Token
  pub principal : Principal
  pub configured : s.auth ≡ some tokens
  pub authenticated : authenticate o.digest r.authorization tokens ≡ some principal
  pub operator : require principal "operator" ≡ true
  pub stored : s.has_store ≡ true
  pub awake : s.ready ≡ true
  pub writing : is_read r.method ≡ false
  pub executed : IsExecuted o.world.env (audit_context principal request_id) db x

abbrev pub Serves : Outside → Server → String → Request → Db → Response × Db → Type 0
Serves o s request_id r db x = (x.1 ≡ db) ⊎ IsServed o s request_id r db x

module _ (o : Outside) (s : Server) (request_id : String) (r : Request) (db : Db)
    (files : is_backup (route_of r.method r.segments) ≡ false) where
  principal-Serves :
      (tokens : List Token) (p : Principal)
      → s.auth ≡ some tokens
      → authenticate o.digest r.authorization tokens ≡ some p
      → Serves o s request_id r db (serve_principal o s request_id p r db)
  unfolding serve_principal
  principal-Serves tokens p configured known = stored s.has_store refl
    where
      acted :
          s.has_store ≡ true
          → (not s.ready && not (is_read r.method)) ≡ false
          → Acts o p request_id
              (route_of r.method r.segments)
              db
              (routes_serve o s request_id (some p) r db)
          → Serves o s request_id r db (routes_serve o s request_id (some p) r db)
      acted there awake (inl same) = inl same
      acted there awake (inr (moves, operator, done)) =
          let writes : is_read r.method ≡ false = route_of-writes r.method r.segments moves in
          inr (record {
            tokens = tokens;
            principal = p;
            configured = configured;
            authenticated = known;
            operator = operator;
            stored = there;
            awake = ground (arith, awake, writes);
            writing = writes;
            executed = done;
          })

      drained :
          (b : Bool)
          → s.has_store ≡ true
          → (not s.ready && not (is_read r.method)) ≡ b
          → Serves o s request_id r db (
              if b
              then (write_error 503 "service_draining", db)
              else routes_serve o s request_id (some p) r db)
      drained true there e = inl refl
      drained false there e = acted there e (routes_serve-Acts o s request_id p r db files)

      stored :
          (b : Bool)
          → s.has_store ≡ b
          → Serves o s request_id r db (
              if not b
              then (write_error 503 "store_unavailable", db)
              else if not s.ready && not (is_read r.method)
              then (write_error 503 "service_draining", db)
              else routes_serve o s request_id (some p) r db)
      stored false e = inl refl
      stored true e = drained (not s.ready && not (is_read r.method)) e refl

  api-Serves : Serves o s request_id r db (serve_api o s request_id r db)
  unfolding serve_api
  api-Serves = configured s.auth refl
    where
      known :
          (tokens : List Token) (p : Option Principal)
          → s.auth ≡ some tokens
          → authenticate o.digest r.authorization tokens ≡ p
          → Serves o s request_id r db (serve_known o s request_id r db p)
      known tokens none h e = inl refl
      known tokens (some p) h e = principal-Serves tokens p h e

      configured :
          (a : Option (List Token))
          → s.auth ≡ a
          → Serves o s request_id r db (serve_configured o s request_id r db a)
      configured none e = inl refl
      configured (some tokens) e =
          known tokens (authenticate o.digest r.authorization tokens) e refl

  -- a header more
  header-Serves :
      (name value : String) (x : Response × Db)
      → Serves o s request_id r db x
      → Serves o s request_id r db (answer_header name value x)
  header-Serves name value x (inl same) = inl same
  header-Serves name value x (inr done) = inr (record {
    tokens = done.tokens;
    principal = done.principal;
    configured = done.configured;
    authenticated = done.authenticated;
    operator = done.operator;
    stored = done.stored;
    awake = done.awake;
    writing = done.writing;
    executed = record {
      sound = (done.executed).sound;
      command = (done.executed).command;
      audited = (done.executed).audited;
      accepted = (done.executed).accepted;
      executed = (done.executed).executed;
    };
  })

  -- A request to any route but those of the backups leaves the tables alone, or its credential names
  -- a principal that is an operator or an administrator, it is no GET or HEAD, the server is
  -- ready, and the tables become those after one operation of the store, which is recorded for
  -- that principal under the identifier of the request; then the answer is no error.
  pub serve-IsServed : Serves o s request_id r db (serve o s request_id r db)
  unfolding serve
  serve-IsServed = by_path (is_api_path r.segments)
    where
      by_path :
          (b : Bool)
          → Serves o s request_id r db (
              if b
              then answer_header "Cache-Control" "no-store" (serve_api o s request_id r db)
              else routes_serve o s request_id none r db)
      by_path true =
          header-Serves "Cache-Control" "no-store" (serve_api o s request_id r db) api-Serves
      by_path false = inl (routes_serve-same o s request_id r db)

  -- A request to any route but those of the backups that is answered with an error, a status of 400
  -- or more, leaves the tables as they were.
  pub serve-refused :
      leb 400 ((serve o s request_id r db).0).status ≡ true → (serve o s request_id r db).1 ≡ db
  serve-refused refused = elim serve-IsServed [
    | inl same ↦ same
    | inr done ↦ ground (arith, refused, (done.executed).accepted)
  ]
