-- ===== src/Http/Transactions/Durable.antt =====
-- On the routes of routers that pass the check, a request is one unit of work that ends before the
-- client is answered.
use dizzchat.Prelude.{
  ℕ, ◌≡◌, refl, true, false, none, List, ◌∷◌, ok, err, Result, Result-cases, Bool-cases, inl, inr,
  if◌then◌else◌,
}
use dizzchat.Errors.{Error, Attempt}
use dizzchat.Storage.Rows.{Database}
use dizzchat.Storage.Session.{Action, ◌>>=◌, ◌>>◌, pure, lift, settle, transaction}
use dizzchat.Http.Routes.{
  ApiRoute, Router, depends_on_session, assert_session_routes_are_transactional,
}
use dizzchat.Http.Routes.Guard.{
  RegisteredIn, depends-NeedsSession, assert_session_routes_are_transactional_iff,
}
use dizzchat.Http.Responses.{Response, value, error_response}
use dizzchat.Http.Transactions.{Server, commit_before_responding, route_handler, respond}

module _ {A : Type 0} where
  -- The response to what a unit of work comes to.
  abbrev pub response_to : ℕ → Result Error A → Response A
  response_to status (ok a) = record {
    status_code = status;
    content = value a;
    www_authenticate = false;
  }
  response_to status (err e) = error_response e

  -- The server between requests, and after one that was a step: a unit of work, the database's
  -- answer to the commit being part of it, and then its response.
  abbrev pub idle : Database → List (Response A × Database) → Server A
  idle db sent = record { committed = db; db_session = none; sent = sent }

  abbrev pub committed_work : Attempt (Unit {0}) → Action Database A → Action Database A
  committed_work answer handler = handler >>= λ a. lift answer >> pure a

  abbrev pub answered : ℕ → Result Error A × Database → List (Response A × Database) → Server A
  answered status (result, db) sent = idle db ((response_to status result, db) ∷ sent)

  abbrev pub WritesNothing : Action Database A → Type 0
  WritesNothing handler = (db : Database) → (handler db).1 ≡ db

  with_session :
      (r : ApiRoute) (status : ℕ) (answer : Attempt (Unit {0})) (handler : Action Database A)
      (db : Database) (sent : List (Response A × Database))
      → depends_on_session r.dependant ≡ true
      → r.is_transactional ≡ true
      → respond r status answer handler (idle db sent)
        ≡ answered status (transaction (committed_work answer handler) db) sent
  unfolding respond route_handler commit_before_responding settle transaction
  with_session r status answer handler db sent needed commits = elim (Result-cases (handler db).0) [
    | inl (e, raised) ↦ rw (needed, respond) (rw commits (rw raised refl))
    | inr (a, returned) ↦ elim (Result-cases answer) [
      | inl (e, refused) ↦ rw (needed, respond) (rw commits (rw returned (rw refused refl)))
      | inr (_, accepted) ↦ rw (needed, respond) (rw commits (rw returned (rw accepted refl)))
    ]
  ]

  without_session :
      (r : ApiRoute) (status : ℕ) (answer : Attempt (Unit {0})) (handler : Action Database A)
      (db : Database) (sent : List (Response A × Database))
      → depends_on_session r.dependant ≡ false
      → WritesNothing handler
      → respond r status answer handler (idle db sent)
        ≡ answered status (transaction (committed_work (ok tt) handler) db) sent
  unfolding respond route_handler commit_before_responding settle transaction
  without_session r status answer handler db sent needless reads =
      elim (Result-cases (handler db).0) [
        | inl (e, raised) ↦ elim (Bool-cases r.is_transactional) [
          | inl commits ↦ rw (needless, respond) (rw commits (rw raised (rw (reads db) refl)))
          | inr plain ↦ rw (needless, respond) (rw plain (rw raised (rw (reads db) refl)))
        ]
        | inr (a, returned) ↦ elim (Bool-cases r.is_transactional) [
          | inl commits ↦ rw (needless, respond) (rw commits (rw returned (rw (reads db) refl)))
          | inr plain ↦ rw (needless, respond) (rw plain (rw returned (rw (reads db) refl)))
        ]
      ]

  -- Where the routers pass the check at start-up and the route is registered on one of them, a
  -- request on it, on a server that is between requests, comes to one unit of work and its response:
  -- if the handler returns and the commit succeeds, the response has the route's status and is sent
  -- when what the handler left is committed; else it is the error's response, nothing of what the
  -- handler wrote is committed, then or later, and only sequence numbers are used up. A route that
  -- does not need the session is taken to write nothing, and has no commit that could fail.
  pub respond-transaction :
      (routers : List Router) (r : ApiRoute) (status : ℕ) (answer : Attempt (Unit {0}))
      (handler : Action Database A) (db : Database) (sent : List (Response A × Database))
      → assert_session_routes_are_transactional routers ≡ ok tt
      → RegisteredIn r routers
      → (depends_on_session r.dependant ≡ false → WritesNothing handler)
      → let commits = if depends_on_session r.dependant then answer else ok tt in
        respond r status answer handler (idle db sent)
        ≡ answered status (transaction (committed_work commits handler) db) sent
  respond-transaction routers r status answer handler db sent passes registered pure_handler =
      elim (Bool-cases (depends_on_session r.dependant)) [
        | inl needed ↦
            let commits =
              (assert_session_routes_are_transactional_iff routers).0 passes r registered
                (depends-NeedsSession r.dependant needed) in
            rw needed (with_session r status answer handler db sent needed commits)
        | inr needless ↦
            rw needless
              (without_session r status answer handler db sent needless (pure_handler needless))
      ]
