-- ===== src/Http/Transactions.antt =====
-- Requests and their sessions: `get_session` in src/dizzchat/shared/infrastructure/inbound/api/
-- dependencies.py and `TransactionalRoute` in transactional_route.py. The framework gives a route the
-- dependencies in its tree, sends the response, and only then leaves `get_session`.
pub mod Durable
use dizzchat.Prelude.{
  ℕ, Bool, true, false, Option, none, some, List, ◌∷◌, Result, ok, err, if◌then◌else◌,
}
use dizzchat.Errors.{Error, Attempt}
use dizzchat.Storage.Rows.{Database}
use dizzchat.Storage.Session.{Action, ◌>>=◌, ◌>>◌, pure}
use dizzchat.Http.Routes.{ApiRoute, depends_on_session}
use dizzchat.Http.Responses.{Response, value, error_response}

-- `committed` is what other sessions see of the tables, `db_session` the tables as the session of the
-- request sees them, if one was opened, and `sent` each response that was sent, the latest first, with
-- what was committed at that time.
pub record Server (A : Type 0) : Type 0 where
  pub committed : Database
  pub db_session : Option Database
  pub sent : List (Response A × Database)

module _ {A : Type 0} where
  -- The session is opened, and published on `request.state`.
  abbrev pub opened : Server A → Server A
  opened s = record s { db_session = some s.committed }

  -- `session.rollback()`: only the numbers that a sequence gave out stay given out.
  abbrev pub after_rollback : Server A → Server A
  after_rollback s = elim s.db_session [
    | none ↦ s
    | some db ↦ record s { committed = record s.committed { next_message_id = db.next_message_id } }
  ]

  abbrev pub closed : Server A → Server A
  closed s = record s { db_session = none }

  -- A controller's calls on the session. A route without one has none to write with.
  abbrev pub in_session : Action Database A → Action (Server A) A
  in_session m s = elim s.db_session [
    | none ↦ ((m s.committed).0, s)
    | some db ↦ let (result, db') = m db in (result, record s { db_session = some db' })
  ]

  -- `await session.commit()`, if there is a session; `answer` is what the database answers.
  abbrev pub commit : Attempt (Unit {0}) → Action (Server A) (Unit {0})
  commit answer s = elim s.db_session [
    | none ↦ (ok tt, s)
    | some db ↦ elim answer [ ok _ ↦ (ok tt, record s { committed = db }) | err e ↦ (err e, s) ]
  ]

  -- `commit_before_responding`
  unfoldable pub commit_before_responding :
      Attempt (Unit {0}) → Action (Server A) A → Action (Server A) A
  commit_before_responding answer handler = do response ← handler; commit answer; pure response

  -- `get_route_handler` of the route's class
  unfoldable pub route_handler :
      ApiRoute → Attempt (Unit {0}) → Action (Server A) A → Action (Server A) A
  unfolding commit_before_responding
  route_handler r answer handler =
      if r.is_transactional then commit_before_responding answer handler else handler

  abbrev pub send_response : Response A → Server A → Server A
  send_response response s = record s { sent = (response, s.committed) ∷ s.sent }

  -- The response is sent before `get_session` is left; an exception leaves it first.
  abbrev pub finished : ℕ → Result Error A × Server A → Server A
  finished status (ok a, s) =
      closed (
        send_response record { status_code = status; content = value a; www_authenticate = false }
          s)
  finished status (err e, s) = send_response (error_response e) (closed (after_rollback s))

  -- A request on a route with this status on success, from its arrival until it is over.
  unfoldable pub respond :
      ApiRoute → ℕ → Attempt (Unit {0}) → Action Database A → Server A → Server A
  unfolding route_handler depends_on_session
  respond r status answer handler s =
      let entered = if depends_on_session r.dependant then opened s else s in
      finished status (route_handler r answer (in_session handler) entered)
