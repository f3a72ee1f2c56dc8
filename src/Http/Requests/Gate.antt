-- ===== src/Http/Requests/Gate.antt =====
-- Every request of the application as a unit of work, and what stands before it.
use dizzchat.Prelude.{
  ◌≡◌, refl, ◌∙◌, ap, true, false, ◌+◌, ◌≤◌, Option, none, some, List, ◌∷◌, ok, err, ltb,
  Option-cases, if◌then◌else◌, Bool-cases, Result-cases, inl, inr, arith,
}
use dizzchat.Text.{Text}
use dizzchat.Errors.{Attempt, Error, http_exception, access_token_error}
use dizzchat.Messaging.Conversation.{Uuid, Time}
use dizzchat.Storage.Rows.{Database}
use dizzchat.Storage.Session.{transaction, settle}
use dizzchat.Identity.AccessTokens.{
  IsJwt, claims_of, decode_access, timestamp, decode_access-issue_access,
}
use dizzchat.Http.Routes.{depends_on_session}
use dizzchat.Http.Responses.{Response, detail, error_response}
use dizzchat.Http.Application.{routers, routers-pass}
use dizzchat.Http.Environment.{
  Settings, Libraries, Draws, get_current_user, issue_token, decode_token, seconds,
}
use dizzchat.Http.Transactions.{respond}
use dizzchat.Http.Transactions.Durable.{
  WritesNothing, idle, answered, committed_work, respond-transaction,
}
use dizzchat.Http.Requests.OnRoutes.{Registered-route}
use dizzchat.Http.Requests.{
  HttpRequest, Authorized, Answer, get_health, with_authorization, get_me, route_of,
  authorized_handler, handler, serve,
}

module _ (settings : Settings) (libraries : Libraries) (draws : Draws) where
  -- The requests without a session write nothing.
  reads_only :
      (request : HttpRequest)
      → depends_on_session (route_of request).0.dependant ≡ false
      → WritesNothing (handler settings libraries draws request)
  unfolding depends_on_session handler
  reads_only get_health h = λ db. refl
  reads_only (with_authorization a get_me) h = λ db.
      elim (Result-cases (get_current_user settings libraries a draws.now)) [
        | inl (e, bad) ↦ rw (bad, handler) refl
        | inr (caller, good) ↦ rw (good, handler) refl
      ]
  reads_only _ h = absurd (cc h)

  -- Every request on a server that is between requests comes to one unit of work of its handler, the
  -- commit included, and the response to it: a response with the route's status is sent when what
  -- the handler wrote is committed, and one to an error when nothing of it is. The commit is asked of
  -- the database on the routes that depend on the session.
  pub serve-transaction :
      (commits : Attempt (Unit {0})) (request : HttpRequest) (db : Database)
      (sent : List (Response Answer × Database))
      → let (r, status) = route_of request in
        let asked = if depends_on_session r.dependant then commits else ok tt in
        serve settings libraries draws commits request (idle db sent)
        ≡ answered status
            (transaction (committed_work asked (handler settings libraries draws request)) db)
            sent
  unfolding serve
  serve-transaction commits request db sent =
      respond-transaction routers (route_of request).0 (route_of request).1 commits
        (handler settings libraries draws request) db sent routers-pass (Registered-route request)
        (reads_only request)

  -- Whatever the reason for which a caller is not known, it is refused in the same way.
  claims_of-error :
      (found : Option (Option Text)) (e : Error)
      → claims_of libraries.jwt settings.jwt_secret_key settings.jwt_algorithm found ≡ err e
      → e ≡ access_token_error
  claims_of-error none e h = ground (arith, h)
  claims_of-error (some none) e h = ground (arith, h)
  claims_of-error (some (some sub)) e h = elim (Option-cases (libraries.jwt.uuid_parse sub)) [
    | inl bad ↦ ground (arith, h, bad)
    | inr (u, good) ↦ absurd (cc (h, good))
  ]

  get_current_user-error :
      (authorization : Option Text) (e : Error)
      → get_current_user settings libraries authorization draws.now ≡ err e
      → e ≡ http_exception 401
  unfolding get_current_user decode_token decode_access
  get_current_user-error none e h = ground (arith, h)
  get_current_user-error (some credentials) e h =
      elim (Result-cases (decode_token settings libraries credentials draws.now)) [
        | inl (x, bad) ↦ let is = claims_of-error _ x bad in ground (arith, h, bad, is)
        | inr (claims, good) ↦ absurd (cc (h, good))
      ]

  -- A request to a route that depends on the caller, on a server that is between requests, whose
  -- bearer token is missing or is not accepted, for whatever reason, is answered with status 401 and
  -- the header `WWW-Authenticate`, whatever the rest of the request is, and writes nothing.
  pub serve-unauthorized :
      (commits : Attempt (Unit {0})) (authorization : Option Text) (request : Authorized)
      (e : Error) (db : Database) (sent : List (Response Answer × Database))
      → get_current_user settings libraries authorization draws.now ≡ err e
      → serve settings libraries draws commits
          (with_authorization authorization request)
          (idle db sent)
        ≡ idle db (
            (
              record {
                status_code = 401;
                content = detail (http_exception 401);
                www_authenticate = true;
              },
              db,
            )
            ∷ sent)
  unfolding handler transaction settle error_response
  serve-unauthorized commits authorization request e db sent refused =
      let is = get_current_user-error authorization e refused in
      serve-transaction commits (with_authorization authorization request) db sent
      ∙ rw (refused, handler) (rw is refl)

  -- The caller that a token names which was issued by this application.
  get_current_user-issue :
      (u : Uuid) (now : Time)
      → IsJwt libraries.jwt
      → now ≤ draws.now
      → get_current_user settings libraries (some (issue_token settings libraries now u)) draws.now
        ≡ (if ltb
              (timestamp draws.now)
              (timestamp (now + seconds settings.access_token_ttl_seconds))
            then ok record { user_id = u }
            else err (http_exception 401))
  unfolding issue_token get_current_user decode_token
  get_current_user-issue u now laws h =
      let ttl = seconds settings.access_token_ttl_seconds in
      let read =
        decode_access-issue_access libraries.jwt settings.jwt_secret_key settings.jwt_algorithm ttl
          u now draws.now laws h in
      elim (Bool-cases (ltb (timestamp draws.now) (timestamp (now + ttl)))) [
        | inl early ↦ rw (read, get_current_user) (rw early refl)
        | inr late ↦ rw (read, get_current_user) (rw late refl)
      ]

  -- Where the JWT library accepts its own tokens until they expire: a request with a token that was
  -- issued for a user, on a server that is between requests and at the time of issue or later, is
  -- served to this user as long as the second is before that of the expiry; from that second on it is
  -- answered with status 401 and writes nothing.
  pub serve-issue :
      (commits : Attempt (Unit {0})) (u : Uuid) (now : Time) (request : Authorized) (db : Database)
      (sent : List (Response Answer × Database))
      → IsJwt libraries.jwt
      → now ≤ draws.now
      → let token = issue_token settings libraries now u in
        let (r, status) = route_of (with_authorization (some token) request) in
        let expiry = timestamp (now + seconds settings.access_token_ttl_seconds) in
        serve settings libraries draws commits
          (with_authorization (some token) request)
          (idle db sent)
        ≡ (if ltb (timestamp draws.now) expiry
            then respond r status commits
                (authorized_handler settings libraries draws request record { user_id = u })
                (idle db sent)
            else idle db ((error_response (http_exception 401), db) ∷ sent))
  unfolding handler serve error_response
  serve-issue commits u now request db sent laws h =
      let token = issue_token settings libraries now u in
      let caller = get_current_user-issue u now laws h in
      let (r, status) = route_of (with_authorization (some token) request) in
      elim (Bool-cases
        (ltb (timestamp draws.now) (timestamp (now + seconds settings.access_token_ttl_seconds)))) [
          | inl early ↦
              let known : get_current_user settings libraries (some token) draws.now
                  ≡ ok record { user_id = u } =
                caller ∙ rw early refl in
              let same : handler settings libraries draws (with_authorization (some token) request)
                  ≡ authorized_handler settings libraries draws request record { user_id = u } =
                rw (known, handler) refl in
              rw early (ap (λ m. respond r status commits m (idle db sent)) same)
          | inr late ↦
              let refused = caller ∙ rw late refl in
              rw late (
                serve-unauthorized commits (some token) request (http_exception 401) db sent
                  refused)
        ]
