-- ===== src/Tests/Http.antt =====
-- The theorems on the HTTP interface at concrete inputs. The JWT library of the tests writes the
-- expiry, the time of issue and the user one after the other.
use dizzchat.Prelude.{
  ℕ, ◌≡◌, ◌↔◌, refl, true, false, none, some, Option, List, [], ◌∷◌, map, drop, ok, err, ltb,
  if◌then◌else◌, arith,
}
use mathlib.Core.List.{reverse}
use dizzchat.Text.{Text, codes, strip}
use dizzchat.Errors.{Attempt, http_exception, integrity_error}
use dizzchat.Storage.Rows.{Database, empty_database}
use dizzchat.Storage.Session.{transaction}
use dizzchat.Storage.Conversations.{read_any, create}
use dizzchat.Storage.Conversations.Readable.{AllIn}
use dizzchat.Messaging.Conversation.{Conversation, conversation_title}
use dizzchat.Messaging.Conversation.Membership.{IsWellFormed}
use dizzchat.Identity.AccessTokens.{Jwt, IsJwt, timestamp, decode_access}
use dizzchat.Http.Routes.{
  ApiRoute, Router, api_route, included, no_routes, route, assert_session_routes_are_transactional,
  depends_on_session,
}
use dizzchat.Http.Routes.Guard.{
  RegisteredIn, NeedsSession, assert_session_routes_are_transactional_iff,
}
use dizzchat.Http.Application.{
  signup_route, rename_conversation_route, health_router, identity_router,
}
use dizzchat.Http.Responses.{Response, detail, error_response}
use dizzchat.Http.Environment.{Settings, Libraries, Draws, issue_token, get_current_user}
use dizzchat.Http.Transactions.{respond}
use dizzchat.Http.Transactions.Durable.{idle, answered, committed_work}
use dizzchat.Http.Requests.{
  HttpRequest, Authorized, Answer, post_signup, with_authorization, post_conversations,
  patch_conversation, handler, authorized_handler, serve,
}
use dizzchat.Http.Controllers
use dizzchat.Http.Schemas.{create_conversation_request}
use dizzchat.Messaging.Services.CreateConversation
use dizzchat.Http.Requests.Gate.{serve-transaction, serve-unauthorized, serve-issue}
use dizzchat.Http.Requests.Consistent.{serve_all, serve_all-readable}

decode_sample : ℕ → Text → Option (Option Text)
decode_sample now (exp ∷ iat ∷ sub) = if ltb now exp then some (some sub) else none
decode_sample now _ = none

uuid_sample : Text → Option ℕ
uuid_sample (u ∷ []) = some u
uuid_sample _ = none

abbrev jwt : Jwt
jwt = record {
  encode = λ payload key algorithm. payload.exp ∷ payload.iat ∷ payload.sub;
  decode = λ now token key algorithm. decode_sample (timestamp now) token;
  uuid_str = λ u. u ∷ [];
  uuid_parse = uuid_sample;
}

jwt-IsJwt : IsJwt jwt
unfolding decode_sample uuid_sample
jwt-IsJwt = record {
  decode-encode = λ payload key algorithm now h. refl;
  uuid_parse-uuid_str = λ u. refl;
}

abbrev settings : Settings
settings = record {
  jwt_secret_key = codes "key";
  jwt_algorithm = codes "HS256";
  access_token_ttl_seconds = 900;
  refresh_token_ttl_seconds = 1209600;
}

abbrev libraries : Libraries
libraries = record {
  lower = λ text. text;
  hash_password = λ salt password. salt ∷ reverse password;
  verify = λ password hashed. true;
  sha256 = reverse;
  jwt = jwt;
}

abbrev draws : Draws
draws = record { now = 5000000; salt = 3; uuid = 8; jti = codes "j"; secret = codes "st" }

-- A router that is reached through another one, with a route that does not commit.
abbrev nested : List Router
nested =
    health_router
    ∷ route
        (included (route (api_route record signup_route { is_transactional = false }) no_routes))
        identity_router
    ∷ []

nested-refused :
    assert_session_routes_are_transactional nested
    ≡ err (record signup_route { is_transactional = false } ∷ [])
unfolding assert_session_routes_are_transactional health_router identity_router
nested-refused = refl

assert_session_routes_are_transactional_iff_example :
    (assert_session_routes_are_transactional nested ≡ ok tt) ↔ (
      (r : ApiRoute) → RegisteredIn r nested → NeedsSession r.dependant → r.is_transactional ≡ true)
assert_session_routes_are_transactional_iff_example =
    assert_session_routes_are_transactional_iff nested

-- A registration whose commit the database refuses.
abbrev registration : HttpRequest
registration = post_signup (some (codes "a@x.io")) (some (codes "pw"))

serve-transaction_example :
    serve settings libraries draws (err integrity_error) registration (idle empty_database [])
    ≡ answered 201
        (transaction
          (committed_work (err integrity_error) (handler settings libraries draws registration))
          empty_database)
        []
unfolding depends_on_session
serve-transaction_example =
    serve-transaction settings libraries draws (err integrity_error) registration empty_database []

abbrev renaming : Authorized
renaming = patch_conversation 7 (some (codes "crew"))

serve-unauthorized_example :
    serve settings libraries draws
      (ok tt)
      (with_authorization none renaming)
      (idle empty_database [])
    ≡ idle empty_database (
        (
          record {
            status_code = 401;
            content = detail (http_exception 401);
            www_authenticate = true;
          },
          empty_database,
        )
        ∷ [])
unfolding get_current_user
serve-unauthorized_example =
    serve-unauthorized settings libraries draws (ok tt) none renaming (http_exception 401)
      empty_database [] refl

serve-issue_example :
    serve settings libraries draws
      (ok tt)
      (with_authorization (some (issue_token settings libraries 1000000 1)) renaming)
      (idle empty_database [])
    ≡ respond rename_conversation_route 200
        (ok tt)
        (authorized_handler settings libraries draws renaming record { user_id = 1 })
        (idle empty_database [])
serve-issue_example =
    serve-issue settings libraries draws (ok tt) 1 1000000 renaming empty_database [] jwt-IsJwt
      (omega arith)

abbrev traffic : List (Attempt (Unit {0}) × Draws × HttpRequest)
traffic =
    (ok tt, draws, registration)
    ∷ (
      ok tt,
      draws,
      with_authorization (some (5 ∷ 1 ∷ 9 ∷ [])) (post_conversations (some (codes "team"))),
    )
    ∷ (
      ok tt,
      draws,
      with_authorization (some (9 ∷ 1 ∷ 8 ∷ [])) (post_conversations (some (codes "team"))),
    )
    ∷ []

serve_all-readable_example :
    (found : Option Conversation) × (read_any 8
        (serve_all settings libraries traffic (idle empty_database [])).committed
      ≡ ok found)
    × AllIn IsWellFormed found
serve_all-readable_example = serve_all-readable settings libraries traffic 8

-- The answers to all but the first, the latest first: the conversation was made, and the expired
-- token refused.
traffic_statuses :
    map
      (λ (one : Response Answer × Database). one.0.status_code)
      (serve_all settings libraries (drop 1 traffic) (idle empty_database [])).sent
    ≡ 201 ∷ 401 ∷ []
unfolding serve_all serve respond handler get_current_user decode_access decode_sample uuid_sample
    create_conversation_request Controllers.create_conversation CreateConversation.execute
    conversation_title strip create error_response
traffic_statuses = refl
