-- ===== src/Http/Requests.antt =====
-- The requests that the application serves, each on its route with its controller. The framework
-- solves the dependencies of a route before it validates the fields of the body and the query; a body
-- that is not JSON and a path whose id is no UUID do not come this far.
pub mod OnRoutes
pub mod Gate
pub mod Keeping
pub mod Consistent
use dizzchat.Prelude.{ℕ, Option, List, ok}
use dizzchat.Text.{Text}
use dizzchat.Errors.{Attempt}
use dizzchat.Messaging.Conversation.{ConversationId, ParticipantId}
use dizzchat.Storage.Rows.{Database}
use dizzchat.Storage.Session.{Action, ◌>>=◌, ◌>>◌, pure, lift}
use dizzchat.Http.Routes.{ApiRoute}
use dizzchat.Http.Application.{
  health_route, signup_route, login_route, refresh_route, current_user_route,
  create_conversation_route, list_conversations_route, rename_conversation_route,
  delete_conversation_route, restore_conversation_route, get_conversation_history_route,
  add_participant_route, list_participants_route, remove_participant_route,
}
use dizzchat.Http.Environment.{Settings, Libraries, Draws, AuthenticatedUser, get_current_user}
use dizzchat.Http.Schemas.{
  signup_request, login_request, refresh_request, create_conversation_request,
  rename_conversation_request, add_participant_request, before_query, limit_query, UserResponse,
  TokenResponse, CurrentUserResponse, ConversationResponse, ParticipantResponse,
  MessagePageResponse,
}
use dizzchat.Http.Controllers
use dizzchat.Http.Transactions.{Server, respond}

-- The requests to the routes that depend on the caller.
pub data Authorized : Type 0 where
  get_me : Authorized
  post_conversations : (title : Option Text) → Authorized
  get_conversations : Authorized
  patch_conversation : ConversationId → (title : Option Text) → Authorized
  delete_conversation : ConversationId → Authorized
  post_restore : ConversationId → Authorized
  get_messages : ConversationId → (before limit : Option ℕ) → Authorized
  post_participants : ConversationId → (email : Option Text) → Authorized
  get_participants : ConversationId → Authorized
  delete_participant : ConversationId → ParticipantId → Authorized

-- A request to a route, with the fields of its body and its query. `authorization` is the bearer
-- token, where there is one.
pub data HttpRequest : Type 0 where
  get_health : HttpRequest
  post_signup : (email password : Option Text) → HttpRequest
  post_login : (email password : Option Text) → HttpRequest
  post_refresh : (refresh_token : Option Text) → HttpRequest
  with_authorization : (authorization : Option Text) → Authorized → HttpRequest

-- What a controller returns.
pub data Answer : Type 0 where
  healthy : Answer
  a_user : UserResponse → Answer
  a_token : TokenResponse → Answer
  a_caller : CurrentUserResponse → Answer
  a_conversation : ConversationResponse → Answer
  some_conversations : List ConversationResponse → Answer
  some_participants : List ParticipantResponse → Answer
  a_page : MessagePageResponse → Answer
  no_content : Answer

-- The route of a request, and the status of its response if nothing is raised.
abbrev pub authorized_route : Authorized → ApiRoute × ℕ
authorized_route get_me = (current_user_route, 200)
authorized_route (post_conversations title) = (create_conversation_route, 201)
authorized_route get_conversations = (list_conversations_route, 200)
authorized_route (patch_conversation c title) = (rename_conversation_route, 200)
authorized_route (delete_conversation c) = (delete_conversation_route, 204)
authorized_route (post_restore c) = (restore_conversation_route, 200)
authorized_route (get_messages c before limit) = (get_conversation_history_route, 200)
authorized_route (post_participants c email) = (add_participant_route, 204)
authorized_route (get_participants c) = (list_participants_route, 200)
authorized_route (delete_participant c p) = (remove_participant_route, 204)

abbrev pub route_of : HttpRequest → ApiRoute × ℕ
route_of get_health = (health_route, 200)
route_of (post_signup email password) = (signup_route, 201)
route_of (post_login email password) = (login_route, 200)
route_of (post_refresh refresh_token) = (refresh_route, 200)
route_of (with_authorization authorization request) = authorized_route request

module _ (settings : Settings) (libraries : Libraries) (draws : Draws) where
  unfoldable pub authorized_handler : Authorized → AuthenticatedUser → Action Database Answer
  authorized_handler get_me caller = pure (a_caller (Controllers.current_user caller))
  authorized_handler (post_conversations title) caller = do
    body ← lift (create_conversation_request title)
    answer ← Controllers.create_conversation settings libraries draws body caller
    pure (a_conversation answer)
  authorized_handler get_conversations caller = do
    answer ← Controllers.list_conversations caller
    pure (some_conversations answer)
  authorized_handler (patch_conversation c title) caller = do
    body ← lift (rename_conversation_request title)
    answer ← Controllers.rename_conversation settings libraries draws c body caller
    pure (a_conversation answer)
  authorized_handler (delete_conversation c) caller = do
    Controllers.delete_conversation settings libraries draws c caller
    pure no_content
  authorized_handler (post_restore c) caller = do
    answer ← Controllers.restore_conversation settings libraries draws c caller
    pure (a_conversation answer)
  authorized_handler (get_messages c before limit) caller = do
    before' ← lift (before_query before)
    limit' ← lift (limit_query limit)
    answer ← Controllers.get_conversation_history c caller before' limit'
    pure (a_page answer)
  authorized_handler (post_participants c email) caller = do
    body ← lift (add_participant_request email)
    Controllers.add_participant settings libraries draws c body caller
    pure no_content
  authorized_handler (get_participants c) caller = do
    answer ← Controllers.list_participants c caller
    pure (some_participants answer)
  authorized_handler (delete_participant c p) caller = do
    Controllers.remove_participant c p caller
    pure no_content

  unfoldable pub handler : HttpRequest → Action Database Answer
  unfolding authorized_handler
  handler get_health = pure healthy
  handler (post_signup email password) = do
    body ← lift (signup_request email password)
    answer ← Controllers.signup settings libraries draws body
    pure (a_user answer)
  handler (post_login email password) = do
    body ← lift (login_request email password)
    answer ← Controllers.login settings libraries draws body
    pure (a_token answer)
  handler (post_refresh refresh_token) = do
    body ← lift (refresh_request refresh_token)
    answer ← Controllers.refresh settings libraries draws body
    pure (a_token answer)
  handler (with_authorization authorization request) = do
    caller ← lift (get_current_user settings libraries authorization draws.now)
    authorized_handler request caller

  -- A request from its arrival until it is over; `commits` is what the database answers to a commit.
  unfoldable pub serve : Attempt (Unit {0}) → HttpRequest → Server Answer → Server Answer
  unfolding handler
  serve commits request s =
      let (r, status) = route_of request in respond r status commits (handler request) s
