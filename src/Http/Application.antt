-- ===== src/Http/Application.antt =====
-- The dependencies, the routers and the routes of the application: the `dependencies.py`, `router.py`
-- and `controllers` of both contexts, .../inbound/api/health.py, .../realtime/router.py and
-- `create_app` in src/dizzchat/app.py. A parameter that is no dependency is not part of a tree.
use dizzchat.Prelude.{
  ◌≡◌, refl, Bool, true, false, not, any, List, [], ◌∷◌, ok, Result, ◌>>=◌, ◌>>◌, String,
}
use dizzchat.Text.{Text, codes, text_eq}
use dizzchat.Http.Routes.{
  get_session, get_clock, get_settings, get_password_hasher, get_token_service, bearer_scheme,
  get_current_user, provide_register_user, provide_authenticate_user, provide_refresh_access_token,
  provide_create_conversation, provide_list_conversations, provide_rename_conversation,
  provide_delete_conversation, provide_restore_conversation, provide_get_conversation_history,
  provide_add_participant, provide_list_participants, provide_remove_participant, controller,
  Dependant, Dependants, dependant, nothing, needs, ApiRoute, Router, api_route, other_route,
  no_routes, route, assert_session_routes_are_transactional,
}

infixr 10 ◌▷◌
abbrev ◌▷◌ : Dependant → Dependants → Dependants
d ▷ ds = needs d ds

-- `SessionDep`, `ClockDep`, `SettingsDep`, `HasherDep`, `TokenServiceDep`, `BearerDep`
abbrev pub session_dep : Dependant
session_dep = dependant get_session nothing

abbrev pub clock_dep : Dependant
clock_dep = dependant get_clock nothing

abbrev pub settings_dep : Dependant
settings_dep = dependant get_settings nothing

abbrev pub hasher_dep : Dependant
hasher_dep = dependant get_password_hasher nothing

abbrev pub token_service_dep : Dependant
token_service_dep = dependant get_token_service (settings_dep ▷ nothing)

abbrev pub bearer_dep : Dependant
bearer_dep = dependant bearer_scheme nothing

-- `CurrentUser`
abbrev pub current_user_dep : Dependant
current_user_dep = dependant get_current_user (bearer_dep ▷ token_service_dep ▷ nothing)

abbrev pub register_user_dep : Dependant
register_user_dep = dependant provide_register_user (session_dep ▷ hasher_dep ▷ clock_dep ▷ nothing)

abbrev pub authenticate_user_dep : Dependant
authenticate_user_dep =
    dependant provide_authenticate_user
      (session_dep ▷ hasher_dep ▷ token_service_dep ▷ clock_dep ▷ settings_dep ▷ nothing)

abbrev pub refresh_access_token_dep : Dependant
refresh_access_token_dep =
    dependant provide_refresh_access_token
      (session_dep ▷ token_service_dep ▷ clock_dep ▷ settings_dep ▷ nothing)

abbrev pub create_conversation_dep : Dependant
create_conversation_dep = dependant provide_create_conversation (session_dep ▷ clock_dep ▷ nothing)

abbrev pub list_conversations_dep : Dependant
list_conversations_dep = dependant provide_list_conversations (session_dep ▷ nothing)

abbrev pub rename_conversation_dep : Dependant
rename_conversation_dep = dependant provide_rename_conversation (session_dep ▷ clock_dep ▷ nothing)

abbrev pub delete_conversation_dep : Dependant
delete_conversation_dep = dependant provide_delete_conversation (session_dep ▷ clock_dep ▷ nothing)

abbrev pub restore_conversation_dep : Dependant
restore_conversation_dep =
    dependant provide_restore_conversation (session_dep ▷ clock_dep ▷ nothing)

abbrev pub get_conversation_history_dep : Dependant
get_conversation_history_dep = dependant provide_get_conversation_history (session_dep ▷ nothing)

abbrev pub add_participant_dep : Dependant
add_participant_dep = dependant provide_add_participant (session_dep ▷ clock_dep ▷ nothing)

abbrev pub list_participants_dep : Dependant
list_participants_dep = dependant provide_list_participants (session_dep ▷ nothing)

abbrev pub remove_participant_dep : Dependant
remove_participant_dep = dependant provide_remove_participant (session_dep ▷ nothing)

-- A route of a router whose `route_class` is `TransactionalRoute`.
abbrev pub transactional : String → String → String → Dependants → ApiRoute
transactional method path name dependencies = record {
  methods = codes method ∷ [];
  path = codes path;
  is_transactional = true;
  dependant = dependant (controller (codes name)) dependencies;
}

infixr 10 ◌⨾◌
abbrev ◌⨾◌ : ApiRoute → Router → Router
r ⨾ rest = route (api_route r) rest

abbrev pub health_route : ApiRoute
health_route = record {
  methods = codes "GET" ∷ [];
  path = codes "/health";
  is_transactional = false;
  dependant = dependant (controller (codes "health")) nothing;
}

abbrev pub signup_route : ApiRoute
signup_route = transactional "POST" "/auth/signup" "signup" (register_user_dep ▷ nothing)

abbrev pub login_route : ApiRoute
login_route = transactional "POST" "/auth/login" "login" (authenticate_user_dep ▷ nothing)

abbrev pub refresh_route : ApiRoute
refresh_route = transactional "POST" "/auth/refresh" "refresh" (refresh_access_token_dep ▷ nothing)

abbrev pub current_user_route : ApiRoute
current_user_route = transactional "GET" "/auth/me" "current_user" (current_user_dep ▷ nothing)

abbrev pub create_conversation_route : ApiRoute
create_conversation_route =
    transactional "POST" "/conversations" "create_conversation"
      (current_user_dep ▷ create_conversation_dep ▷ nothing)

abbrev pub list_conversations_route : ApiRoute
list_conversations_route =
    transactional "GET" "/conversations" "list_conversations"
      (current_user_dep ▷ list_conversations_dep ▷ nothing)

abbrev pub rename_conversation_route : ApiRoute
rename_conversation_route =
    transactional "PATCH" "/conversations/{conversation_id}" "rename_conversation"
      (current_user_dep ▷ rename_conversation_dep ▷ nothing)

abbrev pub delete_conversation_route : ApiRoute
delete_conversation_route =
    transactional "DELETE" "/conversations/{conversation_id}" "delete_conversation"
      (current_user_dep ▷ delete_conversation_dep ▷ nothing)

abbrev pub restore_conversation_route : ApiRoute
restore_conversation_route =
    transactional "POST" "/conversations/{conversation_id}/restore" "restore_conversation"
      (current_user_dep ▷ restore_conversation_dep ▷ nothing)

abbrev pub get_conversation_history_route : ApiRoute
get_conversation_history_route =
    transactional "GET" "/conversations/{conversation_id}/messages" "get_conversation_history"
      (current_user_dep ▷ get_conversation_history_dep ▷ nothing)

abbrev pub add_participant_route : ApiRoute
add_participant_route =
    transactional "POST" "/conversations/{conversation_id}/participants" "add_participant"
      (current_user_dep ▷ add_participant_dep ▷ nothing)

abbrev pub list_participants_route : ApiRoute
list_participants_route =
    transactional "GET" "/conversations/{conversation_id}/participants" "list_participants"
      (current_user_dep ▷ list_participants_dep ▷ nothing)

abbrev pub remove_participant_route : ApiRoute
remove_participant_route =
    transactional "DELETE" "/conversations/{conversation_id}/participants/{user_id}"
      "remove_participant" (current_user_dep ▷ remove_participant_dep ▷ nothing)

unfoldable pub health_router : Router
health_router = health_route ⨾ no_routes

unfoldable pub identity_router : Router
identity_router = signup_route ⨾ login_route ⨾ refresh_route ⨾ current_user_route ⨾ no_routes

unfoldable pub conversations_router : Router
conversations_router =
    create_conversation_route ⨾ list_conversations_route ⨾ rename_conversation_route
    ⨾ delete_conversation_route ⨾ restore_conversation_route ⨾ get_conversation_history_route
    ⨾ add_participant_route ⨾ list_participants_route ⨾ remove_participant_route ⨾ no_routes

unfoldable pub ws_router : Router
ws_router = route other_route no_routes

-- The routers that `create_app` includes and checks.
abbrev pub routers : List Router
routers = health_router ∷ identity_router ∷ conversations_router ∷ ws_router ∷ []

-- The middleware for requests from other origins; all methods and headers are allowed.
pub record CorsPolicy : Type 0 where
  pub allow_origins : List Text
  pub allow_credentials : Bool

unfoldable pub cors_policy : List Text → CorsPolicy
unfolding text_eq
cors_policy origins = record {
  allow_origins = origins;
  allow_credentials = not (any (text_eq (codes "*")) origins);
}

pub record FastApi : Type 0 where
  pub cors : CorsPolicy
  pub included : List Router

-- `create_app`, by the origins of the settings; an error carries the routes that the check refuses.
unfoldable pub create_app : List Text → Result (List ApiRoute) FastApi
create_app origins = do
  assert_session_routes_are_transactional routers
  ok (record { cors = cors_policy origins; included = routers })

-- The routes of the application pass its own check, and so it boots.
pub routers-pass : assert_session_routes_are_transactional routers ≡ ok tt
unfolding assert_session_routes_are_transactional health_router identity_router conversations_router
    ws_router
routers-pass = refl

pub create_app-boots :
    (origins : List Text)
    → create_app origins ≡ ok (record { cors = cors_policy origins; included = routers })
unfolding create_app
create_app-boots origins = rw (routers-pass, ◌>>=◌) refl
