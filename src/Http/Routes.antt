-- ===== src/Http/Routes.antt =====
-- The routes of a router and what they depend on, and the check at start-up of
-- src/dizzchat/shared/infrastructure/inbound/api/transactional_route.py. A dependant is the web
-- framework's: the function that is called, and a dependant for each parameter that it depends on.
pub mod Guard
use dizzchat.Prelude.{
  ◌≡◌, refl, Bool, true, false, ◌&&◌, ◌||◌, not, List, [], ◌∷◌, ◌++◌, Result, ok, err, is_empty,
  if◌then◌else◌,
}
use dizzchat.Text.{Text}

-- The functions that the program hands to the framework: dependencies and controllers.
pub data Callable : Type 0 where
  get_session : Callable
  get_clock : Callable
  get_settings : Callable
  get_password_hasher : Callable
  get_token_service : Callable
  bearer_scheme : Callable
  get_current_user : Callable
  provide_register_user : Callable
  provide_authenticate_user : Callable
  provide_refresh_access_token : Callable
  provide_create_conversation : Callable
  provide_list_conversations : Callable
  provide_rename_conversation : Callable
  provide_delete_conversation : Callable
  provide_restore_conversation : Callable
  provide_get_conversation_history : Callable
  provide_add_participant : Callable
  provide_list_participants : Callable
  provide_remove_participant : Callable
  controller : Text → Callable

mutual
  pub data Dependant : Type 0 where
    dependant : Callable → Dependants → Dependant

  pub data Dependants : Type 0 where
    nothing : Dependants
    needs : Dependant → Dependants → Dependants

-- An `APIRoute`: whether it is a `TransactionalRoute`, and what its controller depends on.
pub record ApiRoute : Type 0 where
  pub methods : List Text
  pub path : Text
  pub is_transactional : Bool
  pub dependant : Dependant

-- What `router.routes` holds: routes of requests, other routes such as those of WebSockets, and the
-- wrappers of included routers, with their `original_router`.
mutual
  pub data Route : Type 0 where
    api_route : ApiRoute → Route
    other_route : Route
    included : Router → Route

  pub data Router : Type 0 where
    no_routes : Router
    route : Route → Router → Router

-- `dependant.call is get_session`
abbrev pub is_get_session : Callable → Bool
is_get_session get_session = true
is_get_session _ = false

unfoldable mutual
  -- `_depends_on_session(dependant)`
  pub depends_on_session : Dependant → Bool
  depends_on_session (dependant call dependencies) =
      is_get_session call || any_depends_on_session dependencies

  pub any_depends_on_session : Dependants → Bool
  any_depends_on_session nothing = false
  any_depends_on_session (needs sub subs) = depends_on_session sub || any_depends_on_session subs

unfoldable mutual
  -- `_api_routes` of one router
  pub api_routes : Router → List ApiRoute
  api_routes no_routes = []
  api_routes (route r rest) = routes_of r ++ api_routes rest

  pub routes_of : Route → List ApiRoute
  routes_of (api_route r) = r ∷ []
  routes_of other_route = []
  routes_of (included original_router) = api_routes original_router

-- `_api_routes(routers)`
unfoldable pub all_api_routes : List Router → List ApiRoute
unfolding api_routes
all_api_routes [] = []
all_api_routes (router ∷ routers) = api_routes router ++ all_api_routes routers

-- The routes that need a session and do not commit it.
unfoldable pub offenders_in : List ApiRoute → List ApiRoute
unfolding depends_on_session
offenders_in [] = []
offenders_in (r ∷ rs) =
    let rest = offenders_in rs in
    if not r.is_transactional && depends_on_session r.dependant then r ∷ rest else rest

-- `assert_session_routes_are_transactional(*routers)`: the `RuntimeError` carries the offenders.
unfoldable pub assert_session_routes_are_transactional :
    List Router → Result (List ApiRoute) (Unit {0})
unfolding all_api_routes offenders_in
assert_session_routes_are_transactional routers =
    let offenders = offenders_in (all_api_routes routers) in
    if is_empty offenders then ok tt else err offenders
