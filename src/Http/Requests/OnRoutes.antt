-- ===== src/Http/Requests/OnRoutes.antt =====
-- That each request's route is registered on a router of the application.
use dizzchat.Prelude.{Option}
use dizzchat.Text.{Text}
use dizzchat.Http.Routes.Guard.{by_route, by_rest, is_route, RegisteredIn, on_first, on_later}
use dizzchat.Http.Application.{routers, health_router, identity_router, conversations_router}
use dizzchat.Http.Requests.{
  HttpRequest, Authorized, get_health, post_signup, post_login, post_refresh, with_authorization,
  get_me, post_conversations, get_conversations, patch_conversation, delete_conversation,
  post_restore, get_messages, post_participants, get_participants, delete_participant, route_of,
}

Registered-authorized :
    (authorization : Option Text) (request : Authorized)
    → RegisteredIn (route_of (with_authorization authorization request)).0 routers
unfolding identity_router conversations_router
Registered-authorized a get_me =
    on_later (on_first (by_rest (by_rest (by_rest (by_route is_route)))))
Registered-authorized a (post_conversations title) =
    on_later (on_later (on_first (by_route is_route)))
Registered-authorized a get_conversations =
    on_later (on_later (on_first (by_rest (by_route is_route))))
Registered-authorized a (patch_conversation c title) =
    on_later (on_later (on_first (by_rest (by_rest (by_route is_route)))))
Registered-authorized a (delete_conversation c) =
    on_later (on_later (on_first (by_rest (by_rest (by_rest (by_route is_route))))))
Registered-authorized a (post_restore c) =
    on_later (on_later (on_first (by_rest (by_rest (by_rest (by_rest (by_route is_route)))))))
Registered-authorized a (get_messages c before limit) =
    on_later
      (on_later (on_first (by_rest (by_rest (by_rest (by_rest (by_rest (by_route is_route))))))))
Registered-authorized a (post_participants c email) = on_later (
    on_later
      (on_first (by_rest (by_rest (by_rest (by_rest (by_rest (by_rest (by_route is_route)))))))))
Registered-authorized a (get_participants c) = on_later (
    on_later (
      on_first
        (by_rest (by_rest (by_rest (by_rest (by_rest (by_rest (by_rest (by_route is_route))))))))))
Registered-authorized a (delete_participant c p) = on_later (
    on_later (
      on_first (
        by_rest (
          by_rest
            (by_rest (by_rest (by_rest (by_rest (by_rest (by_rest (by_route is_route)))))))))))

pub Registered-route : (request : HttpRequest) → RegisteredIn (route_of request).0 routers
unfolding health_router identity_router
Registered-route get_health = on_first (by_route is_route)
Registered-route (post_signup email password) = on_later (on_first (by_route is_route))
Registered-route (post_login email password) = on_later (on_first (by_rest (by_route is_route)))
Registered-route (post_refresh token) = on_later (on_first (by_rest (by_rest (by_route is_route))))
Registered-route (with_authorization a request) = Registered-authorized a request
