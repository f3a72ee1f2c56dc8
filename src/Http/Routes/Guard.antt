-- ===== src/Http/Routes/Guard.antt =====
-- What the check at start-up establishes of the routes of the routers that it is given.
use dizzchat.Prelude.{
  ◌≡◌, ◌↔◌, refl, true, List, [], ◌∷◌, arith, ok, All, All-append, All-append_inv, is_empty,
  Bool-cases, inl, inr,
}
use dizzchat.Http.Routes.{
  Callable, get_session, Dependant, Dependants, dependant, nothing, needs, ApiRoute, Route, Router,
  api_route, other_route, included, no_routes, route, is_get_session, depends_on_session,
  any_depends_on_session, api_routes, routes_of, all_api_routes, offenders_in,
  assert_session_routes_are_transactional,
}

-- That the session is needed somewhere in a tree of dependencies.
mutual
  pub data NeedsSession : Dependant → Type 0 where
    itself : {subs : Dependants} → NeedsSession (dependant get_session subs)
    through :
        {call : Callable} {subs : Dependants} → SomeNeed subs → NeedsSession (dependant call subs)

  pub data SomeNeed : Dependants → Type 0 where
    first_needs : {d : Dependant} {ds : Dependants} → NeedsSession d → SomeNeed (needs d ds)
    later_needs : {d : Dependant} {ds : Dependants} → SomeNeed ds → SomeNeed (needs d ds)

-- That a route is registered on a router, itself or through the routers that it includes.
mutual
  pub data Registered (r : ApiRoute) : Router → Type 0 where
    by_route : {entry : Route} {rest : Router} → IsIn r entry → Registered r (route entry rest)
    by_rest : {entry : Route} {rest : Router} → Registered r rest → Registered r (route entry rest)

  pub data IsIn (r : ApiRoute) : Route → Type 0 where
    is_route : IsIn r (api_route r)
    is_included : {router : Router} → Registered r router → IsIn r (included router)

pub data RegisteredIn (r : ApiRoute) : List Router → Type 0 where
  on_first :
      {router : Router} {routers : List Router}
      → Registered r router
      → RegisteredIn r (router ∷ routers)
  on_later :
      {router : Router} {routers : List Router}
      → RegisteredIn r routers
      → RegisteredIn r (router ∷ routers)

mutual
  unfolding depends_on_session

  pub NeedsSession-depends : {d : Dependant} → NeedsSession d → depends_on_session d ≡ true
  NeedsSession-depends itself = refl
  NeedsSession-depends (through h) = ground (arith, SomeNeed-depends h)

  SomeNeed-depends : {ds : Dependants} → SomeNeed ds → any_depends_on_session ds ≡ true
  SomeNeed-depends (first_needs h) = ground (arith, NeedsSession-depends h)
  SomeNeed-depends (later_needs h) = ground (arith, SomeNeed-depends h)

is_get_session-itself :
    (call : Callable) (subs : Dependants)
    → is_get_session call ≡ true
    → NeedsSession (dependant call subs)
is_get_session-itself get_session subs h = itself
is_get_session-itself _ subs h = absurd (cc h)

mutual
  unfolding depends_on_session

  pub depends-NeedsSession : (d : Dependant) → depends_on_session d ≡ true → NeedsSession d
  depends-NeedsSession (dependant call subs) h = elim (Bool-cases (is_get_session call)) [
    | inl is ↦ is_get_session-itself call subs is
    | inr other ↦ through (any_depends-SomeNeed subs (ground arith))
  ]

  any_depends-SomeNeed : (ds : Dependants) → any_depends_on_session ds ≡ true → SomeNeed ds
  any_depends-SomeNeed nothing h = absurd (cc h)
  any_depends-SomeNeed (needs d ds) h = elim (Bool-cases (depends_on_session d)) [
    | inl e ↦ first_needs (depends-NeedsSession d e)
    | inr other ↦ later_needs (any_depends-SomeNeed ds (ground arith))
  ]

module _ {ℓ} (P : ApiRoute → Type ℓ) where
  mutual
    unfolding api_routes

    All-Registered :
        {r : ApiRoute} {router : Router} → All P (api_routes router) → Registered r router → P r
    All-Registered {router = route entry rest} all (by_route h) =
        All-IsIn (All-append_inv P (routes_of entry) (api_routes rest) all).0 h
    All-Registered {router = route entry rest} all (by_rest h) =
        All-Registered (All-append_inv P (routes_of entry) (api_routes rest) all).1 h

    All-IsIn : {r : ApiRoute} {entry : Route} → All P (routes_of entry) → IsIn r entry → P r
    All-IsIn (p, _) is_route = p
    All-IsIn all (is_included h) = All-Registered all h

  mutual
    unfolding api_routes

    Registered-All :
        (router : Router) → ((r : ApiRoute) → Registered r router → P r) → All P (api_routes router)
    Registered-All no_routes f = tt
    Registered-All (route entry rest) f =
        All-append P (routes_of entry) (api_routes rest) (IsIn-All entry (λ r h. f r (by_route h)))
          (Registered-All rest (λ r h. f r (by_rest h)))

    IsIn-All : (entry : Route) → ((r : ApiRoute) → IsIn r entry → P r) → All P (routes_of entry)
    IsIn-All (api_route r) f = (f r is_route, tt)
    IsIn-All other_route f = tt
    IsIn-All (included router) f = Registered-All router (λ r h. f r (is_included h))

  All-RegisteredIn :
      {r : ApiRoute} {routers : List Router}
      → All P (all_api_routes routers)
      → RegisteredIn r routers
      → P r
  unfolding all_api_routes
  All-RegisteredIn {routers = []} all h = elim h [ ]
  All-RegisteredIn {routers = router ∷ routers} all (on_first h) =
      All-Registered (All-append_inv P (api_routes router) (all_api_routes routers) all).0 h
  All-RegisteredIn {routers = router ∷ routers} all (on_later h) =
      All-RegisteredIn (All-append_inv P (api_routes router) (all_api_routes routers) all).1 h

  RegisteredIn-All :
      (routers : List Router)
      → ((r : ApiRoute) → RegisteredIn r routers → P r)
      → All P (all_api_routes routers)
  unfolding all_api_routes
  RegisteredIn-All [] f = tt
  RegisteredIn-All (router ∷ routers) f =
      All-append P (api_routes router) (all_api_routes routers)
        (Registered-All router (λ r h. f r (on_first h)))
        (RegisteredIn-All routers (λ r h. f r (on_later h)))

offenders-none :
    (rs : List ApiRoute)
    → is_empty (offenders_in rs) ≡ true
    → All (λ (r : ApiRoute). depends_on_session r.dependant ≡ true → r.is_transactional ≡ true) rs
unfolding offenders_in
offenders-none [] h = tt
offenders-none (r ∷ rs) h = (ground arith, offenders-none rs (ground arith))

none-offenders :
    (rs : List ApiRoute)
    → All (λ (r : ApiRoute). depends_on_session r.dependant ≡ true → r.is_transactional ≡ true) rs
    → is_empty (offenders_in rs) ≡ true
unfolding offenders_in
none-offenders [] h = refl
none-offenders (r ∷ rs) (commits, h) =
    let rest = none-offenders rs h in
    elim (Bool-cases (depends_on_session r.dependant)) [
      | inl e ↦ ground (arith, commits e, rest)
      | inr e ↦ ground (arith, rest)
    ]

-- The check at start-up passes exactly when each route that is registered on one of the routers,
-- itself or through routers that these include, however deep, and whose tree of dependencies needs
-- the session anywhere, is of the class that commits.
pub assert_session_routes_are_transactional_iff :
    (routers : List Router)
    → (assert_session_routes_are_transactional routers ≡ ok tt) ↔ (
        (r : ApiRoute)
        → RegisteredIn r routers
        → NeedsSession r.dependant
        → r.is_transactional ≡ true)
unfolding assert_session_routes_are_transactional
assert_session_routes_are_transactional_iff routers =
    let rs = all_api_routes routers in
    (
      λ passes r registered needed.
          All-RegisteredIn _ (offenders-none rs (ground (arith, passes))) registered
            (NeedsSession-depends needed),
      λ all.
          let none_left = none-offenders rs (
            RegisteredIn-All _ routers λ r registered depends.
              all r registered (depends-NeedsSession r.dependant depends)) in
          rw none_left refl,
    )
