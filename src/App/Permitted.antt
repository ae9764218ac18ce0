-- ===== src/App/Permitted.antt =====
-- Who can do anything at an endpoint that wants a role.
use gxydb_api.Base.{
  ◌≡◌, refl, Bool, true, false, not, ◌&&◌, String, List, none, some, inl, inr, ◌⊎◌, ℕ, arith,
  string_eq, any, elem, Bool-cases,
}
use gxydb_api.Base.Text.{chars}
use gxydb_api.Base.Maps.{Map}
use gxydb_api.World.{World}
use gxydb_api.Auth.{RequestContext, Verdict, next, abort, to_router, request_has_role}
use gxydb_api.Auth.Roles.{has_any_role-any}
use gxydb_api.Auth.Protected.{ByService, ByToken, LeavesMapEmpty, to_router-protected}
use gxydb_api.V1.{aborted, recovered}
use gxydb_api.App.{Route, routes, Request, Server, verifiers_in, dispatch, serve}
use gxydb_api.App.Paths.{second?, is_checked, closed_paths}
use gxydb_api.App.Matched.{Matched-not, RouterWorks, fixed_part}
use gxydb_api.App.Allowed.{roles_for, handle-forbidden}

abbrev wants_role : Route → Bool
wants_role q = elim (roles_for q.endpoint) [ none ↦ false | some _ ↦ true ]

-- No route that wants a role is under an open path or a gateway's.
role_routes :
    any (λ q. wants_role q && not (is_checked (second? (chars (fixed_part q.template))))) routes
    ≡ false
role_routes = refl

-- A service user, or an account with one of the roles.
pub data Permitted {Token C : Type 0} (s : Server Token C) (w : World C) (r : Request)
    (roles : List String) : Type 0 where
  service :
      (c : RequestContext)
      → ByService s.config (verifiers_in s w.cache) r.http c
      → Permitted s w r roles
  account :
      (c : RequestContext) (t : ByToken s.config (verifiers_in s w.cache) r.http c)
      → any (λ role. elem role (t.id_claims).realm_roles) roles ≡ true
      → Permitted s w r roles

module _ {Token C : Type 0} (s : Server Token C) (works : RouterWorks s)
    (auth : (s.config).skip_auth ≡ false) (permissions : (s.config).skip_permissions ≡ false)
    (empty : LeavesMapEmpty s.config s.verifiers) where
  token-role :
      (w : World C) (r : Request) (c : RequestContext) (roles : List String)
      (t : ByToken s.config (verifiers_in s w.cache) r.http c)
      → request_has_role s.config s.verifiers roles c ≡ true
      → any (λ role. elem role (t.id_claims).realm_roles) roles ≡ true
  unfolding request_has_role
  token-role w r c roles t allowed = ground (
    arith,
    t.kept,
    t.not_service,
    has_any_role-any roles t.id_claims (empty t.token t.id_claims t.decoded),
  )

  -- At an endpoint that wants one of some roles, where both checks are on, a request is either
  -- refused and changes nothing at all, or comes from a service user with a configured password, or
  -- from an account with a verified token that has one of these roles.
  pub serve-Permitted :
      (r : Request) (w : World C) (found : Route) (vars : Map String String) (roles : List String)
      → s.find_route routes r.method (r.http).path ≡ inr (found, vars)
      → roles_for found.endpoint ≡ some roles
      → ((code : ℕ) × (serve s r w ≡ (aborted code, w))) ⊎ Permitted s w r roles
  unfolding serve recovered dispatch
  serve-Permitted r w found vars roles fits wants =
      split (to_router s.config (verifiers_in s w.cache) r.http) refl
    where
      split :
          (verdict : Verdict)
          → to_router s.config (verifiers_in s w.cache) r.http ≡ verdict
          → ((code : ℕ) × (serve s r w ≡ (aborted code, w))) ⊎ Permitted s w r roles
      split (abort code) e = inl (code, ground (arith, e))
      split (next c) e = elim (Bool-cases (request_has_role s.config s.verifiers roles c)) [
        | inr refused ↦ inl (
          403,
          ground (
            arith,
            e,
            fits,
            handle-forbidden s vars c r w permissions found.endpoint roles wants refused,
          ),
        )
        | inl allowed ↦
            let matched = works r.method (r.http).path found vars fits in
            let checked : is_checked (second? (chars (fixed_part found.template))) ≡ true = ground (
              arith,
              wants,
              Matched-not
                  (λ q. wants_role q && not (is_checked (second? (chars (fixed_part q.template)))))
                  r.method (r.http).path found role_routes matched,
            ) in
            let (closed, api) =
              closed_paths (r.http).path (fixed_part found.template) matched.under checked in
            elim (to_router-protected s.config (verifiers_in s w.cache) r.http c empty auth
              permissions closed api e) [
                | inl by_service ↦ inr (service c by_service)
                | inr by_token ↦ inr (account c by_token (token-role w r c roles by_token allowed))
              ]
      ]
