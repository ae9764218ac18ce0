-- ===== src/Auth.antt =====
-- middleware/auth.go and middleware/permissions.go: who gets to the router. A middleware is a
-- function from the request and its context to a verdict: the context with which the next handler
-- is called, or the status with which the request is aborted.
pub mod Roles
pub mod Bearer
pub mod Failover
pub mod Protected
pub mod Tests
use gxydb_api.Base.{
  ℕ, Bool, true, false, ◌&&◌, ◌||◌, String, List, [], ◌∷◌, ◌⊎◌, inl, inr, Option, none, some, ◌==◌,
  string_eq, nat_eq, if◌then◌else◌, any, elem,
}
use text.Mathlib.Text.{starts_with}
use Roles.{IdTokenClaims, has_any_role, all_roles}
use Bearer.{parse_token}

-- The settings of common/config.go that the two read.
pub record Config : Type 0 where
  pub skip_auth : Bool
  pub skip_events_auth : Bool
  pub skip_permissions : Bool
  pub service_passwords : List String

-- `r.BasicAuth()` and the header `Authorization` as net/http gives them.
pub record HttpRequest : Type 0 where
  pub path : String
  pub basic_auth : Option (String × String)
  pub authorization : String

-- middleware/context.go; the fields that these middlewares use.
pub record RequestContext : Type 0 where
  pub id_claims : Option IdTokenClaims
  pub service_user : Bool

pub data Verdict : Type 0 where
  next : RequestContext → Verdict
  abort : ℕ → Verdict

-- bcrypt, the verifier of OIDC tokens, the decoding of a token's claims, and the lookup of the
-- password of a gateway, in which app.go reads the cache.
pub record Verifiers (Token : Type 0) : Type 0 where
  pub compare_hash : String → String → Bool
  pub verify : String → Option Token
  pub claims : Token → Option IdTokenClaims
  pub gw_pwd : String → Option String

abbrev pub is_open_path : String → Bool
is_open_path path = path == "/health_check" || path == "/metrics"

abbrev pub is_event_path : String → Bool
is_event_path path = path == "/event" || starts_with path "/protocol"

module _ {Token : Type 0} (config : Config) (v : Verifiers Token) where
  -- Gateways are using basic auth.
  pub event_auth : HttpRequest → RequestContext → Verdict
  event_auth r c = if config.skip_events_auth then next c else (elim r.basic_auth [
    | none ↦ abort 401
    | some (username, password) ↦ elim (v.gw_pwd username) [
      | none ↦ abort 401
      | some hash ↦ if v.compare_hash hash password then next c else abort 401
    ]
  ])

  -- Service users are using basic auth.
  pub service_auth : String → String → RequestContext → Verdict
  service_auth username password c =
      if username == "service"
      then (if any (λ pwd. v.compare_hash pwd password) config.service_passwords
          then next (record c { service_user = true })
          else abort 401)
      else abort 401

  -- Account users are using JWT.
  pub token_auth : HttpRequest → RequestContext → Verdict
  token_auth r c =
      let auth = parse_token r.authorization in
      if auth == "" then abort 401 else (elim (v.verify auth) [
        | none ↦ abort 401
        | some token ↦ elim (v.claims token) [
          | none ↦ abort 400
          | some claims ↦ next (record c { id_claims = some claims })
        ]
      ])

  unfoldable pub authenticate : HttpRequest → RequestContext → Verdict
  unfolding event_auth service_auth token_auth
  authenticate r c =
      if is_open_path r.path
      then next c
      else if is_event_path r.path
      then event_auth r c
      else if config.skip_auth
      then next c
      else (elim r.basic_auth [
        | some (username, password) ↦ service_auth username password c
        | none ↦ token_auth r c
      ])

  unfoldable pub request_has_role : List String → RequestContext → Bool
  request_has_role roles c =
      c.service_user
      || (elim c.id_claims [ none ↦ false | some claims ↦ has_any_role roles claims ])

  unfoldable pub minimal_permission : HttpRequest → RequestContext → Verdict
  minimal_permission r c =
      if config.skip_permissions
      then next c
      else if is_open_path r.path || is_event_path r.path
      then next c
      else if request_has_role all_roles c
      then next c
      else abort 403

  -- The two as app.go nests them, on the empty context that `ContextMiddleware` makes.
  unfoldable pub to_router : HttpRequest → Verdict
  to_router r = elim (authenticate r (record { id_claims = none; service_user = false })) [
    | abort code ↦ abort code
    | next c ↦ minimal_permission r c
  ]
