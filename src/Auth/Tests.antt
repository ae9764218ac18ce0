-- ===== src/Auth/Tests.antt =====
-- The middlewares on concrete requests.
use gxydb_api.Base.{
  ◌≡◌, refl, ◌⊎◌, inl, inr, true, false, ◌&&◌, arith, String, [], ◌∷◌, ◌==◌, string_eq, none, some,
  if◌then◌else◌,
}
use gxydb_api.Auth.Roles.{any_in, init_role_map, fill_roles, IdTokenClaims, has_any_role}
use gxydb_api.Base.Text.{split, trim_space, lower_is}
use gxydb_api.Auth.Bearer.{parse_token}
use gxydb_api.Auth.{
  Config, HttpRequest, RequestContext, next, Verifiers, authenticate, minimal_permission,
  request_has_role, to_router,
}
use gxydb_api.Auth.Failover.{verify, verify_from, Decided, verify-Decided}
use gxydb_api.Errors.{foreign}
use gxydb_api.World.{Try}
use gxydb_api.Auth.Protected.{ByService, ByToken, to_router-protected, to_router-event}

abbrev config1 : Config
config1 = record {
  skip_auth = false;
  skip_events_auth = false;
  skip_permissions = false;
  service_passwords = "h:secret" ∷ [];
}

abbrev user_claims : IdTokenClaims
user_claims = record { realm_roles = "offline" ∷ "gxy_user" ∷ []; roles_map = none }

-- A token is its own text, and only "good" is verified.
abbrev verifiers1 : Verifiers String
verifiers1 = record {
  compare_hash = λ hash password. hash == "h:secret" && password == "secret";
  verify = λ t. if t == "good" then some t else none;
  claims = λ t. some user_claims;
  gw_pwd = λ name. if name == "gxy1" then some "h:secret" else none;
}

abbrev by_token : HttpRequest
by_token = record { path = "/rooms"; basic_auth = none; authorization = " Bearer good" }

abbrev by_gateway : HttpRequest
by_gateway = record { path = "/event"; basic_auth = some ("gxy1", "secret"); authorization = "" }

abbrev empty_context : RequestContext
empty_context = record { id_claims = none; service_user = false }

abbrev token_context : RequestContext
token_context = record { id_claims = some user_claims; service_user = false }

token-passes : to_router config1 verifiers1 by_token ≡ next token_context
unfolding to_router authenticate minimal_permission request_has_role has_any_role any_in
    init_role_map fill_roles parse_token split trim_space lower_is
token-passes = refl

claims1 : (t : String) (c : IdTokenClaims) → verifiers1.claims t ≡ some c → c.roles_map ≡ none
claims1 t c e = ground arith

to_router-protected_example :
    ByService config1 verifiers1 by_token token_context
    ⊎ ByToken config1 verifiers1 by_token token_context
to_router-protected_example =
    to_router-protected config1 verifiers1 by_token token_context (λ t c e. claims1 t c e) refl refl
      refl refl token-passes

gateway-passes : to_router config1 verifiers1 by_gateway ≡ next empty_context
unfolding to_router authenticate minimal_permission request_has_role has_any_role any_in
    init_role_map fill_roles parse_token split trim_space lower_is
gateway-passes = refl

to_router-event_example :
    (name : String) × (password : String) × (hash : String) × (by_gateway.basic_auth
      ≡ some (name, password))
    × (verifiers1.gw_pwd name ≡ some hash)
    × (verifiers1.compare_hash hash password ≡ true)
to_router-event_example =
    to_router-event config1 verifiers1 by_gateway empty_context refl refl refl gateway-passes

abbrev refusing : String → Try String
refusing t = inl (foreign "expired")

abbrev accepting : String → Try String
accepting t = inr t

verify-Decided_example : Decided (refusing ∷ accepting ∷ []) "t" (some "t", none)
unfolding verify verify_from
verify-Decided_example = verify-Decided (refusing ∷ accepting ∷ []) "t" (λ e. cc)
