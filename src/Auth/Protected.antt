-- ===== src/Auth/Protected.antt =====
-- What authentication and the minimal permission together let through to the router.
use gxydb_api.Base.{
  ◌≡◌, refl, Option-cases, ◌⊎◌, inl, inr, true, false, String, Option, none, some, arith, any, elem,
  string_eq, ==_iff,
}
use gxydb_api.Auth.Roles.{IdTokenClaims, has_any_role-any, all_roles}
use gxydb_api.Auth.Bearer.{parse_token}
use gxydb_api.Auth.{
  Config, HttpRequest, RequestContext, next, Verifiers, is_open_path, is_event_path, authenticate,
  minimal_permission, request_has_role, to_router,
}

-- A service user: the password given fits a configured one.
pub record ByService {T : Type 0} (config : Config) (v : Verifiers T) (r : HttpRequest)
    (c : RequestContext) : Type 0 where
  pub password : String
  pub given : r.basic_auth ≡ some ("service", password)
  pub accepted : any (λ pwd. v.compare_hash pwd password) config.service_passwords ≡ true
  pub marked : c.service_user ≡ true
  pub no_claims : c.id_claims ≡ none

-- An account: its token is verified, and one of its roles is one of the program's.
pub record ByToken {T : Type 0} (config : Config) (v : Verifiers T) (r : HttpRequest)
    (c : RequestContext) : Type 0 where
  pub token : T
  pub id_claims : IdTokenClaims
  pub no_basic : r.basic_auth ≡ none
  pub verified : v.verify (parse_token r.authorization) ≡ some token
  pub decoded : v.claims token ≡ some id_claims
  pub kept : c.id_claims ≡ some id_claims
  pub not_service : c.service_user ≡ false
  pub authorized : any (λ role. elem role id_claims.realm_roles) all_roles ≡ true

module _ {T : Type 0} (config : Config) (v : Verifiers T) where
  -- `json.Unmarshal` does not fill the private field `rolesMap`.
  abbrev pub LeavesMapEmpty : Type 0
  LeavesMapEmpty = (t : T) (c : IdTokenClaims) → v.claims t ≡ some c → c.roles_map ≡ none

  -- With both checks on, a request for a path that is neither open nor a gateway's reaches the
  -- router only from a service user with a configured password, or from an account with a verified
  -- token that holds one of the program's roles; the context then tells which.
  pub to_router-protected :
      (r : HttpRequest) (c : RequestContext)
      → LeavesMapEmpty
      → config.skip_auth ≡ false
      → config.skip_permissions ≡ false
      → is_open_path r.path ≡ false
      → is_event_path r.path ≡ false
      → to_router config v r ≡ next c
      → ByService config v r c ⊎ ByToken config v r c
  unfolding to_router authenticate minimal_permission request_has_role
  to_router-protected r c empty auth permissions closed api e = split r.basic_auth refl
    where
      split :
          (b : Option (String × String))
          → r.basic_auth ≡ b
          → ByService config v r c ⊎ ByToken config v r c
      split (some (username, password)) given = inl (record {
        password = password;
        given = ground (arith, ==_iff username "service");
        accepted = ground arith;
        marked = ground arith;
        no_claims = ground arith;
      })
      split none absent = elim (Option-cases (v.verify (parse_token r.authorization))) [
        | inl refused ↦ absurd (ground arith)
        | inr (token, verified) ↦ elim (Option-cases (v.claims token)) [
          | inl malformed ↦ absurd (ground arith)
          | inr (claims, decoded) ↦ inr (record {
            token = token;
            id_claims = claims;
            no_basic = absent;
            verified = verified;
            decoded = decoded;
            kept = ground arith;
            not_service = ground arith;
            authorized =
                ground (arith, has_any_role-any all_roles claims (empty token claims decoded));
          })
        ]
      ]

  -- A gateway's event, or a message of the protocol, reaches the router only with the name of a
  -- gateway and a password that fits the gateway's, where this check is not switched off.
  pub to_router-event :
      (r : HttpRequest) (c : RequestContext)
      → config.skip_events_auth ≡ false
      → is_open_path r.path ≡ false
      → is_event_path r.path ≡ true
      → to_router config v r ≡ next c
      → (name : String) × (password : String) × (hash : String) × (r.basic_auth
          ≡ some (name, password))
        × (v.gw_pwd name ≡ some hash)
        × (v.compare_hash hash password ≡ true)
  unfolding to_router authenticate
  to_router-event r c auth closed event e = split r.basic_auth refl
    where
      split :
          (b : Option (String × String))
          → r.basic_auth ≡ b
          → (name : String) × (password : String) × (hash : String) × (r.basic_auth
              ≡ some (name, password))
            × (v.gw_pwd name ≡ some hash)
            × (v.compare_hash hash password ≡ true)
      split none absent = absurd (ground arith)
      split (some (name, password)) given = elim (Option-cases (v.gw_pwd name)) [
        | inl unknown ↦ absurd (ground arith)
        | inr (hash, known) ↦ (name, password, hash, given, known, ground arith)
      ]
