-- ===== src/Admin/Reads.antt =====
-- api/api_admin.go: the handlers that read a value of the configuration, and the state of a handle on
-- a gateway; and the decoding of a body, pkg/httputil/json.go. `strconv.ParseUint`, the admin API and
-- the classes of errors of encoding/json are parameters.
use gxydb_api.Base.{
  ℕ, Bool, false, ◌||◌, String, [], ◌∷◌, ◌⊎◌, inl, inr, Option, none, some, ◌==◌, nat_eq,
  if◌then◌else◌,
}
use gxydb_api.Base.Int.{ℤ}
use gxydb_api.Errors.{Error, admin_response, wrap, with_stack, ok}
use gxydb_api.Models.{Gateway, DynamicConfig}
use gxydb_api.Cache.Gateways
use gxydb_api.World.{Env, Action, pure, query}
use gxydb_api.Auth.{Config, Verifiers, RequestContext}
use gxydb_api.Auth.Roles.{role_admin, role_root}
use gxydb_api.Admin.{select_config}
use gxydb_api.V1.{Answer, aborted, answered, as_role}
use gxydb_api.V1.Reads.{found_or_abort}

-- How the decoding of a body ends, in the classes that `DecodeJSONBody` tells apart.
pub data Decoded (A : Type 0) : Type 0 where
  syntax_error unexpected_eof type_error unknown_field empty_body too_large other_error : Decoded A
  value : A → Bool → Decoded A

-- `DecodeJSONBody`: the status of the failure, or the value; the flag tells that there is more.
unfoldable pub decode_json_body : {A : Type 0} → Decoded A → ℕ ⊎ A
decode_json_body syntax_error = inl 400
decode_json_body unexpected_eof = inl 400
decode_json_body type_error = inl 400
decode_json_body unknown_field = inl 400
decode_json_body empty_body = inl 400
decode_json_body too_large = inl 413
decode_json_body other_error = inl 500
decode_json_body (value a more) = if more then inl 400 else inr a

-- `errors.As(err, &tErr)` for an answer of the admin API, and the codes 458 and 459: no such session
-- or handle.
unfoldable pub is_missing : Error → Bool
is_missing (admin_response code) = code == 458 || code == 459
is_missing (wrap e _) = is_missing e
is_missing (with_stack e) = is_missing e
is_missing _ = false

module _ {Token C : Type 0} (config : Config) (v : Verifiers Token) (env : Env) where
  -- `AdminGetDynamicConfig`
  unfoldable pub admin_get_config : RequestContext → Option ℤ → Action C (Answer DynamicConfig)
  admin_get_config c none = as_role config v (role_root ∷ []) c (pure (aborted 404))
  admin_get_config c (some id) =
      as_role config v (role_root ∷ []) c
        (found_or_abort (query env (select_config id)) λ kv. pure (answered kv))

  -- `AdminGatewaysHandleInfo`; the ids of the path are none if they are no numbers, and the two calls
  -- of the admin API are given by their results.
  unfoldable pub admin_handle_info :
      {A : Type 0}
      → (Gateway → Error ⊎ Unit {0})
      → (Gateway → ℕ → ℕ → Error ⊎ A)
      → RequestContext
      → String
      → Option ℕ
      → Option ℕ
      → Action C (Answer A)
  admin_handle_info api_for handle_info c name session handle =
      as_role config v (role_admin ∷ role_root ∷ []) c λ w.
        elim (Gateways.find_name name w.cache.gateways) [
          | none ↦ (ok (aborted 404), w)
          | some gateway ↦ elim session [
            | none ↦ (ok (aborted 404), w)
            | some session_id ↦ elim handle [
              | none ↦ (ok (aborted 404), w)
              | some handle_id ↦ elim (api_for gateway) [
                | inl e ↦ (ok (aborted 500), w)
                | inr _ ↦ elim (handle_info gateway session_id handle_id) [
                  | inl e ↦ (ok (if is_missing e then aborted 404 else aborted 500), w)
                  | inr info ↦ (ok (answered info), w)
                ]
              ]
            ]
          ]
        ]
