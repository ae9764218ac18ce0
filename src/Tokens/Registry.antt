-- ===== src/Tokens/Registry.antt =====
-- `gatewayAdminAPIRegistry` of domain/gateways.go: the admin APIs of gateways, each made when it is
-- first asked for. Base64, the decryption and the making of an API are parameters.
use gxydb_api.Base.{
  ℕ, ◌≡◌, ap, ◌∙◌, String, List, [], ◌∷◌, inl, inr, Option, none, some, arith, ==_iff, nat_eq,
  Either-cases, Option-cases,
}
use gxydb_api.Base.Maps.{Map, get, put, get-put}
use gxydb_api.Errors.{wrap}
use gxydb_api.Models.{Gateway}
use gxydb_api.World.{Try}

-- What an API is made with: `base64.StdEncoding.DecodeString`, `crypt.Decrypt` with the program's
-- secret, and `janus_admin.NewAdminAPI` of a URL and a password.
pub record Maker (Api : Type 0) : Type 0 where
  pub decode : String → Try String
  pub decrypt : String → Try String
  pub new_api : String → String → Try Api

abbrev pub Registry : Type 0 → Type 0
Registry Api = Map ℕ Api

module _ {Api : Type 0} where
  -- `Get`
  unfoldable pub find_api : Gateway → Registry Api → Option Api
  find_api gateway registry = get gateway.id registry

  -- `Set`
  unfoldable pub set_api : Gateway → Api → Registry Api → Registry Api
  set_api gateway api registry = put gateway.id api registry

  -- The part of `For` that makes the API.
  abbrev pub make_api : Maker Api → Gateway → Try Api
  make_api maker gateway = elim (maker.decode gateway.admin_password) [
    | inl e ↦ inl (wrap e "base64 decode admin password")
    | inr encrypted ↦ elim (maker.decrypt encrypted) [
      | inl e ↦ inl (wrap e "decrypt admin password")
      | inr password ↦ elim (maker.new_api gateway.admin_url password) [
        | inl e ↦ inl (wrap e "janus.NewAdminAPI")
        | inr api ↦ inr api
      ]
    ]
  ]

  -- `For`
  unfoldable pub api_for : Maker Api → Gateway → Registry Api → Try Api × Registry Api
  api_for maker gateway registry = elim (find_api gateway registry) [
    | some api ↦ (inr api, registry)
    | none ↦ elim (make_api maker gateway) [
      | inl e ↦ (inl e, registry)
      | inr api ↦ (inr api, set_api gateway api registry)
    ]
  ]

  -- The registry after some gateways were asked for.
  abbrev pub after_all : Maker Api → List Gateway → Registry Api → Registry Api
  after_all maker [] registry = registry
  after_all maker (g ∷ gs) registry = after_all maker gs (api_for maker g registry).1

  module _ (maker : Maker Api) where
    api_for-found :
        (g : Gateway) (registry : Registry Api) (api : Api)
        → (api_for maker g registry).0 ≡ inr api
        → get g.id (api_for maker g registry).1 ≡ some api
    unfolding api_for find_api set_api
    api_for-found g registry api e = elim (Option-cases (get g.id registry)) [
      | inl absent ↦ elim (Either-cases (make_api maker g)) [
        | inl (x, failed) ↦ absurd (ground (arith, absent, failed))
        | inr (a, made) ↦
            ground (arith, absent, made, get-put g.id g.id a registry, ==_iff g.id g.id)
      ]
      | inr (a, there) ↦ ground (arith, there)
    ]

    api_for-keeps :
        (id : ℕ) (g : Gateway) (registry : Registry Api) (api : Api)
        → get id registry ≡ some api
        → get id (api_for maker g registry).1 ≡ some api
    unfolding api_for find_api set_api
    api_for-keeps id g registry api e = elim (Option-cases (get g.id registry)) [
      | inl absent ↦ elim (Either-cases (make_api maker g)) [
        | inl (x, failed) ↦ ground (arith, absent, failed)
        | inr (a, made) ↦ ground (arith, absent, made, get-put g.id id a registry, ==_iff g.id id)
      ]
      | inr (a, there) ↦ ground (arith, there)
    ]

    after_all-keeps :
        (id : ℕ) (gs : List Gateway) (registry : Registry Api) (api : Api)
        → get id registry ≡ some api
        → get id (after_all maker gs registry) ≡ some api
    after_all-keeps id [] registry api e = e
    after_all-keeps id (g ∷ gs) registry api e =
        after_all-keeps id gs (api_for maker g registry).1 api (api_for-keeps id g registry api e)

    api_for-cached :
        (g : Gateway) (registry : Registry Api) (api : Api)
        → get g.id registry ≡ some api
        → api_for maker g registry ≡ (inr api, registry)
    unfolding api_for find_api
    api_for-cached g registry api there = ground (arith, there)

    -- Once an API was made for a gateway, whatever gateways are asked for in between, every later
    -- request for a row of the same id has this API, and changes nothing, also if the row has
    -- another URL or password by then, or one that cannot be decrypted.
    pub api_for-lasting :
        (g h : Gateway) (gs : List Gateway) (registry : Registry Api) (api : Api)
        → (api_for maker g registry).0 ≡ inr api
        → h.id ≡ g.id
        → let later = after_all maker gs (api_for maker g registry).1 in
          api_for maker h later ≡ (inr api, later)
    api_for-lasting g h gs registry api e same =
        let found =
          after_all-keeps g.id gs (api_for maker g registry).1 api
            (api_for-found g registry api e) in
        api_for-cached h (after_all maker gs (api_for maker g registry).1) api
          (ap (λ id. get id (after_all maker gs (api_for maker g registry).1)) same ∙ found)
