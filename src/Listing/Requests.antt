-- ===== src/Listing/Requests.antt =====
-- api/api_admin.go: the filters of a list of rooms, and the three handlers that list rows. The
-- operator `~*` of Postgres is a parameter.
use gxydb_api.Base.{
  ℕ, Bool, true, false, ◌&&◌, ◌||◌, String, List, [], ◌∷◌, inl, inr, Option, none, some, ◌==◌,
  nat_eq, string_eq, bool_eq, if◌then◌else◌, length, select, any, map,
}
use gxydb_api.Base.Int.{ℤ, pos, ltb_ℤ, int_eq}
use gxydb_api.Base.Maps.{get}
use gxydb_api.Errors.{foreign, wrap}
use gxydb_api.Models.{Gateway, Room, DynamicConfig}
use gxydb_api.World.{Env, Action, Try, pure, ◌>>=◌}
use gxydb_api.Auth.{Config, Verifiers, RequestContext, request_has_role}
use gxydb_api.Auth.Roles.{role_root}
use gxydb_api.Listing.{
  Values, value_of, Atoi, ListParams, parse_list_params, Ordered, Listed, aborted, listed,
  list_rows,
}

pub record RoomsRequest : Type 0 where
  pub gateways : List ℤ
  pub disabled : Option Bool
  pub removed : Option Bool
  pub term : String

abbrev gateway_ids : Atoi → List String → Try (List ℤ)
gateway_ids parse_int [] = inr []
gateway_ids parse_int (text ∷ texts) =
    let rest = gateway_ids parse_int texts in
    elim (parse_int text) [
      | inl e ↦ inl (wrap (foreign e) "gateway is not an integer")
      | inr n ↦
          if ltb_ℤ n (pos 1)
          then inl (foreign "gateway ID must be at least 1")
          else (elim rest [ inl e ↦ inl e | inr ns ↦ inr (n ∷ ns) ])
    ]

abbrev flag_of : String → Values → Try (Option Bool)
flag_of key values =
    let text = value_of key values in
    if text == ""
    then inr none
    else if text == "true"
    then inr (some true)
    else if text == "false"
    then inr (some false)
    else inl (foreign "must be either `true` or `false`")

abbrev texts_of : String → Values → List String
texts_of key values = elim (get key values) [ none ↦ [] | some texts ↦ texts ]

unfoldable pub parse_rooms_request : Atoi → Values → Try RoomsRequest
parse_rooms_request parse_int values = elim (gateway_ids parse_int (texts_of "gateway_id" values)) [
  | inl e ↦ inl e
  | inr gateways ↦ elim (flag_of "disabled" values) [
    | inl e ↦ inl e
    | inr disabled ↦ elim (flag_of "removed" values) [
      | inl e ↦ inl e
      | inr removed ↦ inr (record {
        gateways = gateways;
        disabled = disabled;
        removed = removed;
        term = value_of "term" values;
      })
    ]
  ]
]

-- `name ~* ?`, and `gateway_uid = ?` with a number.
pub record Matching : Type 0 where
  pub name_matches : String → String → Bool
  pub is_number : String → ℤ → Bool

abbrev is_some : {A : Type 0} → Option A → Bool
is_some none = false
is_some (some _) = true

-- The WHERE clause of a list of rooms: a filter that the request does not name lets all rooms pass.
unfoldable pub passes : Matching → Atoi → RoomsRequest → Room → Bool
passes matching parse_uint request room =
    (elim request.disabled [ none ↦ true | some b ↦ room.disabled == b ])
    && (elim request.removed [ none ↦ true | some b ↦ is_some room.removed_at == b ])
    && (length request.gateways == 0
        || any (λ id. pos room.default_gateway_id == id) request.gateways)
    && (request.term == ""
        || (elim (parse_uint request.term) [
          | inl _ ↦ false
          | inr n ↦ pos room.id == n || matching.is_number room.gateway_uid n
        ])
        || matching.name_matches room.name request.term)

-- `GatewayDTO`, without the address and the passwords of the admin API.
pub record GatewayDto : Type 0 where
  pub id : ℕ
  pub name : String
  pub description : Option String
  pub url : String
  pub disabled : Bool
  pub created_at : ℕ
  pub updated_at : Option ℕ
  pub removed_at : Option ℕ
  pub kind : String

abbrev pub new_gateway_dto : Gateway → GatewayDto
new_gateway_dto g = record {
  id = g.id;
  name = g.name;
  description = g.description;
  url = g.url;
  disabled = g.disabled;
  created_at = g.created_at;
  updated_at = g.updated_at;
  removed_at = g.removed_at;
  kind = g.kind;
}

module _ {Token C : Type 0} (config : Config) (v : Verifiers Token) (env : Env) (atoi : Atoi) where
  abbrev pub listing_as_root :
      {A : Type 0} → RequestContext → Action C (Listed A) → Action C (Listed A)
  listing_as_root c m =
      if config.skip_permissions || request_has_role config v (role_root ∷ []) c
      then m
      else pure (aborted 403)

  abbrev pub with_params :
      {A : Type 0} → Values → (ListParams → Action C (Listed A)) → Action C (Listed A)
  with_params values m = elim (parse_list_params atoi values) [
    | inl _ ↦ pure (aborted 400)
    | inr p ↦ m p
  ]

  -- `AdminListGateways`
  unfoldable pub list_gateways :
      Ordered Gateway → RequestContext → Values → Action C (Listed GatewayDto)
  list_gateways ordered c values = listing_as_root c (
      with_params values λ p. list_rows ordered env (λ db. db.gateways) p >>= λ answer.
      elim answer [
        | aborted status ↦ pure (aborted status)
        | listed total rows ↦ pure (listed total (map new_gateway_dto rows))
      ])

  -- `AdminListRooms`
  unfoldable pub list_rooms :
      Ordered Room → Matching → Atoi → RequestContext → Values → Action C (Listed Room)
  list_rooms ordered matching parse_uint c values = listing_as_root c (
      with_params values λ p. elim (parse_rooms_request atoi values) [
        | inl _ ↦ pure (aborted 400)
        | inr request ↦
            list_rows ordered env (λ db. select (passes matching parse_uint request) db.rooms) p
      ])

  -- `AdminListDynamicConfigs`, which sorts by the key if it is not told otherwise.
  unfoldable pub list_configs :
      Ordered DynamicConfig → RequestContext → Values → Action C (Listed DynamicConfig)
  list_configs ordered c values = listing_as_root c (
      with_params values λ p.
        list_rows ordered env (λ db. db.dynamic_configs)
          (if p.order_by == "" then (record p { order_by = "key asc" }) else p))
