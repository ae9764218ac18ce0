-- ===== src/App/Reading.antt =====
-- The handlers of GET leave the tables alone.
use gxydb_api.Base.{
  nat_eq, Bool-cases, ◌||◌, select, if◌then◌else◌, Either-cases, [], ◌∷◌, ◌≡◌, refl, Bool, true,
  false, String, List, Option, none, some, inl, inr, arith, ◌==◌, string_eq,
}
use gxydb_api.Base.Maps.{Map}
use gxydb_api.World.{Env, World, Action, query, Try, pure}
use gxydb_api.Auth.Roles.{role_root}
use gxydb_api.Base.Int.{ℤ}
use gxydb_api.Listing.{
  value_of, Values, Atoi, ListParams, list_rows, Ordered, parse_list_params, Listed, aborted,
}
use gxydb_api.Models.{Db, Gateway, Room, DynamicConfig}
use gxydb_api.Listing.Requests.{
  list_gateways, list_rooms, list_configs, parse_rooms_request, passes, Matching, RoomsRequest,
}
use gxydb_api.Auth.{Config, Verifiers, RequestContext, request_has_role}
use gxydb_api.V2.{v2_get_rooms_statistics, health_check}
use gxydb_api.Admin.Reads.{admin_get_config, admin_handle_info}
use gxydb_api.Admin.RoomHandlers.{admin_get_room, with_room}
use gxydb_api.App
use gxydb_api.App.{Endpoint, Route, Request, Server, handle}
use gxydb_api.V1.Reads.{
  v1_list_groups, v1_list_rooms, v1_get_room, v1_list_users, v1_get_user, v1_list_composites,
  v1_get_composite,
}

-- The tables are the same after the action, however it ended.
abbrev pub Leaves : {C A : Type 0} → Action C A → Type 0
Leaves {C} m = (w : World C) → (m w).1.db ≡ w.db

module _ {C : Type 0} (env : Env) (read_extra : String → String) where
  v1_list_groups-Leaves : (b : Bool) → Leaves {C = C} (v1_list_groups env read_extra b)
  unfolding v1_list_groups query
  v1_list_groups-Leaves true w = ground arith
  v1_list_groups-Leaves false w = ground arith

  v1_list_rooms-Leaves : Leaves {C = C} (v1_list_rooms env read_extra)
  unfolding v1_list_rooms query
  v1_list_rooms-Leaves w = ground arith

  v1_list_users-Leaves : Leaves {C = C} (v1_list_users env read_extra)
  unfolding v1_list_users query
  v1_list_users-Leaves w = ground arith

  v1_list_composites-Leaves : Leaves {C = C} (v1_list_composites env read_extra)
  unfolding v1_list_composites query
  v1_list_composites-Leaves w = ground arith

  v1_get_room-Leaves : (uid : String) → Leaves {C = C} (v1_get_room env read_extra uid)
  unfolding v1_get_room query
  v1_get_room-Leaves uid w = ground arith

  v1_get_user-Leaves : (id : String) → Leaves {C = C} (v1_get_user env read_extra id)
  unfolding v1_get_user query
  v1_get_user-Leaves id w = ground arith

  v1_get_composite-Leaves : (id : String) → Leaves {C = C} (v1_get_composite env read_extra id)
  unfolding v1_get_composite query
  v1_get_composite-Leaves id w = ground arith

list_rows-Leaves :
    {C A : Type 0} (env : Env) (ordered : Ordered A) (found : Db → List A) (p : ListParams)
    → Leaves {C = C} (list_rows ordered env found p)
unfolding list_rows query
list_rows-Leaves env ordered found p w = ground arith

module _ {Token C : Type 0} (config : Config) (v : Verifiers Token) (env : Env) (atoi : Atoi)
    (c : RequestContext) (values : Values) where
  list_gateways-Leaves :
      (ordered : Ordered Gateway)
      → Leaves {C = C} (list_gateways config v env atoi ordered c values)
  unfolding list_gateways
  list_gateways-Leaves ordered w = elim (Either-cases (parse_list_params atoi values)) [
    | inl (e, bad) ↦ ground (arith, bad)
    | inr (p, good) ↦ ground (arith, good, list_rows-Leaves env ordered (λ db. db.gateways) p w)
  ]

  list_rooms-Leaves :
      (ordered : Ordered Room) (matching : Matching) (parse_uint : Atoi)
      → Leaves {C = C} (list_rooms config v env atoi ordered matching parse_uint c values)
  unfolding list_rooms
  list_rooms-Leaves ordered matching parse_uint w =
      elim (Bool-cases (config.skip_permissions || request_has_role config v (role_root ∷ []) c)) [
        | inr refused ↦ rw refused refl
        | inl allowed ↦
            rw allowed (asked (parse_list_params atoi values) (parse_rooms_request atoi values) w)
      ]
    where
      asked :
          (params : Try ListParams) (request : Try RoomsRequest)
          → Leaves {C = C} {A = Listed Room} (elim params [
            | inl _ ↦ pure (aborted 400)
            | inr p ↦ elim request [
              | inl _ ↦ pure (aborted 400)
              | inr q ↦
                  list_rows ordered env (λ db. select (passes matching parse_uint q) db.rooms) p
            ]
          ])
      asked (inl e) request w = refl
      asked (inr p) (inl e) w = refl
      asked (inr p) (inr q) w =
          list_rows-Leaves env ordered (λ db. select (passes matching parse_uint q) db.rooms) p w

  list_configs-Leaves :
      (ordered : Ordered DynamicConfig)
      → Leaves {C = C} (list_configs config v env atoi ordered c values)
  unfolding list_configs
  list_configs-Leaves ordered w = elim (Either-cases (parse_list_params atoi values)) [
    | inl (e, bad) ↦ ground (arith, bad)
    | inr (p, good) ↦ ground (
      arith,
      good,
      list_rows-Leaves env ordered (λ db. db.dynamic_configs)
          (if p.order_by == "" then (record p { order_by = "key asc" }) else p) w,
    )
  ]

module _ {Token C : Type 0} (config : Config) (v : Verifiers Token) (env : Env)
    (c : RequestContext) where
  admin_get_config-Leaves : (id : Option ℤ) → Leaves {C = C} (admin_get_config config v env c id)
  unfolding admin_get_config query
  admin_get_config-Leaves none w = ground arith
  admin_get_config-Leaves (some id) w = ground arith

  admin_get_room-Leaves :
      (bad_new_uid bad_uid : String → Bool) (next_uid : List Room → String) (id : Option ℤ)
      → Leaves {C = C} (admin_get_room config v env bad_new_uid bad_uid next_uid c id)
  unfolding admin_get_room with_room query
  admin_get_room-Leaves bad_new_uid bad_uid next_uid none w = ground arith
  admin_get_room-Leaves bad_new_uid bad_uid next_uid (some id) w = ground arith

abbrev pub is_get : Endpoint → Bool
is_get App.create_group = false
is_get App.update_room = false
is_get App.update_session = false
is_get App.update_composite = false
is_get App.handle_event = false
is_get App.handle_protocol = false
is_get App.handle_service_protocol = false
is_get App.admin_create_room = false
is_get App.admin_update_room = false
is_get App.admin_delete_room = false
is_get App.admin_delete_statistics = false
is_get App.admin_create_config = false
is_get App.admin_update_config = false
is_get App.admin_set_config = false
is_get App.admin_delete_config = false
is_get _ = true

module _ {Token C : Type 0} (s : Server Token C) (vars : Map String String) (c : RequestContext)
    (r : Request) where
  pub handle-Leaves : (e : Endpoint) → is_get e ≡ true → Leaves (handle s e vars c r)
  unfolding handle v2_get_rooms_statistics health_check admin_handle_info query
  handle-Leaves App.list_groups h w = ground (
    arith,
    v1_list_groups-Leaves s.env s.read_extra (value_of "with_num_users" r.values == "true") w,
  )
  handle-Leaves App.list_rooms h w = ground (arith, v1_list_rooms-Leaves s.env s.read_extra w)
  handle-Leaves App.get_room h w =
      ground (arith, v1_get_room-Leaves s.env s.read_extra (App.var "id" vars) w)
  handle-Leaves App.list_users h w = ground (arith, v1_list_users-Leaves s.env s.read_extra w)
  handle-Leaves App.get_user h w =
      ground (arith, v1_get_user-Leaves s.env s.read_extra (App.var "id" vars) w)
  handle-Leaves App.list_composites h w =
      ground (arith, v1_list_composites-Leaves s.env s.read_extra w)
  handle-Leaves App.get_composite h w =
      ground (arith, v1_get_composite-Leaves s.env s.read_extra (App.var "id" vars) w)
  handle-Leaves App.v2_config h w = refl
  handle-Leaves App.v2_statistics h w = ground arith
  handle-Leaves App.health_check h w = ground arith
  handle-Leaves App.metrics h w = refl
  handle-Leaves App.admin_handle_info h w = ground arith
  handle-Leaves App.admin_get_config h w = ground (
    arith,
    admin_get_config-Leaves s.config s.verifiers s.env c ((s.numbers).id (App.var "id" vars)) w,
  )
  handle-Leaves App.admin_get_room h w = ground (
    arith,
    admin_get_room-Leaves s.config s.verifiers s.env c s.bad_new_uid s.bad_uid s.next_uid
        ((s.numbers).id (App.var "id" vars)) w,
  )
  handle-Leaves App.admin_gateways h w = ground (
    arith,
    list_gateways-Leaves s.config s.verifiers s.env (s.numbers).atoi c r.values s.ordered_gateways
        w,
  )
  handle-Leaves App.admin_rooms h w = ground (
    arith,
    list_rooms-Leaves s.config s.verifiers s.env (s.numbers).atoi c r.values s.ordered_rooms
        s.matching (s.numbers).parse_uint w,
  )
  handle-Leaves App.admin_configs h w = ground (
    arith,
    list_configs-Leaves s.config s.verifiers s.env (s.numbers).atoi c r.values s.ordered_configs w,
  )
  handle-Leaves e h w = absurd (ground arith)
