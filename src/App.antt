-- ===== src/App.antt =====
-- api/app.go: the routes of the server and the way of a request through it. Matching a path with the
-- template of a route is the router's (gorilla/mux); decoding is that of encoding/json and strconv.
pub mod Paths
pub mod Matched
pub mod Reading
pub mod Rollback
pub mod Allowed
pub mod Permitted
pub mod Tests
use gxydb_api.Base.{
  ℕ, ◌==◌, string_eq, Bool, true, String, List, [], ◌∷◌, ◌⊎◌, inl, inr, Option, none, some,
}
use gxydb_api.Base.Int.{ℤ}
use gxydb_api.Base.Maps.{Map, get}
use gxydb_api.Errors.{Error, Outcome, ok, err, panic}
use gxydb_api.Models.{Gateway, Room, DynamicConfig}
use gxydb_api.Cache.{AppCache}
use gxydb_api.Cache.Gateways
use gxydb_api.Cache.Users.{Arc}
use gxydb_api.World.{Env, World, Flow, Action, pure}
use gxydb_api.Auth.{Config, HttpRequest, RequestContext, Verifiers, next, abort, to_router}
use gxydb_api.Session.Types.{V1User, Event, Codec}
use gxydb_api.Statistics.{ServiceMessage}
use gxydb_api.Listing
use gxydb_api.Listing.{Values, value_of, Atoi, Ordered}
use gxydb_api.Listing.Requests
use gxydb_api.Listing.Requests.{Matching}
use gxydb_api.V1
use gxydb_api.V1.{Answer, aborted, answered, recovered}
use gxydb_api.V1.Rooms.{V1RoomInfo}
use gxydb_api.V1.Reads
use gxydb_api.V1.Changes
use gxydb_api.V2
use gxydb_api.Admin
use gxydb_api.Admin.{Reply, ConfigData}
use gxydb_api.Admin.Reads as AdminReads
use gxydb_api.Admin.Rooms.{RoomData}
use gxydb_api.Admin.RoomHandlers

-- The handlers that routes lead to.
pub data Endpoint : Type 0 where
  list_groups create_group list_rooms get_room update_room list_users get_user : Endpoint
  update_session list_composites get_composite update_composite : Endpoint
  handle_event handle_protocol handle_service_protocol : Endpoint
  v2_config v2_statistics : Endpoint
  admin_gateways admin_handle_info admin_rooms admin_create_room admin_get_room : Endpoint
  admin_update_room admin_delete_room admin_delete_statistics : Endpoint
  admin_configs admin_create_config admin_get_config admin_update_config : Endpoint
  admin_set_config admin_delete_config : Endpoint
  health_check metrics : Endpoint

pub record Route : Type 0 where
  pub method : Option String
  pub template : String
  pub endpoint : Endpoint

abbrev route : String → String → Endpoint → Route
route method template endpoint = record {
  method = some method;
  template = template;
  endpoint = endpoint;
}

-- Whether a route takes a method: one without `Methods` takes all.
abbrev pub takes : Route → String → Bool
takes q method = elim q.method [ none ↦ true | some m ↦ m == method ]

-- `initRoutes`, in its order.
abbrev pub routes : List Route
routes =
    route "GET" "/groups" list_groups
    ∷ route "PUT" "/group/{id}" create_group
    ∷ route "GET" "/rooms" list_rooms
    ∷ route "GET" "/room/{id}" get_room
    ∷ route "PUT" "/rooms/{id}" update_room
    ∷ route "GET" "/users" list_users
    ∷ route "GET" "/users/{id}" get_user
    ∷ route "PUT" "/users/{id}" update_session
    ∷ route "GET" "/qids" list_composites
    ∷ route "GET" "/qids/{id}" get_composite
    ∷ route "GET" "/program/{id}" get_composite
    ∷ route "PUT" "/qids/{id}" update_composite
    ∷ route "POST" "/event" handle_event
    ∷ route "POST" "/protocol" handle_protocol
    ∷ route "POST" "/protocol/service" handle_service_protocol
    ∷ route "GET" "/v2/config" v2_config
    ∷ route "GET" "/v2/rooms_statistics" v2_statistics
    ∷ route "GET" "/admin/gateways" admin_gateways
    ∷ route "GET" "/admin/gateways/{gateway_id}/sessions/{session_id}/handles/{handle_id}/info"
        admin_handle_info
    ∷ route "GET" "/admin/rooms" admin_rooms
    ∷ route "POST" "/admin/rooms" admin_create_room
    ∷ route "GET" "/admin/rooms/{id}" admin_get_room
    ∷ route "PUT" "/admin/rooms/{id}" admin_update_room
    ∷ route "DELETE" "/admin/rooms/{id}" admin_delete_room
    ∷ route "DELETE" "/admin/rooms_statistics" admin_delete_statistics
    ∷ route "GET" "/admin/dynamic_config" admin_configs
    ∷ route "POST" "/admin/dynamic_config" admin_create_config
    ∷ route "GET" "/admin/dynamic_config/{id}" admin_get_config
    ∷ route "PUT" "/admin/dynamic_config/{id}" admin_update_config
    ∷ route "POST" "/admin/dynamic_config/{key}" admin_set_config
    ∷ route "DELETE" "/admin/dynamic_config/{id}" admin_delete_config
    ∷ route "GET" "/health_check" health_check
    ∷ record { method = none; template = "/metrics"; endpoint = metrics }
    ∷ []

-- What net/http gives of a request.
pub record Request : Type 0 where
  pub http : HttpRequest
  pub method : String
  pub values : Values
  pub body : String

-- The decoding of the body for each kind of handler, or the status of the failure.
pub record Decoders : Type 0 where
  pub group : String → ℕ ⊎ V1RoomInfo
  pub extra : String → ℕ ⊎ Option String
  pub user : String → ℕ ⊎ Option V1User
  pub items : String → ℕ ⊎ List (Option V1RoomInfo)
  pub event : String → Option Event
  pub payload : String → Option String
  pub service_message : String → String ⊎ ServiceMessage
  pub room : String → ℕ ⊎ RoomData
  pub config : String → ℕ ⊎ ConfigData

-- Numbers in paths and lists: an id, the number of a group printed again, and an id of a gateway.
pub record Numbers : Type 0 where
  pub atoi : Atoi
  pub parse_uint : Atoi
  pub id : String → Option ℤ
  pub group : String → Option String
  pub unsigned : String → Option ℕ

-- What a server is made of. `find_route` is the router's, and gives the status of a request that no
-- route fits. The tests and the query for the uid of a room are those of the admin API.
pub record Server (Token C : Type 0) : Type 0 where
  pub arc : Arc C
  pub env : Env
  pub codec : Codec
  pub config : Config
  pub verifiers : Verifiers Token
  pub find_route : List Route → String → String → ℕ ⊎ Route × Map String String
  pub decode : Decoders
  pub numbers : Numbers
  pub read_extra : String → String
  pub ice_servers : Map String (List String)
  pub ordered_gateways : Ordered Gateway
  pub ordered_rooms : Ordered Room
  pub ordered_configs : Ordered DynamicConfig
  pub matching : Matching
  pub bad_new_uid : String → Bool
  pub bad_uid : String → Bool
  pub next_uid : List Room → String
  pub api_for : Gateway → Error ⊎ Unit {0}
  pub handle_info : Gateway → ℕ → ℕ → Error ⊎ String
  pub timed_out : Bool

abbrev pub var : String → Map String String → String
var key vars = elim (get key vars) [ none ↦ "" | some text ↦ text ]

-- Whether a request succeeded, without the body of the answer.
abbrev pub status_only : {S A : Type 0} → Flow S (Answer A) → Flow S (Answer (Unit {0}))
status_only m w =
    let (r, v) = m w in
    elim r [
      | ok (aborted code) ↦ (ok (aborted code), v)
      | ok (answered _) ↦ (ok (answered tt), v)
      | err e ↦ (err e, v)
      | panic p ↦ (panic p, v)
    ]

abbrev pub reply_only : {S : Type 0} → Flow S Reply → Flow S (Answer (Unit {0}))
reply_only m w =
    let (r, v) = m w in
    elim r [
      | ok (Reply.aborted code) ↦ (ok (aborted code), v)
      | ok _ ↦ (ok (answered tt), v)
      | err e ↦ (err e, v)
      | panic p ↦ (panic p, v)
    ]

abbrev pub list_only : {S A : Type 0} → Flow S (Listing.Listed A) → Flow S (Answer (Unit {0}))
list_only m w =
    let (r, v) = m w in
    elim r [
      | ok (Listing.aborted code) ↦ (ok (aborted code), v)
      | ok (Listing.listed _ _) ↦ (ok (answered tt), v)
      | err e ↦ (err e, v)
      | panic p ↦ (panic p, v)
    ]

module _ {Token C : Type 0} (s : Server Token C) where
  -- The handler of a route, with the variables of the path.
  unfoldable pub handle :
      Endpoint → Map String String → RequestContext → Request → Action C (Answer (Unit {0}))
  handle list_groups vars c r =
      status_only
        (Reads.v1_list_groups s.env s.read_extra (value_of "with_num_users" r.values == "true"))
  handle create_group vars c r =
      Changes.v1_create_group s.config s.verifiers s.env c ((s.numbers).group (var "id" vars))
        ((s.decode).group r.body)
  handle list_rooms vars c r = status_only (Reads.v1_list_rooms s.env s.read_extra)
  handle get_room vars c r = status_only (Reads.v1_get_room s.env s.read_extra (var "id" vars))
  handle update_room vars c r =
      Changes.v1_update_room s.config s.verifiers s.env c (var "id" vars) ((s.decode).extra r.body)
  handle list_users vars c r = status_only (Reads.v1_list_users s.env s.read_extra)
  handle get_user vars c r = status_only (Reads.v1_get_user s.env s.read_extra (var "id" vars))
  handle update_session vars c r =
      status_only
        (V1.v1_update_session s.arc s.env s.codec (var "id" vars) ((s.decode).user r.body))
  handle list_composites vars c r = status_only (Reads.v1_list_composites s.env s.read_extra)
  handle get_composite vars c r =
      status_only (Reads.v1_get_composite s.env s.read_extra (var "id" vars))
  handle update_composite vars c r =
      Changes.v1_update_composite s.config s.verifiers s.env c (var "id" vars)
        ((s.decode).items r.body)
  handle handle_event vars c r = V1.v1_handle_event s.arc s.env s.codec ((s.decode).event r.body)
  handle handle_protocol vars c r =
      V1.v1_handle_protocol s.arc s.env s.codec ((s.decode).payload r.body)
  handle handle_service_protocol vars c r =
      V1.v1_handle_service_protocol s.env (s.decode).service_message ((s.decode).payload r.body)
  handle v2_config vars c r =
      status_only (λ w. (ok (answered (V2.v2_get_config s.ice_servers w.cache)), w))
  handle v2_statistics vars c r = status_only (V2.v2_get_rooms_statistics s.env)
  handle admin_gateways vars c r = list_only (
      Requests.list_gateways s.config s.verifiers s.env (s.numbers).atoi s.ordered_gateways c
        r.values)
  handle admin_handle_info vars c r = status_only (
      AdminReads.admin_handle_info s.config s.verifiers s.env s.api_for s.handle_info c
        (var "gateway_id" vars) ((s.numbers).unsigned (var "session_id" vars))
        ((s.numbers).unsigned (var "handle_id" vars)))
  handle admin_rooms vars c r = list_only (
      Requests.list_rooms s.config s.verifiers s.env (s.numbers).atoi s.ordered_rooms s.matching
        (s.numbers).parse_uint c r.values)
  handle admin_create_room vars c r = status_only (
      RoomHandlers.admin_create_room s.config s.verifiers s.env s.bad_new_uid s.bad_uid s.next_uid c
        ((s.decode).room r.body))
  handle admin_get_room vars c r = status_only (
      RoomHandlers.admin_get_room s.config s.verifiers s.env s.bad_new_uid s.bad_uid s.next_uid c
        ((s.numbers).id (var "id" vars)))
  handle admin_update_room vars c r = status_only (
      RoomHandlers.admin_update_room s.config s.verifiers s.env s.bad_new_uid s.bad_uid s.next_uid c
        ((s.numbers).id (var "id" vars)) ((s.decode).room r.body))
  handle admin_delete_room vars c r =
      RoomHandlers.admin_delete_room s.config s.verifiers s.env s.bad_new_uid s.bad_uid s.next_uid c
        ((s.numbers).id (var "id" vars))
  handle admin_delete_statistics vars c r =
      RoomHandlers.admin_delete_statistics s.config s.verifiers s.env s.bad_new_uid s.bad_uid
        s.next_uid c
  handle admin_configs vars c r = list_only (
      Requests.list_configs s.config s.verifiers s.env (s.numbers).atoi s.ordered_configs c
        r.values)
  handle admin_create_config vars c r =
      reply_only (Admin.admin_create s.config s.verifiers s.env c ((s.decode).config r.body))
  handle admin_get_config vars c r =
      status_only
        (AdminReads.admin_get_config s.config s.verifiers s.env c ((s.numbers).id (var "id" vars)))
  handle admin_update_config vars c r = reply_only (
      Admin.admin_update s.config s.verifiers s.env c ((s.numbers).id (var "id" vars))
        ((s.decode).config r.body))
  handle admin_set_config vars c r =
      reply_only
        (Admin.admin_set s.config s.verifiers s.env c (var "key" vars) ((s.decode).config r.body))
  handle admin_delete_config vars c r =
      reply_only (Admin.admin_delete s.config s.verifiers s.env c ((s.numbers).id (var "id" vars)))
  handle health_check vars c r = V2.health_check s.env s.timed_out
  handle metrics vars c r = pure (answered tt)

  -- `gatewayPwd`: the password of a gateway of the cache.
  abbrev pub verifiers_in : AppCache C → Verifiers Token
  verifiers_in cache = record (s.verifiers) {
    gw_pwd = λ name. elim (Gateways.find_name name cache.gateways) [
      | none ↦ none
      | some g ↦ some g.events_password
    ];
  }

  -- The middlewares and the router, in the order in which `InitializeWithDeps` nests them.
  unfoldable pub dispatch : Request → Action C (Answer (Unit {0}))
  dispatch r w = elim (to_router s.config (verifiers_in w.cache) r.http) [
    | abort code ↦ (ok (aborted code), w)
    | next c ↦ elim (s.find_route routes r.method (r.http).path) [
      | inl code ↦ (ok (aborted code), w)
      | inr (found, vars) ↦ handle found.endpoint vars c r w
    ]
  ]

  unfoldable pub serve : Request → World C → Answer (Unit {0}) × World C
  serve r = recovered (dispatch r)
