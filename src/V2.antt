-- ===== src/V2.antt =====
-- api/api_v2.go: the configuration that clients read, the statistics of rooms and the check of
-- health; and from api/cache.go the reloading of all caches, from which the configuration is made.
-- `active_token` stands for `ActiveToken` of domain/gateways.go, which Tokens/Active models.
pub mod Offered
pub mod Reloaded
pub mod Tests
use gxydb_api.Base.{
  ℕ, ◌==◌, Bool, true, false, not, ◌&&◌, ◌||◌, String, List, [], ◌∷◌, ◌⊎◌, inl, inr, Option, none,
  some, nat_eq, string_eq, if◌then◌else◌, select, first?, map, take, sort_by, ltb,
}
use gxydb_api.Base.Maps.{Map, get, put}
use gxydb_api.Errors.{Error, with_stack, wrap, Outcome, ok, err, panic}
use gxydb_api.Models.{User, Gateway, Room, DynamicConfig, RoomStatistic, Db}
use gxydb_api.Cache.{AppCache, GatewayTokenCache}
use gxydb_api.Cache.Gateways
use gxydb_api.Cache.Rooms
use gxydb_api.Cache.Users
use gxydb_api.Cache.Users.{Arc}
use gxydb_api.Cache.DynamicConfigs
use gxydb_api.World.{Env, World, Action, pure, fail, ◌>>=◌, ◌>>◌, Try, query, wrapping}
use gxydb_api.Session.Table.{is_null}
use gxydb_api.Statistics.{or_stack}
use gxydb_api.V1.{Answer, aborted, answered}
use gxydb_api.V1.Rooms.{or_nil, ◌>>=ₒ◌}
use gxydb_api.V1.Reads.{rows_or_abort, reply_with, reading}

pub record V2Gateway : Type 0 where
  pub name : String
  pub url : String
  pub kind : String
  pub token : String

pub record V2Config : Type 0 where
  pub gateways : Map String (Map String V2Gateway)
  pub ice_servers : Map String (List String)
  pub dynamic_config : Map String String
  pub last_modified : ℕ

abbrev pub text_or_empty : Option String → String
text_or_empty none = ""
text_or_empty (some s) = s

abbrev pub is_offered : Gateway → Bool
is_offered g = not g.disabled && is_null g.removed_at

abbrev pub add_gateway :
    GatewayTokenCache
    → Gateway
    → Map String (Map String V2Gateway)
    → Map String (Map String V2Gateway)
add_gateway tokens g m =
    let entry : V2Gateway = record {
      name = g.name;
      url = g.url;
      kind = g.kind;
      token = text_or_empty (get g.id tokens.by_id);
    } in
    let of_kind : Map String V2Gateway = elim (get g.kind m) [ none ↦ [] | some gs ↦ gs ] in
    put g.kind (put g.name entry of_kind) m

unfoldable pub offered_gateways :
    GatewayTokenCache
    → List Gateway
    → Map String (Map String V2Gateway)
    → Map String (Map String V2Gateway)
offered_gateways tokens [] m = m
offered_gateways tokens (g ∷ gs) m =
    offered_gateways tokens gs (if is_offered g then add_gateway tokens g m else m)

unfoldable pub config_values : List DynamicConfig → Map String String → Map String String
config_values [] m = m
config_values (kv ∷ kvs) m = config_values kvs (put kv.key kv.value m)

-- `V2GetConfig`
unfoldable pub v2_get_config : {C : Type 0} → Map String (List String) → AppCache C → V2Config
v2_get_config ice_servers cache = record {
  gateways = offered_gateways cache.gateway_tokens (Gateways.all cache.gateways) [];
  ice_servers = ice_servers;
  dynamic_config = config_values (DynamicConfigs.all cache.dynamic_config) [];
  last_modified = cache.dynamic_config.last_modified;
}

abbrev add_statistics :
    List (RoomStatistic × Option Room) → Outcome (Map String ℕ) → Outcome (Map String ℕ)
add_statistics [] made = made
add_statistics ((s, room) ∷ rows) made =
    add_statistics rows (made >>=ₒ λ m. or_nil room >>=ₒ λ r. ok (put r.gateway_uid s.on_air m))

-- `GetAll` of domain/room_statistics.go, with the rooms that it loads.
abbrev all_statistics : Db → List (RoomStatistic × Option Room)
all_statistics db = map (λ s. (s, first? (λ r. r.id == s.room_id) db.rooms)) db.room_statistics

-- `GatewayTokenCache.Reload`: the map is made anew, and stays as far as it got where a token cannot
-- be read. The text that a failed `ActiveToken` returns is empty, and is stored as well.
unfoldable pub fill_tokens :
    (Gateway → Outcome String) → List Gateway → Map ℕ String → Outcome (Unit {0}) × Map ℕ String
fill_tokens active_token [] m = (ok tt, m)
fill_tokens active_token (g ∷ gs) m = elim (active_token g) [
  | ok token ↦ fill_tokens active_token gs (put g.id token m)
  | err e ↦ (err (wrap e "tm.ActiveToken"), put g.id "" m)
  | panic p ↦ (panic p, m)
]

abbrev newer_user : User → User → Bool
newer_user u v = ltb v.created_at u.created_at

abbrev live_user : User → Bool
live_user u = not u.disabled && is_null u.removed_at

module _ {C : Type 0} (env : Env) where
  -- `V2GetRoomsStatistics`
  unfoldable pub v2_get_rooms_statistics : Action C (Answer (Map String ℕ))
  v2_get_rooms_statistics =
      rows_or_abort (reading env all_statistics) λ rows. reply_with (add_statistics rows (ok []))

  -- `HealthCheck`, with whether the time of a second was over; the statuses are 424 and 503.
  unfoldable pub health_check : Bool → Action C (Answer (Unit {0}))
  health_check timed_out = query env (λ db. inr (tt, db)) >>= λ r. elim r [
    | inl e ↦ pure (aborted 424)
    | inr _ ↦ if timed_out then pure (aborted 503) else pure (answered tt)
  ]

  abbrev change_cache : (AppCache C → AppCache C) → Action C (Unit {0})
  change_cache f w = (ok tt, record w { cache = f w.cache })

  unfoldable pub reload_gateways : Action C (Unit {0})
  reload_gateways = or_stack (reading env (λ db. db.gateways)) >>= λ gateways.
      change_cache (λ c. record c { gateways = Gateways.reload gateways })

  unfoldable pub reload_tokens : (Gateway → Outcome String) → Action C (Unit {0})
  reload_tokens active_token = or_stack (reading env (λ db. db.gateways)) >>= λ gateways w.
      let (r, m) = fill_tokens active_token gateways [] in
      (r, record w { cache = record (w.cache) { gateway_tokens = record { by_id = m } } })

  unfoldable pub reload_rooms_cache : Action C (Unit {0})
  reload_rooms_cache = or_stack (reading env (λ db. db.rooms)) >>= λ rooms.
      change_cache (λ c. record c { rooms = Rooms.reload rooms })

  unfoldable pub reload_users : Arc C → Action C (Unit {0})
  reload_users arc =
      or_stack (reading env (λ db. take 500 (sort_by newer_user (select live_user db.users))))
      >>= λ users. change_cache (λ c. record c { users = Users.reload arc users })

  unfoldable pub reload_configs : Action C (Unit {0})
  reload_configs = or_stack (reading env (λ db. db.dynamic_configs)) >>= λ kvs.
      change_cache (λ c. record c { dynamic_config = DynamicConfigs.reload kvs c.dynamic_config })

  -- `AppCache.ReloadAll`
  unfoldable pub reload_all : Arc C → (Gateway → Outcome String) → Action C (Unit {0})
  reload_all arc active_token =
      wrapping "reload gateways" reload_gateways
      >> wrapping "reload gateway_tokens" (reload_tokens active_token)
      >> wrapping "reload rooms" reload_rooms_cache
      >> wrapping "reload users" (reload_users arc)
      >> wrapping "reload dynamicConfig" reload_configs
