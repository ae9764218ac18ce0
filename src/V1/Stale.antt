-- ===== src/V1/Stale.antt =====
-- `V1CreateGroup` puts the room into the cache before its transaction commits.
use gxydb_api.Base.{◌+◌, ◌≡◌, true, String, [], ◌∷◌, inr, none, some, arith, ==_iff, string_eq}
use gxydb_api.Base.Maps.{get-put}
use gxydb_api.Errors.{Error, ok}
use gxydb_api.Models.{Gateway, Room, Db}
use gxydb_api.Cache.Gateways
use gxydb_api.Cache.Rooms
use gxydb_api.World.{Env, World, refused, query}
use gxydb_api.Tx.{in_tx}
use gxydb_api.Auth.{Config, Verifiers, RequestContext, request_has_role}
use gxydb_api.Auth.Roles.{role_root}
use gxydb_api.V1.{aborted}
use gxydb_api.V1.Rooms.{V1RoomInfo}
use gxydb_api.V1.Changes.{upsert_room, group_row, store_group, v1_create_group}

upsert_room-uid :
    (r stored : Room) (db db' : Db)
    → upsert_room r db ≡ inr (stored, db')
    → stored.gateway_uid ≡ r.gateway_uid
unfolding upsert_room
upsert_room-uid r stored db db' e = ground arith

module _ {Token C : Type 0} (config : Config) (v : Verifiers Token) (env : Env) where
  -- When a root user creates a group on a gateway that the cache knows, the row can be stored, and
  -- the COMMIT is refused, the answer is an internal error and the tables are as before; but the
  -- cache of rooms has the room of the group.
  pub v1_create_group-stale :
      (c : RequestContext) (uid : String) (info : V1RoomInfo) (gateway : Gateway) (stored : Room)
      (db' : Db) (x : Error) (w : World C)
      → request_has_role config v (role_root ∷ []) c ≡ true
      → Gateways.find_name info.janus w.cache.gateways ≡ some gateway
      → env.fault w.calls ≡ none
      → env.fault (w.calls + 1) ≡ none
      → upsert_room
          (group_row info gateway uid (env.fresh (w.calls + 1)) (env.now (w.calls + 1)))
          w.db
        ≡ inr (stored, db')
      → env.commit (w.calls + 1 + 1) ≡ refused x
      → let (answer, u) = v1_create_group config v env c (some uid) (inr info) w in
        (answer ≡ ok (aborted 500))
        × (u.db ≡ w.db)
        × (Rooms.find_uid uid u.cache.rooms ≡ some stored)
  unfolding v1_create_group store_group in_tx query Rooms.find_uid Rooms.set
  v1_create_group-stale c uid info gateway stored db' x w root known begins runs stores fails =
      let same = upsert_room-uid _ stored w.db db' stores in
      (
        ground (arith, root, known, begins, runs, stores, fails),
        ground (arith, root, known, begins, runs, stores, fails),
        ground (
          arith,
          root,
          known,
          begins,
          runs,
          stores,
          fails,
          same,
          get-put stored.gateway_uid uid stored w.cache.rooms.m,
          ==_iff stored.gateway_uid uid,
        ),
      )
