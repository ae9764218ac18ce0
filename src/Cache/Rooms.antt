-- ===== src/Cache/Rooms.antt =====
-- `RoomCache` of api/cache.go: live rooms by their uid on the gateways.
use gxydb_api.Base.{
  Bool, true, false, not, ◌&&◌, String, List, [], ◌∷◌, Option, none, some, string_eq, select,
}
use gxydb_api.Base.Maps.{Map, get, put, values}
use gxydb_api.Models.{Room}

pub record RoomCache : Type 0 where
  pub m : Map String Room

unfoldable pub set : Room → RoomCache → RoomCache
set room c = record { m = put room.gateway_uid room c.m }

unfoldable pub fill : List Room → RoomCache → RoomCache
fill [] c = c
fill (room ∷ rooms) c = fill rooms (set room c)

abbrev pub is_live : Room → Bool
is_live room = not room.disabled && (elim room.removed_at [ none ↦ true | some _ ↦ false ])

-- `RoomCache.Reload`: the query keeps rooms that are neither disabled nor removed.
unfoldable pub reload : List Room → RoomCache
reload rooms = fill (select is_live rooms) (record { m = [] })

unfoldable pub find_uid : String → RoomCache → Option Room
find_uid uid c = get uid c.m

unfoldable pub all : RoomCache → List Room
all c = values c.m
