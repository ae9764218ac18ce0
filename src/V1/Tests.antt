-- ===== src/V1/Tests.antt =====
-- The handlers of the first version of the API on concrete data.
use gxydb_api.Base.{
  ℕ, ◌≡◌, refl, true, String, List, [], ◌∷◌, inr, none, some, ◌==◌, string_eq, nat_eq, select, All,
}
use gxydb_api.Base.Maps.{Map, IsMap}
use gxydb_api.Errors.{foreign}
use gxydb_api.Models.{User, Room, Composite, CompositesRoom, Db}
use gxydb_api.Cache.Gateways
use gxydb_api.Cache.Rooms
use gxydb_api.World.{World, Env, refused, query}
use gxydb_api.Tx.{in_tx}
use gxydb_api.Auth.{request_has_role}
use gxydb_api.Auth.Roles.{role_root}
use gxydb_api.V1.{recovered}
use gxydb_api.V1.Rooms.{V1RoomInfo, Loaded, latest_by_user}
use gxydb_api.V1.Changes.{
  insert_place, places_from, add_places, store_places, v1_update_composite, group_row, upsert_room,
}
use gxydb_api.V1.Active.{Some, Covers, Entries, latest_by_user-Latest}
use gxydb_api.V1.Answers.{outcome_of}
use gxydb_api.V1.Composites.{PlacesFor, replaced_places, v1_update_composite-PlacesFor}
use gxydb_api.Examples.{
  quiet, world1, room1, gateway1, alice, session_by, open_config, no_tokens, anonymous, by_service,
}

abbrev loaded : ℕ → ℕ → Loaded
loaded id at = record {
  session = record (session_by id 7) { updated_at = some at };
  user = some alice;
}

abbrev two_sessions : List Loaded
two_sessions = loaded 1 20 ∷ loaded 2 10 ∷ []

latest_by_user-Latest_example :
    IsMap (latest_by_user two_sessions)
    × Entries
        (λ user_id l. (l.session.user_id ≡ user_id) × Some (λ x. x ≡ l) two_sessions)
        (latest_by_user two_sessions)
    × All (Covers (latest_by_user two_sessions)) two_sessions
latest_by_user-Latest_example = latest_by_user-Latest two_sessions

abbrev quad : Composite
quad = record { id = 4; name = "group1"; description = none }

abbrev place : CompositesRoom
place = record { composite_id = 4; room_id = 3; gateway_id = 1; position = 1 }

abbrev world2 : World (Map String User)
world2 = record world1 {
  db = record (world1.db) {
    composites = quad ∷ [];
    composites_rooms = record place { position = 2 } ∷ [];
  };
}

abbrev item : V1RoomInfo
item = record { room = "1051"; janus = "gxy1"; description = "" }

abbrev after_update : World (Map String User)
after_update =
    (outcome_of
      (v1_update_composite open_config no_tokens quiet anonymous "group1" (inr (some item ∷ [])))
      world2).1

composite-updated :
    (outcome_of
      (v1_update_composite open_config no_tokens quiet anonymous "group1" (inr (some item ∷ [])))
      world2).0
    ≡ true
unfolding recovered v1_update_composite store_places places_from add_places insert_place in_tx query
    Rooms.find_uid Gateways.find_name
composite-updated = refl

v1_update_composite-PlacesFor_example :
    (composite : Composite) × (others : List Composite) × (places : List CompositesRoom) × (select
        (λ k. k.name == "group1")
        world2.db.composites
      ≡ composite ∷ others)
    × PlacesFor world2.cache.gateways world2.cache.rooms composite.id 1 (some item ∷ []) places
    × (after_update.db ≡ replaced_places composite.id places world2.db)
v1_update_composite-PlacesFor_example =
    v1_update_composite-PlacesFor open_config no_tokens quiet anonymous "group1" (some item ∷ [])
      world2 composite-updated

abbrev commit_refused : Env
commit_refused = record quiet { commit = λ n. refused (foreign "could not serialize access") }

abbrev new_group : V1RoomInfo
new_group = record { room = "1052"; janus = "gxy1"; description = "another room" }

abbrev group_stored : Room
group_stored = group_row new_group gateway1 "1052" 11 1001

abbrev db2 : Db
db2 = record (world1.db) { rooms = room1 ∷ group_stored ∷ [] }

group-stored : upsert_room group_stored world1.db ≡ inr (group_stored, db2)
unfolding upsert_room
group-stored = refl

gateway-known : Gateways.find_name "gxy1" world1.cache.gateways ≡ some gateway1
unfolding Gateways.find_name
gateway-known = refl

service-is_root : request_has_role open_config no_tokens (role_root ∷ []) by_service ≡ true
unfolding request_has_role
service-is_root = refl
