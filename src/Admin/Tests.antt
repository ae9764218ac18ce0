-- ===== src/Admin/Tests.antt =====
-- The handlers of the dynamic configuration on concrete data.
use gxydb_api.Base.{
  ◌≡◌, refl, Bool, ◌+◌, true, false, select, first?, String, [], ◌∷◌, inr, none, some, ◌==◌,
  string_eq, nat_eq, if◌then◌else◌,
}
use gxydb_api.Base.Int.{pos, int_eq}
use gxydb_api.Base.Maps.{Map}
use gxydb_api.Errors.{foreign, ok, http_status}
use gxydb_api.Models.{User, Room, DynamicConfig}
use gxydb_api.Cache.DynamicConfigs
use gxydb_api.World.{World, Env, query, destroy_room}
use gxydb_api.Tx.{in_tx}
use gxydb_api.Auth.{Config, request_has_role}
use gxydb_api.Auth.Roles.{role_root}
use gxydb_api.Admin.{
  aborted, success, ConfigData, has_value, as_root, reload_config, commit_config, set_row,
  admin_set,
}
use gxydb_api.Admin.Coherent.{Coherent, set, serve_config, serve_config-Coherent, admin_set-stale}
use gxydb_api.Cache.Gateways
use gxydb_api.V1.{recovered}
use gxydb_api.Admin.Rooms.{
  hosts_rooms, remove_room, tell_gateway, tell_gateways, tell_all, reload_rooms, commit_room,
  remove_room_row,
}
use gxydb_api.Admin.RoomHandlers.{with_room, admin_delete_room}
use gxydb_api.Admin.Told.{told}
use gxydb_api.Admin.Telling.{ToldFirst}
use gxydb_api.Admin.Apart.{Announces, delete, serve_room, serve_room-ToldFirst}
use gxydb_api.Admin.Removed.{without_room, serve_delete, admin_delete_room-told}
use gxydb_api.Examples.{gateway1, quiet, world1, no_tokens, by_service}

abbrev Users : Type 0
Users = Map String User

abbrev strict : Config
strict = record {
  skip_auth = false;
  skip_events_auth = false;
  skip_permissions = false;
  service_passwords = [];
}

abbrev setting : ConfigData
setting = record { key = "k"; value = "new" }

abbrev created_row : DynamicConfig
created_row = record { id = 1; key = "k"; value = "old"; updated_at = 5 }

abbrev world2 : World Users
world2 = record world1 {
  db = record (world1.db) { dynamic_configs = created_row ∷ [] };
  cache = record (world1.cache) {
    dynamic_config = record { m = ("k", created_row) ∷ []; last_modified = 5 };
  };
}

abbrev after_set : World Users
after_set = (serve_config strict no_tokens quiet (set "k" (inr setting)) by_service world2).1

set-ok :
    serve_config strict no_tokens quiet (set "k" (inr setting)) by_service world2
    ≡ (ok success, after_set)
unfolding admin_set as_root commit_config set_row reload_config has_value in_tx query
    DynamicConfigs.find request_has_role
set-ok = refl

serve_config-Coherent_example : Coherent after_set
serve_config-Coherent_example =
    serve_config-Coherent strict no_tokens quiet (set "k" (inr setting)) by_service world2 after_set
      success (λ n. refl) refl set-ok

-- The third call, the write, fails.
abbrev broken : Env
broken = record quiet { fault = λ n. if n == 2 then some (foreign "down") else none }

root : request_has_role strict no_tokens (role_root ∷ []) by_service ≡ true
unfolding request_has_role
root = refl

found : DynamicConfigs.find "k" world2.cache.dynamic_config ≡ some created_row
unfolding DynamicConfigs.find
found = refl

valued : has_value setting ≡ true
unfolding has_value
valued = refl

admin_set-stale_example :
    let (reply, u) = admin_set strict no_tokens broken by_service "k" (inr setting) world2 in
    (reply ≡ ok (aborted 500))
    × (u.db ≡ world2.db)
    × (DynamicConfigs.find "k" u.cache.dynamic_config
        ≡ some (record created_row { value = "new"; updated_at = 1001 }))
admin_set-stale_example =
    admin_set-stale strict no_tokens broken by_service "k" setting created_row (foreign "down")
      world2 root found valued refl refl

-- Two gateways, of which the second cannot be reached after the first was told.
abbrev second_down : Env
second_down = record quiet {
  fault = λ n. if n == 6 then some (foreign "connection refused") else none;
}

abbrev world3 : World Users
world3 = record world1 {
  cache = record (world1.cache) {
    gateways = record {
      by_id = (1, gateway1) ∷ (2, record gateway1 { id = 2 }) ∷ [];
      by_name = [];
    };
  };
}

abbrev delete_third : Env → Bool × World Users
delete_third env =
    serve_room strict no_tokens env (λ uid. false) (λ uid. false) (λ rooms. "1")
      (delete (some (pos 3))) by_service world3

delete-fails : (delete_third second_down).0 ≡ false
unfolding admin_delete_room with_room commit_room remove_room_row remove_room tell_all tell_gateways
    tell_gateway recovered request_has_role in_tx query Gateways.all http_status
delete-fails = refl

serve_room-ToldFirst_example :
    ((delete_third second_down).1.db ≡ world3.db)
    × ToldFirst
        (Announces (λ rooms. "1") (delete (some (pos 3))) world3.db)
        world3.cache.gateways
        world3.sent
        (delete_third second_down).1.sent
serve_room-ToldFirst_example =
    serve_room-ToldFirst strict no_tokens second_down (λ uid. false) (λ uid. false) (λ rooms. "1")
      (delete (some (pos 3))) by_service world3 (λ n. refl) delete-fails

-- The first gateway was told.
first-told :
    (delete_third second_down).1.sent
    ≡ record { gateway_id = 1; request = destroy_room "1051" } ∷ []
unfolding admin_delete_room with_room commit_room remove_room_row remove_room tell_all tell_gateways
    tell_gateway recovered request_has_role in_tx query Gateways.all
first-told = refl

abbrev deleted_third : Bool × World Users
deleted_third =
    serve_delete strict no_tokens quiet (λ uid. false) (λ uid. false) (λ rooms. "1") by_service
      (pos 3) world3

delete-succeeds : deleted_third.0 ≡ true
unfolding admin_delete_room with_room commit_room remove_room_row remove_room tell_all tell_gateways
    tell_gateway reload_rooms recovered request_has_role in_tx query Gateways.all
delete-succeeds = refl

admin_delete_room-told_example :
    (room : Room) × (first? (λ r. pos r.id == pos 3) world3.db.rooms ≡ some room)
    × (deleted_third.1.db ≡ without_room room.id (quiet.now (0 + 1 + 1)) world3.db)
    × (deleted_third.1.sent
        ≡ told
            (destroy_room room.gateway_uid)
            (select hosts_rooms (Gateways.all world3.cache.gateways))
            world3.sent)
admin_delete_room-told_example =
    admin_delete_room-told strict no_tokens quiet (λ uid. false) (λ uid. false) (λ rooms. "1")
      by_service (pos 3) world3 delete-succeeds
