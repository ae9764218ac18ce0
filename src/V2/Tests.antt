-- ===== src/V2/Tests.antt =====
-- The configuration for clients, and the reloading of caches, on concrete data.
use gxydb_api.Base.{
  ◌≡◌, ◌≤◌, All, none, some, refl, true, String, [], ◌∷◌, ◌==◌, if◌then◌else◌, nat_eq, string_eq,
}
use gxydb_api.Errors.{ok, err, wrap, foreign, Outcome}
use gxydb_api.Models.{Gateway, User}
use gxydb_api.Cache.Gateways
use gxydb_api.V2.{
  offered_gateways, v2_get_config, fill_tokens, reload_all, reload_gateways, reload_tokens,
  reload_rooms_cache, reload_users, reload_configs,
}
use gxydb_api.V2.Reloaded.{reload_all-Reloaded}
use gxydb_api.World.{World, query}
use gxydb_api.Base.Maps.{Map}
use gxydb_api.Cache.Rooms
use gxydb_api.Cache.DynamicConfigs
use gxydb_api.V2.Offered.{find_offer, last_offer, v2_get_config-offered}
use gxydb_api.Examples.{gateway1, room1, cache1, world1, quiet, table_arc}

-- A gateway that is disabled is not offered.
one_offered :
    (v2_get_config [] (record cache1 {
      gateways = record {
        by_id =
            (1, gateway1) ∷ (2, record gateway1 { id = 2; name = "gxy2"; disabled = true }) ∷ [];
        by_name = [];
      };
    })).gateways
    ≡ ("rooms", ("gxy1", record { name = "gxy1"; url = "u"; kind = "rooms"; token = "" }) ∷ []) ∷ []
unfolding v2_get_config offered_gateways Gateways.all
one_offered = refl

abbrev second_broken : Gateway → Outcome String
second_broken g = if g.id == 2 then err (foreign "decrypt") else ok "t"

-- A token that cannot be read leaves the gateways after it without one.
rest_lost :
    fill_tokens second_broken
      (gateway1 ∷ record gateway1 { id = 2 } ∷ record gateway1 { id = 3 } ∷ [])
      []
    ≡ (err (wrap (foreign "decrypt") "tm.ActiveToken"), (1, "t") ∷ (2, "") ∷ [])
unfolding fill_tokens
rest_lost = refl

v2_get_config-offered_example :
    find_offer "rooms" "gxy1" (v2_get_config [] cache1).gateways
    ≡ last_offer cache1.gateway_tokens "rooms" "gxy1" (Gateways.all cache1.gateways)
v2_get_config-offered_example = v2_get_config-offered [] cache1 "rooms" "gxy1"

abbrev readable : Gateway → Outcome String
readable g = ok "t"

abbrev reloaded : World (Map String User)
reloaded = (reload_all quiet table_arc readable world1).1

all-reloaded : reload_all quiet table_arc readable world1 ≡ (ok tt, reloaded)
unfolding reload_all reload_gateways reload_tokens fill_tokens reload_rooms_cache reload_users
    reload_configs query
all-reloaded = refl

reload_all-Reloaded_example :
    (reloaded.db ≡ world1.db)
    × (Gateways.find 1 reloaded.cache.gateways ≡ some gateway1)
    × (Gateways.find_name "gxy1" reloaded.cache.gateways ≡ some gateway1)
    × (Rooms.find_uid "1051" reloaded.cache.rooms ≡ some room1)
    × (DynamicConfigs.find "k" reloaded.cache.dynamic_config ≡ none)
    × (world1.cache.dynamic_config.last_modified ≤ reloaded.cache.dynamic_config.last_modified)
    × All
        (λ kv. kv.updated_at ≤ reloaded.cache.dynamic_config.last_modified)
        (world1.db).dynamic_configs
    × All (λ g. (token : String) × (readable g ≡ ok token)) (world1.db).gateways
reload_all-Reloaded_example =
    reload_all-Reloaded table_arc quiet readable world1 reloaded 1 "gxy1" "1051" "k" all-reloaded
