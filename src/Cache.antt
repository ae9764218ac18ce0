-- ===== src/Cache.antt =====
-- api/cache.go: the in-process copies of tables, one child module for each cache. `sync.RWMutex`
-- makes each method one step, so a method is a function from the cache to the cache. The maps of
-- the source hold pointers to rows; here they hold the rows.
pub mod Gateways
pub mod Rooms
pub mod DynamicConfigs
pub mod Users
pub mod Laws
use gxydb_api.Base.{ℕ, ◌+◌, ◌%◌, Bool, String, ◌==◌, nat_eq}
use gxydb_api.Base.Maps.{Map}
use Gateways.{GatewayCache}
use Rooms.{RoomCache}
use DynamicConfigs.{DynamicConfigCache}

pub record GatewayTokenCache : Type 0 where
  pub by_id : Map ℕ String

pub record AppCache (C : Type 0) : Type 0 where
  pub gateways : GatewayCache
  pub gateway_tokens : GatewayTokenCache
  pub rooms : RoomCache
  pub users : C
  pub dynamic_config : DynamicConfigCache

-- The ticker of `AppCache.Init`: what a tick reloads.
pub record Reloads : Type 0 where
  pub gateway_tokens : Bool
  pub dynamic_config : Bool

unfoldable pub tick : ℕ → ℕ × Reloads
tick ticks = (
  ticks + 1,
  record { gateway_tokens = (ticks + 1) % 3600 == 0; dynamic_config = (ticks + 1) % 60 == 0 },
)
