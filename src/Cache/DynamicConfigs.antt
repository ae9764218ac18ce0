-- ===== src/Cache/DynamicConfigs.antt =====
-- `DynamicConfigCache` of api/cache.go: configuration values by key, and when they last changed.
use gxydb_api.Base.{ℕ, String, List, [], ◌∷◌, Option, string_eq, ltb, if◌then◌else◌}
use gxydb_api.Base.Maps.{Map, get, put, values}
use gxydb_api.Models.{DynamicConfig}

pub record DynamicConfigCache : Type 0 where
  pub m : Map String DynamicConfig
  pub last_modified : ℕ

-- `c.lastModified.Before(kv.UpdatedAt)`.
abbrev pub later : ℕ → ℕ → ℕ
later last updated = if ltb last updated then updated else last

unfoldable pub set : DynamicConfig → DynamicConfigCache → DynamicConfigCache
set kv c = record { m = put kv.key kv c.m; last_modified = later c.last_modified kv.updated_at }

unfoldable pub fill : List DynamicConfig → DynamicConfigCache → DynamicConfigCache
fill [] c = c
fill (kv ∷ kvs) c = fill kvs (set kv c)

-- `DynamicConfigCache.Reload` empties the map and keeps `lastModified`.
unfoldable pub reload : List DynamicConfig → DynamicConfigCache → DynamicConfigCache
reload kvs c = fill kvs (record c { m = [] })

unfoldable pub find : String → DynamicConfigCache → Option DynamicConfig
find key c = get key c.m

unfoldable pub all : DynamicConfigCache → List DynamicConfig
all c = values c.m
