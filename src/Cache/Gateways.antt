-- ===== src/Cache/Gateways.antt =====
-- `GatewayCache` of api/cache.go: gateways by id and by name.
use gxydb_api.Base.{ℕ, String, List, [], ◌∷◌, Option, nat_eq, string_eq}
use gxydb_api.Base.Maps.{Map, get, put, values}
use gxydb_api.Models.{Gateway}

pub record GatewayCache : Type 0 where
  pub by_id : Map ℕ Gateway
  pub by_name : Map String Gateway

-- `GatewayCache.Set`, also the body of the loop of `Reload`.
unfoldable pub set : Gateway → GatewayCache → GatewayCache
set gateway c = record {
  by_id = put gateway.id gateway c.by_id;
  by_name = put gateway.name gateway c.by_name;
}

unfoldable pub fill : List Gateway → GatewayCache → GatewayCache
fill [] c = c
fill (gateway ∷ gateways) c = fill gateways (set gateway c)

-- `GatewayCache.Reload` on the rows that the query yields.
unfoldable pub reload : List Gateway → GatewayCache
reload gateways = fill gateways (record { by_id = []; by_name = [] })

unfoldable pub find : ℕ → GatewayCache → Option Gateway
find id c = get id c.by_id

unfoldable pub find_name : String → GatewayCache → Option Gateway
find_name name c = get name c.by_name

unfoldable pub all : GatewayCache → List Gateway
all c = values c.by_id
