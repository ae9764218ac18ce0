-- ===== src/Cache/Users.antt =====
-- `UserCache` of api/cache.go, over a cache of a third party.
use gxydb_api.Base.{String, List, [], ◌∷◌, Option}
use gxydb_api.Models.{User}

-- The ARC cache of github.com/hashicorp/golang-lru, of which the program calls these. `Get` moves
-- the entry within the cache, so it returns a cache too.
pub record Arc (C : Type 0) : Type 0 where
  pub new : C
  pub add : String → User → C → C
  pub find : String → C → Option User × C

module _ {C : Type 0} (arc : Arc C) where
  -- `UserCache.Reload` on the rows that the query yields: at most 500 live users, the newest first.
  pub fill : List User → C → C
  fill [] c = c
  fill (user ∷ users) c = fill users (arc.add user.accounts_id user c)

  unfoldable pub reload : List User → C
  reload users = fill users arc.new
