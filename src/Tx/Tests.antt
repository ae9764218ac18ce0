-- ===== src/Tx/Tests.antt =====
-- A transaction on concrete data.
use gxydb_api.Base.{ℕ, ◌≡◌, refl, false, String, []}
use gxydb_api.Base.Maps.{Map}
use gxydb_api.Errors.{foreign, err}
use gxydb_api.Models.{User}
use gxydb_api.World.{World, Action}
use gxydb_api.Tx.{in_tx}
use gxydb_api.Tx.Atomic.{is_ok, in_tx-rollback}
use gxydb_api.Examples.{quiet, world1, db1}

abbrev Users : Type 0
Users = Map String User

-- Empty the table of sessions and the cache of gateways, and then succeed, or fail.
abbrev emptied : World Users → World Users
emptied w = record w {
  db = record (w.db) { sessions = [] };
  cache = record (w.cache) { gateways = record { by_id = []; by_name = [] } };
}

abbrev failing : Action Users ℕ
failing w = (err (foreign "no"), emptied w)

refused : is_ok (in_tx quiet failing world1).0 ≡ false
unfolding in_tx
refused = refl

failing-restored : (in_tx quiet failing world1).1.db ≡ db1
failing-restored = in_tx-rollback quiet failing world1 (λ n. refl) refused
