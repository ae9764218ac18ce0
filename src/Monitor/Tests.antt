-- ===== src/Monitor/Tests.antt =====
-- A round on concrete data.
use gxydb_api.Base.{
  ℕ, ◌≡◌, refl, true, false, String, List, [], ◌∷◌, some, any, last?, select, All, ◌==◌, nat_eq,
  string_eq,
}
use gxydb_api.Base.Maps.{Map, get}
use gxydb_api.Errors.{ok}
use gxydb_api.Models.{Gateway, User}
use gxydb_api.World.{World}
use gxydb_api.Tokens.{
  list_tokens, create_token, remove_token, add_all, remove_all, read_props, read_tokens, save,
  generate, finish, carry_out, reconcile, sync_tokens, sync_gateway_tokens,
}
use gxydb_api.Tokens.Plan.{plan_token, plan_tokens, remove_unknown, token_set}
use gxydb_api.Tokens.Active.{active_token, newest}
use gxydb_api.Tokens.Rounds.{Manager, changes, panics}
use gxydb_api.Tokens.Sample.{service1, max_age1}
use gxydb_api.Monitor.{token_of, registered, monitor_round}
use gxydb_api.Monitor.Lifetime.{
  Lifetime, new_manager, start_monitor, stop_ticker, CanReturn, History, begun, later, ticked,
  stopped, ended, History-stuck,
}
use gxydb_api.Monitor.Fresh.{Readable, live_rows, rows_after, monitor_round-fresh}
use gxydb_api.Examples.{gateway1, world1, quiet}

abbrev tokens_world : World (Map String User)
tokens_world = record world1 {
  db = record (world1.db) { gateways = record gateway1 { properties = some "row" } ∷ [] };
}

abbrev stores : ℕ → List String
stores id = "old" ∷ "foreign" ∷ []

abbrev from_zero : ℕ → ℕ
from_zero id = 0

abbrev idle : Manager
idle = record { wip = false; notified = 4 }

abbrev row_after : Gateway
row_after = record gateway1 { properties = some "tokens" }

calm :
    any (panics service1 max_age1) (live_rows quiet service1 max_age1 stores from_zero tokens_world)
    ≡ false
unfolding sync_gateway_tokens read_props read_tokens sync_tokens list_tokens reconcile plan_tokens
    plan_token remove_unknown token_set carry_out generate create_token add_all remove_all
    remove_token finish save
calm = refl

changed :
    any
      (changes service1 max_age1)
      (live_rows quiet service1 max_age1 stores from_zero tokens_world)
    ≡ true
unfolding sync_gateway_tokens read_props read_tokens sync_tokens list_tokens reconcile plan_tokens
    plan_token remove_unknown token_set carry_out generate create_token add_all remove_all
    remove_token finish save
changed = refl

rows : rows_after quiet service1 max_age1 stores from_zero tokens_world ≡ row_after ∷ []
unfolding sync_gateway_tokens read_props read_tokens sync_tokens list_tokens reconcile plan_tokens
    plan_token remove_unknown token_set carry_out generate create_token add_all remove_all
    remove_token finish save
rows = refl

readable :
    All
      (Readable (token_of service1))
      (rows_after quiet service1 max_age1 stores from_zero tokens_world)
unfolding sync_gateway_tokens read_props read_tokens sync_tokens list_tokens reconcile plan_tokens
    plan_token remove_unknown token_set carry_out generate create_token add_all remove_all
    remove_token finish save active_token newest
readable = (("uid", refl), tt)

last-row :
    last?
      (select (λ h. h.id == 1) (rows_after quiet service1 max_age1 stores from_zero tokens_world))
    ≡ some row_after
unfolding sync_gateway_tokens read_props read_tokens sync_tokens list_tokens reconcile plan_tokens
    plan_token remove_unknown token_set carry_out generate create_token add_all remove_all
    remove_token finish save
last-row = refl

token-after : token_of service1 row_after ≡ ok "uid"
unfolding active_token newest
token-after = refl

monitor_round-fresh_example :
    let (r, tm', u) =
      monitor_round quiet service1 max_age1 stores from_zero registered idle tokens_world in
    (r ≡ ok tt)
    × (tm'.wip ≡ false)
    × ((u.db).gateways ≡ rows_after quiet service1 max_age1 stores from_zero tokens_world)
    × (get 1 u.cache.gateway_tokens.by_id ≡ some "uid")
monitor_round-fresh_example =
    monitor_round-fresh quiet service1 max_age1 stores from_zero idle tokens_world 1 row_after "uid"
      refl refl refl calm changed readable last-row token-after

abbrev ticked_once : Lifetime
ticked_once = record (start_monitor new_manager) { rounds = 1 }

one_tick : History false (start_monitor new_manager) ticked_once
unfolding start_monitor
one_tick = later begun (ticked (start_monitor new_manager) refl)

stop_asked : History false (start_monitor new_manager) ticked_once
unfolding start_monitor stop_ticker
stop_asked = later one_tick (stopped ticked_once ticked_once refl)

History-stuck_example : ¬ CanReturn ticked_once
History-stuck_example = History-stuck stop_asked

-- It would return if the channel were closed.
would_return : (v : Lifetime) × History true (start_monitor new_manager) v × CanReturn v
unfolding start_monitor stop_ticker
would_return = (
  _,
  later (later begun (stopped _ _ refl))
      (ended (record (start_monitor new_manager) { channel_closed = true }) refl),
  refl,
)
