-- ===== src/Monitor.antt =====
-- The rounds of the manager of tokens (domain/gateways.go) and what the application does when it is
-- told of changes (`Notify` of api/app.go): how the cache of tokens comes to follow the gateways.
pub mod Fresh
pub mod Lifetime
pub mod Tests
use gxydb_api.Base.{
  ℕ, ◌+◌, Bool, true, false, String, List, [], ◌∷◌, Option, none, some, inl, inr, ◌⊎◌, ◌==◌, nat_eq,
  string_eq, if◌then◌else◌, first?, map, Eq, nat_beq, ◌↔◌, ◌≡◌, arith,
}
use gxydb_api.Errors.{Error, Outcome, ok, err, panic}
use gxydb_api.Models.{Gateway, Db}
use gxydb_api.World.{Env, World, Action, Try, query}
use gxydb_api.Tokens.Types.{Service, Sync}
use gxydb_api.Tokens.Active.{active_token}
use gxydb_api.Tokens.Rounds.{Manager, sync_all}
use gxydb_api.V1.Reads.{reading}
use gxydb_api.V2.{reload_tokens}
use gxydb_api.Observer.{ObserverSet, add_observer, notify_all}

-- The dynamic type of what observers are told of: a text, or something else.
pub data Event : Type 0 where
  text : String → Event
  other_event : Event

abbrev pub gateway_tokens_changed : Event
gateway_tokens_changed = text "GATEWAY_TOKENS_CHANGED"

-- The application is the only kind of observer of the program; others are given by a number.
pub data Observing : Type 0 where
  application : Observing
  another : ℕ → Observing

unfoldable pub same_observer : Observing → Observing → Bool
same_observer application application = true
same_observer (another m) (another n) = nat_beq m n
same_observer _ _ = false

pub same_observer_iff : (a b : Observing) → (same_observer a b ≡ true) ↔ (a ≡ b)
unfolding same_observer
same_observer_iff application application = ground arith
same_observer_iff application (another n) = ground arith
same_observer_iff (another m) application = ground arith
same_observer_iff (another m) (another n) = ground arith

instance abbrev pub observing_eq : Eq Observing
observing_eq = record { same_iff = same_observer_iff; same = same_observer }

-- What `initGatewayTokensMonitoring` registers.
abbrev pub registered : ObserverSet Observing
registered = add_observer application []

abbrev pub token_of : {S : Type 0} → Service S → Gateway → Outcome String
token_of sv g = active_token sv g.properties

module _ {S : Type 0} where
  -- What a synchronization works on, for a row of the table.
  abbrev pub opened : (ℕ → S) → (ℕ → ℕ) → Gateway → Sync S
  opened stores calls g = record {
    gateway = g;
    stored = g.properties;
    store = stores g.id;
    calls = calls g.id;
  }

  -- The column `properties` as the synchronizations have left it.
  abbrev pub written : List (Sync S) → Gateway → Gateway
  written ss g = elim (first? (λ s. (s.gateway).id == g.id) ss) [
    | none ↦ g
    | some s ↦ record g { properties = s.stored }
  ]

module _ {C S : Type 0} (env : Env) (sv : Service S) where
  -- `App.Notify`: an error of the reload is logged only.
  unfoldable pub app_notify : Event → World C → World C
  app_notify (text name) w =
      if name == "GATEWAY_TOKENS_CHANGED" then (reload_tokens env (token_of sv) w).1 else w
  app_notify other_event w = w

  -- `Observer.Notify`; the others do nothing to the server.
  abbrev pub notify : Observing → Event → World C → World C
  notify application event w = app_notify event w
  notify (another n) event w = w

  -- A round of `Monitor`: `SyncAll` on the rows of the table, and `NotifyAll` if it is called.
  unfoldable pub monitor_round :
      ℕ
      → (ℕ → S)
      → (ℕ → ℕ)
      → ObserverSet Observing
      → Manager
      → World C
      → Outcome (Unit {0}) × Manager × World C
  monitor_round max_age stores calls observers tm w =
      if tm.wip then (ok tt, tm, w) else (elim (env.fault w.calls) [
        | some e ↦ (ok tt, record tm { wip = false }, record w { calls = w.calls + 1 })
        | none ↦
            let (r, tm', ss) =
              sync_all sv max_age (some (map (opened stores calls) (w.db).gateways)) tm in
            let w' : World C = record w {
              db = record (w.db) { gateways = map (written ss) (w.db).gateways };
              calls = w.calls + 1;
            } in
            (
              r,
              tm',
              if tm'.notified == tm.notified
                  then w'
                  else notify_all notify gateway_tokens_changed observers w',
            )
      ])
