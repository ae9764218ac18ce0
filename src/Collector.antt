-- ===== src/Collector.antt =====
-- instrumentation/periodic.go: the gauges that are set every second. Counting the users of rooms is
-- a query; the sessions of gateways are asked for by one goroutine for each gateway, which all send
-- to one channel, so that what the collector sees of them is a step relation.
pub mod Participants
pub mod Stuck
pub mod Tests
use gxydb_api.Base.{
  ℕ, zero, suc, Bool, true, false, not, ◌&&◌, ◌==◌, string_eq, String, List, [], ◌∷◌, ◌++◌, ◌⊎◌,
  inl, inr, Option, none, some, select, any, map, length, take, if◌then◌else◌,
}
use gxydb_api.Base.Maps.{Map, put}
use gxydb_api.Errors.{Error, foreign, wrap, ok}
use gxydb_api.Models.{Gateway, Room, Db}
use gxydb_api.World.{Env, Action, pure, ◌>>=◌}
use gxydb_api.Session.Table.{is_open, is_null}
use gxydb_api.V1.Reads.{in_room, count_users, reading}

-- A gauge, with its samples by their label.
abbrev pub Gauge : Type 0
Gauge = Map String ℕ

-- `sessions s inner join rooms r`, where a session is open, grouped by the room.
unfoldable pub participants : Db → List Room → List (String × ℕ)
participants db [] = []
participants db (r ∷ rooms) =
    let rest = participants db rooms in
    if any (λ s. in_room r.id s && is_open s) db.sessions
    then (r.name, count_users db r.id) ∷ rest
    else rest

-- `WithLabelValues(name).Set(count)` for each row.
unfoldable pub set_samples : List (String × ℕ) → Gauge → Gauge
set_samples [] gauge = gauge
set_samples ((name, count) ∷ rows) gauge = set_samples rows (put name count gauge)

-- `collectRoomParticipants`: a query that fails leaves the gauge; `received` is the number of rows
-- that come before the connection breaks, if it does.
unfoldable pub collect_participants : {C : Type 0} → Env → Option ℕ → Gauge → Action C Gauge
collect_participants env received gauge = reading env (λ db. participants db db.rooms) >>= λ r.
    elim r [
      | inl _ ↦ pure gauge
      | inr rows ↦ elim received [
        | none ↦ pure (set_samples rows [])
        | some n ↦ pure (set_samples (take n rows) [])
      ]
    ]

-- `gatewayCallRes`: the gateway, the number of its sessions, and the error of the call.
pub record CallResult : Type 0 where
  pub gateway : Gateway
  pub sessions : ℕ
  pub error : Option Error

-- How a call of an admin API ends, if it does.
pub data Reply (A : Type 0) : Type 0 where
  hangs : Reply A
  fails : Error → Reply A
  answers : A → Reply A

-- What a goroutine sends: the admin API is had and asked, or one of these fails, or the answer is
-- not one to the question. A goroutine whose call hangs sends nothing.
unfoldable pub call_gateway :
    (Gateway → Error ⊎ Unit {0}) → (Gateway → Reply (Option (List ℕ))) → Gateway → Option CallResult
call_gateway api_for list_sessions g = elim (api_for g) [
  | inl e ↦ some (record {
    gateway = g;
    sessions = 0;
    error = some (wrap e "domain.GatewayAdminAPIRegistry.For");
  })
  | inr _ ↦ elim (list_sessions g) [
    | hangs ↦ none
    | fails e ↦
        some (record { gateway = g; sessions = 0; error = some (wrap e "api.ListSessions") })
    | answers none ↦ some (record {
      gateway = g;
      sessions = 0;
      error = some (foreign "unexpected api.ListSessions response");
    })
    | answers (some sessions) ↦
        some (record { gateway = g; sessions = length sessions; error = none })
  ]
]

-- The query for the gateways.
abbrev pub is_asked : Gateway → Bool
is_asked g = not g.disabled && is_null g.removed_at

-- The loop of `collectGatewaySessions`: the rounds that are left, what the goroutines have not yet
-- handed over, where `none` stands for one whose call hangs, whether the timer has still to fire, and the gauge by the gateway's name and type.
pub record Collecting : Type 0 where
  pub rounds : ℕ
  pub pending : List (Option CallResult)
  pub armed : Bool
  pub gauge : Map String (String × ℕ)

abbrev pub start_collecting :
    (Gateway → Error ⊎ Unit {0}) → (Gateway → Reply (Option (List ℕ))) → List Gateway → Collecting
start_collecting api_for list_sessions gateways =
    let asked = select is_asked gateways in
    record {
      rounds = length asked;
      pending = map (call_gateway api_for list_sessions) asked;
      armed = true;
      gauge = [];
    }

-- A round is over when a result comes, which sets the gauge also if the call has failed, or when
-- the timer fires, which it does once; its `break` leaves the `select`, not the loop.
pub data Round : Collecting → Collecting → Type 0 where
  receive :
      (n : ℕ) (front back : List (Option CallResult)) (r : CallResult) (armed : Bool)
      (gauge : Map String (String × ℕ))
      → Round
          (record {
            rounds = suc n;
            pending = front ++ some r ∷ back;
            armed = armed;
            gauge = gauge;
          })
          (record {
            rounds = n;
            pending = front ++ back;
            armed = armed;
            gauge = put (r.gateway).name ((r.gateway).kind, r.sessions) gauge;
          })
  expire :
      (n : ℕ) (pending : List (Option CallResult)) (gauge : Map String (String × ℕ))
      → Round
          (record { rounds = suc n; pending = pending; armed = true; gauge = gauge })
          (record { rounds = n; pending = pending; armed = false; gauge = gauge })

pub data Rounds (s : Collecting) : Collecting → Type 0 where
  here : Rounds s s
  next : {t u : Collecting} → Rounds s t → Round t u → Rounds s u
