-- ===== src/Collector/Tests.antt =====
-- The collector on concrete data.
use gxydb_api.Base.{
  Option, some, ℕ, ◌≤◌, ◌↔◌, ◌==◌, nat_eq, if◌then◌else◌, ◌≡◌, refl, false, String, List, [], ◌∷◌,
  ◌⊎◌, inr, none, length,
}
use gxydb_api.Base.Maps.{Map}
use gxydb_api.Errors.{Error, ok}
use gxydb_api.Models.{Gateway, User}
use gxydb_api.World.{World, counted, query}
use gxydb_api.Collector.{
  Gauge, Reply, hangs, answers, CallResult, Collecting, call_gateway, start_collecting, receive,
  expire, Rounds, here, next, participants, set_samples, collect_participants,
}
use gxydb_api.Collector.Participants.{Counted, collect_participants-Counted}
use gxydb_api.Collector.Stuck.{silent, Rounds-left_behind, Rounds-ends}
use gxydb_api.Examples.{gateway1, room1, world1, quiet}

abbrev gateway2 : Gateway
gateway2 = record gateway1 { id = 2; name = "gxy2" }

abbrev reachable : Gateway → Error ⊎ Unit {0}
reachable g = inr tt

-- The second gateway does not answer.
abbrev two_sessions : Gateway → Reply (Option (List ℕ))
two_sessions g = if g.id == 2 then hangs else answers (some (11 ∷ 12 ∷ []))

abbrev result : Gateway → CallResult
result g = record { gateway = g; sessions = 2; error = none }

-- The timer fires before the first gateway has answered.
abbrev after_timeout : Collecting
after_timeout = record {
  rounds = 0;
  pending = none ∷ [];
  armed = false;
  gauge = ("gxy1", ("rooms", 2)) ∷ [];
}

late : Rounds (start_collecting reachable two_sessions (gateway1 ∷ gateway2 ∷ [])) after_timeout
unfolding call_gateway
late =
    next (next here (expire 1 (some (result gateway1) ∷ none ∷ []) []))
      (receive 0 [] (none ∷ []) (result gateway1) false [])

Rounds-left_behind_example : length (after_timeout.pending) ≡ 1
Rounds-left_behind_example =
    Rounds-left_behind reachable two_sessions (gateway1 ∷ gateway2 ∷ []) late refl

Rounds-ends_example :
    ((t : Collecting) × Rounds after_timeout t × (t.rounds ≡ 0))
    ↔ (silent reachable two_sessions (gateway1 ∷ gateway2 ∷ []) ≤ 1)
Rounds-ends_example = Rounds-ends reachable two_sessions (gateway1 ∷ gateway2 ∷ []) late

two_users : collect_participants quiet none [] world1 ≡ (ok (("room", 2) ∷ []), counted world1)
unfolding collect_participants participants set_samples query
two_users = refl

collect_participants-Counted_example :
    (gauge : Gauge) × (v : World (Map String User)) × (collect_participants quiet none [] world1
      ≡ (ok gauge, v))
    × (v.db ≡ world1.db)
    × (v.cache ≡ world1.cache)
    × Counted world1.db room1 gauge
collect_participants-Counted_example =
    collect_participants-Counted quiet [] world1 room1 [] [] refl refl refl refl
