-- ===== src/Monitor/Lifetime.antt =====
-- The goroutine of `Monitor` and `Close` of domain/gateways.go: how the manager of tokens is started
-- and stopped. The ticker is the library's: what matters of it is whether `Stop` closes the channel
-- over which the goroutine ranges.
use gxydb_api.Base.{ℕ, ◌+◌, ◌-◌, ◌≡◌, refl, Bool, true, false, ◌||◌, arith, Option, none, some}

-- The field `ticker`, the count of `wg`, whether the channel is closed, and the rounds so far.
pub record Lifetime : Type 0 where
  pub has_ticker : Bool
  pub working : ℕ
  pub channel_closed : Bool
  pub rounds : ℕ

abbrev pub new_manager : Lifetime
new_manager = record { has_ticker = false; working = 0; channel_closed = false; rounds = 0 }

-- `Monitor`
unfoldable pub start_monitor : Lifetime → Lifetime
start_monitor m = elim m.has_ticker [
  | true ↦ m
  | false ↦ record m { has_ticker = true; working = m.working + 1; channel_closed = false }
]

-- The first half of `Close`, where `closes` tells whether `Stop` closes the channel; without a
-- ticker it panics.
unfoldable pub stop_ticker : Bool → Lifetime → Option Lifetime
stop_ticker closes m = elim m.has_ticker [
  | true ↦ some (record m { channel_closed = m.channel_closed || closes })
  | false ↦ none
]

-- `wg.Wait()`, the second half of `Close`, returns when the count is 0.
abbrev pub CanReturn : Lifetime → Type 0
CanReturn m = m.working ≡ 0

-- What may happen to a manager: it is started, it is told to stop, a tick comes, or the loop of the
-- goroutine ends, as its channel is closed.
pub data Event (closes : Bool) : Lifetime → Lifetime → Type 0 where
  started : (m : Lifetime) → Event closes m (start_monitor m)
  stopped : (m v : Lifetime) → stop_ticker closes m ≡ some v → Event closes m v
  ticked :
      (m : Lifetime) → m.has_ticker ≡ true → Event closes m (record m { rounds = m.rounds + 1 })
  ended :
      (m : Lifetime)
      → m.channel_closed ≡ true
      → Event closes m (record m { working = m.working - 1 })

pub data History (closes : Bool) (m : Lifetime) : Lifetime → Type 0 where
  begun : History closes m m
  later : {v u : Lifetime} → History closes m v → Event closes v u → History closes m u

-- A manager that was started, whose channel is open and whose goroutine works.
record IsWorking (m : Lifetime) : Type 0 where
  has_ticker : m.has_ticker ≡ true
  working : m.working ≡ 1
  still_open : m.channel_closed ≡ false

Event-IsWorking : {m v : Lifetime} → Event false m v → IsWorking m → IsWorking v
unfolding start_monitor stop_ticker
Event-IsWorking (started m) h = record {
  has_ticker = ground (arith, h.has_ticker);
  working = ground (arith, h.has_ticker, h.working);
  still_open = ground (arith, h.has_ticker, h.still_open);
}
Event-IsWorking (stopped m v e) h = record {
  has_ticker = ground (arith, h.has_ticker);
  working = ground (arith, h.has_ticker, h.working);
  still_open = ground (arith, h.has_ticker, h.still_open);
}
Event-IsWorking (ticked m e) h = record {
  has_ticker = h.has_ticker;
  working = h.working;
  still_open = h.still_open;
}
Event-IsWorking (ended m e) h = absurd (ground (arith, h.still_open))

History-IsWorking : {m v : Lifetime} → History false m v → IsWorking m → IsWorking v
History-IsWorking begun h = h
History-IsWorking (later hs e) h = Event-IsWorking e (History-IsWorking hs h)

-- Once a manager was started, `Close` does not return, whatever happens before and after it is
-- called, if the ticker's `Stop` does not close the channel.
pub History-stuck : {v : Lifetime} → History false (start_monitor new_manager) v → ¬ CanReturn v
unfolding start_monitor
History-stuck h returned =
    let still =
      History-IsWorking h (record { has_ticker = refl; working = refl; still_open = refl }) in
    ground (arith, still.working)
