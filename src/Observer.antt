-- ===== src/Observer.antt =====
-- pkg/patterns/observer.go: the observers of an object. The map to empty structs is a map to units;
-- the order in which it is ranged over, which Go leaves open, is that of the list.
use gxydb_api.Base.{[], ◌∷◌, Eq}
use gxydb_api.Base.Maps.{Map, put, del}

abbrev pub ObserverSet : Type 0 → Type 0
ObserverSet O = Map O (Unit {0})

module _ {O : Type 0} ⦃e : Eq O⦄ where
  -- `AddObserver`
  unfoldable pub add_observer : O → ObserverSet O → ObserverSet O
  add_observer o observers = put o tt observers

  -- `RemoveObserver`
  unfoldable pub remove_observer : O → ObserverSet O → ObserverSet O
  remove_observer o observers = del o observers

-- `NotifyAll`: each observer's `Notify`, which returns nothing, in turn.
unfoldable pub notify_all : {O E S : Type 0} → (O → E → S → S) → E → ObserverSet O → S → S
notify_all notify event [] s = s
notify_all notify event ((o, _) ∷ observers) s =
    notify_all notify event observers (notify o event s)
