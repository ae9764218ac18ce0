-- ===== src/Mqtt/Delivered.antt =====
-- What becomes of a message that the broker delivers.
use gxydb_api.Base.{ℕ, ◌+◌, none, some, ◌==◌, nat_eq, if◌then◌else◌}
use gxydb_api.World.{Env, World}
use gxydb_api.Statistics.{ServiceMessage}
use gxydb_api.Statistics.Counting.{counter, counted_room}

-- The counter of a room after a message that counts a room, if it counts one.
abbrev pub counted_in : {C : Type 0} → Env → ServiceMessage → ℕ → World C → ℕ
counted_in env msg id w = elim (counted_room env msg w) [
  | none ↦ counter id w.db.room_statistics
  | some room_id ↦
      if id == room_id
      then counter room_id w.db.room_statistics + 1
      else counter id w.db.room_statistics
]
