-- ===== src/Statistics/Tests.antt =====
-- The counters on concrete data.
use gxydb_api.Base.{◌≡◌, refl, true, String, ◌⊎◌, inr, some}
use gxydb_api.Base.Maps.{Map}
use gxydb_api.Errors.{ok}
use gxydb_api.Models.{User}
use gxydb_api.Cache.Rooms
use gxydb_api.World.{World, query}
use gxydb_api.Tx.{in_tx}
use gxydb_api.Statistics.{
  find_or_insert, get_or_create, write, update, incremented, on_air, ServiceMessage, handle_decoded,
  handle_message,
}
use gxydb_api.Statistics.Counting.{counter, handle_message-counter}
use gxydb_api.Examples.{quiet, world1}

abbrev Users : Type 0
Users = Map String User

abbrev audio_out : ServiceMessage
audio_out = record { kind = "audio-out"; status = true; room = some "1051" }

abbrev decode1 : String → String ⊎ ServiceMessage
decode1 payload = inr audio_out

abbrev after_message : World Users
after_message = (handle_message quiet decode1 "m" world1).1

message-ok : handle_message quiet decode1 "m" world1 ≡ (ok tt, after_message)
unfolding handle_message handle_decoded on_air get_or_create find_or_insert update write incremented
    in_tx query Rooms.find_uid
message-ok = refl

handle_message-counter_example : counter 3 after_message.db.room_statistics ≡ 1
unfolding Rooms.find_uid
handle_message-counter_example =
    handle_message-counter quiet decode1 "m" audio_out 3 world1 after_message refl message-ok
