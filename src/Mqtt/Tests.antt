-- ===== src/Mqtt/Tests.antt =====
-- The listener on concrete data.
use gxydb_api.Base.{◌≡◌, refl, true, String, ◌⊎◌, inr, none, some, ◌==◌, nat_eq, if◌then◌else◌}
use gxydb_api.Base.Maps.{Map}
use gxydb_api.Errors.{foreign}
use gxydb_api.Models.{User}
use gxydb_api.Cache.Rooms
use gxydb_api.World.{Env, World}
use gxydb_api.Statistics.{ServiceMessage}
use gxydb_api.Mqtt.{BrokerUrl, with_password, client_options, deliver}
use gxydb_api.Examples.{quiet, world1}

-- A password takes the place of that in the URL, and a name is made up where there is none.
logs_in : with_password "secret" (record { user = none; rest = "broker:1883" }) ≡ record {
  user = some (record { username = "gxydb-api"; password = some "secret" });
  rest = "broker:1883";
}
unfolding with_password
logs_in = refl

abbrev anonymous_broker : BrokerUrl
anonymous_broker = record { user = none; rest = "broker:1883" }

-- The first call of all fails.
abbrev broken_once : Env
broken_once = record quiet { fault = λ n. if n == 0 then some (foreign "down") else none }

abbrev audio_out : String → String ⊎ ServiceMessage
audio_out payload = inr (record { kind = "audio-out"; status = true; room = some "1051" })

abbrev after : World (Map String User)
after = (deliver broken_once audio_out (client_options anonymous_broker "gxydb-api") "m" world1).1
