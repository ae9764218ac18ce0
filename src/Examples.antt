-- ===== src/Examples.antt =====
-- Concrete data for the tests: a small database, a cache of users, and an environment in which
-- nothing fails.
use gxydb_api.Base.{
  ℕ, ◌+◌, true, false, String, [], ◌∷◌, inr, none, some, ◌==◌, string_eq, if◌then◌else◌,
}
use gxydb_api.Base.Int.{pos}
use gxydb_api.Base.Maps.{Map, get, put}
use gxydb_api.Base.Text.{append}
use gxydb_api.Models.{User, Gateway, Room, Session, Db}
use gxydb_api.Cache.{AppCache}
use gxydb_api.Cache.Users.{Arc}
use gxydb_api.Auth.{Config, Verifiers, RequestContext}
use gxydb_api.World.{Env, World, committed}
use gxydb_api.Session.Types.{V1User, V1ProtocolMessageText, Codec}

abbrev pub table_arc : Arc (Map String User)
table_arc = record { new = []; add = put; find = λ id users. (get id users, users) }

-- Call number n happens at time 1000 + n; a sequence yields 10 + n there.
abbrev pub quiet : Env
quiet = record {
  fault = λ n. none;
  commit = λ n. committed;
  now = λ n. 1000 + n;
  fresh = λ n. 10 + n;
  stamp = λ field now. field;
  jsonb_concat = append;
  parse_ip = some;
}

abbrev pub alice : User
alice = record {
  id = 7;
  accounts_id = "alice";
  email = none;
  first_name = none;
  last_name = none;
  username = none;
  disabled = false;
  properties = none;
  created_at = 1;
  updated_at = none;
  removed_at = none;
}

abbrev pub gateway1 : Gateway
gateway1 = record {
  id = 1;
  name = "gxy1";
  description = none;
  url = "u";
  admin_url = "a";
  admin_password = "p";
  disabled = false;
  properties = none;
  created_at = 1;
  updated_at = none;
  removed_at = none;
  events_password = "e";
  kind = "rooms";
}

abbrev pub room1 : Room
room1 = record {
  id = 3;
  name = "room";
  default_gateway_id = 1;
  gateway_uid = "1051";
  disabled = false;
  properties = none;
  created_at = 1;
  updated_at = none;
  removed_at = none;
  extra = none;
  region = none;
}

-- What a client of the account `id` tells, in the room `room`.
abbrev pub client : String → String → V1User
client id room = record {
  id = id;
  display = "d";
  email = "m";
  group = "g";
  ip = "10.0.0.1";
  janus = "gxy1";
  name = "n";
  role = "user";
  system = "s";
  username = "u";
  room = room;
  timestamp = pos 0;
  session = pos 55;
  handle = pos 56;
  rfid = "f";
  textroom_handle = pos 57;
  camera = true;
  question = false;
  self_test = false;
  sound_test = false;
  extra = "{}";
}

-- An open session of the account with the id `user_id`, in another connection.
abbrev pub session_by : ℕ → ℕ → Session
session_by id user_id = record {
  id = id;
  user_id = user_id;
  room_id = some 3;
  gateway_id = some 1;
  gateway_session = some (pos 54);
  gateway_handle = none;
  gateway_feed = none;
  display = none;
  camera = false;
  question = false;
  self_test = false;
  sound_test = false;
  user_agent = none;
  ip_address = none;
  properties = none;
  created_at = 1;
  updated_at = none;
  removed_at = none;
  extra = none;
  gateway_handle_textroom = none;
}

-- The text of a message is the name of the account; "bob" asks for a room that is not there.
abbrev pub message : String → V1ProtocolMessageText
message id = record {
  kind = "enter";
  status = true;
  room = pos 1051;
  user = client id (if id == "alice" then "1051" else "9999");
}

abbrev pub codec1 : Codec
codec1 = record {
  decode_message = λ t. inr (message t);
  decode_user = λ t. inr (client t "1051");
  marshal_extra = some;
}

abbrev pub db1 : Db
db1 = record {
  users = alice ∷ [];
  gateways = gateway1 ∷ [];
  rooms = room1 ∷ [];
  sessions = session_by 1 7 ∷ session_by 2 8 ∷ [];
  dynamic_configs = [];
  room_statistics = [];
  composites = [];
  composites_rooms = [];
}

abbrev pub cache1 : AppCache (Map String User)
cache1 = record {
  gateways = record { by_id = (1, gateway1) ∷ []; by_name = ("gxy1", gateway1) ∷ [] };
  gateway_tokens = record { by_id = [] };
  rooms = record { m = ("1051", room1) ∷ [] };
  users = [];
  dynamic_config = record { m = []; last_modified = 0 };
}

abbrev pub world1 : World (Map String User)
world1 = record { db = db1; cache = cache1; calls = 0; sent = [] }

abbrev pub open_config : Config
open_config = record {
  skip_auth = false;
  skip_events_auth = false;
  skip_permissions = true;
  service_passwords = [];
}

abbrev pub no_tokens : Verifiers String
no_tokens = record {
  compare_hash = λ a b. false;
  verify = λ t. none;
  claims = λ t. none;
  gw_pwd = λ n. none;
}

abbrev pub anonymous : RequestContext
anonymous = record { id_claims = none; service_user = false }

abbrev pub by_service : RequestContext
by_service = record { id_claims = none; service_user = true }
