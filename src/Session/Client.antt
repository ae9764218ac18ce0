-- ===== src/Session/Client.antt =====
-- The row that a client's data make, column by column.
use gxydb_api.Base.{ℕ, none, some}
use gxydb_api.Models.{Session, Room, Gateway}
use gxydb_api.World.{Env}
use gxydb_api.Session.Types.{V1User, Codec}

-- An open session of the user, in the room and on the gateway: what the client shows and where it
-- runs is the client's, the address and the extra data as they are stored.
abbrev pub client_row : Env → Codec → V1User → ℕ → Room → Gateway → ℕ → ℕ → ℕ → Session
client_row env codec user uid room gateway now id created = record {
  id = id;
  user_id = uid;
  room_id = some room.id;
  gateway_id = some gateway.id;
  gateway_session = some user.session;
  gateway_handle = some user.handle;
  gateway_handle_textroom = some user.textroom_handle;
  gateway_feed = some user.rfid;
  display = some user.display;
  camera = user.camera;
  question = user.question;
  self_test = user.self_test;
  sound_test = user.sound_test;
  user_agent = some user.system;
  ip_address = env.parse_ip user.ip;
  extra = codec.marshal_extra user.extra;
  properties = none;
  created_at = created;
  updated_at = some now;
  removed_at = none;
}
