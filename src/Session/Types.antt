-- ===== src/Session/Types.antt =====
-- What gateways and clients send: the types of api/types.go that api/session.go reads, and the
-- decoding of JSON that it leaves to `encoding/json`.
use gxydb_api.Base.{Bool, String, Option, ◌⊎◌}
use gxydb_api.Base.Int.{ℤ}
use gxydb_api.Base.Maps.{Map}

pub record V1User : Type 0 where
  pub id : String
  pub display : String
  pub email : String
  pub group : String
  pub ip : String
  pub janus : String
  pub name : String
  pub role : String
  pub system : String
  pub username : String
  pub room : String
  pub timestamp : ℤ
  pub session : ℤ
  pub handle : ℤ
  pub rfid : String
  pub textroom_handle : ℤ
  pub camera : Bool
  pub question : Bool
  pub self_test : Bool
  pub sound_test : Bool
  -- the map as JSON text
  pub extra : String

pub record V1ProtocolMessageText : Type 0 where
  pub kind : String
  pub status : Bool
  pub room : ℤ
  pub user : V1User

-- A value of a `map[string]interface{}`.
pub data Value : Type 0 where
  nil other : Value
  text : String → Value

-- A `*janus.PluginEvent`, or an event of another type.
pub data Event : Type 0 where
  plugin_event : String → Map String Value → Event
  other_event : Event

-- `json.Unmarshal`, with its error's text, and `json.Marshal` of `Extra`.
pub record Codec : Type 0 where
  pub decode_message : String → String ⊎ V1ProtocolMessageText
  pub decode_user : String → String ⊎ V1User
  pub marshal_extra : String → Option String
