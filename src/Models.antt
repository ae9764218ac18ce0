-- ===== src/Models.antt =====
-- The rows of the database: the structs of models/*.go without their relations (`R`, `L`).
-- A nullable column is an `Option`, a time is a number of nanoseconds, a JSON column is its text.
-- Where models/*.go still has the type of a column before it became text (`rooms.gateway_uid`,
-- `sessions.gateway_feed`), the type is that with which the handlers use it.
use gxydb_api.Base.{ℕ, Bool, List, String, Option}
use gxydb_api.Base.Int.{ℤ}

pub record User : Type 0 where
  pub id : ℕ
  pub accounts_id : String
  pub email : Option String
  pub first_name : Option String
  pub last_name : Option String
  pub username : Option String
  pub disabled : Bool
  pub properties : Option String
  pub created_at : ℕ
  pub updated_at : Option ℕ
  pub removed_at : Option ℕ

pub record Gateway : Type 0 where
  pub id : ℕ
  pub name : String
  pub description : Option String
  pub url : String
  pub admin_url : String
  pub admin_password : String
  pub disabled : Bool
  pub properties : Option String
  pub created_at : ℕ
  pub updated_at : Option ℕ
  pub removed_at : Option ℕ
  pub events_password : String
  pub kind : String

pub record Room : Type 0 where
  pub id : ℕ
  pub name : String
  pub default_gateway_id : ℕ
  pub gateway_uid : String
  pub disabled : Bool
  pub properties : Option String
  pub created_at : ℕ
  pub updated_at : Option ℕ
  pub removed_at : Option ℕ
  pub extra : Option String
  pub region : Option String

pub record Session : Type 0 where
  pub id : ℕ
  pub user_id : ℕ
  pub room_id : Option ℕ
  pub gateway_id : Option ℕ
  pub gateway_session : Option ℤ
  pub gateway_handle : Option ℤ
  pub gateway_feed : Option String
  pub display : Option String
  pub camera : Bool
  pub question : Bool
  pub self_test : Bool
  pub sound_test : Bool
  pub user_agent : Option String
  pub ip_address : Option String
  pub properties : Option String
  pub created_at : ℕ
  pub updated_at : Option ℕ
  pub removed_at : Option ℕ
  pub extra : Option String
  pub gateway_handle_textroom : Option ℤ

pub record DynamicConfig : Type 0 where
  pub id : ℕ
  pub key : String
  pub value : String
  pub updated_at : ℕ

pub record RoomStatistic : Type 0 where
  pub room_id : ℕ
  pub on_air : ℕ

pub record Composite : Type 0 where
  pub id : ℕ
  pub name : String
  pub description : Option String

pub record CompositesRoom : Type 0 where
  pub composite_id : ℕ
  pub room_id : ℕ
  pub gateway_id : ℕ
  pub position : ℕ

-- The tables. A list holds the rows in the order in which the server yields them.
pub record Db : Type 0 where
  pub users : List User
  pub gateways : List Gateway
  pub rooms : List Room
  pub sessions : List Session
  pub dynamic_configs : List DynamicConfig
  pub room_statistics : List RoomStatistic
  pub composites : List Composite
  pub composites_rooms : List CompositesRoom
