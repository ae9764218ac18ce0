-- ===== src/Mqtt.antt =====
-- api/mqtt.go: the listener to the broker of messages. The URL of the broker, the client and the
-- broker are libraries': `parse_url` is url.Parse, `connect` is `Connect` with waiting for its end.
pub mod Delivered
pub mod Tests
use gxydb_api.Base.{
  Bool, true, false, ◌||◌, String, ◌⊎◌, inl, inr, Option, none, some, ◌==◌, string_eq,
  if◌then◌else◌,
}
use gxydb_api.Errors.{Error, wrap, Outcome, ok, err, panic}
use gxydb_api.Cache.DynamicConfigs
use gxydb_api.Cache.DynamicConfigs.{DynamicConfigCache}
use gxydb_api.World.{Env, World, Action, Try}
use gxydb_api.Statistics.{ServiceMessage, handle_message}

-- `url.Userinfo`
pub record Userinfo : Type 0 where
  pub username : String
  pub password : Option String

-- `url.URL`: who logs in, and the rest.
pub record BrokerUrl : Type 0 where
  pub user : Option Userinfo
  pub rest : String

-- The value of the key `mqtt_auth`, or an empty text.
abbrev pub broker_password : DynamicConfigCache → String
broker_password configs = elim (DynamicConfigs.find "mqtt_auth" configs) [
  | none ↦ ""
  | some config ↦ config.value
]

-- A password of the dynamic configuration takes the place of that in the URL.
unfoldable pub with_password : String → BrokerUrl → BrokerUrl
with_password password url = if password == "" then url else record url {
  user = some (record {
    username = elim url.user [ none ↦ "gxydb-api" | some info ↦ info.username ];
    password = some password;
  });
}

-- What the client is made with. The client acknowledges a message by itself when its handler has
-- returned, unless `SetAutoAckDisabled` is called.
pub record ClientOptions : Type 0 where
  pub broker : BrokerUrl
  pub client_id : String
  pub auto_ack : Bool

-- `Start` leaves the automatic acknowledgement on.
abbrev pub client_options : BrokerUrl → String → ClientOptions
client_options broker client_id = record { broker = broker; client_id = client_id; auto_ack = true }

-- `Start`
unfoldable pub start :
    (String → Try BrokerUrl)
    → (ClientOptions → Option Error)
    → String
    → String
    → DynamicConfigCache
    → Try (Unit {0})
start parse_url connect broker_url client_id configs = elim (parse_url broker_url) [
  | inl e ↦ inl (wrap e "url.Parse broker url")
  | inr url ↦
      elim (connect (client_options (with_password (broker_password configs) url) client_id)) [
        | some e ↦ inl (wrap e "mqtt.client Connect")
        | none ↦ inr tt
      ]
]

-- `HandleServiceProtocol`: whether it calls `Ack`.
unfoldable pub handle_service_protocol :
    {C : Type 0} → Env → (String → String ⊎ ServiceMessage) → String → Action C Bool
handle_service_protocol env decode payload w =
    let (r, v) = handle_message env decode payload w in
    elim r [ ok _ ↦ (ok true, v) | err _ ↦ (ok false, v) | panic p ↦ (panic p, v) ]

-- The client's call of the handler: whether the broker then has the acknowledgement of the message,
-- and so does not deliver it again.
unfoldable pub deliver :
    {C : Type 0} → Env → (String → String ⊎ ServiceMessage) → ClientOptions → String → Action C Bool
deliver env decode options payload w =
    let (r, v) = handle_service_protocol env decode payload w in
    elim r [
      | ok called ↦ (ok (called || options.auto_ack), v)
      | err e ↦ (err e, v)
      | panic p ↦ (panic p, v)
    ]
