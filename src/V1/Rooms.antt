-- ===== src/V1/Rooms.antt =====
-- api/api_v1.go: how a user, a room and a composite are made of rows, and the types of api/types.go
-- that hold them. A nil pointer that is dereferenced is a panic; a null column gives Go's zero value.
use gxydb_api.Base.{
  ℕ, ◌/◌, Bool, String, List, [], ◌∷◌, Option, none, some, nat_eq, if◌then◌else◌, ltb, length, any,
}
use gxydb_api.Base.Int.{ℤ, pos}
use gxydb_api.Base.Maps.{Map, get, put, values}
use gxydb_api.Errors.{Outcome, ok, err, panic}
use gxydb_api.Models.{User, Gateway, Room, Session, CompositesRoom}
use gxydb_api.Cache.Gateways
use gxydb_api.Cache.Gateways.{GatewayCache}
use gxydb_api.Session.Types.{V1User}

pub record V1RoomInfo : Type 0 where
  pub room : String
  pub janus : String
  pub description : String

-- `first_session_in_room` is none for the zero time.
pub record V1Room : Type 0 where
  pub info : V1RoomInfo
  pub questions : Bool
  pub num_users : ℕ
  pub users : List V1User
  pub region : String
  pub extra : String
  pub first_session_in_room : Option ℕ

pub record V1CompositeRoom : Type 0 where
  pub v1_room : V1Room
  pub position : ℕ

pub record V1Composite : Type 0 where
  pub v_quad : List V1CompositeRoom

-- A session with the relations that a query loads: none is a nil pointer.
pub record Loaded : Type 0 where
  pub session : Session
  pub user : Option User

-- A row of `composites_rooms` with the room, and its sessions, that the query loads.
pub record LoadedPlace : Type 0 where
  pub place : CompositesRoom
  pub room : Option Room
  pub sessions : List Loaded

abbrev pub text_of : Option String → String
text_of none = ""
text_of (some s) = s

abbrev pub int_of : Option ℤ → ℤ
int_of none = pos 0
int_of (some z) = z

abbrev pub nil_pointer : {A : Type 0} → Outcome A
nil_pointer = panic "nil pointer dereference"

infixl 5 ◌>>=ₒ◌
abbrev pub ◌>>=ₒ◌ : {A B : Type 0} → Outcome A → (A → Outcome B) → Outcome B
ok a >>=ₒ f = f a
err e >>=ₒ f = err e
panic p >>=ₒ f = panic p

abbrev pub or_nil : {A : Type 0} → Option A → Outcome A
or_nil none = nil_pointer
or_nil (some a) = ok a

abbrev pub each : {A B : Type 0} → (A → Outcome B) → List A → Outcome (List B)
each f [] = ok []
each f (a ∷ rest) = f a >>=ₒ λ b. each f rest >>=ₒ λ bs. ok (b ∷ bs)

-- When a session was last active.
unfoldable pub active_at : Session → ℕ
active_at s = elim s.updated_at [ none ↦ s.created_at | some t ↦ t ]

-- The most active session of each user.
abbrev pub keep_latest : Loaded → Map ℕ Loaded → Map ℕ Loaded
keep_latest l m = elim (get l.session.user_id m) [
  | none ↦ put l.session.user_id l m
  | some s ↦
      if ltb (active_at s.session) (active_at l.session) then put l.session.user_id l m else m
]

unfoldable pub latest_from : Map ℕ Loaded → List Loaded → Map ℕ Loaded
latest_from m [] = m
latest_from m (l ∷ ls) = latest_from (keep_latest l m) ls

abbrev pub latest_by_user : List Loaded → Map ℕ Loaded
latest_by_user ls = latest_from [] ls

abbrev pub earlier_of : Option ℕ → ℕ → Option ℕ
earlier_of none t = some t
earlier_of (some s) t = if ltb t s then some t else some s

unfoldable pub first_session : Option ℕ → List Loaded → Option ℕ
first_session first [] = first
first_session first (l ∷ ls) = first_session (earlier_of first l.session.created_at) ls

-- `read_extra` is `json.Unmarshal` to a map, printed again; where it fails the map is nil.
module _ (read_extra : String → String) (gateways : GatewayCache) where
  abbrev extra_of : Option String → String
  extra_of none = "null"
  extra_of (some json) = read_extra json

  -- `user.Janus`
  abbrev janus_of : Option ℕ → Outcome String
  janus_of none = ok ""
  janus_of (some id) = or_nil (Gateways.find id gateways) >>=ₒ λ gateway. ok gateway.name

  unfoldable pub make_v1_user : Option Room → Loaded → Outcome V1User
  make_v1_user room l = or_nil l.user >>=ₒ λ user. or_nil room >>=ₒ λ room.
      janus_of l.session.gateway_id >>=ₒ λ janus. ok (record {
        id = user.accounts_id;
        display = text_of l.session.display;
        email = text_of user.email;
        group = room.name;
        ip = text_of l.session.ip_address;
        janus = janus;
        name = "";
        role = "user";
        system = text_of l.session.user_agent;
        username = text_of user.username;
        room = room.gateway_uid;
        timestamp = pos (l.session.created_at / 1000000000);
        session = int_of l.session.gateway_session;
        handle = int_of l.session.gateway_handle;
        rfid = text_of l.session.gateway_feed;
        textroom_handle = int_of l.session.gateway_handle_textroom;
        camera = l.session.camera;
        question = l.session.question;
        self_test = l.session.self_test;
        sound_test = l.session.sound_test;
        extra = extra_of l.session.extra;
      })

  -- `makeV1Room` of a room, with the gateway if the caller has one, and the sessions loaded for it.
  unfoldable pub make_v1_room : Option Room → Option Gateway → List Loaded → Outcome V1Room
  make_v1_room room gateway sessions = or_nil room >>=ₒ λ r.
      let home : Option Gateway = elim gateway [
        | none ↦ Gateways.find r.default_gateway_id gateways
        | some g ↦ some g
      ] in
      or_nil home >>=ₒ λ g.
      let latest = values (latest_by_user sessions) in
      each (make_v1_user (some r)) latest >>=ₒ λ users. ok (record {
        info = record { room = r.gateway_uid; janus = g.name; description = r.name };
        questions = any (λ l. l.session.question) latest;
        num_users = length latest;
        users = users;
        region = text_of r.region;
        extra = extra_of r.extra;
        first_session_in_room = first_session none latest;
      })

  abbrev make_place : LoadedPlace → Outcome V1CompositeRoom
  make_place p =
      make_v1_room p.room (Gateways.find p.place.gateway_id gateways) p.sessions >>=ₒ λ room.
      ok (record { v1_room = room; position = p.place.position })

  unfoldable pub make_v1_composite : List LoadedPlace → Outcome V1Composite
  make_v1_composite places = each make_place places >>=ₒ λ rooms. ok (record { v_quad = rooms })
