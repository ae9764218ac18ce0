-- ===== src/Admin/Rooms.antt =====
-- api/api_admin.go: the transactions of the handlers of rooms, the statements that they run, and what
-- the gateways are told in them; the handlers are in Admin/RoomHandlers.
use gxydb_api.Base.{
  ℕ, ◌+◌, Bool, not, ◌&&◌, ◌||◌, String, List, [], ◌∷◌, ◌++◌, inl, inr, Option, none, some, ◌==◌,
  nat_eq, string_eq, if◌then◌else◌, ltb, length, any, first?, map,
}
use gxydb_api.Base.Int.{ℤ, pos, negsuc, int_eq}
use gxydb_api.Base.Text.{chars, byte_length}
use gxydb_api.Errors.{Error, foreign, no_rows, http_error, wrap, ok, err, panic}
use gxydb_api.Models.{Gateway, Room, Db}
use gxydb_api.Cache.Gateways
use gxydb_api.Cache.Gateways.{GatewayCache}
use gxydb_api.Cache.Rooms
use gxydb_api.World.{
  Env, Action, Try, pure, fail, ◌>>=◌, ◌>>◌, query, clock, counted, RoomRequest, create_room,
  edit_room, destroy_room,
}
use gxydb_api.Tx.{in_tx}
use gxydb_api.Session.Table.{is_null}
use gxydb_api.Statistics.{or_stack}
use gxydb_api.V1.{Answer, aborted, answered, abort_http}

-- What is read of the body of a request.
pub record RoomData : Type 0 where
  pub name : String
  pub default_gateway_id : ℤ
  pub gateway_uid : String
  pub disabled : Bool
  pub region : Option String

abbrev pub find_gateway : ℤ → GatewayCache → Option Gateway
find_gateway (pos id) gateways = Gateways.find id gateways
find_gateway (negsuc _) gateways = none

abbrev pub id_of : ℤ → ℕ
id_of (pos id) = id
id_of (negsuc _) = 0

abbrev pub has_name : RoomData → Bool
has_name input = not (input.name == "") && not (ltb 64 (byte_length input.name))

abbrev pub exists_room : (Room → Bool) → Db → Try (Bool × Db)
exists_room test db = inr (any test db.rooms, db)

-- `models.FindRoom`
abbrev pub select_room : ℤ → Db → Try (Room × Db)
select_room id db = elim (first? (λ r. pos r.id == id) db.rooms) [
  | none ↦ inl no_rows
  | some r ↦ inr (r, db)
]

-- The constraints of the table on a row that is written: the width of the name, which is unique, as
-- is the uid, and the key of the gateway.
abbrev pub fits_table : Room → Db → Bool
fits_table r db =
    not (ltb 64 (length (chars r.name)))
    && not (
        any
          (λ old. not (old.id == r.id) && (old.name == r.name || old.gateway_uid == r.gateway_uid))
          db.rooms)
    && any (λ g. g.id == r.default_gateway_id) db.gateways

abbrev pub constraint_violation : Error
constraint_violation = foreign "models: the row violates a constraint of the table rooms"

-- `data.Insert` and `room.Update` on the columns that the handlers name.
unfoldable pub insert_room : Room → Db → Try (Room × Db)
insert_room r db =
    if fits_table r db
    then inr (r, record db { rooms = db.rooms ++ r ∷ [] })
    else inl constraint_violation

abbrev changed_columns : Room → Room → Room
changed_columns old r = record old {
  name = r.name;
  default_gateway_id = r.default_gateway_id;
  disabled = r.disabled;
  region = r.region;
  updated_at = r.updated_at;
}

unfoldable pub update_room : Room → Db → Try (Unit {0} × Db)
update_room r db =
    if fits_table r db
    then inr (
      tt,
      record db {
        rooms = map (λ old. if old.id == r.id then changed_columns old r else old) db.rooms;
      },
    )
    else inl constraint_violation

unfoldable pub remove_room : ℕ → ℕ → Db → Try (Unit {0} × Db)
remove_room id now db = inr (
  tt,
  record db {
    rooms =
        map (λ old. if old.id == id then (record old { removed_at = some now }) else old) db.rooms;
  },
)

-- The gateways that a handler tells of a change.
abbrev pub hosts_rooms : Gateway → Bool
hosts_rooms g = not g.disabled && is_null g.removed_at && g.kind == "rooms"

abbrev pub changed_room : Room → RoomData → ℕ → Room
changed_room room input now = record room {
  name = input.name;
  default_gateway_id = id_of input.default_gateway_id;
  disabled = input.disabled;
  region = input.region;
  updated_at = some now;
}

module _ {C : Type 0} (env : Env) where
  -- `GatewayAdminAPIRegistry.For`, a call that may fail, and `api.MessagePlugin`.
  unfoldable pub tell_gateway : RoomRequest → Gateway → Action C (Unit {0})
  tell_gateway request g w = elim (env.fault w.calls) [
    | some e ↦ (err (wrap e "Admin API for gateway"), counted w)
    | none ↦ elim (env.fault (w.calls + 1)) [
      | some e ↦ (err (wrap e "api.MessagePlugin [videoroom]"), counted (counted w))
      | none ↦ (
        ok tt,
        record w {
          calls = w.calls + 1 + 1;
          sent = record { gateway_id = g.id; request = request } ∷ w.sent;
        },
      )
    ]
  ]

  unfoldable pub tell_gateways : RoomRequest → List Gateway → Action C (Unit {0})
  tell_gateways request [] = pure tt
  tell_gateways request (g ∷ gs) =
      let rest = tell_gateways request gs in
      if hosts_rooms g then tell_gateway request g >> rest else rest

  -- The loop over `a.cache.gateways.Values()`.
  unfoldable pub tell_all : RoomRequest → Action C (Unit {0})
  tell_all request w = tell_gateways request (Gateways.all w.cache.gateways) w

  -- `a.cache.rooms.Reload(a.DB)`; an error is logged only.
  unfoldable pub reload_rooms : Action C (Unit {0})
  reload_rooms = query env (λ db. inr (db.rooms, db)) >>= λ r. elim r [
    | inl e ↦ pure tt
    | inr rooms ↦ λ w. (ok tt, record w { cache = record (w.cache) { rooms = Rooms.reload rooms } })
  ]

  -- Run a transaction, reload the cache if it succeeded, and answer.
  unfoldable pub commit_room : {A : Type 0} → Action C A → Action C (Answer A)
  commit_room body w =
      let (r, u) = in_tx env body w in
      elim r [
        | ok a ↦ (reload_rooms >> pure (answered a)) u
        | err e ↦ (ok (abort_http e), u)
        | panic p ↦ (panic p, u)
      ]

  -- The test of a query whose error is ignored.
  abbrev pub unless_exists :
      {A : Type 0} → (Room → Bool) → Action C (Answer A) → Action C (Answer A)
  unless_exists test m = query env (exists_room test) >>= λ r. elim r [
    | inl e ↦ m
    | inr exists ↦ if exists then pure (aborted 400) else m
  ]

  unfoldable pub store_new_room : RoomData → Action C Room
  store_new_room input w =
      or_stack
        (query env (
          insert_room (record {
            id = env.fresh w.calls;
            name = input.name;
            default_gateway_id = id_of input.default_gateway_id;
            gateway_uid = input.gateway_uid;
            disabled = input.disabled;
            properties = none;
            created_at = env.now w.calls;
            updated_at = none;
            removed_at = none;
            extra = none;
            region = input.region;
          })))
        w

  unfoldable pub create_room_row : RoomData → Action C Room
  create_room_row input = do
    room ← store_new_room input
    tell_all (create_room input.gateway_uid input.name)
    pure room

  unfoldable pub update_room_row : Room → RoomData → Action C Room
  update_room_row room input = do
    now ← clock env
    or_stack (query env (update_room (changed_room room input now)))
    (if not (room.name == input.name) && is_null room.removed_at
        then tell_all (edit_room input.gateway_uid input.name)
        else pure tt)
    pure (changed_room room input now)

  abbrev pub or_http : Action C (Try (Unit {0})) → Action C (Unit {0})
  or_http m = m >>= λ r. elim r [ inl e ↦ fail (http_error 500) | inr a ↦ pure a ]

  unfoldable pub remove_room_row : Room → Action C (Unit {0})
  remove_room_row room = do
    now ← clock env
    or_http (query env (remove_room room.id now))
    tell_all (destroy_room room.gateway_uid)
