-- ===== src/Statistics.antt =====
-- domain/room_statistics.go and api/service_protocol.go: how often a room was on air, and the
-- message of the service that counts it.
pub mod Counting
pub mod Failing
pub mod Tests
use gxydb_api.Base.{
  ℕ, ◌+◌, ◌^◌, Bool, true, false, ◌&&◌, String, List, [], ◌∷◌, ◌++◌, ◌⊎◌, inl, inr, Option, none,
  some, ◌==◌, nat_eq, string_eq, if◌then◌else◌, ltb, first?, any, map, elem,
}
use gxydb_api.Base.Text.{append}
use gxydb_api.Errors.{
  Error, no_rows, foreign, with_stack, protocol, protocol_of, wrap, Outcome, ok, err, panic,
}
use gxydb_api.Models.{RoomStatistic, Room, Db}
use gxydb_api.Cache.Rooms
use gxydb_api.World.{Env, World, Action, pure, fail, ◌>>=◌, ◌>>◌, Try, query, wrapping}
use gxydb_api.Tx.{in_tx}

-- `err == sql.ErrNoRows`
abbrev pub same_no_rows : Error → Bool
same_no_rows no_rows = true
same_no_rows _ = false

-- `models.FindRoomStatistic(tx, roomID)`
abbrev pub select_statistic : ℕ → Db → Try (RoomStatistic × Db)
select_statistic room_id db = elim (first? (λ s. s.room_id == room_id) db.room_statistics) [
  | none ↦ inl no_rows
  | some s ↦ inr (s, db)
]

-- `roomStats.Insert(tx, boil.Infer())`: the key is unique and refers to a room.
abbrev pub insert_statistic : RoomStatistic → Db → Try (RoomStatistic × Db)
insert_statistic s db =
    if any (λ t. t.room_id == s.room_id) db.room_statistics
    then inl (foreign "models: unable to insert into room_statistics: duplicate key value")
    else if elem s.room_id (map (λ r. r.id) db.rooms)
    then inr (s, record db { room_statistics = db.room_statistics ++ s ∷ [] })
    else inl
        (foreign "models: unable to insert into room_statistics: violates foreign key constraint")

abbrev pub put_statistic : RoomStatistic → List RoomStatistic → List RoomStatistic
put_statistic s [] = []
put_statistic s (t ∷ ts) = (if t.room_id == s.room_id then s else t) ∷ put_statistic s ts

-- `roomStats.Update(tx, boil.Infer())`: the column `on_air` is an INTEGER.
abbrev pub update_statistic : RoomStatistic → Db → Try (Unit {0} × Db)
update_statistic s db =
    if ltb s.on_air (2 ^ 31)
    then inr (tt, record db { room_statistics = put_statistic s db.room_statistics })
    else inl (foreign "models: unable to update room_statistics row: integer out of range")

-- `if err != nil { return pkgerr.WithStack(err) }`
abbrev pub or_stack : {C A : Type 0} → Action C (Try A) → Action C A
or_stack m = m >>= λ r. elim r [ inl e ↦ fail (with_stack e) | inr a ↦ pure a ]

-- `V1ServiceProtocolMessageText` of api/types.go, without the fields that no code reads.
pub record ServiceMessage : Type 0 where
  pub kind : String
  pub status : Bool
  pub room : Option String

-- `roomStats.OnAir++`: what was read is below 2^31, so that the Go `int` does not wrap.
unfoldable pub incremented : RoomStatistic → RoomStatistic
incremented s = record s { on_air = s.on_air + 1 }

module _ {C : Type 0} (env : Env) where
  -- The body of the transaction of `getOrCreate`.
  unfoldable pub find_or_insert : ℕ → Action C RoomStatistic
  find_or_insert room_id = do
    r ← query env (select_statistic room_id)
    elim r [
      | inr s ↦ pure s
      | inl e ↦
          if same_no_rows e
          then or_stack (query env (insert_statistic (record { room_id = room_id; on_air = 0 })))
          else fail (with_stack e)
    ]

  unfoldable pub get_or_create : ℕ → Action C RoomStatistic
  get_or_create room_id = in_tx env (find_or_insert room_id)

  unfoldable pub write : RoomStatistic → Action C (Unit {0})
  write s = or_stack (query env (update_statistic s))

  unfoldable pub update : RoomStatistic → Action C (Unit {0})
  update s = in_tx env (write s)

  unfoldable pub on_air : ℕ → Action C (Unit {0})
  on_air room_id = do
    s ← wrapping "getOrCreate" (get_or_create room_id)
    wrapping "update" (update (incremented s))

  -- `Reset`
  unfoldable pub reset : Action C (Unit {0})
  reset = in_tx env (or_stack (query env (λ db. inr (tt, record db { room_statistics = [] }))))

  abbrev pub count_room : Option String → Action C (Unit {0})
  count_room none w = (err (protocol "no room specified"), w)
  count_room (some uid) w = elim (Rooms.find_uid uid w.cache.rooms) [
    | none ↦ (err (protocol (append (append "unknown room %!d(string=" uid) ")")), w)
    | some room ↦ wrapping "roomsStatisticsManager.OnAir" (on_air room.id) w
  ]

  -- `V1ServiceProtocolHandler.HandleMessage`, once the payload is decoded.
  unfoldable pub handle_decoded : ServiceMessage → Action C (Unit {0})
  handle_decoded msg =
      if msg.kind == "audio-out" && msg.status then count_room msg.room else pure tt

  unfoldable pub handle_message : (String → String ⊎ ServiceMessage) → String → Action C (Unit {0})
  handle_message decode payload = elim (decode payload) [
    | inl e ↦ fail (with_stack (protocol_of (foreign e) (append "json.Unmarshal: " e)))
    | inr msg ↦ handle_decoded msg
  ]
