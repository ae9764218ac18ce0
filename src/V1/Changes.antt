-- ===== src/V1/Changes.antt =====
-- api/api_v1.go: the handlers that change a group, a room and a composite, and the statements of
-- models/rooms.go, models/composites.go and models/composites_rooms.go that they run.
use gxydb_api.Base.{
  ℕ, ◌+◌, Bool, false, not, ◌&&◌, String, List, [], ◌∷◌, ◌++◌, ◌⊎◌, inl, inr, Option, none, some,
  ◌==◌, nat_eq, string_eq, if◌then◌else◌, ltb, length, select, any, first?, map,
}
use gxydb_api.Base.Text.{chars, byte_length}
use gxydb_api.Base.Maps.{put}
use gxydb_api.Errors.{foreign, http_error, with_stack, wrap, ok, err, panic}
use gxydb_api.Models.{Gateway, Room, CompositesRoom, Db}
use gxydb_api.Cache.Gateways
use gxydb_api.Cache.Rooms
use gxydb_api.World.{Env, Action, Try, pure, fail, ◌>>=◌, ◌>>◌, query}
use gxydb_api.Tx.{in_tx}
use gxydb_api.Auth.{Config, Verifiers, RequestContext}
use gxydb_api.Auth.Roles.{role_shidur, role_root}
use gxydb_api.Statistics.{or_stack}
use gxydb_api.V1.{Answer, aborted, answering, abort_http, abort_internal, as_role}
use gxydb_api.V1.Rooms.{V1RoomInfo}
use gxydb_api.V1.Reads.{found_or_abort, one}

-- `Room.Upsert`, all columns but the key taken from the new row; the row that is stored comes back.
abbrev replace_room : Room → List Room → List Room
replace_room r [] = []
replace_room r (old ∷ rooms) =
    (if old.gateway_uid == r.gateway_uid then (record r { id = old.id }) else old)
    ∷ replace_room r rooms

abbrev stored_room : Room → List Room → Room
stored_room r rooms = elim (first? (λ old. old.gateway_uid == r.gateway_uid) rooms) [
  | none ↦ r
  | some old ↦ record r { id = old.id }
]

unfoldable pub upsert_room : Room → Db → Try (Room × Db)
upsert_room r db =
    if ltb 64 (length (chars r.name))
    then inl
        (foreign "models: unable to upsert rooms: value too long for type character varying(64)")
    else if any (λ old. old.name == r.name && not (old.gateway_uid == r.gateway_uid)) db.rooms
    then inl (foreign "models: unable to upsert rooms: duplicate key value")
    else if not (any (λ g. g.id == r.default_gateway_id) db.gateways)
    then inl (foreign "models: unable to upsert rooms: violates foreign key constraint")
    else inr (
      stored_room r db.rooms,
      record db {
        rooms =
            if any (λ old. old.gateway_uid == r.gateway_uid) db.rooms
            then replace_room r db.rooms
            else db.rooms ++ r ∷ [];
      },
    )

-- `Room.Update` of the column `extra`.
abbrev pub update_extra : Room → Db → Try (Unit {0} × Db)
update_extra r db = inr (
  tt,
  record db {
    rooms = map (λ old. if old.id == r.id then (record old { extra = r.extra }) else old) db.rooms;
  },
)

-- `composite.CompositesRooms().DeleteAll(tx)`
abbrev pub delete_places : ℕ → Db → Try (Unit {0} × Db)
delete_places id db = inr (
  tt,
  record db { composites_rooms = select (λ p. not (p.composite_id == id)) db.composites_rooms },
)

abbrev same_place : CompositesRoom → CompositesRoom → Bool
same_place p q =
    p.composite_id == q.composite_id
    && p.room_id == q.room_id
    && p.gateway_id == q.gateway_id
    && p.position == q.position

-- `rel.Insert(exec, boil.Infer())`
unfoldable pub insert_place : CompositesRoom → Db → Try (Unit {0} × Db)
insert_place p db =
    if any (same_place p) db.composites_rooms
    then inl (foreign "models: unable to insert into composites_rooms: duplicate key value")
    else if any (λ c. c.id == p.composite_id) db.composites
        && any (λ r. r.id == p.room_id) db.rooms
        && any (λ g. g.id == p.gateway_id) db.gateways
    then inr (tt, record db { composites_rooms = db.composites_rooms ++ p ∷ [] })
    else inl
        (foreign "models: unable to insert into composites_rooms: violates foreign key constraint")

abbrev pub group_row : V1RoomInfo → Gateway → String → ℕ → ℕ → Room
group_row info gateway uid id now = record {
  id = id;
  name = info.description;
  default_gateway_id = gateway.id;
  gateway_uid = uid;
  disabled = false;
  properties = none;
  created_at = now;
  updated_at = none;
  removed_at = none;
  extra = none;
  region = none;
}

-- The rows of the items of a request, a nil item without one, or why there are none.
unfoldable pub places_from :
    Gateways.GatewayCache
    → Rooms.RoomCache
    → ℕ
    → ℕ
    → List (Option V1RoomInfo)
    → Try (List (Option CompositesRoom))
places_from gateways rooms id position [] = inr []
places_from gateways rooms id position (item ∷ items) =
    let rest = places_from gateways rooms id (position + 1) items in
    elim item [
      | none ↦ elim rest [ inl e ↦ inl e | inr places ↦ inr (none ∷ places) ]
      | some info ↦ elim (Gateways.find_name info.janus gateways) [
        | none ↦ inl (http_error 400)
        | some gateway ↦ elim (Rooms.find_uid info.room rooms) [
          | none ↦ inl (http_error 400)
          | some room ↦ elim rest [
            | inl e ↦ inl e
            | inr places ↦ inr (
                some (record {
                  composite_id = id;
                  room_id = room.id;
                  gateway_id = gateway.id;
                  position = position;
                })
                ∷ places)
          ]
        ]
      ]
    ]

module _ {Token C : Type 0} (config : Config) (v : Verifiers Token) (env : Env) where
  abbrev cache_room : Room → Action C (Unit {0})
  cache_room r w =
      (ok tt, record w { cache = record (w.cache) { rooms = Rooms.set r w.cache.rooms } })

  unfoldable pub store_group : V1RoomInfo → Gateway → String → Action C (Unit {0})
  store_group info gateway uid w =
      (or_stack (
            query env
              (upsert_room (group_row info gateway uid (env.fresh w.calls) (env.now w.calls))))
          >>= cache_room)
        w

  -- `V1CreateGroup`; the number in the path, printed again, or none.
  unfoldable pub v1_create_group :
      RequestContext → Option String → ℕ ⊎ V1RoomInfo → Action C (Answer (Unit {0}))
  v1_create_group c id body = as_role config v (role_root ∷ []) c (elim id [
    | none ↦ pure (aborted 400)
    | some uid ↦ elim body [
      | inl code ↦ pure (aborted code)
      | inr info ↦ λ w. elim (Gateways.find_name info.janus w.cache.gateways) [
        | none ↦ (ok (aborted 400), w)
        | some gateway ↦
            answering abort_internal (λ _ u. u) (in_tx env (store_group info gateway uid)) w
      ]
    ]
  ])

  -- The row in the cache is the one that the handler changes.
  abbrev change_cached : String → Room → Action C (Unit {0})
  change_cached uid r w = (
    ok tt,
    record w { cache = record (w.cache) { rooms = record { m = put uid r w.cache.rooms.m } } },
  )

  -- `V1UpdateRoom`: the text of the field `extra` of the body. The body `null` is a nil pointer.
  unfoldable pub v1_update_room :
      RequestContext → String → ℕ ⊎ Option String → Action C (Answer (Unit {0}))
  v1_update_room c uid body = as_role config v (role_shidur ∷ []) c λ w.
      elim (Rooms.find_uid uid w.cache.rooms) [
        | none ↦ (ok (aborted 404), w)
        | some room ↦ elim body [
          | inl code ↦ (ok (aborted code), w)
          | inr none ↦ (panic "nil pointer dereference", w)
          | inr (some extra) ↦
              let next : Room = record room { extra = some extra } in
              (change_cached uid next
                  >> answering abort_http (λ _ u. u)
                      (in_tx env (or_stack (query env (update_extra next)))))
                w
        ]
      ]

  -- `AddCompositesRooms`, which dereferences each row.
  unfoldable pub add_places : List (Option CompositesRoom) → Action C (Unit {0})
  add_places [] = pure tt
  add_places (none ∷ places) = λ w. (panic "nil pointer dereference", w)
  add_places (some p ∷ places) =
      (query env (insert_place p) >>= λ r. elim r [
        | inl e ↦ fail (wrap e "failed to insert into foreign table")
        | inr u ↦ pure u
      ])
      >> add_places places

  abbrev stacking : Action C (Unit {0}) → Action C (Unit {0})
  stacking m w =
      let (r, u) = m w in
      elim r [ ok a ↦ (ok a, u) | err e ↦ (err (with_stack e), u) | panic p ↦ (panic p, u) ]

  unfoldable pub store_places : ℕ → List (Option V1RoomInfo) → Action C (Unit {0})
  store_places id items w = elim (places_from w.cache.gateways w.cache.rooms id 1 items) [
    | inl e ↦ (err e, w)
    | inr places ↦ (or_stack (query env (delete_places id)) >> stacking (add_places places)) w
  ]

  -- `V1UpdateComposite`
  unfoldable pub v1_update_composite :
      RequestContext → String → ℕ ⊎ List (Option V1RoomInfo) → Action C (Answer (Unit {0}))
  v1_update_composite c name body = as_role config v (role_shidur ∷ []) c (
      if ltb 16 (byte_length name) then pure (aborted 400) else (elim body [
        | inl code ↦ pure (aborted code)
        | inr items ↦
            found_or_abort (query env (λ db. one (select (λ k. k.name == name) db.composites) db))
              λ composite.
                answering abort_http (λ _ u. u) (in_tx env (store_places composite.id items))
      ]))
