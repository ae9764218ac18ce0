-- ===== src/V1/Reads.antt =====
-- api/api_v1.go: the handlers that read. A query and the queries for the relations that it loads are
-- one statement. Where a sort leaves the order of equal items open, they stay in their order.
use Prim.Native.Char.{Char, code}
use gxydb_api.Base.{
  ℕ, Bool, true, false, not, ◌&&◌, ◌||◌, String, List, [], ◌∷◌, inl, inr, Option, none, some, ◌==◌,
  nat_eq, string_eq, if◌then◌else◌, ltb, length, select, any, elem, first?, map, sort_by,
}
use gxydb_api.Base.Text.{chars, byte_length}
use gxydb_api.Base.Maps.{Map, put}
use gxydb_api.Errors.{no_rows, is_no_rows, foreign, Outcome, ok}
use gxydb_api.Models.{User, Room, Session, Composite, CompositesRoom, Db}
use gxydb_api.Cache.Gateways
use gxydb_api.Cache.Rooms
use gxydb_api.World.{Env, Action, Try, pure, ◌>>=◌, query}
use gxydb_api.Session.Table.{is_open, is_null}
use gxydb_api.Session.Types.{V1User}
use gxydb_api.V1.{Answer, aborted, answered}
use gxydb_api.V1.Rooms.{
  V1RoomInfo, V1Room, V1Composite, Loaded, LoadedPlace, make_v1_user, make_v1_room,
  make_v1_composite, each, ◌>>=ₒ◌, or_nil,
}

-- A query whose error is an internal one, or, if it found no row, that nothing was found.
abbrev pub found_or_abort :
    {C A B : Type 0} → Action C (Try A) → (A → Action C (Answer B)) → Action C (Answer B)
found_or_abort m f = m >>= λ r. elim r [
  | inl e ↦ if is_no_rows e then pure (aborted 404) else pure (aborted 500)
  | inr a ↦ f a
]

abbrev pub rows_or_abort :
    {C A B : Type 0} → Action C (Try A) → (A → Action C (Answer B)) → Action C (Answer B)
rows_or_abort m f = m >>= λ r. elim r [ inl e ↦ pure (aborted 500) | inr a ↦ f a ]

abbrev pub reply_with : {C A : Type 0} → Outcome A → Action C (Answer A)
reply_with r w = (r >>=ₒ λ a. ok (answered a), w)

abbrev pub reading : {C A : Type 0} → Env → (Db → A) → Action C (Try A)
reading env f = query env (λ db. inr (f db, db))

-- The first row, or that there is none.
abbrev pub one : {A : Type 0} → List A → Db → Try (A × Db)
one [] db = inl no_rows
one (a ∷ rows) db = inr (a, db)

abbrev load_user : Db → Session → Loaded
load_user db s = record { session = s; user = first? (λ u. u.id == s.user_id) db.users }

abbrev pub in_room : ℕ → Session → Bool
in_room id s = elim s.room_id [ none ↦ false | some r ↦ r == id ]

-- The open sessions of a room with their users.
abbrev pub sessions_in : Db → ℕ → List Loaded
sessions_in db id = map (load_user db) (select (λ s. in_room id s && is_open s) db.sessions)

abbrev room_of : Db → Session → Option Room
room_of db s = elim s.room_id [ none ↦ none | some id ↦ first? (λ r. r.id == id) db.rooms ]

abbrev is_live : Room → Bool
is_live r = not r.disabled && is_null r.removed_at

abbrev pub user_ids : List Session → List ℕ → List ℕ
user_ids [] ids = ids
user_ids (s ∷ ss) ids = user_ids ss (if elem s.user_id ids then ids else s.user_id ∷ ids)

-- `count(distinct user_id)` of a room's open sessions; none if there is no group for the room.
abbrev pub count_users : Db → ℕ → ℕ
count_users db id = length (user_ids (select (λ s. in_room id s && is_open s) db.sessions) [])

-- A group for the room NULL cannot be scanned into an `int64`.
abbrev scan_counts : Db → Try ((ℕ → ℕ) × Db)
scan_counts db =
    if any (λ s. is_open s && is_null s.room_id) db.sessions
    then inl (foreign "sql: Scan error on column index 0: converting NULL to int64 is unsupported")
    else inr (count_users db, db)

-- `<` of strings: the order of their bytes is that of their code points.
abbrev less_chars : List Char → List Char → Bool
less_chars [] [] = false
less_chars [] (d ∷ t) = true
less_chars (c ∷ s) [] = false
less_chars (c ∷ s) (d ∷ t) = ltb (code c) (code d) || (code c == code d && less_chars s t)

abbrev pub less_text : String → String → Bool
less_text s t = less_chars (chars s) (chars t)

-- `V1RoomInfo` and `NumUsers` of a group.
pub record Group : Type 0 where
  pub info : V1RoomInfo
  pub num_users : ℕ

-- The sort looks at every item, if there are two, and so dereferences each.
abbrev pub sorted_groups : List (Option Group) → Outcome (List (Option Group))
sorted_groups [] = ok []
sorted_groups (g ∷ []) = ok (g ∷ [])
sorted_groups (g ∷ h ∷ gs) = each or_nil (g ∷ h ∷ gs) >>=ₒ λ groups.
    ok (map some (sort_by (λ a b. less_text a.info.description b.info.description) groups))

-- The entry of a room of the cache stays nil if the cache has not its gateway.
abbrev group_of : Gateways.GatewayCache → (ℕ → ℕ) → Room → Option Group
group_of gateways counts r = elim (Gateways.find r.default_gateway_id gateways) [
  | none ↦ none
  | some g ↦ some (record {
    info = record { room = r.gateway_uid; janus = g.name; description = r.name };
    num_users = counts r.id;
  })
]

abbrev before_room : V1Room → V1Room → Bool
before_room a b = elim a.first_session_in_room [
  | none ↦ not (is_null b.first_session_in_room)
  | some s ↦ elim b.first_session_in_room [ none ↦ false | some t ↦ ltb s t ]
]

-- The live rooms, with their open sessions.
abbrev rooms_with_sessions : Db → List (Room × List Loaded)
rooms_with_sessions db = map (λ r. (r, sessions_in db r.id)) (select is_live db.rooms)

abbrev occupied : Room × List Loaded → Bool
occupied (r, sessions) = not (length sessions == 0)

abbrev add_user :
    (String → String)
    → List (Loaded × Option Room)
    → Gateways.GatewayCache
    → Outcome (Map String V1User)
    → Outcome (Map String V1User)
add_user read_extra [] gateways users = users
add_user read_extra ((l, room) ∷ ls) gateways users = add_user read_extra ls gateways (
    users >>=ₒ λ m. or_nil l.user >>=ₒ λ u.
    make_v1_user read_extra gateways room l >>=ₒ λ made. ok (put u.accounts_id made m))

-- ORDER BY updated_at DESC puts NULL first.
abbrev updated_later : Session → Session → Bool
updated_later s t = elim s.updated_at [
  | none ↦ not (is_null t.updated_at)
  | some a ↦ elim t.updated_at [ none ↦ false | some b ↦ ltb b a ]
]

abbrev active_user : String → User → Bool
active_user id u = u.accounts_id == id && not u.disabled && is_null u.removed_at

-- A room that is not live is not loaded.
abbrev load_place : Db → CompositesRoom → LoadedPlace
load_place db place = record {
  place = place;
  room = first? (λ r. r.id == place.room_id && is_live r) db.rooms;
  sessions = sessions_in db place.room_id;
}

abbrev places_of : Db → Composite → List LoadedPlace
places_of db c =
    map (load_place db) (select (λ place. place.composite_id == c.id) db.composites_rooms)

abbrev in_order : LoadedPlace → LoadedPlace → Bool
in_order a b = ltb a.place.position b.place.position

abbrev add_composite :
    (String → String)
    → List (Composite × List LoadedPlace)
    → Gateways.GatewayCache
    → Outcome (Map String V1Composite)
    → Outcome (Map String V1Composite)
add_composite read_extra [] gateways made = made
add_composite read_extra ((c, places) ∷ cs) gateways made =
    add_composite read_extra cs gateways
      (made >>=ₒ λ m. make_v1_composite read_extra gateways places >>=ₒ λ v. ok (put c.name v m))

module _ {C : Type 0} (env : Env) (read_extra : String → String) where
  -- `V1ListGroups`, and whether the parameter `with_num_users` is "true".
  unfoldable pub v1_list_groups : Bool → Action C (Answer (List (Option Group)))
  v1_list_groups with_num_users =
      let counted : Action C (Try (ℕ → ℕ)) = query env scan_counts in
      let uncounted : Action C (Try (ℕ → ℕ)) = pure (inr (λ _. 0)) in
      rows_or_abort (if with_num_users then counted else uncounted) λ counts w.
        reply_with
          (sorted_groups (map (group_of w.cache.gateways counts) (Rooms.all w.cache.rooms))) w

  -- `V1ListRooms`
  unfoldable pub v1_list_rooms : Action C (Answer (List V1Room))
  v1_list_rooms = rows_or_abort (reading env rooms_with_sessions) λ rooms w.
      reply_with
        (each (λ (r, sessions). make_v1_room read_extra w.cache.gateways (some r) none sessions)
            (select occupied rooms)
          >>=ₒ λ made. ok (sort_by before_room made))
        w

  -- `V1GetRoom`: the router's pattern always gives an id.
  unfoldable pub v1_get_room : String → Action C (Answer V1Room)
  v1_get_room uid w = elim (Rooms.find_uid uid w.cache.rooms) [
    | none ↦ (ok (aborted 404), w)
    | some cached ↦
        found_or_abort
          (query env (λ db. one (select (λ (r, _). r.id == cached.id) (rooms_with_sessions db)) db))
          (λ (r, sessions) v.
            reply_with (make_v1_room read_extra v.cache.gateways (some r) none sessions) v)
          w
  ]

  -- `V1ListUsers`
  unfoldable pub v1_list_users : Action C (Answer (Map String V1User))
  v1_list_users =
      rows_or_abort
        (reading env (λ db. map (λ s. (load_user db s, room_of db s)) (select is_open db.sessions)))
        λ sessions w. reply_with (add_user read_extra sessions w.cache.gateways (ok [])) w

  -- `V1GetUser`
  unfoldable pub v1_get_user : String → Action C (Answer V1User)
  v1_get_user id =
      if ltb 36 (byte_length id)
      then pure (aborted 400)
      else found_or_abort (query env (λ db. one (select (active_user id) db.users) db)) λ user.
        found_or_abort
          (query env (λ db.
            one
              (map (λ s. (load_user db s, room_of db s))
                (sort_by updated_later
                  (select (λ s. s.user_id == user.id && is_open s) db.sessions)))
              db))
          λ (l, room) w. reply_with (make_v1_user read_extra w.cache.gateways room l) w

  -- `V1ListComposites`
  unfoldable pub v1_list_composites : Action C (Answer (Map String V1Composite))
  v1_list_composites =
      rows_or_abort
        (reading env (λ db. map (λ c. (c, sort_by in_order (places_of db c))) db.composites))
        λ composites w. reply_with (add_composite read_extra composites w.cache.gateways (ok [])) w

  -- `V1GetComposite`
  unfoldable pub v1_get_composite : String → Action C (Answer V1Composite)
  v1_get_composite id =
      if ltb 16 (byte_length id)
      then pure (aborted 400)
      else found_or_abort
          (query env (λ db. one (map (places_of db) (select (λ c. c.name == id) db.composites)) db))
          λ places w. reply_with (make_v1_composite read_extra w.cache.gateways places) w
