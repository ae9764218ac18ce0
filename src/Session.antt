-- ===== src/Session.antt =====
-- api/session.go: `V1SessionManager`, which follows users in and out of rooms. A method is an
-- action; `HandleEvent`, `HandleProtocol` and `UpsertSession` run their body in one transaction.
pub mod Types
pub mod Table
pub mod Steps
pub mod Client
pub mod Enter
pub mod Presence
pub mod Safety
pub mod Update
pub mod Stale
pub mod Cleaner
pub mod Cleaned
pub mod Tests
pub mod Leave
use gxydb_api.Base.{
  ℕ, Bool, true, false, ◌||◌, String, List, [], ◌∷◌, ◌⊎◌, inl, inr, Option, none, some, ◌==◌,
  nat_eq, string_eq, if◌then◌else◌, ltb,
}
use gxydb_api.Base.Maps.{get}
use gxydb_api.Base.Text.{append}
use gxydb_api.Errors.{
  Error, protocol, protocol_of, wrap, with_stack, foreign, is_protocol, is_no_rows, Outcome, ok,
  err, panic,
}
use gxydb_api.Models.{User, Room, Gateway, Session, Db}
use gxydb_api.Cache.{AppCache}
use gxydb_api.Cache.Users.{Arc}
use gxydb_api.Cache.Rooms
use gxydb_api.Cache.Gateways
use gxydb_api.World.{
  Env, World, Action, pure, fail, ◌>>=◌, ◌>>◌, Try, or_wrap, query, clock, wrapping,
}
use gxydb_api.Tx.{in_tx}
use Types.{
  V1User, V1ProtocolMessageText, Value, nil, other, text, Event, plugin_event, other_event, Codec,
}
use Table.{
  select_user, insert_user, close_rows, affected, Columns, infer, blacklist, upsert_session_row,
}

module _ {C : Type 0} (arc : Arc C) (env : Env) (codec : Codec) where
  -- `sm.cache.users.ByAccountsID`
  abbrev pub find_user : String → Action C (Option User)
  find_user id w =
      let (found, users) = arc.find id w.cache.users in
      (ok found, record w { cache = record (w.cache) { users = users } })

  -- `sm.cache.users.Set`
  abbrev pub cache_user : User → Action C (Unit {0})
  cache_user u w = (
    ok tt,
    record w { cache = record (w.cache) { users = arc.add u.accounts_id u w.cache.users } },
  )

  abbrev pub new_user : V1User → ℕ → ℕ → User
  new_user user id now = record {
    id = id;
    accounts_id = user.id;
    email = some user.email;
    first_name = none;
    last_name = none;
    username = some user.username;
    disabled = false;
    properties = none;
    created_at = now;
    updated_at = none;
    removed_at = none;
  }

  -- The rest of `getInternalUserID` for a user without a row.
  unfoldable pub create_user : V1User → Action C (ℕ × Option Error)
  create_user user w =
      let u = new_user user (env.fresh w.calls) (env.now w.calls) in
      (query env (insert_user u) >>= λ r. elim r [
        | inl e ↦ pure (0, some (wrap e "db create user"))
        | inr v ↦ cache_user v >> pure (v.id, none)
      ])
        w

  unfoldable pub fetch_user : V1User → Action C (ℕ × Option Error)
  fetch_user user = do
    r ← query env (select_user user.id)
    elim r [
      | inl e ↦ if is_no_rows e then create_user user else pure (0, some (wrap e "db fetch userID"))
      | inr u ↦
          if u.disabled
          then pure (u.id, some (protocol (append "Disabled user: " user.id)))
          else (cache_user u >> pure (u.id, none))
    ]

  -- Returns an id and an error, as in Go: a disabled user comes with both.
  unfoldable pub get_internal_user_id : V1User → Action C (ℕ × Option Error)
  get_internal_user_id user = do
    found ← find_user user.id
    elim found [ some u ↦ pure (u.id, none) | none ↦ fetch_user user ]

  -- `userID, err := sm.getInternalUserID(…); if err != nil { return pkgerr.Wrap(…) }`
  unfoldable pub user_id_or_fail : V1User → Action C ℕ
  user_id_or_fail user = do
    (user_id, error) ← get_internal_user_id user
    elim error [ none ↦ pure user_id | some e ↦ fail (wrap e "sm.getInternalUserID") ]

  unfoldable pub close_session : ℕ → Action C (Unit {0})
  close_session user_id = do
    stamped ← clock env
    now ← clock env
    _ ← or_wrap "db update session" (
        query env λ db. inr (
          affected user_id db.sessions,
          record db {
            sessions = close_rows env (env.stamp "close_session" stamped) now user_id db.sessions;
          },
        ))
    pure tt

  abbrev pub session_of : V1User → ℕ → Room → Gateway → ℕ → Session
  session_of user user_id room gateway now = record {
    id = 0;
    user_id = user_id;
    room_id = some room.id;
    gateway_id = some gateway.id;
    gateway_session = some user.session;
    gateway_handle = some user.handle;
    gateway_feed = some user.rfid;
    display = some user.display;
    camera = user.camera;
    question = user.question;
    self_test = user.self_test;
    sound_test = user.sound_test;
    user_agent = some user.system;
    ip_address = env.parse_ip user.ip;
    properties = none;
    created_at = 0;
    updated_at = some now;
    removed_at = none;
    extra = codec.marshal_extra user.extra;
    gateway_handle_textroom = some user.textroom_handle;
  }

  unfoldable pub make_session : ℕ → V1User → Action C Session
  make_session user_id user w = elim (Rooms.find_uid user.room w.cache.rooms) [
    | none ↦ (err (protocol (append (append "Unknown room: %!d(string=" user.room) ")")), w)
    | some room ↦ elim (Gateways.find_name user.janus w.cache.gateways) [
      | none ↦ (err (protocol (append "Unknown gateway: " user.janus)), w)
      | some gateway ↦ (do now ← clock env; pure (session_of user user_id room gateway now)) w
    ]
  ]

  -- `session.Upsert`: the row takes the next id, and `created_at`, being zero, its default.
  unfoldable pub upsert_row : Columns → Session → Action C (Unit {0})
  upsert_row columns session w =
      or_wrap "db upsert"
        (query env (
          upsert_session_row columns
            (record session { id = env.fresh w.calls; created_at = env.now w.calls })))
        w

  unfoldable pub store_session : Columns → ℕ → V1User → Action C (Unit {0})
  store_session columns user_id user = do
    session ← wrapping "sm.makeSession" (make_session user_id user)
    upsert_row columns session

  unfoldable pub upsert_session : V1User → Action C (Unit {0})
  upsert_session user = do user_id ← user_id_or_fail user; store_session blacklist user_id user

  -- `if userID > 0 { … }`: close existing sessions if any.
  unfoldable pub close_existing : ℕ → Action C (Unit {0})
  close_existing user_id =
      if ltb 0 user_id then wrapping "sm.closeSession" (close_session user_id) else pure tt

  -- `onProtocolEnter` once the user's id is known.
  unfoldable pub enter_as : V1User → ℕ → Action C (Unit {0})
  enter_as user user_id = close_existing user_id >> store_session infer user_id user

  unfoldable pub on_protocol_enter : V1ProtocolMessageText → Action C (Unit {0})
  on_protocol_enter msg = user_id_or_fail msg.user >>= enter_as msg.user

  -- The switch of `HandleProtocol`; questions, cameras and sound tests are one `upsertSession` each.
  unfoldable pub dispatch : V1ProtocolMessageText → Action C (Unit {0})
  dispatch msg =
      if msg.kind == "enter"
      then wrapping "V1SessionManager.onProtocolEnter" (on_protocol_enter msg)
      else if msg.kind == "question"
      then wrapping "V1SessionManager.onProtocolQuestion" (upsert_session msg.user)
      else if msg.kind == "camera"
      then wrapping "V1SessionManager.onProtocolCamera" (upsert_session msg.user)
      else if msg.kind == "sound-test"
      then wrapping "V1SessionManager.onProtocolSoundTest" (upsert_session msg.user)
      else pure tt

  unfoldable pub handle_protocol : String → Action C (Unit {0})
  handle_protocol payload = elim (codec.decode_message payload) [
    | inl e ↦ fail (with_stack (protocol_of (foreign e) (append "json.Unmarshal: " e)))
    | inr msg ↦ in_tx env (dispatch msg)
  ]

  -- `UpsertSession`
  unfoldable pub update_session : V1User → Action C (Unit {0})
  update_session user = in_tx env (upsert_session user)

  -- What `onVideoroomLeaving` does with the answer of `getInternalUserID`.
  unfoldable pub leave : ℕ × Option Error → Action C (Unit {0})
  leave (user_id, error) =
      let failed : Option Error = elim error [
        | none ↦ none
        | some e ↦ if is_protocol e then none else some e
      ] in
      elim failed [
        | some e ↦ fail (wrap e "sm.getInternalUserID")
        | none ↦ if user_id == 0 then pure tt else close_session user_id
      ]

  unfoldable pub on_videoroom_leaving : Option Value → Action C (Unit {0})
  on_videoroom_leaving (some (text display)) = elim (codec.decode_user display) [
    | inl e ↦ fail (wrap (foreign e) "json.Unmarshal")
    | inr user ↦ get_internal_user_id user >>= leave
  ]
  on_videoroom_leaving _ = pure tt

  unfoldable pub is_leaving : String → Bool
  is_leaving kind = kind == "leaving" || kind == "kicked" || kind == "unpublished"

  unfoldable pub event_body : Event → Action C (Unit {0})
  event_body other_event = pure tt
  event_body (plugin_event plugin fields) =
      let kind : Option Value = elim (get "event" fields) [
        | some v ↦ some v
        | none ↦ get "videoroom" fields
      ] in
      if plugin == "janus.plugin.videoroom"
      then (elim kind [
        | some (text t) ↦
            if is_leaving t
            then wrapping "V1SessionManager.onVideoroomLeaving"
                (on_videoroom_leaving (get "display" fields))
            else pure tt
        | _ ↦ pure tt
      ])
      else pure tt

  unfoldable pub handle_event : Event → Action C (Unit {0})
  handle_event event = in_tx env (event_body event)
