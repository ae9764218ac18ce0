-- ===== src/Session/Enter.antt =====
-- A user who enters a room has one open session, the new one (`onProtocolEnter`).
use gxydb_api.Base.{ℕ, ◌<◌, ◌≡◌, refl, ap, ◌∙◌, inr, String, [], ◌∷◌, none, some, arith}
use gxydb_api.Errors.{ok}
use gxydb_api.Models.{Session, Room, Gateway}
use gxydb_api.Cache.Users.{Arc}
use gxydb_api.Cache.Rooms
use gxydb_api.Cache.Gateways
use gxydb_api.World.{wrapping-eq-ok, Env, World, >>=-eq-ok, counted}
use gxydb_api.Tx.Atomic.{in_tx-eq-ok}
use gxydb_api.Session.Types.{V1User, V1ProtocolMessageText, Codec}
use gxydb_api.Session.Table.{infer}
use gxydb_api.Session.Table.Laws.{
  open_of, of_others, open_of-close_rows, of_others-close_rows, of_others-upsert_rows,
  open_of-upsert_rows,
}
use gxydb_api.Session.Steps.{
  user_id_or_fail-SameSessions, user_id_or_fail-eq-ok, close_existing-eq-ok, store_session-eq-ok,
}
use gxydb_api.Session.Client.{client_row}
use gxydb_api.Session.{
  get_internal_user_id, user_id_or_fail, close_existing, store_session, enter_as, session_of,
  on_protocol_enter, dispatch, handle_protocol,
}

module _ {C : Type 0} (arc : Arc C) (env : Env) (codec : Codec) where
  -- What entering a room leaves in the table: one open session of the user, in the room and on the
  -- gateway that the caches name, with the client's data; the rows of other users are as before.
  pub record Entered (user : V1User) (uid : ℕ) (w v : World C) : Type 0 where
    pub room : Room
    pub gateway : Gateway
    pub id : ℕ
    pub created : ℕ
    pub now : ℕ
    pub room_known : Rooms.find_uid user.room w.cache.rooms ≡ some room
    pub gateway_known : Gateways.find_name user.janus w.cache.gateways ≡ some gateway
    pub one_open :
        open_of uid v.db.sessions ≡ client_row env codec user uid room gateway now id created ∷ []
    pub others : of_others uid v.db.sessions ≡ of_others uid w.db.sessions

  -- The state before may differ in what entering does not look at.
  Entered-from :
      (user : V1User) (uid : ℕ) (w u v : World C)
      → u.cache.rooms ≡ w.cache.rooms
      → u.cache.gateways ≡ w.cache.gateways
      → of_others uid u.db.sessions ≡ of_others uid w.db.sessions
      → Entered user uid u v
      → Entered user uid w v
  Entered-from user uid w u v rooms gateways others entered = record {
    room = entered.room;
    gateway = entered.gateway;
    id = entered.id;
    created = entered.created;
    now = entered.now;
    room_known = rw (← rooms) entered.room_known;
    gateway_known = rw (← gateways) entered.gateway_known;
    one_open = entered.one_open;
    others = entered.others ∙ others;
  }

  Entered-to :
      (user : V1User) (uid : ℕ) (w u v : World C)
      → v.db.sessions ≡ u.db.sessions
      → Entered user uid w u
      → Entered user uid w v
  Entered-to user uid w u v same entered = record {
    room = entered.room;
    gateway = entered.gateway;
    id = entered.id;
    created = entered.created;
    now = entered.now;
    room_known = entered.room_known;
    gateway_known = entered.gateway_known;
    one_open = ap (open_of uid) same ∙ entered.one_open;
    others = ap (of_others uid) same ∙ entered.others;
  }

  store_session-Entered :
      (user : V1User) (uid : ℕ) (w v : World C)
      → open_of uid w.db.sessions ≡ []
      → store_session arc env codec infer uid user w ≡ (ok tt, v)
      → Entered user uid w v
  store_session-Entered user uid w v h e =
      let (room, gateway, id, created, now, r, g, rows) =
        store_session-eq-ok arc env codec infer uid user w v e in
      let new : Session = record (session_of arc env codec user uid room gateway now) {
        id = id;
        created_at = created;
      } in
      let (id', one) = open_of-upsert_rows new w.db.sessions refl h in
      record {
        room = room;
        gateway = gateway;
        id = id';
        created = created;
        now = now;
        room_known = r;
        gateway_known = g;
        one_open = ap (open_of uid) rows ∙ one;
        others = ap (of_others uid) rows ∙ of_others-upsert_rows infer new w.db.sessions;
      }

  enter_as-Entered :
      (user : V1User) (uid : ℕ) (w v : World C)
      → 0 < uid
      → enter_as arc env codec user uid w ≡ (ok tt, v)
      → Entered user uid w v
  unfolding enter_as
  enter_as-Entered user uid w v positive e =
      let (_, closed, stored) =
        >>=-eq-ok (close_existing arc env codec uid)
          (λ _. store_session arc env codec infer uid user) w e in
      let (b, now, rows, caches) = close_existing-eq-ok arc env codec uid w _ positive closed in
      let none_open = ap (open_of uid) rows ∙ open_of-close_rows env b now uid w.db.sessions in
      Entered-from user uid w _ v (ap (λ c. c.rooms) caches) (ap (λ c. c.gateways) caches)
        (ap (of_others uid) rows ∙ of_others-close_rows env b now uid w.db.sessions)
        (store_session-Entered user uid _ v none_open stored)

  on_protocol_enter-Entered :
      (msg : V1ProtocolMessageText) (uid : ℕ) (w v : World C)
      → (get_internal_user_id arc env codec msg.user w).0 ≡ ok (uid, none)
      → 0 < uid
      → on_protocol_enter arc env codec msg w ≡ (ok tt, v)
      → Entered msg.user uid w v
  unfolding on_protocol_enter
  on_protocol_enter-Entered msg uid w v known positive e =
      let (uid', found, later) =
        >>=-eq-ok (user_id_or_fail arc env codec msg.user) (enter_as arc env codec msg.user) w e in
      let same : uid' ≡ uid =
        ground (arith, user_id_or_fail-eq-ok arc env codec msg.user w uid' _ found) in
      let kept = user_id_or_fail-SameSessions arc env codec msg.user w in
      Entered-from msg.user uid w _ v kept.rooms kept.gateways (ap (of_others uid) kept.sessions)
        (enter_as-Entered msg.user uid _ v positive (rw same at later))

  dispatch-Entered :
      (msg : V1ProtocolMessageText) (uid : ℕ) (w v : World C)
      → msg.kind ≡ "enter"
      → (get_internal_user_id arc env codec msg.user w).0 ≡ ok (uid, none)
      → 0 < uid
      → dispatch arc env codec msg w ≡ (ok tt, v)
      → Entered msg.user uid w v
  unfolding dispatch on_protocol_enter
  dispatch-Entered msg uid w v kind known positive e =
      on_protocol_enter-Entered msg uid w v known positive (
        wrapping-eq-ok "V1SessionManager.onProtocolEnter" (on_protocol_enter arc env codec msg) w
          (rw kind at e))

  -- When a message that a user, known under a positive id, has entered a room is handled
  -- successfully, the user has exactly one open session afterwards, with the client's data and the
  -- room and gateway that the caches name; the sessions of all other users are as before.
  pub handle_protocol-Entered :
      (payload : String) (msg : V1ProtocolMessageText) (uid : ℕ) (w v : World C)
      → codec.decode_message payload ≡ inr msg
      → msg.kind ≡ "enter"
      → (get_internal_user_id arc env codec msg.user (counted w)).0 ≡ ok (uid, none)
      → 0 < uid
      → handle_protocol arc env codec payload w ≡ (ok tt, v)
      → Entered msg.user uid w v
  unfolding handle_protocol
  handle_protocol-Entered payload msg uid w v decoded kind known positive e =
      let (_, done, same, _) =
        in_tx-eq-ok env (dispatch arc env codec msg) w tt v (rw (decoded, handle_protocol) at e) in
      Entered-from msg.user uid w (counted w) v refl refl refl (
        Entered-to msg.user uid (counted w) (dispatch arc env codec msg (counted w)).1 v
          (ap (λ u. u.db.sessions) same)
          (dispatch-Entered msg uid (counted w) _ kind known positive
            (ap (λ r. (r, (dispatch arc env codec msg (counted w)).1)) done)))
