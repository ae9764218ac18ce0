-- ===== src/Session/Update.antt =====
-- What a question, a camera, a sound test or a PUT of a user does to the table (`upsertSession`).
use gxydb_api.Base.{
  ℕ, ◌≡◌, refl, ap, subst, ◌∙◌, true, not, List, [], ◌∷◌, Option, none, some, arith, nat_eq, ==_iff,
  first?, select,
}
use gxydb_api.Base.Int.{int_eq}
use gxydb_api.Errors.{ok}
use gxydb_api.Models.{Session, Room, Gateway}
use gxydb_api.Cache.Users.{Arc}
use gxydb_api.Cache.Rooms
use gxydb_api.Cache.Gateways
use gxydb_api.World.{Env, World, counted, >>=-eq-ok}
use gxydb_api.Tx.Atomic.{in_tx-eq-ok}
use gxydb_api.Session.Types.{V1User, Codec}
use gxydb_api.Session.Table.{same_key, upsert_rows, blacklist}
use gxydb_api.Session.Steps.{
  SameSessions, user_id_or_fail-SameSessions, user_id_or_fail-eq-ok, store_session-eq-ok,
}
use gxydb_api.Session.Client.{client_row}
use gxydb_api.Session.{
  get_internal_user_id, user_id_or_fail, store_session, upsert_session, update_session,
}

abbrev pub row_like : Session → List Session → Option Session
row_like e = first? (λ s. same_key s e)

abbrev pub rows_unlike : Session → List Session → List Session
rows_unlike e = select (λ s. not (same_key s e))

-- A row that was there keeps its id, the time of its creation and its properties.
abbrev pub updated : Option Session → Session → Session
updated none e = e
updated (some old) e = record e {
  id = old.id;
  created_at = old.created_at;
  properties = old.properties;
}

row_like-upsert_rows :
    (e : Session) (ss : List Session)
    → same_key e e ≡ true
    → row_like e (upsert_rows blacklist e ss) ≡ some (updated (row_like e ss) e)
unfolding upsert_rows
row_like-upsert_rows e [] h = ground arith
row_like-upsert_rows e (s ∷ ss) h = ground (arith, row_like-upsert_rows e ss h)

rows_unlike-upsert_rows :
    (e : Session) (ss : List Session)
    → same_key e e ≡ true
    → rows_unlike e (upsert_rows blacklist e ss) ≡ rows_unlike e ss
unfolding upsert_rows
rows_unlike-upsert_rows e [] h = ground arith
rows_unlike-upsert_rows e (s ∷ ss) h = ground (arith, rows_unlike-upsert_rows e ss h)

module _ {C : Type 0} (arc : Arc C) (env : Env) (codec : Codec) where
  -- The row that the client's data make.
  abbrev pub stored : V1User → ℕ → Room → Gateway → ℕ → ℕ → ℕ → Session
  stored user uid room gateway now id created =
      client_row env codec user uid room gateway now id created

  -- The row for the user's session on the gateway is open and has the client's data; if it is not
  -- new, it keeps its id, creation time and properties. All other rows are as before.
  pub record Updated (user : V1User) (uid : ℕ) (w v : World C) : Type 0 where
    pub room : Room
    pub gateway : Gateway
    pub id : ℕ
    pub created : ℕ
    pub now : ℕ
    pub room_known : Rooms.find_uid user.room w.cache.rooms ≡ some room
    pub gateway_known : Gateways.find_name user.janus w.cache.gateways ≡ some gateway
    pub row :
        let new = stored user uid room gateway now id created in
        row_like new v.db.sessions ≡ some (updated (row_like new w.db.sessions) new)
    pub others :
        let new = stored user uid room gateway now id created in
        rows_unlike new v.db.sessions ≡ rows_unlike new w.db.sessions

  session_of-same_key :
      (user : V1User) (uid : ℕ) (room : Room) (gateway : Gateway) (now id created : ℕ)
      → let new = stored user uid room gateway now id created in same_key new new ≡ true
  session_of-same_key user uid room gateway now id created =
      ground (arith, ==_iff uid uid, ==_iff gateway.id gateway.id, ==_iff user.session user.session)

  store_session-Updated :
      (user : V1User) (uid : ℕ) (w v : World C)
      → store_session arc env codec blacklist uid user w ≡ (ok tt, v)
      → Updated user uid w v
  store_session-Updated user uid w v e =
      let (room, gateway, id, created, now, r, g, rows) =
        store_session-eq-ok arc env codec blacklist uid user w v e in
      let new = stored user uid room gateway now id created in
      let alike = session_of-same_key user uid room gateway now id created in
      record {
        room = room;
        gateway = gateway;
        id = id;
        created = created;
        now = now;
        room_known = r;
        gateway_known = g;
        row = ap (row_like new) rows ∙ row_like-upsert_rows new w.db.sessions alike;
        others = ap (rows_unlike new) rows ∙ rows_unlike-upsert_rows new w.db.sessions alike;
      }

  -- The states may differ in what an update does not look at.
  Updated-between :
      (user : V1User) (uid : ℕ) (w w' v v' : World C)
      → SameSessions arc env codec w' w
      → v'.db.sessions ≡ v.db.sessions
      → Updated user uid w v
      → Updated user uid w' v'
  Updated-between user uid w w' v v' kept same up = record {
    room = up.room;
    gateway = up.gateway;
    id = up.id;
    created = up.created;
    now = up.now;
    room_known = subst (λ c. Rooms.find_uid user.room c ≡ some up.room) kept.rooms up.room_known;
    gateway_known =
        subst (λ c. Gateways.find_name user.janus c ≡ some up.gateway) kept.gateways
          up.gateway_known;
    row =
        ap (row_like (new up)) same
        ∙ up.row
        ∙ ap (λ ss. some (updated (row_like (new up) ss) (new up))) kept.sessions;
    others = ap (rows_unlike (new up)) same ∙ up.others ∙ ap (rows_unlike (new up)) kept.sessions;
  }
    where
      new : Updated user uid w v → Session
      new r = stored user uid r.room r.gateway r.now r.id r.created

  upsert_session-Updated :
      (user : V1User) (uid : ℕ) (w v : World C)
      → (get_internal_user_id arc env codec user w).0 ≡ ok (uid, none)
      → upsert_session arc env codec user w ≡ (ok tt, v)
      → Updated user uid w v
  unfolding upsert_session
  upsert_session-Updated user uid w v known e =
      let (uid', found, later) =
        >>=-eq-ok (user_id_or_fail arc env codec user)
          (λ uid. store_session arc env codec blacklist uid user) w e in
      let same : uid' ≡ uid =
        ground (arith, user_id_or_fail-eq-ok arc env codec user w uid' _ found) in
      Updated-between user uid _ w v v (user_id_or_fail-SameSessions arc env codec user w) refl
        (store_session-Updated user uid _ v (rw same at later))

  -- When an update of a user who is known, and not disabled, succeeds, the row for the user's
  -- session on the gateway is open and has the client's data, the room and the gateway being those
  -- that the caches name. If there was such a row, also a closed one, it keeps its id, creation
  -- time and properties. All other rows are as before.
  pub update_session-Updated :
      (user : V1User) (uid : ℕ) (w v : World C)
      → (get_internal_user_id arc env codec user (counted w)).0 ≡ ok (uid, none)
      → update_session arc env codec user w ≡ (ok tt, v)
      → Updated user uid w v
  unfolding update_session
  update_session-Updated user uid w v known e =
      let body = upsert_session arc env codec user in
      let (_, done, same, _) = in_tx-eq-ok env body w tt v e in
      Updated-between user uid (counted w) w (body (counted w)).1 v
        (record { sessions = refl; rooms = refl; gateways = refl }) (ap (λ u. u.db.sessions) same)
        (upsert_session-Updated user uid (counted w) _ known
          (ap (λ r. (r, (body (counted w)).1)) done))
