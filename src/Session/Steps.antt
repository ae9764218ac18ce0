-- ===== src/Session/Steps.antt =====
-- What each step of a session's life does to the state, one lemma for a step.
use gxydb_api.Base.{ℕ, ◌+◌, ◌<◌, ◌≡◌, inl, inr, String, none, some, arith, Option-cases}
use gxydb_api.Errors.{ok}
use gxydb_api.Models.{Room, Gateway}
use gxydb_api.Cache.Users.{Arc}
use gxydb_api.Cache.Rooms
use gxydb_api.Cache.Gateways
use gxydb_api.World.{Env, World, query, wrapping-eq-ok}
use gxydb_api.Session.Types.{V1User, Codec}
use gxydb_api.Session.Table.{select_user, close_rows, upsert_rows, upsert_session_row, Columns}
use gxydb_api.Session.{
  find_user, create_user, fetch_user, get_internal_user_id, user_id_or_fail, close_session,
  make_session, upsert_row, store_session, session_of, close_existing,
}

module _ {C : Type 0} (arc : Arc C) (env : Env) (codec : Codec) where
  -- Two states with the same sessions and the same caches but for users.
  pub record SameSessions (w v : World C) : Type 0 where
    pub sessions : v.db.sessions ≡ w.db.sessions
    pub rooms : v.cache.rooms ≡ w.cache.rooms
    pub gateways : v.cache.gateways ≡ w.cache.gateways

  create_user-SameSessions :
      (user : V1User) (w : World C) → SameSessions w (create_user arc env codec user w).1
  unfolding create_user query
  create_user-SameSessions user w = ground arith

  fetch_user-SameSessions :
      (user : V1User) (w : World C) → SameSessions w (fetch_user arc env codec user w).1
  unfolding fetch_user query
  fetch_user-SameSessions user w =
      ground (arith, create_user-SameSessions user (query env (select_user user.id) w).1)

  pub get_internal_user_id-SameSessions :
      (user : V1User) (w : World C) → SameSessions w (get_internal_user_id arc env codec user w).1
  unfolding get_internal_user_id
  get_internal_user_id-SameSessions user w =
      ground (arith, fetch_user-SameSessions user (find_user arc env codec user.id w).1)

  pub user_id_or_fail-SameSessions :
      (user : V1User) (w : World C) → SameSessions w (user_id_or_fail arc env codec user w).1
  unfolding user_id_or_fail
  user_id_or_fail-SameSessions user w = ground (arith, get_internal_user_id-SameSessions user w)

  pub user_id_or_fail-eq-ok :
      (user : V1User) (w : World C) (uid : ℕ) (v : World C)
      → user_id_or_fail arc env codec user w ≡ (ok uid, v)
      → (get_internal_user_id arc env codec user w).0 ≡ ok (uid, none)
  unfolding user_id_or_fail
  user_id_or_fail-eq-ok user w uid v h = ground arith

  pub close_session-eq-ok :
      (uid : ℕ) (w v : World C)
      → close_session arc env codec uid w ≡ (ok tt, v)
      → (b : String) × (now : ℕ) × (v.db.sessions ≡ close_rows env b now uid w.db.sessions)
        × (v.cache ≡ w.cache)
  unfolding close_session query
  close_session-eq-ok uid w v h = (
    env.stamp "close_session" (env.now w.calls),
    env.now (w.calls + 1),
    ground arith,
    ground arith,
  )

  -- Existing sessions are closed for a user with a positive id.
  pub close_existing-eq-ok :
      (uid : ℕ) (w v : World C)
      → 0 < uid
      → close_existing arc env codec uid w ≡ (ok tt, v)
      → (b : String) × (now : ℕ) × (v.db.sessions ≡ close_rows env b now uid w.db.sessions)
        × (v.cache ≡ w.cache)
  unfolding close_existing
  close_existing-eq-ok uid w v h e =
      close_session-eq-ok uid w v
        (wrapping-eq-ok "sm.closeSession" (close_session arc env codec uid) w (ground arith))

  pub store_session-eq-ok :
      (columns : Columns) (uid : ℕ) (user : V1User) (w v : World C)
      → store_session arc env codec columns uid user w ≡ (ok tt, v)
      → (room : Room) × (gateway : Gateway) × (id : ℕ) × (created : ℕ) × (now : ℕ) × (Rooms.find_uid
            user.room w.cache.rooms
          ≡ some room)
        × (Gateways.find_name user.janus w.cache.gateways ≡ some gateway)
        × (v.db.sessions
            ≡ upsert_rows columns
                (record (session_of arc env codec user uid room gateway now) {
                  id = id;
                  created_at = created;
                })
                w.db.sessions)
  unfolding store_session make_session upsert_row query upsert_session_row
  store_session-eq-ok columns uid user w v h =
      elim (Option-cases (Rooms.find_uid user.room w.cache.rooms)) [
        | inl missing ↦ absurd (ground (arith, missing))
        | inr (room, r) ↦ elim (Option-cases (Gateways.find_name user.janus w.cache.gateways)) [
          | inl missing ↦ absurd (ground (arith, missing))
          | inr (gateway, g) ↦ (
            room,
            gateway,
            env.fresh (w.calls + 1),
            env.now (w.calls + 1),
            env.now w.calls,
            r,
            g,
            ground arith,
          )
        ]
      ]
