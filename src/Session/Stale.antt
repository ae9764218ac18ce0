-- ===== src/Session/Stale.antt =====
-- The user cache is written inside the transaction and is not rolled back with it.
use gxydb_api.Base.{
  ℕ, ◌+◌, ◌≡◌, refl, ap, ◌∙◌, subst, sym, false, inr, String, List, [], ◌∷◌, none, some, arith,
  ◌==◌, string_eq, nat_eq, any, first?, ◌||◌,
}
use gxydb_api.Errors.{ok, is_no_rows}
use gxydb_api.Models.{User}
use gxydb_api.Cache.Users.{Arc}
use gxydb_api.Cache.Rooms
use gxydb_api.World.{Env, World, counted, query}
use gxydb_api.Tx.{in_tx}
use gxydb_api.Tx.Atomic.{NoLoss, is_ok, in_tx-rollback, in_tx-cache}
use gxydb_api.Session.Types.{V1User, V1ProtocolMessageText, Codec}
use gxydb_api.Session.{
  create_user, fetch_user, get_internal_user_id, user_id_or_fail, close_session, close_existing,
  make_session, store_session, enter_as, on_protocol_enter, dispatch, handle_protocol, new_user,
}

-- No call out of the process fails.
abbrev pub NoFaults : Env → Type 0
NoFaults env = (n : ℕ) → env.fault n ≡ none

-- What is added to the cache is found there next (the documentation of golang-lru).
abbrev pub Recalls : {C : Type 0} → Arc C → Type 0
Recalls {C} arc = (id : String) (u : User) (c : C) → (arc.find id (arc.add id u c)).0 ≡ some u

module _ {C : Type 0} (arc : Arc C) (env : Env) (codec : Codec) where
  enter_as-unknown_room :
      (user : V1User) (uid : ℕ) (w : World C)
      → Rooms.find_uid user.room w.cache.rooms ≡ none
      → (is_ok (enter_as arc env codec user uid w).0 ≡ false)
        × ((enter_as arc env codec user uid w).1.cache ≡ w.cache)
  unfolding enter_as close_existing close_session store_session make_session query
  enter_as-unknown_room user uid w h = ground arith

  create_user-known :
      (user : V1User) (w : World C)
      → env.fault w.calls ≡ none
      → any (λ v. v.accounts_id == user.id || v.id == env.fresh w.calls) w.db.users ≡ false
      → let id = env.fresh w.calls in
        ((create_user arc env codec user w).0 ≡ ok (id, none))
        × ((create_user arc env codec user w).1.cache.users
            ≡ arc.add user.id (new_user arc env codec user id (env.now w.calls)) w.cache.users)
        × ((create_user arc env codec user w).1.cache.rooms ≡ w.cache.rooms)
  unfolding create_user query
  create_user-known user w fine fresh = ground arith

  -- Nothing is known of the account: it is neither cached nor in the table, and the id that the
  -- sequence will give to it is not in use.
  pub record IsNew (user : V1User) (w : World C) : Type 0 where
    pub not_cached : (arc.find user.id w.cache.users).0 ≡ none
    pub no_row : first? (λ u. u.accounts_id == user.id) w.db.users ≡ none
    pub fresh :
        any (λ v. v.accounts_id == user.id || v.id == env.fresh (w.calls + 1)) w.db.users ≡ false

  get_internal_user_id-known :
      (user : V1User) (w : World C)
      → NoFaults env
      → IsNew user w
      → let id = env.fresh (w.calls + 1) in
        ((get_internal_user_id arc env codec user w).0 ≡ ok (id, none))
        × ((get_internal_user_id arc env codec user w).1.cache.users
            ≡ arc.add user.id
                (new_user arc env codec user id (env.now (w.calls + 1)))
                (arc.find user.id w.cache.users).1)
        × ((get_internal_user_id arc env codec user w).1.cache.rooms ≡ w.cache.rooms)
  unfolding get_internal_user_id fetch_user query is_no_rows
  get_internal_user_id-known user w fine new =
      let u : World C = record w {
        cache = record (w.cache) { users = (arc.find user.id w.cache.users).1 };
        calls = w.calls + 1;
      } in
      ground (
        arith,
        new.not_cached,
        new.no_row,
        fine w.calls,
        create_user-known user u (fine (w.calls + 1)) new.fresh,
      )

  on_protocol_enter-stale :
      (msg : V1ProtocolMessageText) (w : World C)
      → NoFaults env
      → IsNew msg.user w
      → Rooms.find_uid msg.user.room w.cache.rooms ≡ none
      → let id = env.fresh (w.calls + 1) in
        (is_ok (on_protocol_enter arc env codec msg w).0 ≡ false)
        × ((on_protocol_enter arc env codec msg w).1.cache.users
            ≡ arc.add msg.user.id
                (new_user arc env codec msg.user id (env.now (w.calls + 1)))
                (arc.find msg.user.id w.cache.users).1)
  unfolding on_protocol_enter user_id_or_fail
  on_protocol_enter-stale msg w fine new unknown = ground (
    arith,
    get_internal_user_id-known msg.user w fine new,
    enter_as-unknown_room msg.user (env.fresh (w.calls + 1))
        (get_internal_user_id arc env codec msg.user w).1,
  )

  dispatch-stale :
      (msg : V1ProtocolMessageText) (w : World C)
      → NoFaults env
      → msg.kind ≡ "enter"
      → IsNew msg.user w
      → Rooms.find_uid msg.user.room w.cache.rooms ≡ none
      → let id = env.fresh (w.calls + 1) in
        (is_ok (dispatch arc env codec msg w).0 ≡ false)
        × ((dispatch arc env codec msg w).1.cache.users
            ≡ arc.add msg.user.id
                (new_user arc env codec msg.user id (env.now (w.calls + 1)))
                (arc.find msg.user.id w.cache.users).1)
  unfolding dispatch on_protocol_enter
  dispatch-stale msg w fine kind new unknown =
      rw (kind, dispatch) (ground (arith, on_protocol_enter-stale msg w fine new unknown))

  found_next :
      (user : V1User) (u : User) (c : C) (w : World C)
      → Recalls arc
      → w.cache.users ≡ arc.add user.id u c
      → (get_internal_user_id arc env codec user w).0 ≡ ok (u.id, none)
  unfolding get_internal_user_id
  found_next user u c w recalls e = ground (arith, recalls user.id u c)

  any-id :
      (name : String) (id : ℕ) (us : List User)
      → any (λ v. v.accounts_id == name || v.id == id) us ≡ false
      → any (λ v. v.id == id) us ≡ false
  any-id name id [] h = refl
  any-id name id (u ∷ us) h = ground (arith, any-id name id us)

  in_tx-not_ok :
      (msg : V1ProtocolMessageText) (w : World C)
      → is_ok (dispatch arc env codec msg (counted w)).0 ≡ false
      → is_ok (in_tx env (dispatch arc env codec msg) w).0 ≡ false
  unfolding in_tx
  in_tx-not_ok msg w h = ground arith

  -- A user of whom nothing is known yet, and whose first message names an unknown room, is refused
  -- and the tables stay as they were; but the cache keeps the user that the rollback took out of
  -- the table. The next lookup of the user then gives an id that has no row, if the cache gives back
  -- what was put into it.
  pub handle_protocol-stale :
      (payload : String) (msg : V1ProtocolMessageText) (w : World C)
      → Recalls arc
      → NoFaults env
      → NoLoss env
      → codec.decode_message payload ≡ inr msg
      → msg.kind ≡ "enter"
      → IsNew msg.user (counted w)
      → Rooms.find_uid msg.user.room w.cache.rooms ≡ none
      → let v = (handle_protocol arc env codec payload w).1 in
        let id = env.fresh (w.calls + 1 + 1) in
        (is_ok (handle_protocol arc env codec payload w).0 ≡ false)
        × (v.db ≡ w.db)
        × ((get_internal_user_id arc env codec msg.user v).0 ≡ ok (id, none))
        × (any (λ u. u.id == id) v.db.users ≡ false)
  unfolding handle_protocol
  handle_protocol-stale payload msg w recalls fine lossless decoded kind new unknown =
      let (refused, cached) = dispatch-stale msg (counted w) fine kind new unknown in
      let body = dispatch arc env codec msg in
      let fails = in_tx-not_ok msg w refused in
      let same = in_tx-rollback env body w lossless fails in
      let caches = in_tx-cache env body w (fine w.calls) in
      rw (decoded, handle_protocol)
        (
          fails,
          same,
          found_next msg.user
              (new_user arc env codec msg.user (env.fresh (w.calls + 1 + 1))
                (env.now (w.calls + 1 + 1)))
              (arc.find msg.user.id w.cache.users).1 (in_tx env body w).1 recalls
              (ap (λ c. c.users) caches ∙ cached),
          subst (λ db. any (λ u. u.id == env.fresh (w.calls + 1 + 1)) db.users ≡ false) (sym same)
              (any-id msg.user.id (env.fresh (w.calls + 1 + 1)) w.db.users new.fresh),
        )
