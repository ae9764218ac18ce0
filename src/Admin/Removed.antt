-- ===== src/Admin/Removed.antt =====
-- What a room that was deleted leaves, in the tables and on the gateways.
use gxydb_api.Base.{
  ℕ, ◌+◌, ◌≡◌, refl, sym, ap, ◌∙◌, Bool, true, String, List, [], ◌∷◌, ◌++◌, inl, inr, some, arith,
  ◌==◌, nat_eq, if◌then◌else◌, select, first?, map, Option-cases,
}
use gxydb_api.Base.Int.{ℤ, pos, int_eq}
use gxydb_api.Errors.{ok}
use gxydb_api.Models.{Gateway, Room, Db}
use gxydb_api.Cache.Gateways
use gxydb_api.World.{Env, World, Action, RoomRequest, destroy_room, query, counted}
use gxydb_api.Tx.{in_tx}
use gxydb_api.Tx.Atomic.{in_tx-eq-ok}
use gxydb_api.Auth.{Config, Verifiers, RequestContext}
use gxydb_api.V1.{recovered}
use gxydb_api.V1.Answers.{outcome_of}
use gxydb_api.Admin.Rooms.{
  hosts_rooms, remove_room, tell_gateway, tell_gateways, tell_all, commit_room, remove_room_row,
}
use gxydb_api.Admin.RoomHandlers.{with_room, admin_delete_room}
use gxydb_api.Admin.Told.{told, tell_gateways-Progress}
use gxydb_api.Admin.Telling.{reload_rooms-still}

append_nil : {A : Type 0} (xs : List A) → xs ++ [] ≡ xs
append_nil [] = refl
append_nil (x ∷ xs) = ap (λ t. x ∷ t) (append_nil xs)

-- The tables without a room, from a time on.
abbrev pub without_room : ℕ → ℕ → Db → Db
without_room id now db = record db {
  rooms =
      map (λ old. if old.id == id then (record old { removed_at = some now }) else old) db.rooms;
}

module _ {C : Type 0} (env : Env) where
  tell_gateway-db :
      (request : RoomRequest) (g : Gateway) (w : World C)
      → (tell_gateway env request g w).1.db ≡ w.db
  unfolding tell_gateway
  tell_gateway-db request g w = ground arith

  tell_gateways-db :
      (request : RoomRequest) (gs : List Gateway) (w : World C)
      → (tell_gateways env request gs w).1.db ≡ w.db
  unfolding tell_gateways
  tell_gateways-db request [] w = refl
  tell_gateways-db request (g ∷ gs) w = ground (
    arith,
    tell_gateway-db request g w,
    tell_gateways-db request gs w,
    tell_gateways-db request gs (tell_gateway env request g w).1,
  )

  tell_all-ok :
      (request : RoomRequest) (w : World C)
      → (tell_all env request w).0 ≡ ok tt
      → ((tell_all env request w).1.db ≡ w.db)
        × ((tell_all env request w).1.sent
            ≡ told request (select hosts_rooms (Gateways.all w.cache.gateways)) w.sent)
  unfolding tell_all
  tell_all-ok request w e =
      let p = tell_gateways-Progress env request (Gateways.all w.cache.gateways) w in
      let all : select hosts_rooms (Gateways.all w.cache.gateways) ≡ p.reached =
        p.in_order
        ∙ ap (λ missed. p.reached ++ missed) (p.none_missed (ground (arith, e)))
        ∙ append_nil p.reached in
      (
        tell_gateways-db request (Gateways.all w.cache.gateways) w,
        p.told_reached ∙ ap (λ gs. told request gs w.sent) (sym all),
      )

  remove_step :
      (room : Room) (w u : World C)
      → remove_room_row env room w ≡ (ok tt, u)
      → (w' : World C) × (w'.db ≡ without_room room.id (env.now w.calls) w.db)
        × (w'.cache ≡ w.cache)
        × (w'.sent ≡ w.sent)
        × (tell_all env (destroy_room room.gateway_uid) w' ≡ (ok tt, u))
  unfolding remove_room_row query remove_room
  remove_step room w u e = elim (Option-cases (env.fault (w.calls + 1))) [
    | inr (x, broken) ↦ absurd (ground (arith, broken))
    | inl fine ↦ (
      record w { db = without_room room.id (env.now w.calls) w.db; calls = w.calls + 1 + 1 },
      refl,
      refl,
      refl,
      ground (arith, fine),
    )
  ]

  remove_room_row-ok :
      (room : Room) (w u : World C)
      → remove_room_row env room w ≡ (ok tt, u)
      → (u.db ≡ without_room room.id (env.now w.calls) w.db)
        × (u.sent
            ≡ told
                (destroy_room room.gateway_uid)
                (select hosts_rooms (Gateways.all w.cache.gateways))
                w.sent)
  remove_room_row-ok room w u e =
      let (w', removed, cache, sent, ran) = remove_step room w u e in
      let (kept, messages) = tell_all-ok (destroy_room room.gateway_uid) w' (ap (λ r. r.0) ran) in
      (
        sym (ap (λ r. r.1.db) ran) ∙ kept ∙ removed,
        sym (ap (λ r. r.1.sent) ran)
            ∙ messages
            ∙ ap
                (λ c.
                  told (destroy_room room.gateway_uid)
                    (select hosts_rooms (Gateways.all c.gateways)) w'.sent)
                cache
            ∙ ap
                (told (destroy_room room.gateway_uid)
                  (select hosts_rooms (Gateways.all w.cache.gateways)))
                sent,
      )

module _ {Token C : Type 0} (config : Config) (v : Verifiers Token) (env : Env)
    (bad_new_uid bad_uid : String → Bool) (next_uid : List Room → String) where
  abbrev pub serve_delete : RequestContext → ℤ → World C → Bool × World C
  serve_delete c id =
      outcome_of (admin_delete_room config v env bad_new_uid bad_uid next_uid c (some id))

  found_step :
      (c : RequestContext) (id : ℤ) (w : World C)
      → (serve_delete c id w).0 ≡ true
      → (room : Room) × (first? (λ r. pos r.id == id) w.db.rooms ≡ some room)
        × ((in_tx env (remove_room_row env room) (counted w)).0 ≡ ok tt)
        × ((serve_delete c id w).1.db ≡ (in_tx env (remove_room_row env room) (counted w)).1.db)
        × ((serve_delete c id w).1.sent ≡ (in_tx env (remove_room_row env room) (counted w)).1.sent)
  unfolding admin_delete_room with_room commit_room recovered query
  found_step c id w done = elim (Option-cases (env.fault w.calls)) [
    | inr (x, broken) ↦ absurd (ground (arith, broken))
    | inl fine ↦ elim (Option-cases (first? (λ r. pos r.id == id) w.db.rooms)) [
      | inl absent ↦ absurd (ground (arith, fine, absent))
      | inr (room, there) ↦
          let (reloads, unsent, kept) =
            reload_rooms-still C env (in_tx env (remove_room_row env room) (counted w)).1 in
          (
            room,
            there,
            ground (arith, fine, there),
            ground (arith, fine, there, reloads, kept),
            ground (arith, fine, there, reloads, unsent),
          )
    ]
  ]

  -- When a request to delete a room is answered with success, there is a room of the id, its row has
  -- the time of the removal and nothing else in the tables has changed, and every gateway of the cache
  -- that hosts rooms was told to destroy the room, in the order of the cache.
  pub admin_delete_room-told :
      (c : RequestContext) (id : ℤ) (w : World C)
      → (serve_delete c id w).0 ≡ true
      → let u = (serve_delete c id w).1 in
        (room : Room) × (first? (λ r. pos r.id == id) w.db.rooms ≡ some room)
        × (u.db ≡ without_room room.id (env.now (w.calls + 1 + 1)) w.db)
        × (u.sent
            ≡ told
                (destroy_room room.gateway_uid)
                (select hosts_rooms (Gateways.all w.cache.gateways))
                w.sent)
  admin_delete_room-told c id w done =
      let (room, there, stored, tables, messages) = found_step c id w done in
      let body : Action C (Unit {0}) = remove_room_row env room in
      let (_, ran, after, _) =
        in_tx-eq-ok env body (counted w) tt (in_tx env body (counted w)).1
          (ap (λ o. (o, (in_tx env body (counted w)).1)) stored) in
      let (removed, all_told) =
        remove_room_row-ok env room (counted (counted w)) (body (counted (counted w))).1
          (ap (λ o. (o, (body (counted (counted w))).1)) ran) in
      (
        room,
        there,
        tables ∙ ap (λ u. u.db) after ∙ removed,
        messages ∙ ap (λ u. u.sent) after ∙ all_told,
      )
