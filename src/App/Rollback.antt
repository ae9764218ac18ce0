-- ===== src/App/Rollback.antt =====
-- A request that is not answered with success leaves the tables as they were.
use gxydb_api.Base.{
  ◌≡◌, refl, Bool, true, false, String, List, [], Option, none, some, inl, inr, ◌⊎◌, arith, ◌==◌,
  string_eq, nat_eq, Option-cases, List-cases, Bool-cases, Either-cases, ℕ, select,
}
use gxydb_api.Base.Maps.{Map, put}
use gxydb_api.Errors.{ok, err, panic}
use gxydb_api.Models.{Room}
use gxydb_api.Cache.Gateways
use gxydb_api.Cache.Rooms
use gxydb_api.World.{Env, World, Action, query, counted}
use gxydb_api.Tx.Atomic.{NoLoss, in_tx-rollback}
use gxydb_api.Auth.{Config, Verifiers, RequestContext, Verdict, next, abort, to_router}
use gxydb_api.Statistics.{or_stack, reset}
use gxydb_api.V1.{Answer, recovered, v1_update_session}
use gxydb_api.V1.Rooms.{V1RoomInfo}
use gxydb_api.V1.Answers as Answers
use gxydb_api.V1.Answers.{is_answered, serve_v1-rollback}
use gxydb_api.V1.Changes.{
  v1_create_group, v1_update_room, v1_update_composite, store_group, store_places, update_extra,
}
use gxydb_api.Admin.RoomHandlers.{admin_create_room, admin_update_room, admin_delete_statistics}
use gxydb_api.Admin.Apart as Apart
use gxydb_api.Admin.Apart.{serve_room-ToldFirst}
use gxydb_api.Admin.Coherent as Coherent
use gxydb_api.Admin.Coherent.{is_done}
use gxydb_api.Admin.{Reply, admin_create, admin_update, admin_set, admin_delete}
use gxydb_api.Admin.Undone.{Undone, serve_config-Undone}
use gxydb_api.App
use gxydb_api.App.{
  Endpoint, Route, Request, Server, status_only, reply_only, verifiers_in, handle, dispatch, serve,
}
use gxydb_api.App.Reading.{is_get, handle-Leaves}

-- The tables after a request that is not answered with success are those before.
abbrev pub RollsBack : {C : Type 0} → Action C (Answer (Unit {0})) → Type 0
RollsBack {C} m =
    (w : World C) → is_answered (recovered m w).0 ≡ false → (recovered m w).1.db ≡ w.db

module _ {Token C : Type 0} (config : Config) (v : Verifiers Token) (env : Env)
    (lossless : NoLoss env) (c : RequestContext) where
  v1_create_group-RollsBack :
      (id : Option String) (body : ℕ ⊎ V1RoomInfo)
      → RollsBack {C = C} (v1_create_group config v env c id body)
  unfolding v1_create_group recovered
  v1_create_group-RollsBack none body w fails = ground arith
  v1_create_group-RollsBack (some uid) (inl code) w fails = ground arith
  v1_create_group-RollsBack (some uid) (inr info) w fails =
      elim (Option-cases (Gateways.find_name info.janus w.cache.gateways)) [
        | inl unknown ↦ ground (arith, unknown)
        | inr (gateway, known) ↦ ground (
          arith,
          known,
          in_tx-rollback env (store_group config v env info gateway uid) w lossless,
        )
      ]

  v1_update_room-RollsBack :
      (uid : String) (body : ℕ ⊎ Option String)
      → RollsBack {C = C} (v1_update_room config v env c uid body)
  unfolding v1_update_room recovered
  v1_update_room-RollsBack uid body w fails =
      elim (Option-cases (Rooms.find_uid uid w.cache.rooms)) [
        | inl unknown ↦ ground (arith, unknown)
        | inr (room, known) ↦ changed room known body fails
      ]
    where
      changed :
          (room : Room)
          → Rooms.find_uid uid w.cache.rooms ≡ some room
          → (b : ℕ ⊎ Option String)
          → is_answered (recovered (v1_update_room config v env c uid b) w).0 ≡ false
          → (recovered (v1_update_room config v env c uid b) w).1.db ≡ w.db
      changed room known (inl code) fails = ground (arith, known)
      changed room known (inr none) fails = ground (arith, known)
      changed room known (inr (some extra)) fails =
          let next : Room = record room { extra = some extra } in
          ground (
            arith,
            known,
            in_tx-rollback env (or_stack (query env (update_extra next)))
                (record w {
                  cache = record (w.cache) { rooms = record { m = put uid next w.cache.rooms.m } };
                })
                lossless,
          )

  v1_update_composite-RollsBack :
      (name : String) (body : ℕ ⊎ List (Option V1RoomInfo))
      → RollsBack {C = C} (v1_update_composite config v env c name body)
  unfolding v1_update_composite recovered query
  v1_update_composite-RollsBack name (inl code) w fails = ground arith
  v1_update_composite-RollsBack name (inr items) w fails =
      elim (List-cases (select (λ k. k.name == name) w.db.composites)) [
        | inl absent ↦ ground (arith, absent)
        | inr (k, ks, there) ↦ ground (
          arith,
          there,
          in_tx-rollback env (store_places config v env k.id items) (counted w) lossless,
        )
      ]

  admin_delete_statistics-RollsBack :
      (bad_new_uid bad_uid : String → Bool) (next_uid : List Room → String)
      → RollsBack {C = C} (admin_delete_statistics config v env bad_new_uid bad_uid next_uid c)
  unfolding admin_delete_statistics recovered reset
  admin_delete_statistics-RollsBack bad_new_uid bad_uid next_uid w fails = ground (
    arith,
    in_tx-rollback env (or_stack (query env (λ db. inr (tt, record db { room_statistics = [] })))) w
        lossless,
  )

status_only-RollsBack :
    {C A : Type 0} (m : Action C (Answer A)) (w : World C)
    → (is_answered (recovered m w).0 ≡ false → (recovered m w).1.db ≡ w.db)
    → is_answered (recovered (status_only m) w).0 ≡ false
    → (recovered (status_only m) w).1.db ≡ w.db
unfolding recovered
status_only-RollsBack m w h fails = ground (arith, h)

reply_only-RollsBack :
    {C : Type 0} (m : Action C Reply) (w : World C)
    → ((elim (m w).0 [ ok reply ↦ is_done reply | err _ ↦ false | panic _ ↦ false ]) ≡ false
        → (m w).1.db ≡ w.db)
    → is_answered (recovered (reply_only m) w).0 ≡ false
    → (recovered (reply_only m) w).1.db ≡ w.db
unfolding recovered
reply_only-RollsBack m w h fails = ground (arith, h)

-- The endpoint whose two transactions are not undone together.
abbrev pub is_service : Endpoint → Bool
is_service App.handle_service_protocol = true
is_service _ = false

module _ {Token C : Type 0} (s : Server Token C) (lossless : NoLoss s.env)
    (vars : Map String String) (c : RequestContext) (r : Request) where
  handle-RollsBack :
      (e : Endpoint) → is_get e ≡ false → is_service e ≡ false → RollsBack (handle s e vars c r)
  unfolding handle Undone
  handle-RollsBack App.create_group h k w fails =
      v1_create_group-RollsBack s.config s.verifiers s.env lossless c
        ((s.numbers).group (App.var "id" vars)) ((s.decode).group r.body) w fails
  handle-RollsBack App.update_room h k w fails =
      v1_update_room-RollsBack s.config s.verifiers s.env lossless c (App.var "id" vars)
        ((s.decode).extra r.body) w fails
  handle-RollsBack App.update_composite h k w fails =
      v1_update_composite-RollsBack s.config s.verifiers s.env lossless c (App.var "id" vars)
        ((s.decode).items r.body) w fails
  handle-RollsBack App.admin_delete_statistics h k w fails =
      admin_delete_statistics-RollsBack s.config s.verifiers s.env lossless c s.bad_new_uid
        s.bad_uid s.next_uid w fails
  handle-RollsBack App.handle_event h k w fails =
      serve_v1-rollback s.arc s.env s.codec (Answers.event ((s.decode).event r.body)) w lossless
        fails
  handle-RollsBack App.handle_protocol h k w fails =
      serve_v1-rollback s.arc s.env s.codec (Answers.protocol ((s.decode).payload r.body)) w
        lossless fails
  handle-RollsBack App.update_session h k w fails =
      status_only-RollsBack
        (v1_update_session s.arc s.env s.codec (App.var "id" vars) ((s.decode).user r.body)) w
        (serve_v1-rollback s.arc s.env s.codec
          (Answers.update (App.var "id" vars) ((s.decode).user r.body)) w lossless)
        fails
  handle-RollsBack App.admin_create_room h k w fails =
      status_only-RollsBack
        (admin_create_room s.config s.verifiers s.env s.bad_new_uid s.bad_uid s.next_uid c
          ((s.decode).room r.body))
        w
        (λ q.
          (serve_room-ToldFirst s.config s.verifiers s.env s.bad_new_uid s.bad_uid s.next_uid
            (Apart.create ((s.decode).room r.body)) c w lossless q).0)
        fails
  handle-RollsBack App.admin_update_room h k w fails =
      status_only-RollsBack
        (admin_update_room s.config s.verifiers s.env s.bad_new_uid s.bad_uid s.next_uid c
          ((s.numbers).id (App.var "id" vars)) ((s.decode).room r.body))
        w
        (λ q.
          (serve_room-ToldFirst s.config s.verifiers s.env s.bad_new_uid s.bad_uid s.next_uid
            (Apart.update ((s.numbers).id (App.var "id" vars)) ((s.decode).room r.body)) c w
            lossless q).0)
        fails
  handle-RollsBack App.admin_delete_room h k w fails =
      (serve_room-ToldFirst s.config s.verifiers s.env s.bad_new_uid s.bad_uid s.next_uid
        (Apart.delete ((s.numbers).id (App.var "id" vars))) c w lossless fails).0
  handle-RollsBack App.admin_create_config h k w fails =
      reply_only-RollsBack (admin_create s.config s.verifiers s.env c ((s.decode).config r.body)) w
        (serve_config-Undone C s.config s.verifiers s.env lossless
          (Coherent.create ((s.decode).config r.body)) c w)
        fails
  handle-RollsBack App.admin_update_config h k w fails =
      reply_only-RollsBack
        (admin_update s.config s.verifiers s.env c ((s.numbers).id (App.var "id" vars))
          ((s.decode).config r.body))
        w
        (serve_config-Undone C s.config s.verifiers s.env lossless
          (Coherent.update ((s.numbers).id (App.var "id" vars)) ((s.decode).config r.body)) c w)
        fails
  handle-RollsBack App.admin_set_config h k w fails =
      reply_only-RollsBack
        (admin_set s.config s.verifiers s.env c (App.var "key" vars) ((s.decode).config r.body)) w
        (serve_config-Undone C s.config s.verifiers s.env lossless
          (Coherent.set (App.var "key" vars) ((s.decode).config r.body)) c w)
        fails
  handle-RollsBack App.admin_delete_config h k w fails =
      reply_only-RollsBack
        (admin_delete s.config s.verifiers s.env c ((s.numbers).id (App.var "id" vars))) w
        (serve_config-Undone C s.config s.verifiers s.env lossless
          (Coherent.delete ((s.numbers).id (App.var "id" vars))) c w)
        fails
  handle-RollsBack e h k w fails = absurd (ground arith)

module _ {Token C : Type 0} (s : Server Token C) (lossless : NoLoss s.env) where
  -- A request that is not answered with success, be it refused, failed or broken off by a panic,
  -- leaves all tables as they were, where no answer to a COMMIT is lost; a message of the service
  -- protocol, whose counter is made in a transaction of its own, is left out.
  pub request-rollback :
      (r : Request) (w : World C)
      → ((found : Route) (vars : Map String String)
          → s.find_route App.routes r.method (r.http).path ≡ inr (found, vars)
          → is_service found.endpoint ≡ false)
      → is_answered (serve s r w).0 ≡ false
      → (serve s r w).1.db ≡ w.db
  unfolding serve recovered dispatch
  request-rollback r w other fails = split (to_router s.config (verifiers_in s w.cache) r.http) refl
    where
      split :
          (verdict : Verdict)
          → to_router s.config (verifiers_in s w.cache) r.http ≡ verdict
          → (serve s r w).1.db ≡ w.db
      split (abort code) e = ground (arith, e)
      split (next c) e = elim (Either-cases (s.find_route App.routes r.method (r.http).path)) [
        | inl (code, none_fits) ↦ ground (arith, e, none_fits)
        | inr ((found, vars), fits) ↦ elim (Bool-cases (is_get found.endpoint)) [
          | inl reads ↦ ground (arith, e, fits, handle-Leaves s vars c r found.endpoint reads w)
          | inr writes ↦ ground (
            arith,
            e,
            fits,
            handle-RollsBack s lossless vars c r found.endpoint writes (other found vars fits) w,
          )
        ]
      ]
