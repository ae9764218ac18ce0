-- ===== src/Admin/RoomHandlers.antt =====
-- api/api_admin.go: the handlers of rooms. They write the table, tell the gateways one after another
-- inside the transaction, and then reload the cache of rooms. `AdminCreateRoom` and `AdminUpdateRoom`
-- test the uid of a room by code that is no Go (`uid < 0` of a text): these tests are parameters.
use gxydb_api.Base.{
  ℕ, Bool, not, ◌&&◌, ◌||◌, String, List, [], ◌∷◌, ◌⊎◌, inl, inr, Option, none, some, ◌==◌, nat_eq,
  string_eq, if◌then◌else◌,
}
use gxydb_api.Base.Int.{ℤ, int_eq}
use gxydb_api.Errors.{ok}
use gxydb_api.Models.{Room}
use gxydb_api.Cache.Rooms
use gxydb_api.World.{Env, Action, pure, ◌>>=◌, query}
use gxydb_api.Auth.{Config, Verifiers, RequestContext}
use gxydb_api.Auth.Roles.{role_shidur, role_root}
use gxydb_api.Statistics.{reset}
use gxydb_api.V1.{Answer, aborted, answered, answering, abort_internal, as_role}
use gxydb_api.V1.Reads.{found_or_abort}
use gxydb_api.Admin.Rooms.{
  RoomData, find_gateway, has_name, select_room, commit_room, create_room_row, update_room_row,
  remove_room_row, unless_exists,
}

module _ {Token C : Type 0} (config : Config) (v : Verifiers Token) (env : Env)
    (bad_new_uid bad_uid : String → Bool) (next_uid : List Room → String) where
  -- The uid of a new room: the text "0" asks for one that is free.
  unfoldable pub with_uid : RoomData → (RoomData → Action C (Answer Room)) → Action C (Answer Room)
  with_uid input m =
      if input.gateway_uid == "0"
      then (query env (λ db. inr (next_uid db.rooms, db)) >>= λ r. elim r [
        | inl e ↦ pure (aborted 500)
        | inr uid ↦ m (record input { gateway_uid = uid })
      ])
      else if bad_new_uid input.gateway_uid
      then pure (aborted 400)
      else (λ w. elim (Rooms.find_uid input.gateway_uid w.cache.rooms) [
        | some _ ↦ (ok (aborted 400), w)
        | none ↦ m input w
      ])

  -- `AdminCreateRoom`, whose success has the status 201.
  unfoldable pub admin_create_room : RequestContext → ℕ ⊎ RoomData → Action C (Answer Room)
  admin_create_room c body = as_role config v (role_root ∷ []) c (elim body [
    | inl code ↦ pure (aborted code)
    | inr input ↦ λ w. elim (find_gateway input.default_gateway_id w.cache.gateways) [
      | none ↦ (ok (aborted 400), w)
      | some _ ↦
          unless_exists env (λ r. r.name == input.name)
            (if has_name input
              then with_uid input (λ given. commit_room env (create_room_row env given))
              else pure (aborted 400))
            w
    ]
  ])

  -- `models.FindRoom` and what becomes of its errors; a path without a number finds nothing.
  unfoldable pub with_room :
      {A : Type 0} → Option ℤ → (Room → Action C (Answer A)) → Action C (Answer A)
  with_room none m = pure (aborted 404)
  with_room (some id) m = found_or_abort (query env (select_room id)) m

  -- `AdminGetRoom`
  unfoldable pub admin_get_room : RequestContext → Option ℤ → Action C (Answer Room)
  admin_get_room c id =
      as_role config v (role_root ∷ []) c (with_room id λ room. pure (answered room))

  -- `AdminUpdateRoom`
  unfoldable pub admin_update_room :
      RequestContext → Option ℤ → ℕ ⊎ RoomData → Action C (Answer Room)
  admin_update_room c id body = as_role config v (role_root ∷ []) c (
      with_room id λ room. elim body [
        | inl code ↦ pure (aborted code)
        | inr input ↦
            if bad_uid input.gateway_uid || not (has_name input) then pure (aborted 400) else (λ w.
              elim (find_gateway input.default_gateway_id w.cache.gateways) [
                | none ↦ (ok (aborted 400), w)
                | some _ ↦
                    unless_exists env
                      (λ r. r.gateway_uid == input.gateway_uid && not (r.id == room.id))
                      (unless_exists env (λ r. r.name == input.name && not (r.id == room.id))
                        (commit_room env (update_room_row env room input)))
                      w
              ])
      ])

  -- `AdminDeleteRoom`
  unfoldable pub admin_delete_room : RequestContext → Option ℤ → Action C (Answer (Unit {0}))
  admin_delete_room c id =
      as_role config v (role_root ∷ []) c
        (with_room id λ room. commit_room env (remove_room_row env room))

  -- `AdminDeleteRoomsStatistics`
  unfoldable pub admin_delete_statistics : RequestContext → Action C (Answer (Unit {0}))
  admin_delete_statistics c =
      as_role config v (role_shidur ∷ role_root ∷ []) c
        (answering abort_internal (λ _ u. u) (reset env))
