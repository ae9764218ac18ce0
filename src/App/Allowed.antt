-- ===== src/App/Allowed.antt =====
-- Which endpoints want which roles, and who gets there.
use gxydb_api.Base.{
  ◌≡◌, false, String, List, [], ◌∷◌, Option, none, some, inl, inr, arith, string_eq, Option-cases,
}
use gxydb_api.Base.Maps.{Map}
use gxydb_api.Errors.{ok}
use gxydb_api.World.{World}
use gxydb_api.Auth.{RequestContext, request_has_role}
use gxydb_api.Auth.Roles.{role_shidur, role_admin, role_root}
use gxydb_api.Listing.Requests.{list_gateways, list_rooms, list_configs}
use gxydb_api.V1.{aborted}
use gxydb_api.V1.Changes.{v1_create_group, v1_update_room, v1_update_composite}
use gxydb_api.Admin.Coherent.{create, update, set, delete, serve_config-forbidden}
use gxydb_api.Admin.Reads.{admin_get_config, admin_handle_info}
use gxydb_api.Admin.RoomHandlers.{
  admin_create_room, admin_get_room, admin_update_room, admin_delete_room, admin_delete_statistics,
}
use gxydb_api.App
use gxydb_api.App.{Endpoint, Request, Server, handle}

-- The roles of which one is wanted, for the endpoints that want one beyond those of the program.
abbrev pub roles_for : Endpoint → Option (List String)
roles_for App.create_group = some (role_root ∷ [])
roles_for App.update_room = some (role_shidur ∷ [])
roles_for App.update_composite = some (role_shidur ∷ [])
roles_for App.admin_gateways = some (role_root ∷ [])
roles_for App.admin_handle_info = some (role_admin ∷ role_root ∷ [])
roles_for App.admin_rooms = some (role_root ∷ [])
roles_for App.admin_create_room = some (role_root ∷ [])
roles_for App.admin_get_room = some (role_root ∷ [])
roles_for App.admin_update_room = some (role_root ∷ [])
roles_for App.admin_delete_room = some (role_root ∷ [])
roles_for App.admin_delete_statistics = some (role_shidur ∷ role_root ∷ [])
roles_for App.admin_configs = some (role_root ∷ [])
roles_for App.admin_create_config = some (role_root ∷ [])
roles_for App.admin_get_config = some (role_root ∷ [])
roles_for App.admin_update_config = some (role_root ∷ [])
roles_for App.admin_set_config = some (role_root ∷ [])
roles_for App.admin_delete_config = some (role_root ∷ [])
roles_for _ = none

module _ {Token C : Type 0} (s : Server Token C) (vars : Map String String) (c : RequestContext)
    (r : Request) (w : World C) (checked : (s.config).skip_permissions ≡ false) where
  pub handle-forbidden :
      (e : Endpoint) (roles : List String)
      → roles_for e ≡ some roles
      → request_has_role s.config s.verifiers roles c ≡ false
      → handle s e vars c r w ≡ (ok (aborted 403), w)
  unfolding handle v1_create_group v1_update_room v1_update_composite list_gateways list_rooms
      list_configs admin_handle_info admin_create_room admin_get_room admin_update_room
      admin_delete_room admin_delete_statistics admin_get_config
  handle-forbidden App.create_group roles h refused = ground arith
  handle-forbidden App.update_room roles h refused = ground arith
  handle-forbidden App.update_composite roles h refused = ground arith
  handle-forbidden App.admin_gateways roles h refused = ground arith
  handle-forbidden App.admin_handle_info roles h refused = ground arith
  handle-forbidden App.admin_rooms roles h refused = ground arith
  handle-forbidden App.admin_create_room roles h refused = ground arith
  handle-forbidden App.admin_get_room roles h refused = ground arith
  handle-forbidden App.admin_update_room roles h refused = ground arith
  handle-forbidden App.admin_delete_room roles h refused = ground arith
  handle-forbidden App.admin_delete_statistics roles h refused = ground arith
  handle-forbidden App.admin_configs roles h refused = ground arith
  handle-forbidden App.admin_create_config roles h refused = ground (
    arith,
    serve_config-forbidden s.config s.verifiers s.env (create ((s.decode).config r.body)) c w,
  )
  handle-forbidden App.admin_update_config roles h refused = ground (
    arith,
    serve_config-forbidden s.config s.verifiers s.env
        (update ((s.numbers).id (App.var "id" vars)) ((s.decode).config r.body)) c w,
  )
  handle-forbidden App.admin_set_config roles h refused = ground (
    arith,
    serve_config-forbidden s.config s.verifiers s.env
        (set (App.var "key" vars) ((s.decode).config r.body)) c w,
  )
  handle-forbidden App.admin_delete_config roles h refused = ground (
    arith,
    serve_config-forbidden s.config s.verifiers s.env (delete ((s.numbers).id (App.var "id" vars)))
        c w,
  )
  handle-forbidden App.admin_get_config roles h refused =
      elim (Option-cases ((s.numbers).id (App.var "id" vars))) [
        | inl no_number ↦ ground (arith, no_number)
        | inr (id, number) ↦ ground (arith, number)
      ]
  handle-forbidden e roles h refused = absurd (ground arith)
