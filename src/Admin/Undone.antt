-- ===== src/Admin/Undone.antt =====
-- A handler of the dynamic configuration that fails leaves the tables as they were.
use gxydb_api.Base.{
  ℕ, ◌≡◌, refl, ap, true, false, String, Option, none, some, inl, inr, ◌⊎◌, arith, ◌==◌, nat_eq,
  Option-cases, first?,
}
use gxydb_api.Base.Int.{ℤ, pos, int_eq}
use gxydb_api.Errors.{Outcome, ok, err, panic}
use gxydb_api.Models.{DynamicConfig}
use gxydb_api.Cache.DynamicConfigs
use gxydb_api.World.{Env, World, Action, query, counted}
use gxydb_api.Tx.{in_tx}
use gxydb_api.Tx.Atomic.{NoLoss, in_tx-rollback, in_tx-eq-ok}
use gxydb_api.Auth.{Config, Verifiers, RequestContext}
use gxydb_api.Admin.{
  Reply, ConfigData, commit_config, checked, with_config, as_root, create_row, update_row, set_row,
  delete_row, admin_create, admin_update, admin_set, admin_delete,
}
use gxydb_api.Admin.Coherent.{
  is_done, reload_config-ok, ConfigRequest, create, update, set, delete, serve_config,
}

module _ {Token : Type 0} (C : Type 0) (config : Config) (v : Verifiers Token) (env : Env)
    (lossless : NoLoss env) where
  -- An action that does not reply with success leaves the tables.
  unfoldable pub Undone : Action C Reply → Type 0
  Undone m =
      (w : World C)
      → (elim (m w).0 [ ok reply ↦ is_done reply | err _ ↦ false | panic _ ↦ false ]) ≡ false
      → (m w).1.db ≡ w.db

  -- A body that ends well replies with success.
  Replies : Action C Reply → Type 0
  Replies body = (w : World C) (reply : Reply) → (body w).0 ≡ ok reply → is_done reply ≡ true

  commit_config-Undone :
      (body : Action C Reply) → Replies body → Undone (commit_config config v env body)
  unfolding Undone Replies commit_config
  commit_config-Undone body replies w fails = split (in_tx env body w).0 refl
    where
      split :
          (o : Outcome Reply)
          → (in_tx env body w).0 ≡ o
          → (commit_config config v env body w).1.db ≡ w.db
      split (ok reply) e =
          let (_, done, _, _) =
            in_tx-eq-ok env body w reply (in_tx env body w).1
              (ap (λ o. (o, (in_tx env body w).1)) e) in
          absurd (
            ground (
              arith,
              e,
              reload_config-ok config v env (in_tx env body w).1,
              replies (counted w) reply done,
            ))
      split (err x) e = ground (arith, e, in_tx-rollback env body w lossless)
      split (panic x) e = ground (arith, e, in_tx-rollback env body w lossless)

  create_row-Replies : (input : ConfigData) → Replies (create_row config v env input)
  unfolding Replies create_row query
  create_row-Replies input w reply e = ground arith

  update_row-Replies :
      (kv : DynamicConfig) (input : ConfigData) → Replies (update_row config v env kv input)
  unfolding Replies update_row query
  update_row-Replies kv input w reply e = ground arith

  set_row-Replies :
      (key : String) (kv : DynamicConfig) (input : ConfigData)
      → Replies (set_row config v env key kv input)
  unfolding Replies set_row query
  set_row-Replies key kv input w reply e = ground arith

  delete_row-Replies : (kv : DynamicConfig) → Replies (delete_row config v env kv)
  unfolding Replies delete_row query
  delete_row-Replies kv w reply e = ground arith

  checked-Undone :
      (input : ConfigData) (m : Action C Reply) → Undone m → Undone (checked config v env input m)
  unfolding Undone checked query
  checked-Undone input m h w fails = ground (arith, h (counted w))

  with_config-Undone :
      (id : Option ℤ) (m : DynamicConfig → Action C Reply)
      → ((kv : DynamicConfig) → Undone (m kv))
      → Undone (with_config config v env id m)
  unfolding Undone with_config query
  with_config-Undone none m h w fails = refl
  with_config-Undone (some id) m h w fails =
      elim (Option-cases (first? (λ kv. pos kv.id == id) w.db.dynamic_configs)) [
        | inl absent ↦ ground (arith, absent)
        | inr (kv, there) ↦ ground (arith, there, h kv (counted w))
      ]

  as_root-Undone :
      (c : RequestContext) (m : Action C Reply) → Undone m → Undone (as_root config v env c m)
  unfolding Undone as_root
  as_root-Undone c m h w fails = ground (arith, h w)

  admin_set-Undone :
      (c : RequestContext) (key : String) (body : ℕ ⊎ ConfigData)
      → Undone (admin_set config v env c key body)
  unfolding Undone as_root admin_set
  admin_set-Undone c key (inl code) w fails =
      elim (Option-cases (DynamicConfigs.find key w.cache.dynamic_config)) [
        | inl absent ↦ ground (arith, absent)
        | inr (kv, found) ↦ ground (arith, found)
      ]
  admin_set-Undone c key (inr input) w fails =
      elim (Option-cases (DynamicConfigs.find key w.cache.dynamic_config)) [
        | inl absent ↦ ground (arith, absent)
        | inr (kv, found) ↦ ground (
          arith,
          found,
          commit_config-Undone (set_row config v env key kv input) (set_row-Replies key kv input) w,
        )
      ]

  -- A handler of the dynamic configuration that does not reply with success leaves the tables.
  pub serve_config-Undone :
      (r : ConfigRequest) (c : RequestContext) → Undone (serve_config config v env r c)
  unfolding Undone admin_create admin_update admin_delete
  serve_config-Undone (create (inl code)) c = as_root-Undone c _ λ w fails. refl
  serve_config-Undone (create (inr input)) c =
      as_root-Undone c _
        (checked-Undone input _ (commit_config-Undone _ (create_row-Replies input)))
  serve_config-Undone (update id (inl code)) c =
      as_root-Undone c _ (with_config-Undone id _ λ kv w fails. refl)
  serve_config-Undone (update id (inr input)) c = as_root-Undone c _ (
      with_config-Undone id _
        λ kv. checked-Undone input _ (commit_config-Undone _ (update_row-Replies kv input)))
  serve_config-Undone (set key body) c = admin_set-Undone c key body
  serve_config-Undone (delete id) c =
      as_root-Undone c _
        (with_config-Undone id _ λ kv. commit_config-Undone _ (delete_row-Replies kv))
