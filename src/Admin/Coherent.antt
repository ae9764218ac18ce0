-- ===== src/Admin/Coherent.antt =====
-- When the cache of the dynamic configuration agrees with its table, and when it does not.
use gxydb_api.Base.{
  ℕ, ◌+◌, ◌≡◌, ap, ◌∙◌, Bool, true, false, String, List, [], ◌∷◌, ◌⊎◌, inl, inr, Option, none, some,
  arith, ◌==◌, ==_iff, string_eq, last?, first?, any, select, Option-cases,
}
use gxydb_api.Base.Int.{ℤ, pos, int_eq}
use gxydb_api.Base.Maps.{get-put}
use gxydb_api.Errors.{Error, ok}
use gxydb_api.Models.{DynamicConfig}
use gxydb_api.Cache.DynamicConfigs
use gxydb_api.Cache.Laws.{reload-DynamicConfigs}
use gxydb_api.World.{Env, World, Action, query, counted}
use gxydb_api.Tx.{in_tx}
use gxydb_api.Auth.{Config, Verifiers, RequestContext, request_has_role}
use gxydb_api.Auth.Roles.{role_root}
use gxydb_api.Admin.{
  Reply, aborted, ConfigData, has_value, as_root, reload_config, commit_config, checked,
  with_config, admin_create, admin_update, set_row, admin_set, delete_row, admin_delete,
}

-- A request to one of the handlers, as the router and the decoding of the body give it.
pub data ConfigRequest : Type 0 where
  create : ℕ ⊎ ConfigData → ConfigRequest
  update : Option ℤ → ℕ ⊎ ConfigData → ConfigRequest
  set : String → ℕ ⊎ ConfigData → ConfigRequest
  delete : Option ℤ → ConfigRequest

abbrev pub is_done : Reply → Bool
is_done (aborted _) = false
is_done _ = true

-- The cache answers for every key what the table has.
abbrev pub Coherent : {C : Type 0} → World C → Type 0
Coherent w =
    (key : String)
    → DynamicConfigs.find key w.cache.dynamic_config
      ≡ last? (select (λ kv. kv.key == key) w.db.dynamic_configs)

abbrev pub NoFaults : Env → Type 0
NoFaults env = (n : ℕ) → env.fault n ≡ none

any-first? :
    (p : DynamicConfig → Bool) (kv : DynamicConfig) (kvs : List DynamicConfig)
    → first? p kvs ≡ some kv
    → any (λ old. old.key == kv.key) kvs ≡ true
any-first? p kv [] h = absurd (ground arith)
any-first? p kv (old ∷ kvs) h = ground (arith, any-first? p kv kvs, ==_iff old.key kv.key)

module _ {Token C : Type 0} (config : Config) (v : Verifiers Token) (env : Env) where
  abbrev pub serve_config : ConfigRequest → RequestContext → Action C Reply
  serve_config (create body) c = admin_create config v env c body
  serve_config (update id body) c = admin_update config v env c id body
  serve_config (set key body) c = admin_set config v env c key body
  serve_config (delete id) c = admin_delete config v env c id

  -- An action that does not abort only after a reload.
  Reloads : Action C Reply → Type 0
  Reloads m =
      (w u : World C) (reply : Reply)
      → NoFaults env
      → is_done reply ≡ true
      → m w ≡ (ok reply, u)
      → Coherent u

  reload_config-Coherent : (w : World C) → NoFaults env → Coherent (reload_config config v env w).1
  unfolding reload_config query
  reload_config-Coherent w fine key = ground (
    arith,
    fine w.calls,
    (reload-DynamicConfigs key w.db.dynamic_configs w.cache.dynamic_config).0,
  )

  pub reload_config-ok : (w : World C) → (reload_config config v env w).0 ≡ ok tt
  unfolding reload_config query
  reload_config-ok w = ground arith

  commit_config-Reloads : (body : Action C Reply) → Reloads (commit_config config v env body)
  unfolding Reloads commit_config
  commit_config-Reloads body w u reply fine done e key = ground (
    arith,
    reload_config-ok (in_tx env body w).1,
    reload_config-Coherent (in_tx env body w).1 fine key,
  )

  checked-Reloads :
      (input : ConfigData) (m : Action C Reply) → Reloads m → Reloads (checked config v env input m)
  unfolding Reloads checked query
  checked-Reloads input m h w u reply fine done e key = ground (
    arith,
    fine w.calls,
    λ (q : m (counted w) ≡ (ok reply, u)). h (counted w) u reply fine done q key,
  )

  with_config-Reloads :
      (id : Option ℤ) (m : DynamicConfig → Action C Reply)
      → ((kv : DynamicConfig) → Reloads (m kv))
      → Reloads (with_config config v env id m)
  unfolding Reloads with_config query
  with_config-Reloads none m h w u reply fine done e key = absurd (ground arith)
  with_config-Reloads (some id) m h w u reply fine done e key =
      elim (Option-cases (first? (λ kv. pos kv.id == id) w.db.dynamic_configs)) [
        | inl absent ↦ absurd (ground (arith, absent, fine w.calls))
        | inr (kv, there) ↦
            h kv (counted w) u reply fine done (ground (arith, there, fine w.calls)) key
      ]

  as_root-Reloads :
      (c : RequestContext) (m : Action C Reply) → Reloads m → Reloads (as_root config v env c m)
  unfolding Reloads as_root
  as_root-Reloads c m h w u reply fine done e = h w u reply fine done (ground arith)

  -- When one of the handlers replies with success, and no call failed, the cache answers for every
  -- key what the table has.
  pub serve_config-Coherent :
      (r : ConfigRequest) (c : RequestContext) (w u : World C) (reply : Reply)
      → NoFaults env
      → is_done reply ≡ true
      → serve_config r c w ≡ (ok reply, u)
      → Coherent u
  unfolding Reloads as_root admin_create admin_update admin_set admin_delete
  serve_config-Coherent (create (inl code)) c w u reply fine done e = absurd (ground arith)
  serve_config-Coherent (create (inr input)) c w u reply fine done e =
      as_root-Reloads c _ (checked-Reloads input _ (commit_config-Reloads _)) w u reply fine done e
  serve_config-Coherent (update id (inl code)) c w u reply fine done e =
      as_root-Reloads c _
        (with_config-Reloads id _ λ kv w u reply fine done e. absurd (ground arith)) w u reply fine
        done e
  serve_config-Coherent (update id (inr input)) c w u reply fine done e =
      as_root-Reloads c _
        (with_config-Reloads id _ λ kv. checked-Reloads input _ (commit_config-Reloads _)) w u reply
        fine done e
  serve_config-Coherent (set key (inl code)) c w u reply fine done e = absurd (ground arith)
  serve_config-Coherent (set key (inr input)) c w u reply fine done e =
      elim (Option-cases (DynamicConfigs.find key w.cache.dynamic_config)) [
        | inl absent ↦ absurd (ground (arith, absent))
        | inr (kv, found) ↦
            commit_config-Reloads (set_row config v env key kv input) w u reply fine done
              (ground (arith, found))
      ]
  serve_config-Coherent (delete id) c w u reply fine done e =
      as_root-Reloads c _
        (with_config-Reloads id _ λ kv. commit_config-Reloads (delete_row config v env kv)) w u
        reply fine done e

  -- Whoever is not a root user, where permissions are checked, is refused by every handler, which
  -- then changes nothing.
  pub serve_config-forbidden :
      (r : ConfigRequest) (c : RequestContext) (w : World C)
      → config.skip_permissions ≡ false
      → request_has_role config v (role_root ∷ []) c ≡ false
      → serve_config r c w ≡ (ok (aborted 403), w)
  unfolding as_root admin_create admin_update admin_set admin_delete
  serve_config-forbidden (create (inl code)) c w checks no_role = ground arith
  serve_config-forbidden (create (inr input)) c w checks no_role = ground arith
  serve_config-forbidden (update id body) c w checks no_role = ground arith
  serve_config-forbidden (set key body) c w checks no_role = ground arith
  serve_config-forbidden (delete id) c w checks no_role = ground arith

  -- When a root user sets a value that the cache has, and the write fails although the transaction
  -- had begun, the reply is an internal error, and the tables are as before; but the cache has the
  -- new value.
  pub admin_set-stale :
      (c : RequestContext) (key : String) (input : ConfigData) (kv : DynamicConfig) (x : Error)
      (w : World C)
      → request_has_role config v (role_root ∷ []) c ≡ true
      → DynamicConfigs.find key w.cache.dynamic_config ≡ some kv
      → has_value input ≡ true
      → env.fault w.calls ≡ none
      → env.fault (w.calls + 1 + 1) ≡ some x
      → let (reply, u) = admin_set config v env c key (inr input) w in
        (reply ≡ ok (aborted 500))
        × (u.db ≡ w.db)
        × (DynamicConfigs.find key u.cache.dynamic_config
            ≡ some (record kv { value = input.value; updated_at = env.now (w.calls + 1) }))
  unfolding as_root admin_set commit_config set_row in_tx query DynamicConfigs.find
  admin_set-stale c key input kv x w root found valued begins fails = (
    ground arith,
    ground arith,
    ground (
      arith,
      get-put key key (record kv { value = input.value; updated_at = env.now (w.calls + 1) })
          w.cache.dynamic_config.m,
      ==_iff key key,
    ),
  )

  -- A root user who updates a row, and leaves its key as it is, is refused, and the tables stay as
  -- they are: the key is taken for one that exists, where no call fails.
  pub admin_update-same_key :
      (c : RequestContext) (id : ℤ) (input : ConfigData) (kv : DynamicConfig) (w : World C)
      → NoFaults env
      → request_has_role config v (role_root ∷ []) c ≡ true
      → first? (λ old. pos old.id == id) w.db.dynamic_configs ≡ some kv
      → input.key ≡ kv.key
      → let (reply, u) = admin_update config v env c (some id) (inr input) w in
        (reply ≡ ok (aborted 400)) × (u.db ≡ w.db)
  unfolding as_root admin_update with_config checked query
  admin_update-same_key c id input kv w fine root there same =
      let taken = any-first? (λ old. pos old.id == id) kv w.db.dynamic_configs there in
      ground (
        arith,
        fine w.calls,
        fine (w.calls + 1),
        ap (λ key. any (λ old. old.key == key) w.db.dynamic_configs) same ∙ taken,
      )
