-- ===== src/Admin.antt =====
-- api/api_admin.go: the handlers that create, update, set and delete a value of the dynamic
-- configuration, and then reload its cache. A handler takes what the router and the decoding of
-- the request gave it, and ends with a reply.
pub mod Coherent
pub mod Undone
pub mod Rooms
pub mod RoomHandlers
pub mod Reads
pub mod Told
pub mod Telling
pub mod Apart
pub mod Removed
pub mod Tests
use gxydb_api.Base.{
  ℕ, ◌+◌, Bool, true, false, not, ◌&&◌, ◌||◌, String, List, [], ◌∷◌, ◌++◌, ◌⊎◌, inl, inr, Option,
  none, some, ◌==◌, nat_eq, string_eq, if◌then◌else◌, ltb, first?, select, any, map,
}
use gxydb_api.Base.Int.{ℤ, pos, int_eq}
use gxydb_api.Base.Maps.{get, put}
use gxydb_api.Base.Text.{byte_length}
use gxydb_api.Errors.{Error, foreign, no_rows, is_no_rows, with_stack, Outcome, ok, err, panic}
use gxydb_api.Models.{DynamicConfig, Db}
use gxydb_api.Cache.DynamicConfigs
use gxydb_api.World.{Env, World, Action, pure, fail, ◌>>=◌, ◌>>◌, Try, query, clock}
use gxydb_api.Tx.{in_tx}
use gxydb_api.Auth.{Config, Verifiers, RequestContext, request_has_role}
use gxydb_api.Auth.Roles.{role_root}

-- The status of an aborted request, or a reply of success.
pub data Reply : Type 0 where
  aborted : ℕ → Reply
  created : DynamicConfig → Reply
  updated : DynamicConfig → Reply
  success : Reply

-- What is read of the body: `key` and `value`.
pub record ConfigData : Type 0 where
  pub key : String
  pub value : String

-- The two tests of the data that all handlers make, and the one of the key.
pub has_value : ConfigData → Bool
has_value input = not (input.value == "")

pub has_key : ConfigData → Bool
has_key input = not (input.key == "") && not (ltb 255 (byte_length input.key))

abbrev pub key_exists : String → Db → Try (Bool × Db)
key_exists key db = inr (any (λ kv. kv.key == key) db.dynamic_configs, db)

abbrev duplicate_key : Error
duplicate_key = foreign "models: duplicate key value violates unique constraint"

-- `data.Insert(tx, boil.Whitelist("key", "value", "updated_at"))`; `key` is unique.
abbrev pub insert_config : DynamicConfig → Db → Try (DynamicConfig × Db)
insert_config kv db =
    if any (λ old. old.key == kv.key) db.dynamic_configs
    then inl duplicate_key
    else inr (kv, record db { dynamic_configs = db.dynamic_configs ++ kv ∷ [] })

-- `models.FindDynamicConfig`
abbrev pub select_config : ℤ → Db → Try (DynamicConfig × Db)
select_config id db = elim (first? (λ kv. pos kv.id == id) db.dynamic_configs) [
  | none ↦ inl no_rows
  | some kv ↦ inr (kv, db)
]

-- `kv.Update(tx, …)`: the row of the id takes the key, the value and the time.
abbrev pub update_config : DynamicConfig → Db → Try (Unit {0} × Db)
update_config kv db =
    if any (λ old. old.key == kv.key && not (old.id == kv.id)) db.dynamic_configs
    then inl duplicate_key
    else inr (
      tt,
      record db {
        dynamic_configs = map (λ old. if old.id == kv.id then kv else old) db.dynamic_configs;
      },
    )

-- The same on the columns `value` and `updated_at` only.
abbrev pub update_value : DynamicConfig → Db → Try (Unit {0} × Db)
update_value kv db = inr (
  tt,
  record db {
    dynamic_configs =
        map
          (λ old.
            if old.id == kv.id
            then (record old { value = kv.value; updated_at = kv.updated_at })
            else old)
          db.dynamic_configs;
  },
)

abbrev pub delete_config : ℕ → Db → Try (Unit {0} × Db)
delete_config id db =
    inr (tt, record db { dynamic_configs = select (λ kv. not (kv.id == id)) db.dynamic_configs })

module _ {Token C : Type 0} (config : Config) (v : Verifiers Token) (env : Env) where
  abbrev stacked : {A : Type 0} → Action C (Try A) → Action C A
  stacked m = m >>= λ r. elim r [ inl e ↦ fail (with_stack e) | inr a ↦ pure a ]

  -- Only a root user may go on.
  unfoldable pub as_root : RequestContext → Action C Reply → Action C Reply
  as_root c m w =
      if config.skip_permissions || request_has_role config v (role_root ∷ []) c
      then m w
      else (ok (aborted 403), w)

  -- `a.cache.dynamicConfig.Reload(a.DB)`; an error is logged only.
  unfoldable pub reload_config : Action C (Unit {0})
  reload_config = query env (λ db. inr (db.dynamic_configs, db)) >>= λ r. elim r [
    | inl e ↦ pure tt
    | inr kvs ↦ λ w. (
      ok tt,
      record w {
        cache = record (w.cache) {
          dynamic_config = DynamicConfigs.reload kvs w.cache.dynamic_config;
        };
      },
    )
  ]

  -- Run a transaction, and reload the cache if it succeeded.
  unfoldable pub commit_config : Action C Reply → Action C Reply
  commit_config body w =
      let (r, u) = in_tx env body w in
      elim r [
        | ok reply ↦ (reload_config >> pure reply) u
        | err e ↦ (ok (aborted 500), u)
        | panic p ↦ (panic p, u)
      ]

  -- The tests of a new key and value; an error of the query that looks for the key is ignored.
  unfoldable pub checked : ConfigData → Action C Reply → Action C Reply
  checked input m =
      if not (has_key input)
      then pure (aborted 400)
      else if not (has_value input)
      then pure (aborted 400)
      else (query env (key_exists input.key) >>= λ r. elim r [
        | inl e ↦ m
        | inr exists ↦ if exists then pure (aborted 400) else m
      ])

  -- `models.FindDynamicConfig` and what becomes of its errors.
  unfoldable pub with_config : Option ℤ → (DynamicConfig → Action C Reply) → Action C Reply
  with_config none m = pure (aborted 404)
  with_config (some id) m = query env (select_config id) >>= λ r. elim r [
    | inl e ↦ if is_no_rows e then pure (aborted 404) else pure (aborted 500)
    | inr kv ↦ m kv
  ]

  unfoldable pub create_row : ConfigData → Action C Reply
  create_row input = do
    now ← clock env
    kv ← stacked (λ w.
        query env
          (insert_config (record {
            id = env.fresh w.calls;
            key = input.key;
            value = input.value;
            updated_at = now;
          }))
          w)
    pure (created kv)

  -- `AdminCreateDynamicConfig`, where `body` is the body or the status of the failure to decode it.
  unfoldable pub admin_create : RequestContext → ℕ ⊎ ConfigData → Action C Reply
  admin_create c (inl code) = as_root c (pure (aborted code))
  admin_create c (inr input) = as_root c (checked input (commit_config (create_row input)))

  unfoldable pub update_row : DynamicConfig → ConfigData → Action C Reply
  update_row kv input = do
    now ← clock env
    let next : DynamicConfig = record {
      id = kv.id;
      key = input.key;
      value = input.value;
      updated_at = now;
    }
    _ ← stacked (query env (update_config next))
    pure (updated next)

  -- `AdminUpdateDynamicConfig`
  unfoldable pub admin_update : RequestContext → Option ℤ → ℕ ⊎ ConfigData → Action C Reply
  admin_update c id body = as_root c (
      with_config id λ kv. elim body [
        | inl code ↦ pure (aborted code)
        | inr input ↦ checked input (commit_config (update_row kv input))
      ])

  -- The row in the cache is the row that the handler changes, before it is written.
  abbrev change_cached : String → DynamicConfig → Action C (Unit {0})
  change_cached key kv w = (
    ok tt,
    record w {
      cache = record (w.cache) {
        dynamic_config = record (w.cache.dynamic_config) {
          m = put key kv w.cache.dynamic_config.m;
        };
      };
    },
  )

  unfoldable pub set_row : String → DynamicConfig → ConfigData → Action C Reply
  set_row key kv input = do
    now ← clock env
    let next : DynamicConfig = record kv { value = input.value; updated_at = now }
    change_cached key next
    _ ← stacked (query env (update_value next))
    pure success

  -- `AdminSetDynamicConfig`
  unfoldable pub admin_set : RequestContext → String → ℕ ⊎ ConfigData → Action C Reply
  admin_set c key body = as_root c λ w. elim (DynamicConfigs.find key w.cache.dynamic_config) [
    | none ↦ (ok (aborted 404), w)
    | some kv ↦ elim body [
      | inl code ↦ (ok (aborted code), w)
      | inr input ↦
          if has_value input then commit_config (set_row key kv input) w else (ok (aborted 400), w)
    ]
  ]

  unfoldable pub delete_row : DynamicConfig → Action C Reply
  delete_row kv = stacked (query env (delete_config kv.id)) >>= λ _. pure success

  -- `AdminDeleteDynamicConfig`
  unfoldable pub admin_delete : RequestContext → Option ℤ → Action C Reply
  admin_delete c id = as_root c (with_config id λ kv. commit_config (delete_row kv))
