-- ===== src/V2/Reloaded.antt =====
-- What the caches answer after `ReloadAll`.
use gxydb_api.Base.{
  ℕ, ◌+◌, ◌≡◌, ◌≤◌, All, refl, sym, ap, subst, ◌∙◌, String, List, [], ◌∷◌, arith, ◌==◌, nat_eq,
  string_eq, last?, select,
}
use gxydb_api.Base.Maps.{Map, put}
use gxydb_api.Errors.{Outcome, ok, err, panic}
use gxydb_api.Models.{Gateway}
use gxydb_api.Cache.Gateways
use gxydb_api.Cache.Rooms
use gxydb_api.Cache.Rooms.{is_live}
use gxydb_api.Cache.DynamicConfigs
use gxydb_api.Cache.Users.{Arc}
use gxydb_api.Cache.Laws.{reload-Gateways, reload-Rooms, reload-DynamicConfigs}
use gxydb_api.World.{Env, World, Action, ◌>>◌, query, wrapping, >>=-eq-ok}
use gxydb_api.V2.{
  fill_tokens, reload_gateways, reload_tokens, reload_rooms_cache, reload_users, reload_configs,
  reload_all,
}

module _ {C : Type 0} (arc : Arc C) (env : Env) (active_token : Gateway → Outcome String) where
  -- The caches as they are made of the tables.
  pub record FromTables (w u : World C) : Type 0 where
    pub tables : u.db ≡ w.db
    pub gateways : u.cache.gateways ≡ Gateways.reload (w.db).gateways
    pub rooms : u.cache.rooms ≡ Rooms.reload (w.db).rooms
    pub configs :
        u.cache.dynamic_config ≡ DynamicConfigs.reload (w.db).dynamic_configs w.cache.dynamic_config
    pub tokens_read : (fill_tokens active_token (w.db).gateways []).0 ≡ ok tt
    pub tokens : u.cache.gateway_tokens.by_id ≡ (fill_tokens active_token (w.db).gateways []).1

  reload_gateways-eq-ok :
      (w v : World C)
      → wrapping "reload gateways" (reload_gateways env) w ≡ (ok tt, v)
      → v ≡ record w {
        cache = record (w.cache) { gateways = Gateways.reload (w.db).gateways };
        calls = w.calls + 1;
      }
  unfolding reload_gateways query
  reload_gateways-eq-ok w v e = ground arith

  reload_tokens-eq-ok :
      (w v : World C)
      → wrapping "reload gateway_tokens" (reload_tokens env active_token) w ≡ (ok tt, v)
      → ((fill_tokens active_token (w.db).gateways []).0 ≡ ok tt)
        × (v ≡ record w {
          cache = record (w.cache) {
            gateway_tokens = record { by_id = (fill_tokens active_token (w.db).gateways []).1 };
          };
          calls = w.calls + 1;
        })
  unfolding reload_tokens query
  reload_tokens-eq-ok w v e = (ground arith, ground arith)

  reload_rooms-eq-ok :
      (w v : World C)
      → wrapping "reload rooms" (reload_rooms_cache env) w ≡ (ok tt, v)
      → v ≡ record w {
        cache = record (w.cache) { rooms = Rooms.reload (w.db).rooms };
        calls = w.calls + 1;
      }
  unfolding reload_rooms_cache query
  reload_rooms-eq-ok w v e = ground arith

  -- What the reloading of the users leaves alone.
  record SameButUsers (w v : World C) : Type 0 where
    same_db : v.db ≡ w.db
    same_gateways : v.cache.gateways ≡ w.cache.gateways
    same_rooms : v.cache.rooms ≡ w.cache.rooms
    same_configs : v.cache.dynamic_config ≡ w.cache.dynamic_config
    same_tokens : v.cache.gateway_tokens ≡ w.cache.gateway_tokens

  reload_users-SameButUsers :
      (w : World C) → SameButUsers w (wrapping "reload users" (reload_users env arc) w).1
  unfolding reload_users query
  reload_users-SameButUsers w = record {
    same_db = ground arith;
    same_gateways = ground arith;
    same_rooms = ground arith;
    same_configs = ground arith;
    same_tokens = ground arith;
  }

  reload_configs-eq-ok :
      (w v : World C)
      → wrapping "reload dynamicConfig" (reload_configs env) w ≡ (ok tt, v)
      → v ≡ record w {
        cache = record (w.cache) {
          dynamic_config = DynamicConfigs.reload (w.db).dynamic_configs w.cache.dynamic_config;
        };
        calls = w.calls + 1;
      }
  unfolding reload_configs query
  reload_configs-eq-ok w v e = ground arith

  reload_users-eq-ok :
      (w v : World C)
      → wrapping "reload users" (reload_users env arc) w ≡ (ok tt, v)
      → SameButUsers w v
  reload_users-eq-ok w v e = subst (SameButUsers w) (ap (λ r. r.1) e) (reload_users-SameButUsers w)

  -- What the five stages amount to.
  stages-FromTables :
      (w v1 v2 v3 v4 u : World C)
      → wrapping "reload gateways" (reload_gateways env) w ≡ (ok tt, v1)
      → wrapping "reload gateway_tokens" (reload_tokens env active_token) v1 ≡ (ok tt, v2)
      → wrapping "reload rooms" (reload_rooms_cache env) v2 ≡ (ok tt, v3)
      → wrapping "reload users" (reload_users env arc) v3 ≡ (ok tt, v4)
      → wrapping "reload dynamicConfig" (reload_configs env) v4 ≡ (ok tt, u)
      → FromTables w u
  stages-FromTables w v1 v2 v3 v4 u e1 e2 e3 e4 e5 =
      let g = reload_gateways-eq-ok w v1 e1 in
      let (read, t) = reload_tokens-eq-ok v1 v2 e2 in
      let r = reload_rooms-eq-ok v2 v3 e3 in
      let s = reload_users-eq-ok v3 v4 e4 in
      let c = reload_configs-eq-ok v4 u e5 in
      let db1 : v1.db ≡ w.db = ap (λ v. v.db) g in
      let db2 : v2.db ≡ w.db = ap (λ v. v.db) t ∙ db1 in
      let db3 : v3.db ≡ w.db = ap (λ v. v.db) r ∙ db2 in
      let db4 : v4.db ≡ w.db = s.same_db ∙ db3 in
      record {
        tables = ap (λ v. v.db) c ∙ db4;
        gateways =
            ap (λ v. v.cache.gateways) c
            ∙ s.same_gateways
            ∙ ap (λ v. v.cache.gateways) r
            ∙ ap (λ v. v.cache.gateways) t
            ∙ ap (λ v. v.cache.gateways) g;
        rooms =
            ap (λ v. v.cache.rooms) c
            ∙ s.same_rooms
            ∙ ap (λ v. v.cache.rooms) r
            ∙ ap (λ d. Rooms.reload d.rooms) db2;
        configs =
            ap (λ v. v.cache.dynamic_config) c
            ∙ ap (λ d. DynamicConfigs.reload (v4.db).dynamic_configs d)
                (s.same_configs
                  ∙ ap (λ v. v.cache.dynamic_config) r
                  ∙ ap (λ v. v.cache.dynamic_config) t
                  ∙ ap (λ v. v.cache.dynamic_config) g)
            ∙ ap (λ d. DynamicConfigs.reload d.dynamic_configs w.cache.dynamic_config) db4;
        tokens_read = subst (λ d. (fill_tokens active_token d.gateways []).0 ≡ ok tt) db1 read;
        tokens =
            ap (λ v. v.cache.gateway_tokens.by_id) c
            ∙ ap (λ k. k.by_id) s.same_tokens
            ∙ ap (λ v. v.cache.gateway_tokens.by_id) r
            ∙ ap (λ v. v.cache.gateway_tokens.by_id) t
            ∙ ap (λ d. (fill_tokens active_token d.gateways []).1) db1;
      }

  -- What holds after all five stages.
  reload_all-FromTables :
      (w u : World C) → reload_all env arc active_token w ≡ (ok tt, u) → FromTables w u
  unfolding reload_all
  reload_all-FromTables w u e =
      let g : Action C (Unit {0}) = wrapping "reload gateways" (reload_gateways env) in
      let t : Action C (Unit {0}) =
        wrapping "reload gateway_tokens" (reload_tokens env active_token) in
      let r : Action C (Unit {0}) = wrapping "reload rooms" (reload_rooms_cache env) in
      let s : Action C (Unit {0}) = wrapping "reload users" (reload_users env arc) in
      let c : Action C (Unit {0}) = wrapping "reload dynamicConfig" (reload_configs env) in
      let (_, e4, e5) = >>=-eq-ok (((g >> t) >> r) >> s) (λ _. c) w e in
      let (_, e3, e4) = >>=-eq-ok ((g >> t) >> r) (λ _. s) w e4 in
      let (_, e2, e3) = >>=-eq-ok (g >> t) (λ _. r) w e3 in
      let (_, e1, e2) = >>=-eq-ok g (λ _. t) w e2 in
      stages-FromTables w (g w).1 ((g >> t) w).1 (((g >> t) >> r) w).1 ((((g >> t) >> r) >> s) w).1
        u e1 e2 e3 e4 e5

  fill_tokens-All :
      (gs : List Gateway) (m : Map ℕ String)
      → (fill_tokens active_token gs m).0 ≡ ok tt
      → All (λ g. (token : String) × (active_token g ≡ ok token)) gs
  unfolding fill_tokens
  fill_tokens-All [] m e = tt
  fill_tokens-All (g ∷ gs) m e =
      split (active_token g) refl (λ token. fill_tokens-All gs (put g.id token m))
    where
      split :
          (r : Outcome String)
          → active_token g ≡ r
          → ((token : String)
              → (fill_tokens active_token gs (put g.id token m)).0 ≡ ok tt
              → All (λ g. (token : String) × (active_token g ≡ ok token)) gs)
          → All (λ g. (token : String) × (active_token g ≡ ok token)) (g ∷ gs)
      split (ok token) h rest = ((token, h), rest token (ground arith))
      split (err x) h rest = absurd (ground arith)
      split (panic p) h rest = absurd (ground arith)

  -- When `ReloadAll` succeeds, the tables are as they were; the gateway of an id and that of a name
  -- are the last row that has it; the room of a uid is the last that has it among the rows neither
  -- disabled nor removed; the value of a key is that of the last row that has it; no row of the
  -- configuration is newer than the time of the last modification, which has not gone back; and
  -- the token of every gateway could be read.
  pub reload_all-Reloaded :
      (w u : World C) (id : ℕ) (name uid key : String)
      → reload_all env arc active_token w ≡ (ok tt, u)
      → (u.db ≡ w.db)
        × (Gateways.find id u.cache.gateways ≡ last? (select (λ g. g.id == id) (w.db).gateways))
        × (Gateways.find_name name u.cache.gateways
            ≡ last? (select (λ g. g.name == name) (w.db).gateways))
        × (Rooms.find_uid uid u.cache.rooms
            ≡ last? (select (λ r. r.gateway_uid == uid) (select is_live (w.db).rooms)))
        × (DynamicConfigs.find key u.cache.dynamic_config
            ≡ last? (select (λ kv. kv.key == key) (w.db).dynamic_configs))
        × (w.cache.dynamic_config.last_modified ≤ u.cache.dynamic_config.last_modified)
        × All (λ kv. kv.updated_at ≤ u.cache.dynamic_config.last_modified) (w.db).dynamic_configs
        × All (λ g. (token : String) × (active_token g ≡ ok token)) (w.db).gateways
  reload_all-Reloaded w u id name uid key e =
      let f = reload_all-FromTables w u e in
      let (by_id, by_name) = reload-Gateways id name (w.db).gateways in
      let (by_key, later, none_newer) =
        reload-DynamicConfigs key (w.db).dynamic_configs w.cache.dynamic_config in
      (
        f.tables,
        ap (Gateways.find id) f.gateways ∙ by_id,
        ap (Gateways.find_name name) f.gateways ∙ by_name,
        ap (Rooms.find_uid uid) f.rooms ∙ reload-Rooms uid (w.db).rooms,
        ap (DynamicConfigs.find key) f.configs ∙ by_key,
        subst (λ c. w.cache.dynamic_config.last_modified ≤ c.last_modified) (sym f.configs) later,
        subst (λ c. All (λ kv. kv.updated_at ≤ c.last_modified) (w.db).dynamic_configs)
            (sym f.configs) none_newer,
        fill_tokens-All (w.db).gateways [] f.tokens_read,
      )
