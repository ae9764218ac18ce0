-- ===== src/Cache/Laws.antt =====
-- What a cache answers after a reload, as a function of the rows that the query yielded.
use gxydb_api.Base.{
  ℕ, ◌≤◌, ◌≡◌, refl, sym, subst, ap, ◌∙◌, Bool, String, List, [], ◌∷◌, Option, none, some, arith,
  ◌==◌, nat_eq, string_eq, if◌then◌else◌, last?, select, leb, All,
}
use gxydb_api.Base.Maps.{get-put}
use gxydb_api.Models.{Gateway, Room, DynamicConfig}
use gxydb_api.Cache.Gateways
use gxydb_api.Cache.Gateways.{GatewayCache}
use gxydb_api.Cache.Rooms
use gxydb_api.Cache.Rooms.{RoomCache, is_live}
use gxydb_api.Cache.DynamicConfigs
use gxydb_api.Cache.DynamicConfigs.{DynamicConfigCache}

-- The last of the rows that pass a test, or else what was there before.
abbrev pub or_else : {A : Type 0} → Option A → Option A → Option A
or_else none before = before
or_else (some a) before = some a

last-cons : {A : Type 0} (x : A) (xs : List A) → last? (x ∷ xs) ≡ or_else (last? xs) (some x)
last-cons x [] = refl
last-cons x (y ∷ ys) = ground (arith, last-cons y ys)

pub last-select :
    {A : Type 0} (p : A → Bool) (x : A) (xs : List A)
    → last? (select p (x ∷ xs)) ≡ or_else (last? (select p xs)) (if p x then some x else none)
last-select p x xs = ground (arith, last-cons x (select p xs))

find-fill :
    (id : ℕ) (gs : List Gateway) (c : GatewayCache)
    → Gateways.find id (Gateways.fill gs c)
      ≡ or_else (last? (select (λ g. g.id == id) gs)) (Gateways.find id c)
unfolding Gateways.find Gateways.fill Gateways.set
find-fill id [] c = refl
find-fill id (g ∷ gs) c = ground (
  arith,
  find-fill id gs (Gateways.set g c),
  last-select (λ g. g.id == id) g gs,
  get-put g.id id g c.by_id,
)

find_name-fill :
    (name : String) (gs : List Gateway) (c : GatewayCache)
    → Gateways.find_name name (Gateways.fill gs c)
      ≡ or_else (last? (select (λ g. g.name == name) gs)) (Gateways.find_name name c)
unfolding Gateways.find_name Gateways.fill Gateways.set
find_name-fill name [] c = refl
find_name-fill name (g ∷ gs) c = ground (
  arith,
  find_name-fill name gs (Gateways.set g c),
  last-select (λ g. g.name == name) g gs,
  get-put g.name name g c.by_name,
)

find_uid-fill :
    (uid : String) (rs : List Room) (c : RoomCache)
    → Rooms.find_uid uid (Rooms.fill rs c)
      ≡ or_else (last? (select (λ r. r.gateway_uid == uid) rs)) (Rooms.find_uid uid c)
unfolding Rooms.find_uid Rooms.fill Rooms.set
find_uid-fill uid [] c = refl
find_uid-fill uid (r ∷ rs) c = ground (
  arith,
  find_uid-fill uid rs (Rooms.set r c),
  last-select (λ r. r.gateway_uid == uid) r rs,
  get-put r.gateway_uid uid r c.m,
)

find_key-fill :
    (key : String) (kvs : List DynamicConfig) (c : DynamicConfigCache)
    → DynamicConfigs.find key (DynamicConfigs.fill kvs c)
      ≡ or_else (last? (select (λ kv. kv.key == key) kvs)) (DynamicConfigs.find key c)
unfolding DynamicConfigs.find DynamicConfigs.fill DynamicConfigs.set
find_key-fill key [] c = refl
find_key-fill key (kv ∷ kvs) c = ground (
  arith,
  find_key-fill key kvs (DynamicConfigs.set kv c),
  last-select (λ kv. kv.key == key) kv kvs,
  get-put kv.key key kv c.m,
)

-- The later of a time and those of the rows.
abbrev pub latest : List DynamicConfig → ℕ → ℕ
latest [] last = last
latest (kv ∷ kvs) last = latest kvs (if leb last kv.updated_at then kv.updated_at else last)

last_modified-fill :
    (kvs : List DynamicConfig) (c : DynamicConfigCache)
    → (DynamicConfigs.fill kvs c).last_modified ≡ latest kvs c.last_modified
unfolding DynamicConfigs.fill DynamicConfigs.set
last_modified-fill [] c = refl
last_modified-fill (kv ∷ kvs) c =
    last_modified-fill kvs (DynamicConfigs.set kv c) ∙ ap (latest kvs) (ground arith)

latest-≤ : (kvs : List DynamicConfig) (last : ℕ) → last ≤ latest kvs last
latest-≤ [] last = omega arith
latest-≤ (kv ∷ kvs) last =
    ground (arith, latest-≤ kvs (if leb last kv.updated_at then kv.updated_at else last))

updated-≤ : (kvs : List DynamicConfig) (last : ℕ) → All (λ kv. kv.updated_at ≤ latest kvs last) kvs
updated-≤ [] last = tt
updated-≤ (kv ∷ kvs) last =
    let next = if leb last kv.updated_at then kv.updated_at else last in
    (ground (arith, latest-≤ kvs next), updated-≤ kvs next)

-- After a reload the gateway of an id, and of a name, is the last row that has it.
pub reload-Gateways :
    (id : ℕ) (name : String) (gs : List Gateway)
    → (Gateways.find id (Gateways.reload gs) ≡ last? (select (λ g. g.id == id) gs))
      × (Gateways.find_name name (Gateways.reload gs) ≡ last? (select (λ g. g.name == name) gs))
unfolding Gateways.reload Gateways.find Gateways.find_name
reload-Gateways id name gs = (
  ground (arith, find-fill id gs (record { by_id = []; by_name = [] })),
  ground (arith, find_name-fill name gs (record { by_id = []; by_name = [] })),
)

-- After a reload the room of a uid is the last row that has it among those neither disabled nor
-- removed.
pub reload-Rooms :
    (uid : String) (rs : List Room)
    → Rooms.find_uid uid (Rooms.reload rs)
      ≡ last? (select (λ r. r.gateway_uid == uid) (select is_live rs))
unfolding Rooms.reload Rooms.find_uid
reload-Rooms uid rs = ground (arith, find_uid-fill uid (select is_live rs) (record { m = [] }))

-- After a reload the value of a key is that of the last row that has it, and no row is newer than
-- the time of the last modification, which never goes back.
pub reload-DynamicConfigs :
    (key : String) (kvs : List DynamicConfig) (c : DynamicConfigCache)
    → (DynamicConfigs.find key (DynamicConfigs.reload kvs c)
        ≡ last? (select (λ kv. kv.key == key) kvs))
      × (c.last_modified ≤ (DynamicConfigs.reload kvs c).last_modified)
      × All (λ kv. kv.updated_at ≤ (DynamicConfigs.reload kvs c).last_modified) kvs
unfolding DynamicConfigs.reload DynamicConfigs.find
reload-DynamicConfigs key kvs c = (
  ground (arith, find_key-fill key kvs (record c { m = [] })),
  ground (arith, last_modified-fill kvs (record c { m = [] }), latest-≤ kvs c.last_modified),
  subst (λ n. All (λ kv. kv.updated_at ≤ n) kvs)
      (sym (last_modified-fill kvs (record c { m = [] }))) (updated-≤ kvs c.last_modified),
)
