-- ===== src/Session/Table.antt =====
-- The statements that api/session.go runs on the tables `users` and `sessions`. `Session.Upsert` of
-- models/sessions.go builds the INSERT … ON CONFLICT … DO UPDATE; its columns are those that the
-- two calls in session.go name. A table keeps its constraints by refusing the statement.
pub mod Laws
use gxydb_api.Base.{
  ℕ, Bool, true, false, ◌&&◌, ◌||◌, String, List, [], ◌∷◌, ◌++◌, Option, none, some, inl, inr, ◌==◌,
  Eq, nat_eq, string_eq, if◌then◌else◌, first?, any, map, length, select, elem,
}
use gxydb_api.Base.Int.{int_eq}
use gxydb_api.Errors.{Error, no_rows, foreign}
use gxydb_api.Models.{User, Session, Db}
use gxydb_api.World.{Env, Try}

abbrev pub is_null {ℓ} : {A : Type ℓ} → Option A → Bool
is_null none = true
is_null (some _) = false

-- `a = b` in SQL, where NULL equals nothing.
abbrev pub sql_eq {ℓ} : {A : Type ℓ} ⦃e : Eq A⦄ → Option A → Option A → Bool
sql_eq (some a) (some b) = a == b
sql_eq _ _ = false

abbrev pub is_open : Session → Bool
is_open s = is_null s.removed_at

-- `models.Users(models.UserWhere.AccountsID.EQ(id)).One(tx)`
abbrev pub select_user : String → Db → Try (User × Db)
select_user id db = elim (first? (λ u. u.accounts_id == id) db.users) [
  | none ↦ inl no_rows
  | some u ↦ inr (u, db)
]

-- `u.Insert(tx, boil.Infer())` of a new user, under the id `id`; `accounts_id` is unique.
abbrev pub insert_user : User → Db → Try (User × Db)
insert_user u db =
    if any (λ v. v.accounts_id == u.accounts_id || v.id == u.id) db.users
    then inl (foreign "models: unable to insert into users: duplicate key value")
    else inr (u, record db { users = db.users ++ u ∷ [] })

-- `coalesce(properties, '{}'::jsonb) || b`
abbrev pub with_property : Env → String → Option String → Option String
with_property env b properties =
    some (env.jsonb_concat (elim properties [ none ↦ "{}" | some p ↦ p ]) b)

abbrev pub remove_row : Env → String → ℕ → Session → Session
remove_row env b now s = record s {
  properties = with_property env b s.properties;
  removed_at = some now;
}

abbrev pub closes : ℕ → Session → Bool
closes user_id s = s.user_id == user_id && is_open s

-- `update sessions set properties = …, removed_at = now where user_id = … and removed_at is null`
unfoldable pub close_rows : Env → String → ℕ → ℕ → List Session → List Session
close_rows env b now user_id [] = []
close_rows env b now user_id (s ∷ ss) =
    (if closes user_id s then remove_row env b now s else s) ∷ close_rows env b now user_id ss

abbrev pub affected : ℕ → List Session → ℕ
affected user_id ss = length (select (closes user_id) ss)

-- The columns that the two calls of `Upsert` update on a conflict: all but the key, or also not
-- `created_at` and `properties`.
pub data Columns : Type 0 where
  infer blacklist : Columns

-- UNIQUE (user_id, gateway_id, gateway_session)
abbrev pub same_key : Session → Session → Bool
same_key s t =
    s.user_id == t.user_id
    && sql_eq s.gateway_id t.gateway_id
    && sql_eq s.gateway_session t.gateway_session

-- DO UPDATE SET c = EXCLUDED.c, …
abbrev pub merge_row : Columns → Session → Session → Session
merge_row infer old excluded = record excluded { id = old.id }
merge_row blacklist old excluded = record excluded {
  id = old.id;
  created_at = old.created_at;
  properties = old.properties;
}

unfoldable pub upsert_rows : Columns → Session → List Session → List Session
upsert_rows columns excluded [] = excluded ∷ []
upsert_rows columns excluded (s ∷ ss) =
    if same_key s excluded
    then merge_row columns s excluded ∷ ss
    else s ∷ upsert_rows columns excluded ss

-- A foreign key: NULL, or the id of a row.
abbrev pub refers : Option ℕ → List ℕ → Bool
refers none ids = true
refers (some id) ids = elem id ids

abbrev pub references_ok : Session → Db → Bool
references_ok s db =
    elem s.user_id (map (λ u. u.id) db.users)
    && refers s.room_id (map (λ r. r.id) db.rooms)
    && refers s.gateway_id (map (λ g. g.id) db.gateways)

abbrev pub fk_violation : Error
fk_violation =
    foreign "models: unable to upsert sessions: insert or update violates foreign key constraint"

unfoldable pub upsert_session_row : Columns → Session → Db → Try (Unit {0} × Db)
upsert_session_row columns excluded db =
    if references_ok excluded db
    then inr (tt, record db { sessions = upsert_rows columns excluded db.sessions })
    else inl fk_violation
