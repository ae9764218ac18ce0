-- ===== src/Session/Cleaner.antt =====
-- `PeriodicSessionCleaner` of api/session.go: a round closes the open sessions that were not
-- updated for a while. What it logs is left out.
use gxydb_api.Base.{
  ℕ, ◌+◌, Bool, false, ◌&&◌, String, List, [], ◌∷◌, inl, inr, none, some, nat_eq, ltb, elem, map,
  select, if◌then◌else◌,
}
use gxydb_api.Errors.{ok, err, panic, with_stack}
use gxydb_api.Models.{Session}
use gxydb_api.World.{Env, Action, pure, fail, ◌>>=◌, query, clock}
use gxydb_api.Tx.{in_tx}
use gxydb_api.Session.Table.{is_open, remove_row}

-- `updated_at < now - DeadSessionPeriod`, which does not hold of NULL.
abbrev pub is_dead : ℕ → ℕ → Session → Bool
is_dead now period s =
    is_open s && (elim s.updated_at [ none ↦ false | some t ↦ ltb (t + period) now ])

abbrev pub ids_of : List Session → List ℕ
ids_of ss = map (λ s. s.id) ss

-- `update sessions set …, removed_at = $2 where id = any($3)`
unfoldable pub clean_rows : Env → String → ℕ → List ℕ → List Session → List Session
clean_rows env b now ids [] = []
clean_rows env b now ids (s ∷ ss) =
    (if elem s.id ids then remove_row env b now s else s) ∷ clean_rows env b now ids ss

module _ {C : Type 0} (env : Env) (period : ℕ) where
  -- The sessions that a round finds.
  unfoldable pub fetch_dead : Action C (List Session)
  fetch_dead = do
    now ← clock env
    r ← query env (λ db. inr (select (is_dead now period) db.sessions, db))
    elim r [ inl e ↦ fail e | inr ss ↦ pure ss ]

  unfoldable pub close_dead : List Session → Action C (Unit {0})
  close_dead [] = pure tt
  close_dead (s ∷ ss) = do
    stamped ← clock env
    in_tx env (
        clock env >>= λ now.
        query env (λ db. inr (
          tt,
          record db {
            sessions =
                clean_rows env (env.stamp "clean_session" stamped) now (ids_of (s ∷ ss))
                  db.sessions;
          },
        ))
        >>= λ r. elim r [ inl e ↦ fail (with_stack e) | inr _ ↦ pure tt ])

  -- `clean`: errors are logged only.
  unfoldable pub clean : Action C (Unit {0})
  clean w =
      let (r, u) = (fetch_dead >>= close_dead) w in
      elim r [ ok _ ↦ (ok tt, u) | err e ↦ (ok tt, u) | panic p ↦ (panic p, u) ]
