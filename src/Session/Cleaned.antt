-- ===== src/Session/Cleaned.antt =====
-- What a round of the session cleaner does to the table.
use gxydb_api.Base.{
  ℕ, ◌+◌, ◌≡◌, refl, ap, ◌∙◌, sym, subst, Bool, false, String, List, [], ◌∷◌, arith, none, ==_iff,
  nat_eq, elem, select, All, Bool-cases, inl, inr, if◌then◌else◌,
}
use gxydb_api.Errors.{ok}
use gxydb_api.Models.{Session}
use gxydb_api.World.{Env, World, query, committed}
use gxydb_api.Tx.{in_tx}
use gxydb_api.Session.Table.{remove_row}
use gxydb_api.Session.Cleaner.{is_dead, ids_of, clean_rows, fetch_dead, close_dead, clean}

-- No two rows have the same id.
abbrev pub HasUniqueIds : List Session → Type 0
HasUniqueIds [] = Unit {0}
HasUniqueIds (s ∷ ss) = (elem s.id (ids_of ss) ≡ false) × HasUniqueIds ss

-- Every call succeeds, and every commit is carried out and acknowledged.
pub record IsCalm (env : Env) : Type 0 where
  pub fine : (n : ℕ) → env.fault n ≡ none
  pub commits : (n : ℕ) → env.commit n ≡ committed

-- The rows that pass a test are closed, the others are as before.
abbrev pub close_where : Env → String → ℕ → (Session → Bool) → List Session → List Session
close_where env b now p [] = []
close_where env b now p (s ∷ ss) =
    (if p s then remove_row env b now s else s) ∷ close_where env b now p ss

module _ (p : Session → Bool) where
  Names : List ℕ → List Session → Type 0
  Names ids ss = All (λ s. elem s.id ids ≡ p s) ss

  Names-cons :
      (id : ℕ) (ids : List ℕ) (ss : List Session)
      → elem id (ids_of ss) ≡ false
      → Names ids ss
      → Names (id ∷ ids) ss
  unfolding Names
  Names-cons id ids [] absent h = tt
  Names-cons id ids (s ∷ ss) absent h =
      (ground (arith, ==_iff s.id id, ==_iff id s.id, h.0), Names-cons id ids ss (ground arith) h.1)

  elem-select :
      (id : ℕ) (ss : List Session)
      → elem id (ids_of ss) ≡ false
      → elem id (ids_of (select p ss)) ≡ false
  elem-select id [] absent = refl
  elem-select id (s ∷ ss) absent = ground (arith, elem-select id ss)

  select-Names : (ss : List Session) → HasUniqueIds ss → Names (ids_of (select p ss)) ss
  unfolding Names
  select-Names [] h = tt
  select-Names (s ∷ ss) h = elim (Bool-cases (p s)) [
    | inl holds ↦
        subst (λ c. Names (ids_of (if c then s ∷ select p ss else select p ss)) (s ∷ ss))
          (sym holds)
          (
            ground (arith, holds, ==_iff s.id s.id),
            Names-cons s.id (ids_of (select p ss)) ss h.0 (select-Names ss h.1),
          )
    | inr fails ↦
        subst (λ c. Names (ids_of (if c then s ∷ select p ss else select p ss)) (s ∷ ss))
          (sym fails) (elem-select s.id ss h.0 ∙ sym fails, select-Names ss h.1)
  ]

  clean_rows-close_where :
      (env : Env) (b : String) (now : ℕ) (ids : List ℕ) (ss : List Session)
      → Names ids ss
      → clean_rows env b now ids ss ≡ close_where env b now p ss
  unfolding Names clean_rows
  clean_rows-close_where env b now ids [] h = refl
  clean_rows-close_where env b now ids (s ∷ ss) h =
      ground (arith, h.0, clean_rows-close_where env b now ids ss h.1)

clean_rows-nil :
    (env : Env) (b : String) (now : ℕ) (ss : List Session) → clean_rows env b now [] ss ≡ ss
unfolding clean_rows
clean_rows-nil env b now [] = refl
clean_rows-nil env b now (s ∷ ss) = ap (λ rest. s ∷ rest) (clean_rows-nil env b now ss)

module _ {C : Type 0} (env : Env) (period : ℕ) where
  close_dead-rows :
      (found : List Session) (w : World C)
      → IsCalm env
      → ((close_dead env period found w).0 ≡ ok tt)
        × ((close_dead env period found w).1.db.sessions
            ≡ clean_rows env
                (env.stamp "clean_session" (env.now w.calls))
                (env.now (w.calls + 1 + 1))
                (ids_of found)
                w.db.sessions)
  unfolding close_dead in_tx query
  close_dead-rows [] w calm = (
    refl,
    sym (
        clean_rows-nil env (env.stamp "clean_session" (env.now w.calls)) (env.now (w.calls + 1 + 1))
          w.db.sessions),
  )
  close_dead-rows (s ∷ ss) w calm = ground (
    arith,
    calm.fine (w.calls + 1),
    calm.fine (w.calls + 1 + 1 + 1),
    calm.commits (w.calls + 1 + 1 + 1 + 1),
  )

  fetch_dead-eq :
      (w : World C)
      → IsCalm env
      → fetch_dead env period w ≡ (
        ok (select (is_dead (env.now w.calls) period) w.db.sessions),
        record w { calls = w.calls + 1 + 1 },
      )
  unfolding fetch_dead query
  fetch_dead-eq w calm = ground (arith, calm.fine (w.calls + 1))

  -- Where no call fails, every commit is carried out, and no two sessions have the same id, a round
  -- of the cleaner closes the open sessions whose last update is older than the period, with the
  -- time of the round, and leaves all other rows as they were.
  pub clean-close_where :
      (w : World C)
      → IsCalm env
      → HasUniqueIds w.db.sessions
      → ((clean env period w).0 ≡ ok tt)
        × ((clean env period w).1.db.sessions
            ≡ close_where env
                (env.stamp "clean_session" (env.now (w.calls + 1 + 1)))
                (env.now (w.calls + 1 + 1 + 1 + 1))
                (is_dead (env.now w.calls) period)
                w.db.sessions)
  unfolding clean
  clean-close_where w calm unique =
      let dead = is_dead (env.now w.calls) period in
      let found = select dead w.db.sessions in
      let u : World C = record w { calls = w.calls + 1 + 1 } in
      ground (
        arith,
        fetch_dead-eq w calm,
        close_dead-rows found u calm,
        clean_rows-close_where dead env (env.stamp "clean_session" (env.now (w.calls + 1 + 1)))
            (env.now (w.calls + 1 + 1 + 1 + 1)) (ids_of found) w.db.sessions
            (select-Names dead w.db.sessions unique),
      )
