-- ===== src/Session/Table/Laws.antt =====
-- What the statements on `sessions` do to the rows of one user and of the others.
use gxydb_api.Base.{
  ℕ, ◌≡◌, refl, false, not, String, List, [], ◌∷◌, none, arith, ◌==◌, nat_eq, select, inl, inr,
  Bool-cases,
}
use gxydb_api.Models.{Session}
use gxydb_api.World.{Env}
use gxydb_api.Session.Table.{closes, close_rows, Columns, infer, same_key, upsert_rows}

-- Rows of other users.
abbrev pub of_others : ℕ → List Session → List Session
of_others user_id = select (λ s. not (s.user_id == user_id))

abbrev pub open_of : ℕ → List Session → List Session
open_of user_id = select (closes user_id)

module _ (env : Env) (b : String) (now user_id : ℕ) where
  pub open_of-close_rows :
      (ss : List Session) → open_of user_id (close_rows env b now user_id ss) ≡ []
  unfolding close_rows
  open_of-close_rows [] = refl
  open_of-close_rows (s ∷ ss) = ground (arith, open_of-close_rows ss)

  pub of_others-close_rows :
      (ss : List Session)
      → of_others user_id (close_rows env b now user_id ss) ≡ of_others user_id ss
  unfolding close_rows
  of_others-close_rows [] = refl
  of_others-close_rows (s ∷ ss) = ground (arith, of_others-close_rows ss)

module _ (columns : Columns) (e : Session) where
  pub of_others-upsert_rows :
      (ss : List Session) → of_others e.user_id (upsert_rows columns e ss) ≡ of_others e.user_id ss
  unfolding upsert_rows
  of_others-upsert_rows [] = ground arith
  of_others-upsert_rows (s ∷ ss) = ground (arith, of_others-upsert_rows ss)

open_of-nil :
    (user_id : ℕ) (s : Session) (ss : List Session)
    → open_of user_id (s ∷ ss) ≡ []
    → (closes user_id s ≡ false) × (open_of user_id ss ≡ [])
open_of-nil user_id s ss h = ground arith

-- Where the user has no open row, the upsert leaves one: the new row, under an old or a new id.
pub open_of-upsert_rows :
    (e : Session) (ss : List Session)
    → e.removed_at ≡ none
    → open_of e.user_id ss ≡ []
    → (id : ℕ) × (open_of e.user_id (upsert_rows infer e ss) ≡ record e { id = id } ∷ [])
unfolding upsert_rows
open_of-upsert_rows e [] o h = (e.id, ground arith)
open_of-upsert_rows e (s ∷ ss) o h =
    let (closed, rest) = open_of-nil e.user_id s ss h in
    let (id, later) = open_of-upsert_rows e ss o rest in
    elim (Bool-cases (same_key s e)) [
      | inl same ↦ (s.id, rw same (ground arith))
      | inr differ ↦ (id, rw differ (ground arith))
    ]
