-- ===== src/World.antt =====
-- What the handlers share: the database, the caches, and the calls that leave the process.
-- A function that touches them is an `Action`: it takes the state and returns how it ended with
-- the state then, also when it fails, since what it wrote to a cache stays written.
--
-- What the program does not decide comes from `Env`. Each call out of the process has a number, and
-- `fault` says which calls fail, so a theorem for every `Env` is one for every pattern of failures.
use gxydb_api.Base.{ℕ, ◌+◌, ◌≡◌, refl, ap, arith, String, List, ◌⊎◌, inl, inr, Option, none, some}
use gxydb_api.Errors.{Error, wrap, Outcome, ok, err, panic}
use gxydb_api.Models.{Db}
use gxydb_api.Cache.{AppCache}

-- How a COMMIT ends: carried out; refused, and the server rolled back; or carried out although the
-- answer was lost.
pub data Commit : Type 0 where
  committed : Commit
  refused lost : Error → Commit

pub record Env : Type 0 where
  pub fault : ℕ → Option Error
  pub commit : ℕ → Commit
  pub now : ℕ → ℕ
  -- the next value of a sequence
  pub fresh : ℕ → ℕ
  -- the JSON text of an object with one field, a time
  pub stamp : String → ℕ → String
  -- the operator `||` of Postgres on `jsonb`
  pub jsonb_concat : String → String → String
  -- `net.ParseIP(s)` printed again
  pub parse_ip : String → Option String

-- A request to the plugin for rooms on a gateway: api/api_admin.go makes three of them, of which
-- these are the parts that differ from one room to another.
pub data RoomRequest : Type 0 where
  create_room edit_room : String → String → RoomRequest
  destroy_room : String → RoomRequest

-- A request that a gateway has carried out: its admin API answered without an error.
pub record Message : Type 0 where
  pub gateway_id : ℕ
  pub request : RoomRequest

-- The tables, the caches, the number of calls so far, and what gateways were told, the last first.
pub record World (C : Type 0) : Type 0 where
  pub db : Db
  pub cache : AppCache C
  pub calls : ℕ
  pub sent : List Message

-- A computation on a state: how it ended, and the state then.
abbrev pub Flow : Type 0 → Type 0 → Type 0
Flow S A = S → Outcome A × S

abbrev pub Action : Type 0 → Type 0 → Type 0
Action C A = Flow (World C) A

abbrev pub pure : {S A : Type 0} → A → Flow S A
pure a w = (ok a, w)

abbrev pub fail : {S A : Type 0} → Error → Flow S A
fail e w = (err e, w)

infixl 5 ◌>>=◌ ◌>>◌
abbrev pub ◌>>=◌ : {S A B : Type 0} → Flow S A → (A → Flow S B) → Flow S B
◌>>=◌ m f w =
    let (r, v) = m w in elim r [ ok a ↦ f a v | err e ↦ (err e, v) | panic p ↦ (panic p, v) ]

abbrev pub ◌>>◌ : {S B : Type 0} → Flow S (Unit {0}) → Flow S B → Flow S B
m >> k = m >>= λ _. k

-- A Go call that returns a value and an error: the error is handed on as a value.
abbrev pub Try : Type 0 → Type 0
Try A = Error ⊎ A

-- `if err != nil { return pkgerr.Wrap(err, message) }`.
abbrev pub or_wrap : {S A : Type 0} → String → Flow S (Try A) → Flow S A
or_wrap message m = m >>= λ r. elim r [ inl e ↦ fail (wrap e message) | inr a ↦ pure a ]

-- `if err != nil { return pkgerr.Wrap(err, message) }` on a call that returns only an error.
abbrev pub wrapping : {S A : Type 0} → String → Flow S A → Flow S A
wrapping message m w =
    let (r, v) = m w in
    elim r [ ok a ↦ (ok a, v) | err e ↦ (err (wrap e message), v) | panic p ↦ (panic p, v) ]

abbrev pub counted : {C : Type 0} → World C → World C
counted w = record w { calls = w.calls + 1 }

-- A statement that the server runs: a function on the tables, that may fail by itself.
unfoldable pub query : {C A : Type 0} → Env → (Db → Try (A × Db)) → Action C (Try A)
query env q w = elim (env.fault w.calls) [
  | some e ↦ (ok (inl e), counted w)
  | none ↦ elim (q w.db) [
    | inl e ↦ (ok (inl e), counted w)
    | inr (a, db) ↦ (ok (inr a), record w { db = db; calls = w.calls + 1 })
  ]
]

-- `time.Now()`.
abbrev pub clock : {C : Type 0} → Env → Action C ℕ
clock env w = (ok (env.now w.calls), counted w)

-- Inversion of a successful bind.
pub >>=-eq-ok :
    {S A B : Type 0} (m : Flow S A) (f : A → Flow S B) (w : S) {b : B} {v : S}
    → (m >>= f) w ≡ (ok b, v)
    → (a : A) × (m w ≡ (ok a, (m w).1)) × (f a (m w).1 ≡ (ok b, v))
>>=-eq-ok {A = A} {B = B} m f w {b} {v} h = split (m w).0 refl
  where
    split :
        (r : Outcome A)
        → (m w).0 ≡ r
        → (a : A) × (m w ≡ (ok a, (m w).1)) × (f a (m w).1 ≡ (ok b, v))
    split (ok a) e = (a, ap (λ r. (r, (m w).1)) e, rw (e, ◌>>=◌) at h)
    split (err x) e = absurd (ground arith)
    split (panic x) e = absurd (ground arith)

pub wrapping-eq-ok :
    {S A : Type 0} (message : String) (m : Flow S A) (w : S) {a : A} {v : S}
    → wrapping message m w ≡ (ok a, v)
    → m w ≡ (ok a, v)
wrapping-eq-ok message m w h = ground arith
