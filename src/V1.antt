-- ===== src/V1.antt =====
-- api/api_v1.go: the handlers of the first version of the API. A handler is an action that ends
-- with an answer; what the router and the decoding of the request gave it are arguments. The
-- handlers for sessions are here; those that read are in V1/Reads, and those that change rooms and
-- composites in V1/Changes.
pub mod Rooms
pub mod Reads
pub mod Changes
pub mod Active
pub mod Answers
pub mod Composites
pub mod Stale
pub mod Tests
use gxydb_api.Base.{
  ℕ, ◌+◌, Bool, true, false, ◌||◌, String, List, [], ◌∷◌, ◌⊎◌, inl, inr, Option, none, some,
  if◌then◌else◌, ltb,
}
use gxydb_api.Base.Text.{byte_length}
use gxydb_api.Errors.{Error, http_status, is_protocol, Outcome, ok, err, panic}
use gxydb_api.Cache.Users.{Arc}
use gxydb_api.World.{Env, World, Flow, Action, pure, ◌>>=◌}
use gxydb_api.Tx.{in_tx}
use gxydb_api.Auth.{Config, Verifiers, RequestContext, request_has_role}
use gxydb_api.Session.Types.{V1User, Event, Codec}
use gxydb_api.Session.{handle_protocol, handle_event, update_session}
use gxydb_api.Statistics.{ServiceMessage, handle_message}

-- The status of an aborted request, or the body of an answer of success.
pub data Answer (A : Type 0) : Type 0 where
  aborted : ℕ → Answer A
  answered : A → Answer A

-- middleware/recovery.go: a panic of a handler is an internal error. A handler returns no error.
unfoldable pub recovered : {S A : Type 0} → Flow S (Answer A) → S → Answer A × S
recovered handler w =
    let (r, v) = handler w in
    elim r [ ok answer ↦ (answer, v) | err _ ↦ (aborted 500, v) | panic _ ↦ (aborted 500, v) ]

-- `errors.As(err, &hErr)`, and else an internal error.
abbrev pub abort_http : {A : Type 0} → Error → Answer A
abort_http e = elim (http_status e) [ none ↦ aborted 500 | some code ↦ aborted code ]

-- `errors.As(err, &pErr)`: a bad request, and else an internal error.
abbrev pub abort_protocol : {A : Type 0} → Error → Answer A
abort_protocol e = if is_protocol e then aborted 400 else aborted 500

abbrev pub abort_internal : {A : Type 0} → Error → Answer A
abort_internal e = aborted 500

-- `if err := …; err != nil { … return }`, and then the answer, made of the state.
abbrev pub answering :
    {S A B : Type 0} → (Error → Answer B) → (S → A → B) → Flow S A → Flow S (Answer B)
answering abort reply m w =
    let (r, v) = m w in
    elim r [
      | ok a ↦ (ok (answered (reply v a)), v)
      | err e ↦ (ok (abort e), v)
      | panic p ↦ (panic p, v)
    ]

-- Only a user with one of the roles may go on.
abbrev pub as_role :
    {Token S A : Type 0}
    → Config
    → Verifiers Token
    → List String
    → RequestContext
    → Flow S (Answer A)
    → Flow S (Answer A)
as_role config v roles c m =
    if config.skip_permissions || request_has_role config v roles c then m else pure (aborted 403)

module _ {C : Type 0} (arc : Arc C) (env : Env) (codec : Codec) where
  -- `UpsertSession` with a nil user, which its first statement dereferences.
  abbrev update_body : Option V1User → Action C (Unit {0})
  update_body none = in_tx env (λ w. (panic "nil pointer dereference", w))
  update_body (some user) = update_session arc env codec user

  -- `V1UpdateSession`: the body `null` decodes to a nil user.
  unfoldable pub v1_update_session : String → ℕ ⊎ Option V1User → Action C (Answer ℕ)
  v1_update_session id body = if ltb 36 (byte_length id) then pure (aborted 400) else (elim body [
    | inl code ↦ pure (aborted code)
    | inr user ↦
        answering abort_protocol (λ v _. v.cache.dynamic_config.last_modified) (update_body user)
  ])

  -- `V1HandleEvent`; a body that cannot be read or parsed is none.
  unfoldable pub v1_handle_event : Option Event → Action C (Answer (Unit {0}))
  v1_handle_event none = pure (aborted 400)
  v1_handle_event (some event) =
      answering abort_internal (λ _ u. u) (handle_event arc env codec event)

  -- `V1HandleProtocol`, with the field `Text` of the message.
  unfoldable pub v1_handle_protocol : Option String → Action C (Answer (Unit {0}))
  v1_handle_protocol none = pure (aborted 400)
  v1_handle_protocol (some payload) =
      answering abort_protocol (λ _ u. u) (handle_protocol arc env codec payload)

-- `V1HandleServiceProtocol`
unfoldable pub v1_handle_service_protocol :
    {C : Type 0}
    → Env
    → (String → String ⊎ ServiceMessage)
    → Option String
    → Action C (Answer (Unit {0}))
v1_handle_service_protocol env decode none = pure (aborted 400)
v1_handle_service_protocol env decode (some payload) =
    answering abort_protocol (λ _ u. u) (handle_message env decode payload)
