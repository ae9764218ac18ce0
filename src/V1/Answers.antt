-- ===== src/V1/Answers.antt =====
-- What the answers of the handlers for sessions, and those that change a composite, say of the tables.
use gxydb_api.Base.{
  ℕ, ◌≡◌, refl, Bool, true, false, String, ◌⊎◌, inl, inr, Option, none, some, arith,
}
use gxydb_api.Errors.{Error, panic}
use gxydb_api.Cache.Users.{Arc}
use gxydb_api.World.{Env, World, Action}
use gxydb_api.Tx.{in_tx}
use gxydb_api.Tx.Atomic.{NoLoss, is_ok, in_tx-rollback}
use gxydb_api.Session.Types.{V1User, Event, Codec}
use gxydb_api.Session.Safety.{protocol_message, gateway_event, session_update, serve-rollback}
use gxydb_api.V1.{
  Answer, aborted, answered, recovered, answering, abort_protocol, v1_update_session,
  v1_handle_event, v1_handle_protocol,
}

-- A request of the API that changes sessions, as the router and the decoding give it.
pub data SessionRequest : Type 0 where
  update : String → ℕ ⊎ Option V1User → SessionRequest
  event : Option Event → SessionRequest
  protocol : Option String → SessionRequest

abbrev pub is_answered : {A : Type 0} → Answer A → Bool
is_answered (aborted _) = false
is_answered (answered _) = true

-- The tables after an action that failed are those before.
RollsBack : {C A : Type 0} → Action C A → Type 0
RollsBack {C} m = (w : World C) → is_ok (m w).0 ≡ false → (m w).1.db ≡ w.db

answering-RollsBack :
    {C A B : Type 0} (abort : Error → Answer B) (reply : World C → A → B) (m : Action C A)
    (w : World C)
    → RollsBack m
    → ((e : Error) → is_answered (abort e) ≡ false)
    → is_answered (recovered (answering abort reply m) w).0 ≡ false
    → (recovered (answering abort reply m) w).1.db ≡ w.db
unfolding RollsBack recovered
answering-RollsBack abort reply m w h refuses fails = ground (arith, h w)

abort_protocol-refuses : (A : Type 0) (e : Error) → is_answered (abort_protocol {A = A} e) ≡ false
abort_protocol-refuses A e = ground arith

-- Whether a request is answered with the status 200, and the state then.
abbrev pub outcome_of : {C A : Type 0} → Action C (Answer A) → World C → Bool × World C
outcome_of handler w = let (answer, u) = recovered handler w in (is_answered answer, u)

module _ {C : Type 0} (arc : Arc C) (env : Env) (codec : Codec) where
  abbrev pub serve_v1 : SessionRequest → World C → Bool × World C
  serve_v1 (update id body) = outcome_of (v1_update_session arc env codec id body)
  serve_v1 (event body) = outcome_of (v1_handle_event arc env codec body)
  serve_v1 (protocol body) = outcome_of (v1_handle_protocol arc env codec body)

  nil_update-RollsBack :
      NoLoss env
      → RollsBack (in_tx {A = Unit {0}} env (λ (w : World C). (panic "nil pointer dereference", w)))
  unfolding RollsBack
  nil_update-RollsBack h w fails = in_tx-rollback env _ w h fails

  -- A request that changes sessions and is not answered with the status 200, be it refused, failed or
  -- broken off by a panic, leaves the tables as they were, where no answer to a COMMIT is lost.
  pub serve_v1-rollback :
      (r : SessionRequest) (w : World C)
      → NoLoss env
      → (serve_v1 r w).0 ≡ false
      → (serve_v1 r w).1.db ≡ w.db
  unfolding RollsBack recovered v1_update_session v1_handle_event v1_handle_protocol
  serve_v1-rollback (update id (inl code)) w h fails = ground arith
  serve_v1-rollback (update id (inr none)) w h fails = ground (arith, nil_update-RollsBack h w)
  serve_v1-rollback (update id (inr (some user))) w h fails =
      ground (arith, serve-rollback arc env codec (session_update user) w h)
  serve_v1-rollback (event none) w h fails = refl
  serve_v1-rollback (event (some e)) w h fails =
      ground (arith, serve-rollback arc env codec (gateway_event e) w h)
  serve_v1-rollback (protocol none) w h fails = refl
  serve_v1-rollback (protocol (some payload)) w h fails =
      ground (arith, serve-rollback arc env codec (protocol_message payload) w h)
