-- ===== src/Session/Safety.antt =====
-- Messages, events and requests to the manager of sessions in api/session.go that fail.
use gxydb_api.Base.{◌≡◌, refl, false, inl, inr, String, ◌⊎◌, string_eq}
use gxydb_api.Cache.Users.{Arc}
use gxydb_api.World.{Env, World, Action}
use gxydb_api.Tx.Atomic.{NoLoss, is_ok, in_tx-rollback}
use gxydb_api.Session.Types.{V1User, V1ProtocolMessageText, Codec, Event}
use gxydb_api.Session.{
  upsert_session, dispatch, event_body, handle_protocol, handle_event, update_session,
}

-- What the manager is asked to do.
pub data Request : Type 0 where
  protocol_message : String → Request
  gateway_event : Event → Request
  session_update : V1User → Request

module _ {C : Type 0} (arc : Arc C) (env : Env) (codec : Codec) where
  abbrev pub serve : Request → Action C (Unit {0})
  serve (protocol_message payload) = handle_protocol arc env codec payload
  serve (gateway_event event) = handle_event arc env codec event
  serve (session_update user) = update_session arc env codec user

  protocol_message-rollback :
      (payload : String) (w : World C)
      → NoLoss env
      → is_ok (handle_protocol arc env codec payload w).0 ≡ false
      → (handle_protocol arc env codec payload w).1.db ≡ w.db
  unfolding handle_protocol
  protocol_message-rollback payload w h fails = split (codec.decode_message payload) refl
    where
      split :
          (r : String ⊎ V1ProtocolMessageText)
          → codec.decode_message payload ≡ r
          → (handle_protocol arc env codec payload w).1.db ≡ w.db
      split (inl e) bad = rw (bad, handle_protocol) refl
      split (inr msg) good =
          rw (good, handle_protocol)
            (in_tx-rollback env (dispatch arc env codec msg) w h
              (rw (good, handle_protocol) at fails))

  -- Whatever the manager is asked to do, if it fails it leaves all tables as they were, where no
  -- answer to a COMMIT is lost.
  pub serve-rollback :
      (r : Request) (w : World C)
      → NoLoss env
      → is_ok (serve r w).0 ≡ false
      → (serve r w).1.db ≡ w.db
  unfolding handle_event update_session
  serve-rollback (protocol_message payload) w h fails = protocol_message-rollback payload w h fails
  serve-rollback (gateway_event event) w h fails =
      in_tx-rollback env (event_body arc env codec event) w h fails
  serve-rollback (session_update user) w h fails =
      in_tx-rollback env (upsert_session arc env codec user) w h fails
