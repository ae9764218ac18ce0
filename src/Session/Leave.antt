-- ===== src/Session/Leave.antt =====
-- A user who leaves a room has no open session (`onVideoroomLeaving`).
use gxydb_api.Base.{ℕ, ◌≡◌, ◌≢◌, ap, ◌∙◌, true, inr, String, [], Option, some, arith, string_eq}
use gxydb_api.Base.Maps.{Map, get}
use gxydb_api.Errors.{Error, ok}
use gxydb_api.Cache.Users.{Arc}
use gxydb_api.World.{Env, World, counted, ◌>>=◌, wrapping-eq-ok}
use gxydb_api.Tx.Atomic.{in_tx-eq-ok}
use gxydb_api.Session.Types.{V1User, Codec, Value, text, plugin_event}
use gxydb_api.Session.Table.Laws.{open_of, of_others, open_of-close_rows, of_others-close_rows}
use gxydb_api.Session.Steps.{get_internal_user_id-SameSessions, close_session-eq-ok}
use gxydb_api.Session.{
  get_internal_user_id, leave, on_videoroom_leaving, is_leaving, event_body, handle_event,
}

module _ {C : Type 0} (arc : Arc C) (env : Env) (codec : Codec) where
  -- The user has no open session; the rows of other users are as before.
  pub record Left (uid : ℕ) (w v : World C) : Type 0 where
    pub none_open : open_of uid v.db.sessions ≡ []
    pub others : of_others uid v.db.sessions ≡ of_others uid w.db.sessions

  leave-Left :
      (uid : ℕ) (error : Option Error) (w v : World C)
      → uid ≢ 0
      → leave arc env codec (uid, error) w ≡ (ok tt, v)
      → Left uid w v
  unfolding leave
  leave-Left uid error w v positive e =
      let (b, now, rows, _) = close_session-eq-ok arc env codec uid w v (ground arith) in
      record {
        none_open = ap (open_of uid) rows ∙ open_of-close_rows env b now uid w.db.sessions;
        others = ap (of_others uid) rows ∙ of_others-close_rows env b now uid w.db.sessions;
      }

  on_videoroom_leaving-Left :
      (display : String) (user : V1User) (uid : ℕ) (error : Option Error) (w v : World C)
      → codec.decode_user display ≡ inr user
      → (get_internal_user_id arc env codec user w).0 ≡ ok (uid, error)
      → uid ≢ 0
      → on_videoroom_leaving arc env codec (some (text display)) w ≡ (ok tt, v)
      → Left uid w v
  unfolding on_videoroom_leaving
  on_videoroom_leaving-Left display user uid error w v decoded known positive e =
      let left =
        leave-Left uid error (get_internal_user_id arc env codec user w).1 v positive
          (rw (known, ◌>>=◌) at (rw (decoded, on_videoroom_leaving) at e)) in
      let kept = get_internal_user_id-SameSessions arc env codec user w in
      record { none_open = left.none_open; others = left.others ∙ ap (of_others uid) kept.sessions }

  event_body-leaving :
      (fields : Map String Value) (kind display : String) (w v : World C)
      → get "event" fields ≡ some (text kind)
      → is_leaving arc env codec kind ≡ true
      → get "display" fields ≡ some (text display)
      → event_body arc env codec (plugin_event "janus.plugin.videoroom" fields) w ≡ (ok tt, v)
      → on_videoroom_leaving arc env codec (some (text display)) w ≡ (ok tt, v)
  unfolding event_body
  event_body-leaving fields kind display w v sort leaving shown e = rw shown at (
      wrapping-eq-ok "V1SessionManager.onVideoroomLeaving"
        (on_videoroom_leaving arc env codec (get "display" fields)) w
        (rw (leaving, event_body) at (rw (sort, event_body) at e)))

  -- When the videoroom plugin of a gateway tells that a user has left, was kicked or stopped
  -- publishing, and the event is handled successfully, the user has no open session afterwards,
  -- also if the account is disabled; the sessions of all other users are as before.
  pub handle_event-Left :
      (fields : Map String Value) (kind display : String) (user : V1User) (uid : ℕ)
      (error : Option Error) (w v : World C)
      → get "event" fields ≡ some (text kind)
      → is_leaving arc env codec kind ≡ true
      → get "display" fields ≡ some (text display)
      → codec.decode_user display ≡ inr user
      → (get_internal_user_id arc env codec user (counted w)).0 ≡ ok (uid, error)
      → uid ≢ 0
      → handle_event arc env codec (plugin_event "janus.plugin.videoroom" fields) w ≡ (ok tt, v)
      → Left uid w v
  unfolding handle_event
  handle_event-Left fields kind display user uid error w v sort leaving shown decoded known positive
        e =
      let body = event_body arc env codec (plugin_event "janus.plugin.videoroom" fields) in
      let (_, done, same, _) = in_tx-eq-ok env body w tt v e in
      let left =
        on_videoroom_leaving-Left display user uid error (counted w) (body (counted w)).1 decoded
          known positive
          (event_body-leaving fields kind display (counted w) _ sort leaving shown
            (ap (λ r. (r, (body (counted w)).1)) done)) in
      record {
        none_open = ap (λ u. open_of uid u.db.sessions) same ∙ left.none_open;
        others = ap (λ u. of_others uid u.db.sessions) same ∙ left.others;
      }
