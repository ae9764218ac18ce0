-- ===== src/Session/Presence.antt =====
-- Where users are. The table of sessions, on which messages and events work a row at a time, is seen
-- as a function from users to places: a user is in one room, on one gateway, or nowhere.
use gxydb_api.Base.{
  ℕ, ◌+◌, ◌<◌, ◌≡◌, ◌≢◌, refl, ap, ◌∙◌, sym, subst, Bool, true, false, not, Bool-cases, inl, inr,
  ◌==◌, nat_eq, string_eq, String, List, [], ◌∷◌, Option, none, some, arith, map, any, select,
  if◌then◌else◌,
}
use gxydb_api.Base.Maps.{Map, get}
use gxydb_api.Errors.{Error, ok}
use gxydb_api.Models.{Session, Room, Gateway}
use gxydb_api.Cache.Users.{Arc}
use gxydb_api.Cache.Rooms
use gxydb_api.Cache.Gateways
use gxydb_api.World.{Env, World, counted}
use gxydb_api.Tx.Atomic.{NoLoss, is_ok}
use gxydb_api.Session.Types.{V1User, V1ProtocolMessageText, Codec, Value, text, plugin_event}
use gxydb_api.Session.Table.Laws.{open_of, of_others}
use gxydb_api.Session.{get_internal_user_id, is_leaving, handle_protocol, handle_event}
use gxydb_api.Session.Enter.{Entered, handle_protocol-Entered}
use gxydb_api.Session.Leave.{handle_event-Left}
use gxydb_api.Session.Cleaner.{is_dead, clean}
use gxydb_api.Session.Cleaned.{HasUniqueIds, IsCalm, close_where, clean-close_where}
use gxydb_api.Session.Safety.{Request, serve, serve-rollback}

-- The ids of a room and of a gateway.
abbrev pub Place : Type 0
Place = ℕ × ℕ

abbrev pub Whereabouts : Type 0
Whereabouts = ℕ → Option Place

pub data Move : Type 0 where
  enters : ℕ → Place → Move
  leaves : ℕ → Move
  expires : (ℕ → Bool) → Move
  stays : Move

abbrev pub move : Move → Whereabouts → Whereabouts
move (enters user place) at u = if u == user then some place else at u
move (leaves user) at u = if u == user then none else at u
move (expires gone) at u = if gone u then none else at u
move stays at u = at u

-- The moves, one after another.
abbrev pub walk : List Move → Whereabouts → Whereabouts
walk [] at = at
walk (m ∷ moves) at = walk moves (move m at)

-- The open rows of a user in a place.
abbrev pub rows_at : Option Place → List (Option ℕ × Option ℕ)
rows_at none = []
rows_at (some (room, gateway)) = (some room, some gateway) ∷ []

abbrev pub places : List Session → List (Option ℕ × Option ℕ)
places = map (λ s. (s.room_id, s.gateway_id))

-- Every user has the open rows of the place, and no other.
abbrev pub Tracks : List Session → Whereabouts → Type 0
Tracks sessions at = (u : ℕ) → places (open_of u sessions) ≡ rows_at (at u)

open_of-of_others :
    (u user : ℕ) (ss : List Session)
    → (u == user) ≡ false
    → open_of u (of_others user ss) ≡ open_of u ss
open_of-of_others u user [] differ = refl
open_of-of_others u user (s ∷ ss) differ = ground (arith, open_of-of_others u user ss differ)

-- What holds of the rows of all others holds of each of them.
open_of-others :
    (u user : ℕ) (ss ts : List Session)
    → (u == user) ≡ false
    → of_others user ss ≡ of_others user ts
    → open_of u ss ≡ open_of u ts
open_of-others u user ss ts differ same =
    sym (open_of-of_others u user ss differ)
    ∙ ap (open_of u) same
    ∙ open_of-of_others u user ts differ

-- A change of one user's rows is a move of the user.
Tracks-moved :
    (user : ℕ) (place : Option Place) (ss ts : List Session) (at : Whereabouts)
    → places (open_of user ts) ≡ rows_at place
    → of_others user ts ≡ of_others user ss
    → Tracks ss at
    → Tracks ts (λ u. if u == user then place else at u)
Tracks-moved user place ss ts at here others h u = elim (Bool-cases (u == user)) [
  | inl same ↦ rw same (subst (λ n. places (open_of n ts) ≡ rows_at place) (ground arith) here)
  | inr differ ↦ rw differ (ap places (open_of-others u user ts ss differ others) ∙ h u)
]

-- Of a user's open rows those that are not dead stay open.
open_of-close_where :
    (env : Env) (b : String) (now : ℕ) (p : Session → Bool) (u : ℕ) (ss : List Session)
    → open_of u (close_where env b now p ss) ≡ select (λ s. not (p s)) (open_of u ss)
open_of-close_where env b now p u [] = refl
open_of-close_where env b now p u (s ∷ ss) = ground (arith, open_of-close_where env b now p u ss)

-- A user with one open row at most is nowhere once it is dead.
places-living :
    (p : Session → Bool) (place : Option Place) (ss : List Session)
    → places ss ≡ rows_at place
    → places (select (λ s. not (p s)) ss) ≡ rows_at (if any p ss then none else place)
places-living p place [] h = h
places-living p place (s ∷ []) h = elim (Bool-cases (p s)) [
  | inl dead ↦ rw dead refl
  | inr alive ↦ rw alive h
]
places-living p none (s ∷ t ∷ ss) h = absurd (ground arith)
places-living p (some place) (s ∷ t ∷ ss) h = absurd (ground arith)

module _ {C : Type 0} (arc : Arc C) (env : Env) (codec : Codec) where
  -- What may happen: a user known under a positive id enters a room or leaves, a request of the
  -- manager fails, the cleaner closes the sessions of users that are dead, or something else happens
  -- that leaves the table of sessions alone.
  pub data Step : World C → Move → World C → Type 0 where
    entering :
        (payload : String) (msg : V1ProtocolMessageText) (user : ℕ) (room : Room)
        (gateway : Gateway) (w v : World C)
        → codec.decode_message payload ≡ inr msg
        → msg.kind ≡ "enter"
        → (get_internal_user_id arc env codec msg.user (counted w)).0 ≡ ok (user, none)
        → 0 < user
        → Rooms.find_uid msg.user.room w.cache.rooms ≡ some room
        → Gateways.find_name msg.user.janus w.cache.gateways ≡ some gateway
        → handle_protocol arc env codec payload w ≡ (ok tt, v)
        → Step w (enters user (room.id, gateway.id)) v
    leaving :
        (fields : Map String Value) (kind display : String) (client : V1User) (user : ℕ)
        (error : Option Error) (w v : World C)
        → get "event" fields ≡ some (text kind)
        → is_leaving arc env codec kind ≡ true
        → get "display" fields ≡ some (text display)
        → codec.decode_user display ≡ inr client
        → (get_internal_user_id arc env codec client (counted w)).0 ≡ ok (user, error)
        → user ≢ 0
        → handle_event arc env codec (plugin_event "janus.plugin.videoroom" fields) w ≡ (ok tt, v)
        → Step w (leaves user) v
    failing :
        (r : Request) (w : World C)
        → is_ok (serve arc env codec r w).0 ≡ false
        → Step w stays (serve arc env codec r w).1
    cleaning :
        (period : ℕ) (w : World C)
        → IsCalm env
        → HasUniqueIds w.db.sessions
        → Step w
            (expires (λ u. any (is_dead (env.now w.calls) period) (open_of u w.db.sessions)))
            (clean env period w).1
    aside : (w v : World C) → v.db.sessions ≡ w.db.sessions → Step w stays v

  pub data Run : World C → List Move → World C → Type 0 where
    done : {w : World C} → Run w [] w
    first :
        {w v u : World C} {m : Move} {moves : List Move}
        → Step w m v
        → Run v moves u
        → Run w (m ∷ moves) u

  Entered-places :
      (client : V1User) (user : ℕ) (room : Room) (gateway : Gateway) (w v : World C)
      → Rooms.find_uid client.room w.cache.rooms ≡ some room
      → Gateways.find_name client.janus w.cache.gateways ≡ some gateway
      → Entered arc env codec client user w v
      → places (open_of user v.db.sessions) ≡ rows_at (some (room.id, gateway.id))
  Entered-places client user room gateway w v room_known gateway_known e =
      ap places e.one_open ∙ ground (arith, e.room_known, e.gateway_known)

  Step-Tracks :
      {w v : World C} {m : Move}
      → NoLoss env
      → (at : Whereabouts) → Step w m v
      → Tracks w.db.sessions at
      → Tracks v.db.sessions (move m at)
  Step-Tracks lossless at
        (entering payload msg user room gateway w v decoded kind known positive here there e) h =
      let entered =
        handle_protocol-Entered arc env codec payload msg user w v decoded kind known positive e in
      Tracks-moved user (some (room.id, gateway.id)) w.db.sessions v.db.sessions at
        (Entered-places msg.user user room gateway w v here there entered) entered.others h
  Step-Tracks lossless at
        (leaving fields kind display client user error w v sort departs shown decoded known positive
          e)
        h =
      let left =
        handle_event-Left arc env codec fields kind display client user error w v sort departs shown
          decoded known positive e in
      Tracks-moved user none w.db.sessions v.db.sessions at (ap places left.none_open) left.others h
  Step-Tracks lossless at (failing r w fails) h = λ u.
      ap (λ db. places (open_of u db.sessions)) (serve-rollback arc env codec r w lossless fails)
      ∙ h u
  Step-Tracks lossless at (cleaning period w calm unique) h = λ u.
      let dead = is_dead (env.now w.calls) period in
      ap (λ ss. places (open_of u ss)) (clean-close_where env period w calm unique).1
      ∙ ap places (
          open_of-close_where env (env.stamp "clean_session" (env.now (w.calls + 1 + 1)))
            (env.now (w.calls + 1 + 1 + 1 + 1)) dead u w.db.sessions)
      ∙ places-living dead (at u) (open_of u w.db.sessions) (h u)
  Step-Tracks lossless at (aside w v same) h = λ u. ap (λ ss. places (open_of u ss)) same ∙ h u

  -- If the open sessions are those of users in places, each in one or nowhere, then after any run of
  -- users who enter or leave, rounds of the cleaner in which no call fails and no two sessions have
  -- the same id, requests of the manager that fail, and actions that leave the table of sessions
  -- alone, the open sessions are those of the users in the places that the moves lead to, where no
  -- answer to a COMMIT is lost. Updates of sessions that succeed are no such step.
  pub Run-Tracks :
      {w v : World C} {moves : List Move}
      → NoLoss env
      → (at : Whereabouts) → Run w moves v
      → Tracks w.db.sessions at
      → Tracks v.db.sessions (walk moves at)
  Run-Tracks lossless at done h = h
  Run-Tracks lossless at (first {m = m} step run) h =
      Run-Tracks lossless (move m at) run (Step-Tracks lossless at step h)
