-- ===== src/Collector/Participants.antt =====
-- What the gauge of the participants of rooms shows (`collectRoomParticipants`).
use gxydb_api.Base.{
  ℕ, ◌≡◌, refl, ap, ◌∙◌, Bool, false, ◌&&◌, ◌||◌, String, List, [], ◌∷◌, ◌++◌, none, some, arith,
  ◌==◌, ==_iff, nat_eq, string_eq, if◌then◌else◌, any, elem, select, length, Bool-cases, inl, inr,
}
use gxydb_api.Base.Maps.{get, put, get-put}
use gxydb_api.Errors.{ok}
use gxydb_api.Models.{Session, Room, Db}
use gxydb_api.World.{Env, World, query, counted}
use gxydb_api.Session.Table.{is_open}
use gxydb_api.V1.Reads.{in_room, user_ids, count_users}
use gxydb_api.Collector.{Gauge, participants, set_samples, collect_participants}

abbrev pub IsNodup : List ℕ → Type 0
IsNodup [] = Unit {0}
IsNodup (n ∷ ns) = (elem n ns ≡ false) × IsNodup ns

user_ids-elem :
    (u : ℕ) (ss : List Session) (ids : List ℕ)
    → elem u (user_ids ss ids) ≡ (elem u ids || any (λ s. s.user_id == u) ss)
user_ids-elem u [] ids = ground arith
user_ids-elem u (s ∷ ss) ids = elim (Bool-cases (elem s.user_id ids)) [
  | inl old ↦
      ground (arith, old, user_ids-elem u ss ids, ap (λ n. elem n ids) ((==_iff s.user_id u).0 _))
  | inr new ↦
      ground
        (arith, new, user_ids-elem u ss (s.user_id ∷ ids), ==_iff s.user_id u, ==_iff u s.user_id)
]

user_ids-IsNodup : (ss : List Session) (ids : List ℕ) → IsNodup ids → IsNodup (user_ids ss ids)
user_ids-IsNodup [] ids h = h
user_ids-IsNodup (s ∷ ss) ids h = elim (Bool-cases (elem s.user_id ids)) [
  | inl old ↦ rw old (user_ids-IsNodup ss ids h)
  | inr new ↦ rw new (user_ids-IsNodup ss (s.user_id ∷ ids) (new, h))
]

any-select :
    (p q : Session → Bool) (ss : List Session) → any q (select p ss) ≡ any (λ s. q s && p s) ss
any-select p q [] = refl
any-select p q (s ∷ ss) = ground (arith, any-select p q ss)

abbrev pub names : String → List Room → Bool
names name = any (λ q. q.name == name)

abbrev labels : String → List (String × ℕ) → Bool
labels name = any (λ row. row.0 == name)

participants-append :
    (db : Db) (xs ys : List Room)
    → participants db (xs ++ ys) ≡ participants db xs ++ participants db ys
unfolding participants
participants-append db [] ys = refl
participants-append db (r ∷ xs) ys = ground (arith, participants-append db xs ys)

participants-labels :
    (db : Db) (name : String) (rooms : List Room)
    → names name rooms ≡ false
    → labels name (participants db rooms) ≡ false
unfolding participants
participants-labels db name [] h = refl
participants-labels db name (r ∷ rooms) h = ground (arith, participants-labels db name rooms)

set_samples-append :
    (xs ys : List (String × ℕ)) (gauge : Gauge)
    → set_samples (xs ++ ys) gauge ≡ set_samples ys (set_samples xs gauge)
unfolding set_samples
set_samples-append [] ys gauge = refl
set_samples-append ((name, count) ∷ xs) ys gauge = set_samples-append xs ys (put name count gauge)

get-set_samples :
    (name : String) (rows : List (String × ℕ)) (gauge : Gauge)
    → labels name rows ≡ false
    → get name (set_samples rows gauge) ≡ get name gauge
unfolding set_samples
get-set_samples name [] gauge h = refl
get-set_samples name ((label, count) ∷ rows) gauge h =
    ground
      (arith, get-put label name count gauge, get-set_samples name rows (put label count gauge))

-- The sample of a room: the number of different users with an open session there.
pub record Counted (db : Db) (r : Room) (gauge : Gauge) : Type 0 where
  pub users : List ℕ
  pub distinct : IsNodup users
  pub exactly :
      (u : ℕ)
      → elem u users ≡ any (λ s. s.user_id == u && (in_room r.id s && is_open s)) db.sessions
  pub shown :
      get r.name gauge
      ≡ (if any (λ s. in_room r.id s && is_open s) db.sessions then some (length users) else none)

sample-one :
    (db : Db) (r : Room) (gauge : Gauge)
    → get r.name gauge ≡ none
    → get r.name (set_samples (participants db (r ∷ [])) gauge) ≡ (
        if any (λ s. in_room r.id s && is_open s) db.sessions
        then some (count_users db r.id)
        else none)
unfolding participants set_samples
sample-one db r gauge h =
    ground (arith, get-put r.name r.name (count_users db r.id) gauge, ==_iff r.name r.name)

module _ (db : Db) (r : Room) (front back : List Room) (rooms : db.rooms ≡ front ++ r ∷ back)
    (first : names r.name front ≡ false) (last : names r.name back ≡ false) where
  sample-shown : get r.name (set_samples (participants db db.rooms) []) ≡ (
      if any (λ s. in_room r.id s && is_open s) db.sessions
      then some (count_users db r.id)
      else none)
  sample-shown =
      let before = participants db front in
      let after = participants db back in
      let one = participants db (r ∷ []) in
      let parts : participants db db.rooms ≡ before ++ (one ++ after) =
        ap (participants db) rooms
        ∙ participants-append db front (r ∷ back)
        ∙ ap (λ rows. before ++ rows) (participants-append db (r ∷ []) back) in
      ap (λ rows. get r.name (set_samples rows [])) parts
      ∙ ap (get r.name) (set_samples-append before (one ++ after) [])
      ∙ ap (get r.name) (set_samples-append one after (set_samples before []))
      ∙ get-set_samples r.name after (set_samples one (set_samples before []))
          (participants-labels db r.name back last)
      ∙ sample-one db r (set_samples before [])
          (get-set_samples r.name before [] (participants-labels db r.name front first))

  participants-Counted : Counted db r (set_samples (participants db db.rooms) [])
  participants-Counted = record {
    users = user_ids (select (λ s. in_room r.id s && is_open s) db.sessions) [];
    distinct = user_ids-IsNodup (select (λ s. in_room r.id s && is_open s) db.sessions) [] tt;
    exactly = λ u.
        user_ids-elem u (select (λ s. in_room r.id s && is_open s) db.sessions) []
        ∙ any-select (λ s. in_room r.id s && is_open s) (λ s. s.user_id == u) db.sessions;
    shown = sample-shown;
  }

-- When the participants are collected, and neither the query nor the reading of its rows fails, the
-- gauge of a room, whose name no other room has, is the number of different users with an open
-- session in the room, and is not there if there are none; nothing else is changed.
pub collect_participants-Counted :
    {C : Type 0} (env : Env) (old : Gauge) (w : World C) (r : Room) (front back : List Room)
    → env.fault w.calls ≡ none
    → w.db.rooms ≡ front ++ r ∷ back
    → names r.name front ≡ false
    → names r.name back ≡ false
    → (gauge : Gauge) × (v : World C) × (collect_participants env none old w ≡ (ok gauge, v))
      × (v.db ≡ w.db)
      × (v.cache ≡ w.cache)
      × Counted w.db r gauge
unfolding collect_participants query
collect_participants-Counted env old w r front back fine rooms first last = (
  set_samples (participants w.db w.db.rooms) [],
  counted w,
  ground (arith, fine),
  refl,
  refl,
  participants-Counted w.db r front back rooms first last,
)
