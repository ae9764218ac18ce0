-- ===== src/Statistics/Counting.antt =====
-- What a room's counter is after the operations on it.
use gxydb_api.Base.{
  ℕ, ◌+◌, ◌≡◌, refl, ap, ◌∙◌, true, false, ◌&&◌, String, List, [], ◌∷◌, ◌++◌, ◌⊎◌, inl, inr, Option,
  none, some, arith, ◌==◌, ==_iff, nat_eq, string_eq, if◌then◌else◌, first?, any, Option-cases,
}
use gxydb_api.Errors.{ok}
use gxydb_api.Models.{RoomStatistic}
use gxydb_api.Cache.Rooms
use gxydb_api.World.{Env, World, query, counted, wrapping, wrapping-eq-ok, >>=-eq-ok}
use gxydb_api.Tx.Atomic.{in_tx-eq-ok}
use gxydb_api.Statistics.{
  put_statistic, find_or_insert, get_or_create, write, update, incremented, on_air, count_room,
  ServiceMessage, handle_decoded, handle_message,
}

-- How often a room was on air: a room without a row never was.
abbrev pub counter : ℕ → List RoomStatistic → ℕ
counter id ss = elim (first? (λ s. s.room_id == id) ss) [ none ↦ 0 | some s ↦ s.on_air ]

-- The row of a room, which may be absent.
abbrev pub row_of : ℕ → List RoomStatistic → Option RoomStatistic
row_of id ss = first? (λ s. s.room_id == id) ss

row_of-id :
    (id : ℕ) (ss : List RoomStatistic) (s : RoomStatistic) → row_of id ss ≡ some s → s.room_id ≡ id
row_of-id id [] s h = absurd (ground arith)
row_of-id id (t ∷ ss) s h = ground (arith, row_of-id id ss s, ==_iff t.room_id id)

counter-append :
    (id room_id : ℕ) (ss : List RoomStatistic)
    → counter id (ss ++ record { room_id = room_id; on_air = 0 } ∷ []) ≡ counter id ss
counter-append id room_id [] = ground arith
counter-append id room_id (s ∷ ss) = ground (arith, counter-append id room_id ss)

row_of-append :
    (room_id : ℕ) (ss : List RoomStatistic)
    → row_of room_id ss ≡ none
    → row_of room_id (ss ++ record { room_id = room_id; on_air = 0 } ∷ [])
      ≡ some (record { room_id = room_id; on_air = 0 })
row_of-append room_id [] h = ground (arith, ==_iff room_id room_id)
row_of-append room_id (s ∷ ss) h = ground (arith, row_of-append room_id ss)

row_of-put_statistic :
    (s t : RoomStatistic) (ss : List RoomStatistic)
    → row_of s.room_id ss ≡ some t
    → row_of s.room_id (put_statistic s ss) ≡ some s
row_of-put_statistic s t [] h = absurd (ground arith)
row_of-put_statistic s t (u ∷ ss) h =
    ground
      (arith, row_of-put_statistic s t ss, ==_iff u.room_id s.room_id, ==_iff s.room_id s.room_id)

row_of-put_other :
    (id : ℕ) (s : RoomStatistic) (ss : List RoomStatistic)
    → (id == s.room_id) ≡ false
    → row_of id (put_statistic s ss) ≡ row_of id ss
row_of-put_other id s [] h = refl
row_of-put_other id s (u ∷ ss) h = ground (
  arith,
  row_of-put_other id s ss,
  ==_iff u.room_id s.room_id,
  ==_iff s.room_id id,
  ==_iff id s.room_id,
)

counter-put_statistic :
    (id : ℕ) (s t : RoomStatistic) (ss : List RoomStatistic)
    → row_of s.room_id ss ≡ some t
    → counter id (put_statistic s ss) ≡ (if id == s.room_id then s.on_air else counter id ss)
counter-put_statistic id s t ss h =
    ground (arith, row_of-put_statistic s t ss h, row_of-put_other id s ss, ==_iff id s.room_id)

has_row-some :
    (id : ℕ) (t : RoomStatistic) (ss : List RoomStatistic)
    → row_of id ss ≡ some t
    → any (λ s. s.room_id == id) ss ≡ true
has_row-some id t [] h = absurd (ground arith)
has_row-some id t (s ∷ ss) h = ground (arith, has_row-some id t ss)

module _ {C : Type 0} (env : Env) where
  -- What is read is the row, which is there afterwards; the counters are as before.
  pub record Read (room_id : ℕ) (s : RoomStatistic) (w v : World C) : Type 0 where
    pub key : s.room_id ≡ room_id
    pub value : s.on_air ≡ counter room_id w.db.room_statistics
    pub there : row_of room_id v.db.room_statistics ≡ some s
    pub same : (id : ℕ) → counter id v.db.room_statistics ≡ counter id w.db.room_statistics
    pub cache : v.cache ≡ w.cache

  find_or_insert-Read :
      (room_id : ℕ) (s : RoomStatistic) (w v : World C)
      → find_or_insert env room_id w ≡ (ok s, v)
      → Read room_id s w v
  unfolding find_or_insert query
  find_or_insert-Read room_id s w v e = elim (Option-cases (row_of room_id w.db.room_statistics)) [
    | inl absent ↦ record {
      key = ground arith;
      value = ground (arith, absent);
      there = ground (arith, absent, row_of-append room_id w.db.room_statistics absent);
      same = λ id. ground (arith, absent, counter-append id room_id w.db.room_statistics);
      cache = ground arith;
    }
    | inr (t, present) ↦
        let has = has_row-some room_id t w.db.room_statistics present in
        record {
          key = ground (arith, present, has, row_of-id room_id w.db.room_statistics t present);
          value = ground (arith, present, has);
          there = ground (arith, present, has);
          same = λ id. ground (arith, present, has);
          cache = ground (arith);
        }
  ]

  pub get_or_create-Read :
      (room_id : ℕ) (s : RoomStatistic) (w v : World C)
      → get_or_create env room_id w ≡ (ok s, v)
      → Read room_id s w v
  unfolding get_or_create
  get_or_create-Read room_id s w v e =
      let (_, done, same, _) = in_tx-eq-ok env (find_or_insert env room_id) w s v e in
      let r =
        find_or_insert-Read room_id s (counted w) _
          (ap (λ o. (o, (find_or_insert env room_id (counted w)).1)) done) in
      record {
        key = r.key;
        value = r.value;
        there = ap (λ u. row_of room_id u.db.room_statistics) same ∙ r.there;
        same = λ id. ap (λ u. counter id u.db.room_statistics) same ∙ r.same id;
        cache = ap (λ u. u.cache) same ∙ r.cache;
      }

  update-counter :
      (s t : RoomStatistic) (w v : World C) (id : ℕ)
      → row_of s.room_id w.db.room_statistics ≡ some t
      → update env s w ≡ (ok tt, v)
      → counter id v.db.room_statistics
        ≡ (if id == s.room_id then s.on_air else counter id w.db.room_statistics)
  unfolding update write query
  update-counter s t w v id h e =
      let (_, done, same, _) = in_tx-eq-ok env (write env s) w tt v e in
      ground (arith, done, same, counter-put_statistic id s t w.db.room_statistics h)

  update-row :
      (s t : RoomStatistic) (w v : World C)
      → row_of s.room_id w.db.room_statistics ≡ some t
      → update env s w ≡ (ok tt, v)
      → row_of s.room_id v.db.room_statistics ≡ some s
  unfolding update write query
  update-row s t w v h e =
      let (_, done, same, _) = in_tx-eq-ok env (write env s) w tt v e in
      ground (arith, done, same, row_of-put_statistic s t w.db.room_statistics h)

  -- When `OnAir` of a room succeeds, its counter is one more, and every other counter is as before.
  pub on_air-counter :
      (room_id id : ℕ) (w v : World C)
      → on_air env room_id w ≡ (ok tt, v)
      → counter id v.db.room_statistics ≡ (
          if id == room_id
          then counter room_id w.db.room_statistics + 1
          else counter id w.db.room_statistics)
  unfolding on_air incremented
  on_air-counter room_id id w v e =
      let (s, read, later) =
        >>=-eq-ok (wrapping "getOrCreate" (get_or_create env room_id))
          (λ s. wrapping "update" (update env (incremented s))) w e in
      let u = (wrapping "getOrCreate" (get_or_create env room_id) w).1 in
      let r =
        get_or_create-Read room_id s w u
          (wrapping-eq-ok "getOrCreate" (get_or_create env room_id) w read) in
      let done =
        update-counter (incremented s) s u v id
          (ap (λ i. row_of i u.db.room_statistics) r.key ∙ r.there)
          (wrapping-eq-ok "update" (update env (incremented s)) u later) in
      ground (arith, done, r.key, r.value, r.same id)

  -- The room that a message counts.
  abbrev pub counted_room : ServiceMessage → World C → Option ℕ
  counted_room msg w =
      if msg.kind == "audio-out" && msg.status
      then (elim msg.room [
        | none ↦ none
        | some uid ↦ elim (Rooms.find_uid uid w.cache.rooms) [
          | none ↦ none
          | some room ↦ some room.id
        ]
      ])
      else none

  count_room-counter :
      (room : Option String) (id : ℕ) (w v : World C)
      → count_room env room w ≡ (ok tt, v)
      → counter id v.db.room_statistics ≡ (elim room [
        | none ↦ counter id w.db.room_statistics
        | some uid ↦ elim (Rooms.find_uid uid w.cache.rooms) [
          | none ↦ counter id w.db.room_statistics
          | some r ↦
              if id == r.id
              then counter r.id w.db.room_statistics + 1
              else counter id w.db.room_statistics
        ]
      ])
  count_room-counter none id w v e = absurd (ground arith)
  count_room-counter (some uid) id w v e = elim (Option-cases (Rooms.find_uid uid w.cache.rooms)) [
    | inl unknown ↦ absurd (ground (arith, unknown))
    | inr (room, known) ↦ ground (arith, known, on_air-counter room.id id w v)
  ]

  handle_decoded-counter :
      (msg : ServiceMessage) (id : ℕ) (w v : World C)
      → handle_decoded env msg w ≡ (ok tt, v)
      → counter id v.db.room_statistics ≡ (elim (counted_room msg w) [
        | none ↦ counter id w.db.room_statistics
        | some room_id ↦
            if id == room_id
            then counter room_id w.db.room_statistics + 1
            else counter id w.db.room_statistics
      ])
  unfolding handle_decoded
  handle_decoded-counter msg id w v e = ground (arith, count_room-counter msg.room id w v)

  -- When a message of the service is handled successfully, the counter of the room that it is about
  -- is one more if the message tells that audio goes out there; every other counter is as before,
  -- and no counter changes on any other message.
  pub handle_message-counter :
      (decode : String → String ⊎ ServiceMessage) (payload : String) (msg : ServiceMessage) (id : ℕ)
      (w v : World C)
      → decode payload ≡ inr msg
      → handle_message env decode payload w ≡ (ok tt, v)
      → counter id v.db.room_statistics ≡ (elim (counted_room msg w) [
        | none ↦ counter id w.db.room_statistics
        | some room_id ↦
            if id == room_id
            then counter room_id w.db.room_statistics + 1
            else counter id w.db.room_statistics
      ])
  unfolding handle_message handle_decoded
  handle_message-counter decode payload msg id w v decoded e =
      handle_decoded-counter msg id w v (rw (decoded, handle_message) at e)
