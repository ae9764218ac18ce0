-- ===== src/Statistics/Failing.antt =====
-- What a message of the service leaves alone: the counters, if it fails, and the caches.
use gxydb_api.Base.{
  ℕ, ◌≡◌, refl, ap, false, String, ◌⊎◌, inl, inr, Option, none, some, arith, nat_eq, string_eq,
  Option-cases, Either-cases,
}
use gxydb_api.Errors.{Outcome, ok, err, panic}
use gxydb_api.Models.{RoomStatistic}
use gxydb_api.Cache.Rooms
use gxydb_api.World.{Env, World, Action, query, counted, wrapping}
use gxydb_api.Tx.{in_tx}
use gxydb_api.Tx.Atomic.{NoLoss, is_ok, in_tx-rollback}
use gxydb_api.Statistics.{
  find_or_insert, get_or_create, write, update, incremented, on_air, count_room, ServiceMessage,
  handle_decoded, handle_message,
}
use gxydb_api.Statistics.Counting.{counter, Read, get_or_create-Read}

module _ {C : Type 0} (env : Env) where
  update-fails :
      (s : RoomStatistic) (w : World C)
      → NoLoss env
      → is_ok (update env s w).0 ≡ false
      → (update env s w).1.db ≡ w.db
  unfolding update
  update-fails s w lossless fails = in_tx-rollback env (write env s) w lossless fails

  get_or_create-counter :
      (room_id id : ℕ) (w : World C)
      → NoLoss env
      → counter id (get_or_create env room_id w).1.db.room_statistics
        ≡ counter id w.db.room_statistics
  unfolding get_or_create
  get_or_create-counter room_id id w lossless = split (get_or_create env room_id w).0 refl
    where
      split :
          (r : Outcome RoomStatistic)
          → (get_or_create env room_id w).0 ≡ r
          → counter id (get_or_create env room_id w).1.db.room_statistics
            ≡ counter id w.db.room_statistics
      split (ok s) e =
          Read.same
            (get_or_create-Read env room_id s w (get_or_create env room_id w).1
              (ap (λ r. (r, (get_or_create env room_id w).1)) e))
            id
      split (err x) e =
          ap (λ db. counter id db.room_statistics)
            (in_tx-rollback env (find_or_insert env room_id) w lossless (ap is_ok e))
      split (panic x) e =
          ap (λ db. counter id db.room_statistics)
            (in_tx-rollback env (find_or_insert env room_id) w lossless (ap is_ok e))

  -- When `OnAir` fails, no counter has changed, where no answer to a COMMIT is lost; a row may
  -- have been made, with the counter 0.
  pub on_air-fails :
      (room_id id : ℕ) (w : World C)
      → NoLoss env
      → is_ok (on_air env room_id w).0 ≡ false
      → counter id (on_air env room_id w).1.db.room_statistics ≡ counter id w.db.room_statistics
  unfolding on_air
  on_air-fails room_id id w lossless fails = split (get_or_create env room_id w).0 refl
    where
      before :
          counter id (get_or_create env room_id w).1.db.room_statistics
          ≡ counter id w.db.room_statistics
      before = get_or_create-counter room_id id w lossless

      split :
          (r : Outcome RoomStatistic)
          → (get_or_create env room_id w).0 ≡ r
          → counter id (on_air env room_id w).1.db.room_statistics ≡ counter id w.db.room_statistics
      split (ok s) e = ground (
        arith,
        before,
        update-fails (incremented s) (wrapping "getOrCreate" (get_or_create env room_id) w).1
            lossless,
      )
      split (err x) e = ground (arith, before)
      split (panic x) e = ground (arith, before)

  count_room-fails :
      (room : Option String) (id : ℕ) (w : World C)
      → NoLoss env
      → is_ok (count_room env room w).0 ≡ false
      → counter id (count_room env room w).1.db.room_statistics ≡ counter id w.db.room_statistics
  count_room-fails none id w lossless fails = refl
  count_room-fails (some uid) id w lossless fails =
      elim (Option-cases (Rooms.find_uid uid w.cache.rooms)) [
        | inl unknown ↦ ground (arith, unknown)
        | inr (room, known) ↦ ground (arith, known, on_air-fails room.id id w lossless)
      ]

  -- A message that is not handled successfully changes no counter, where no answer to a COMMIT is
  -- lost.
  pub handle_message-fails :
      (decode : String → String ⊎ ServiceMessage) (payload : String) (id : ℕ) (w : World C)
      → NoLoss env
      → is_ok (handle_message env decode payload w).0 ≡ false
      → counter id (handle_message env decode payload w).1.db.room_statistics
        ≡ counter id w.db.room_statistics
  unfolding handle_message handle_decoded
  handle_message-fails decode payload id w lossless fails = elim (Either-cases (decode payload)) [
    | inl (e, bad) ↦ ground (arith, bad)
    | inr (msg, good) ↦ ground (arith, good, count_room-fails msg.room id w lossless)
  ]

  abbrev SameCache : {A : Type 0} → Action C A → Type 0
  SameCache m = (w : World C) → (m w).1.cache ≡ w.cache

  in_tx-SameCache : {A : Type 0} (m : Action C A) → SameCache m → SameCache (in_tx env m)
  unfolding in_tx
  in_tx-SameCache m h w = ground (arith, h (counted w))

  get_or_create-SameCache : (room_id : ℕ) → SameCache (get_or_create env room_id)
  unfolding get_or_create find_or_insert query
  get_or_create-SameCache room_id = in_tx-SameCache (find_or_insert env room_id) (λ w. ground arith)

  update-SameCache : (s : RoomStatistic) → SameCache (update env s)
  unfolding update write query
  update-SameCache s = in_tx-SameCache (write env s) (λ w. ground arith)

  on_air-SameCache : (room_id : ℕ) → SameCache (on_air env room_id)
  unfolding on_air
  on_air-SameCache room_id w = split (get_or_create env room_id w).0 refl
    where
      before : (get_or_create env room_id w).1.cache ≡ w.cache
      before = get_or_create-SameCache room_id w

      split :
          (r : Outcome RoomStatistic)
          → (get_or_create env room_id w).0 ≡ r
          → (on_air env room_id w).1.cache ≡ w.cache
      split (ok s) e = ground (
        arith,
        before,
        update-SameCache (incremented s) (wrapping "getOrCreate" (get_or_create env room_id) w).1,
      )
      split (err x) e = ground (arith, before)
      split (panic x) e = ground (arith, before)

  count_room-SameCache : (room : Option String) → SameCache (count_room env room)
  count_room-SameCache none w = refl
  count_room-SameCache (some uid) w = elim (Option-cases (Rooms.find_uid uid w.cache.rooms)) [
    | inl unknown ↦ ground (arith, unknown)
    | inr (room, known) ↦ ground (arith, known, on_air-SameCache room.id w)
  ]

  decoded-SameCache : (msg : ServiceMessage) → SameCache (handle_decoded env msg)
  unfolding handle_decoded
  decoded-SameCache msg w = ground (arith, count_room-SameCache msg.room w)

  -- A message of the service changes no cache.
  pub handle_message-SameCache :
      (decode : String → String ⊎ ServiceMessage) (payload : String) (w : World C)
      → (handle_message env decode payload w).1.cache ≡ w.cache
  unfolding handle_message handle_decoded
  handle_message-SameCache decode payload w = elim (Either-cases (decode payload)) [
    | inl (e, bad) ↦ ground (arith, bad)
    | inr (msg, good) ↦ ground (arith, good, decoded-SameCache msg w)
  ]
