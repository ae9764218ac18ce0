-- ===== src/Admin/Apart.antt =====
-- A change of a room that fails: the tables are rolled back, and the gateways told so far are not.
use gxydb_api.Base.{
  ℕ, ◌≡◌, refl, subst, Bool, true, false, String, List, ◌⊎◌, inl, inr, Option, none, some, arith,
  ◌==◌, string_eq, nat_eq, if◌then◌else◌, first?, any, Option-cases,
}
use gxydb_api.Base.Int.{ℤ, pos, int_eq}
use gxydb_api.Errors.{ok, is_no_rows, no_rows}
use gxydb_api.Models.{Gateway, Room, Db}
use gxydb_api.Cache.Rooms
use gxydb_api.World.{
  Env, World, Action, Try, pure, RoomRequest, create_room, edit_room, destroy_room,
}
use gxydb_api.Tx.Atomic.{NoLoss}
use gxydb_api.Auth.{Config, Verifiers, RequestContext}
use gxydb_api.V1.{Answer, aborted, recovered}
use gxydb_api.V1.Answers.{outcome_of}
use gxydb_api.Admin.Rooms.{
  RoomData, find_gateway, exists_room, select_room, unless_exists, remove_room_row,
}
use gxydb_api.Admin.RoomHandlers.{
  with_uid, with_room, admin_create_room, admin_update_room, admin_delete_room,
}
use gxydb_api.Admin.Telling.{
  ToldFirst, Fair, AllFair, Reads, Yields, reading-Fair, still-Fair, commit_room-Fair,
  remove_room_row-Tells, create_room_row-Tells, update_room_row-Tells,
}

-- A request for one of the handlers that change rooms.
pub data RoomChange : Type 0 where
  create : ℕ ⊎ RoomData → RoomChange
  update : Option ℤ → ℕ ⊎ RoomData → RoomChange
  delete : Option ℤ → RoomChange

module _ (next_uid : List Room → String) where
  -- The uid of a new room: that of the request, or a free one in place of "0".
  abbrev pub uid_for : RoomData → Db → String
  uid_for input db = if input.gateway_uid == "0" then next_uid db.rooms else input.gateway_uid

  -- What gateways may be told of a request: to create the room that it describes, to give the room
  -- its new name, or to destroy the room of the id.
  abbrev pub Announces : RoomChange → Db → RoomRequest → Type 0
  Announces (create (inl code)) db told = ⊥
  Announces (create (inr input)) db told = told ≡ create_room (uid_for input db) input.name
  Announces (update id (inl code)) db told = ⊥
  Announces (update id (inr input)) db told = told ≡ edit_room input.gateway_uid input.name
  Announces (delete none) db told = ⊥
  Announces (delete (some id)) db told =
      (room : Room) × (first? (λ r. pos r.id == id) db.rooms ≡ some room)
      × (told ≡ destroy_room room.gateway_uid)

module _ (C : Type 0) (env : Env) (Says : RoomRequest → Type 0) (before : Db) where
  select_room-Reads : (id : ℤ) → Reads Says before C env (select_room id)
  select_room-Reads id db = elim (Option-cases (first? (λ r. pos r.id == id) db.rooms)) [
    | inl absent ↦ inl (no_rows, ground (arith, absent))
    | inr (room, there) ↦ inr (room, ground (arith, there))
  ]

  select_room-found :
      (id : ℤ) (room : Room)
      → select_room id before ≡ inr (room, before)
      → first? (λ r. pos r.id == id) before.rooms ≡ some room
  select_room-found id room e = elim (Option-cases (first? (λ r. pos r.id == id) before.rooms)) [
    | inl absent ↦ absurd (ground (arith, absent))
    | inr (other, there) ↦ ground (arith, there)
  ]

  exists_room-Reads : (test : Room → Bool) → Reads Says before C env (exists_room test)
  exists_room-Reads test db = inr (any test db.rooms, refl)

module _ {Token C : Type 0} (config : Config) (v : Verifiers Token) (env : Env)
    (bad_new_uid bad_uid : String → Bool) (next_uid : List Room → String) where
  abbrev pub serve_room : RoomChange → RequestContext → World C → Bool × World C
  serve_room (create body) c =
      outcome_of (admin_create_room config v env bad_new_uid bad_uid next_uid c body)
  serve_room (update id body) c =
      outcome_of (admin_update_room config v env bad_new_uid bad_uid next_uid c id body)
  serve_room (delete id) c =
      outcome_of (admin_delete_room config v env bad_new_uid bad_uid next_uid c id)

  module _ (Says : RoomRequest → Type 0) (before : Db) where
    abort-Fair : {A : Type 0} (r : Answer A) → AllFair Says before {C = C} (pure r)
    abort-Fair r w at = still-Fair Says before w (ok r)

    if-Fair :
        (A : Type 0) (b : Bool) (m n : Action C (Answer A))
        → AllFair Says before m
        → AllFair Says before n
        → AllFair Says before (if b then m else n)
    if-Fair A true m n h k = h
    if-Fair A false m n h k = k

    decide-Fair :
        (A : Type 0) (b : Bool) (m n : Action C (Answer A))
        → (b ≡ true → AllFair Says before m)
        → (b ≡ false → AllFair Says before n)
        → AllFair Says before (if b then m else n)
    decide-Fair A true m n h k = h refl
    decide-Fair A false m n h k = k refl

    with_room-Fair :
        {A : Type 0} (id : Option ℤ) (m : Room → Action C (Answer A))
        → ((i : ℤ) (room : Room)
            → id ≡ some i
            → first? (λ r. pos r.id == i) before.rooms ≡ some room
            → AllFair Says before (m room))
        → AllFair Says before (with_room config v env bad_new_uid bad_uid next_uid id m)
    unfolding with_room
    with_room-Fair none m h = abort-Fair (aborted 404)
    with_room-Fair {A = A} (some id) m h =
        reading-Fair Says before C env (select_room id) _ (select_room-Reads C env Says before id)
          found
      where
        found :
            (r : Try Room)
            → Yields Says before C env (select_room id) r
            → AllFair Says before {C = C} {A = A} (elim r [
              | inl e ↦ if is_no_rows e then pure (aborted 404) else pure (aborted 500)
              | inr room ↦ m room
            ])
        found (inl e) y =
            if-Fair A (is_no_rows e) _ _ (abort-Fair (aborted 404)) (abort-Fair (aborted 500))
        found (inr room) y = h id room refl (select_room-found C env Says before id room y)

    unless_exists-Fair :
        {A : Type 0} (test : Room → Bool) (m : Action C (Answer A))
        → AllFair Says before m
        → AllFair Says before (unless_exists env test m)
    unless_exists-Fair {A = A} test m h =
        reading-Fair Says before C env (exists_room test) _
          (exists_room-Reads C env Says before test) (λ r y. found r)
      where
        found :
            (r : Try Bool)
            → AllFair Says before {C = C} {A = A}
                (elim r [ inl e ↦ m | inr exists ↦ if exists then pure (aborted 400) else m ])
        found (inl e) = h
        found (inr true) = abort-Fair (aborted 400)
        found (inr false) = h

    with_uid-Fair :
        (input : RoomData) (m : RoomData → Action C (Answer Room))
        → ((given : RoomData)
            → given ≡ record input { gateway_uid = uid_for next_uid input before }
            → AllFair Says before (m given))
        → AllFair Says before (with_uid config v env bad_new_uid bad_uid next_uid input m)
    unfolding with_uid
    with_uid-Fair input m h =
        decide-Fair Room (input.gateway_uid == "0") _ _
          (λ zero.
            reading-Fair Says before C env (λ db. inr (next_uid db.rooms, db)) _
              (λ db. inr (next_uid db.rooms, refl)) (asked zero))
          (λ given.
            if-Fair Room (bad_new_uid input.gateway_uid) _ _ (abort-Fair (aborted 400))
              (λ w. known given w (Rooms.find_uid input.gateway_uid w.cache.rooms)))
      where
        asked :
            (input.gateway_uid == "0") ≡ true
            → (r : Try String) → Yields Says before C env (λ db. inr (next_uid db.rooms, db)) r
            → AllFair Says before {C = C} {A = Room} (elim r [
              | inl e ↦ pure (aborted 500)
              | inr uid ↦ m (record input { gateway_uid = uid })
            ])
        asked zero (inl e) y = abort-Fair (aborted 500)
        asked zero (inr uid) y = h (record input { gateway_uid = uid }) (ground (arith, zero))

        known :
            (input.gateway_uid == "0") ≡ false
            → (w : World C) (o : Option Room) → w.db ≡ before
            → Fair Says before {A = Room} w
                (elim o [ some _ ↦ (ok (aborted 400), w) | none ↦ m input w ])
        known given w (some r) at = still-Fair Says before w (ok (aborted 400))
        known given w none at = h input (ground (arith, given)) w at

    gateway-Fair :
        (A : Type 0) (id : ℤ) (m : Action C (Answer A))
        → AllFair Says before m
        → AllFair Says before {C = C} {A = A} (λ w. elim (find_gateway id w.cache.gateways) [
          | none ↦ (ok (aborted 400), w)
          | some _ ↦ m w
        ])
    gateway-Fair A id m h w at = found (find_gateway id w.cache.gateways)
      where
        found :
            (o : Option Gateway)
            → Fair Says before {A = A} w (elim o [ none ↦ (ok (aborted 400), w) | some _ ↦ m w ])
        found none = still-Fair Says before w (ok (aborted 400))
        found (some g) = h w at

  module _ (before : Db) (c : RequestContext) (h : NoLoss env) where
    create-Fair :
        (body : ℕ ⊎ RoomData)
        → AllFair
            (Announces next_uid (create body) before)
            before
            {C = C}
            (admin_create_room config v env bad_new_uid bad_uid next_uid c body)
    unfolding admin_create_room
    create-Fair (inl code) =
        let says = Announces next_uid (create (inl code)) before in
        if-Fair says before Room _ _ _ (abort-Fair says before (aborted code))
          (abort-Fair says before (aborted 403))
    create-Fair (inr input) =
        let says = Announces next_uid (create (inr input)) before in
        if-Fair says before Room _ _ _
          (gateway-Fair says before Room input.default_gateway_id _ (
            unless_exists-Fair says before _ _ (
              if-Fair says before Room _ _ _
                (with_uid-Fair says before input _ λ given e.
                  commit_room-Fair says before C env _ h
                    (create_room_row-Tells says before C env given (ground (arith, e))))
                (abort-Fair says before (aborted 400)))))
          (abort-Fair says before (aborted 403))

    update-Fair :
        (id : Option ℤ) (body : ℕ ⊎ RoomData)
        → AllFair
            (Announces next_uid (update id body) before)
            before
            {C = C}
            (admin_update_room config v env bad_new_uid bad_uid next_uid c id body)
    unfolding admin_update_room
    update-Fair id (inl code) =
        let says = Announces next_uid (update id (inl code)) before in
        if-Fair says before _ _ _ _
          (with_room-Fair says before id _ λ i room _ _. abort-Fair says before (aborted code))
          (abort-Fair says before (aborted 403))
    update-Fair id (inr input) =
        let says = Announces next_uid (update id (inr input)) before in
        if-Fair says before _ _ _ _
          (with_room-Fair says before id _ λ i room _ _.
            if-Fair says before _ _ _ _ (abort-Fair says before (aborted 400)) (
              gateway-Fair says before Room input.default_gateway_id _ (
                unless_exists-Fair says before _ _ (
                  unless_exists-Fair says before _ _ (
                    commit_room-Fair says before C env _ h
                      (update_room_row-Tells says before C env room input refl))))))
          (abort-Fair says before (aborted 403))

    delete-Fair :
        (id : Option ℤ)
        → AllFair
            (Announces next_uid (delete id) before)
            before
            {C = C}
            (admin_delete_room config v env bad_new_uid bad_uid next_uid c id)
    unfolding admin_delete_room
    delete-Fair none =
        let says = Announces next_uid (delete none) before in
        if-Fair says before _ _ _ _
          (with_room-Fair says before none _ λ i room e _. absurd (ground arith))
          (abort-Fair says before (aborted 403))
    delete-Fair (some id) =
        let says = Announces next_uid (delete (some id)) before in
        if-Fair says before _ _ _ _
          (with_room-Fair says before (some id) _ λ i room e there.
            commit_room-Fair says before C env (remove_room_row env room) h (
              remove_room_row-Tells says before C env room (
                room,
                subst (λ j. first? (λ r. pos r.id == j) before.rooms ≡ some room) (ground arith)
                    there,
                refl,
              )))
          (abort-Fair says before (aborted 403))

  -- When a request to create, update or delete a room is not answered with success, the tables are as
  -- they were, where no answer to a COMMIT is lost; but some of the gateways that host rooms, the
  -- first in the order of the cache, may have been told of the change: to create the room described,
  -- to give it the new name, or to destroy the room of the id. No other gateway was told anything.
  pub serve_room-ToldFirst :
      (r : RoomChange) (c : RequestContext) (w : World C)
      → NoLoss env
      → (serve_room r c w).0 ≡ false
      → ((serve_room r c w).1.db ≡ w.db)
        × ToldFirst (Announces next_uid r w.db) w.cache.gateways w.sent (serve_room r c w).1.sent
  unfolding Fair recovered
  serve_room-ToldFirst (create body) c w h fails =
      let (first, kept) = create-Fair w.db c h body w refl in
      (
        ground (arith, kept),
        subst (ToldFirst (Announces next_uid (create body) w.db) w.cache.gateways w.sent)
            (ground arith) first,
      )
  serve_room-ToldFirst (update id body) c w h fails =
      let (first, kept) = update-Fair w.db c h id body w refl in
      (
        ground (arith, kept),
        subst (ToldFirst (Announces next_uid (update id body) w.db) w.cache.gateways w.sent)
            (ground arith) first,
      )
  serve_room-ToldFirst (delete id) c w h fails =
      let (first, kept) = delete-Fair w.db c h id w refl in
      (
        ground (arith, kept),
        subst (ToldFirst (Announces next_uid (delete id) w.db) w.cache.gateways w.sent)
            (ground arith) first,
      )
