-- ===== src/Admin/Telling.antt =====
-- Rules for actions that tell gateways of a room: which were told, however the action ended.
use gxydb_api.Base.{
  ◌≡◌, refl, sym, subst, Bool, true, false, not, ◌&&◌, List, ◌++◌, ◌⊎◌, inl, inr, arith, ◌==◌,
  string_eq, nat_eq, if◌then◌else◌, select, Option-cases,
}
use gxydb_api.Base.Int.{int_eq}
use gxydb_api.Errors.{Error, Outcome, ok, err, panic}
use gxydb_api.Models.{Gateway, Room, Db}
use gxydb_api.Cache.Gateways
use gxydb_api.Cache.Gateways.{GatewayCache}
use gxydb_api.World.{
  Env, World, Action, Try, RoomRequest, create_room, edit_room, destroy_room, Message, ◌>>=◌, query,
  clock, counted, pure,
}
use gxydb_api.Tx.{in_tx}
use gxydb_api.Tx.Atomic.{NoLoss, in_tx-rollback}
use gxydb_api.Statistics.{or_stack}
use gxydb_api.Session.Table.{is_null}
use gxydb_api.V1.{Answer, recovered}
use gxydb_api.V1.Answers.{is_answered}
use gxydb_api.Admin.Rooms.{
  RoomData, hosts_rooms, update_room, remove_room, tell_all, reload_rooms, commit_room, or_http,
  store_new_room, changed_room, create_room_row, update_room_row, remove_room_row,
}
use gxydb_api.Admin.Told.{told, tell_gateways-Progress}

module _ (C : Type 0) (env : Env) where
  in_tx-sent :
      {A : Type 0} (body : Action C A) (w : World C)
      → ((in_tx env body w).1.sent ≡ w.sent)
        ⊎ ((in_tx env body w).1.sent ≡ (body (counted w)).1.sent)
  unfolding in_tx
  in_tx-sent body w = ground arith

  pub reload_rooms-still :
      (w : World C)
      → ((reload_rooms env w).0 ≡ ok tt)
        × ((reload_rooms env w).1.sent ≡ w.sent)
        × ((reload_rooms env w).1.db ≡ w.db)
  unfolding reload_rooms query
  reload_rooms-still w = (ground arith, ground arith, ground arith)

-- `Says` holds of what gateways may be told.
module _ (Says : RoomRequest → Type 0) where
  -- Of the gateways that host rooms some first ones were told one thing, and no other was told
  -- anything.
  abbrev pub ToldFirst : GatewayCache → List Message → List Message → Type 0
  ToldFirst gateways earlier after =
      (after ≡ earlier)
      ⊎ (request : RoomRequest) × (reached : List Gateway) × (missed : List Gateway) × Says request
        × (select hosts_rooms (Gateways.all gateways) ≡ reached ++ missed)
        × (after ≡ told request reached earlier)

  none-ToldFirst : (gateways : GatewayCache) (sent : List Message) → ToldFirst gateways sent sent
  none-ToldFirst gateways sent = inl refl

-- `before` are the tables before the request.
module _ (Says : RoomRequest → Type 0) (before : Db) where
  module _ {C : Type 0} where
    pub Tells : {A : Type 0} → World C → Outcome A × World C → Type 0
    Tells w (r, u) = ToldFirst Says w.cache.gateways w.sent u.sent

    unfoldable pub Fair : {A : Type 0} → World C → Outcome (Answer A) × World C → Type 0
    Fair w (r, u) =
        ToldFirst Says w.cache.gateways w.sent u.sent
        × (is_answered (recovered (λ v. (r, u)) w).0 ≡ false → u.db ≡ w.db)

    pub still-Fair : {A : Type 0} (w : World C) (r : Outcome (Answer A)) → Fair w (r, w)
    unfolding Fair
    still-Fair w r = (none-ToldFirst Says w.cache.gateways w.sent, λ e. refl)

    -- From every state with the tables `before`.
    abbrev pub AllFair : {A : Type 0} → Action C (Answer A) → Type 0
    AllFair m = (w : World C) → w.db ≡ before → Fair w (m w)

    -- Nothing but the tables and the number of calls changes.
    pub Calm : {A : Type 0} → World C → Outcome A × World C → Type 0
    Calm w (r, u) = (u.cache ≡ w.cache) × (u.sent ≡ w.sent)

    Tells-same :
        {A : Type 0} (v w : World C) (e : Outcome A × World C)
        → v.cache ≡ w.cache
        → v.sent ≡ w.sent
        → Tells v e
        → Tells w e
    unfolding Tells
    Tells-same v w e c d h =
        subst (λ sent. ToldFirst Says w.cache.gateways sent e.1.sent) d
          (subst (λ cache. ToldFirst Says cache.gateways v.sent e.1.sent) c h)

    abbrev pub AllCalm : {A : Type 0} → Action C A → Type 0
    AllCalm m = (w : World C) → Calm w (m w)

    abbrev pub AllTell : {A : Type 0} → Action C A → Type 0
    AllTell m = (w : World C) → Tells w (m w)

    AllTell-bind :
        {A B : Type 0} (m : Action C A) (f : A → Action C B)
        → AllCalm m
        → ((a : A) → AllTell (f a))
        → AllTell (m >>= f)
    unfolding Tells Calm
    AllTell-bind {A = A} m f calm h w = split (m w).0 refl
      where
        split :
            (r : Outcome A)
            → (m w).0 ≡ r
            → ToldFirst Says w.cache.gateways w.sent ((m >>= f) w).1.sent
        split (ok a) e =
            rw (e, ◌>>=◌) (Tells-same (m w).1 w (f a (m w).1) (calm w).0 (calm w).1 (h a (m w).1))
        split (err x) e =
            rw (e, ◌>>=◌)
              (subst (ToldFirst Says w.cache.gateways w.sent) (sym (calm w).1)
                (none-ToldFirst Says w.cache.gateways w.sent))
        split (panic x) e =
            rw (e, ◌>>=◌)
              (subst (ToldFirst Says w.cache.gateways w.sent) (sym (calm w).1)
                (none-ToldFirst Says w.cache.gateways w.sent))

    AllTell-pure : {A B : Type 0} (m : Action C A) (b : B) → AllTell m → AllTell (m >>= λ _. pure b)
    unfolding Tells
    AllTell-pure m b h w = subst (ToldFirst Says w.cache.gateways w.sent) (ground arith) (h w)

  module _ (C : Type 0) (env : Env) where
    in_tx-Tells :
        {A : Type 0} (body : Action C A) (w : World C)
        → Tells (counted w) (body (counted w))
        → Tells w (in_tx env body w)
    unfolding Tells
    in_tx-Tells body w h = elim (in_tx-sent C env body w) [
      | inl same ↦
          subst (ToldFirst Says w.cache.gateways w.sent) (sym same)
            (none-ToldFirst Says w.cache.gateways w.sent)
      | inr run ↦ subst (ToldFirst Says w.cache.gateways w.sent) (sym run) h
    ]

    pub commit_room-Fair :
        {A : Type 0} (body : Action C A)
        → NoLoss env
        → AllTell body
        → AllFair (commit_room env body)
    unfolding commit_room Fair recovered Tells
    commit_room-Fair body h tell w at =
        let tells = tell (counted w) in
        let (reloads, unsent, kept) = reload_rooms-still C env (in_tx env body w).1 in
        (
          subst (ToldFirst Says w.cache.gateways w.sent) (ground (arith, reloads, unsent))
              (in_tx-Tells body w tells),
          λ e. ground (arith, reloads, kept, in_tx-rollback env body w h),
        )

    counted-Fair :
        {A : Type 0} (w : World C) (e : Outcome (Answer A) × World C)
        → Fair (counted w) e
        → Fair w e
    unfolding Fair recovered
    counted-Fair w e h = h

    -- A query that reads, and what goes on from its result.
    abbrev pub Reads : {X : Type 0} → (Db → Try (X × Db)) → Type 0
    Reads {X} q = (db : Db) → ((e : Error) × (q db ≡ inl e)) ⊎ ((x : X) × (q db ≡ inr (x, db)))

    -- What a query may yield where the tables are `before`.
    abbrev pub Yields : {X : Type 0} → (Db → Try (X × Db)) → Try X → Type 0
    Yields q (inl e) = Unit {0}
    Yields q (inr x) = q before ≡ inr (x, before)

    reading-cases :
        {A X : Type 0} (q : Db → Try (X × Db)) (k : Try X → Action C (Answer A)) (w : World C)
        → w.db ≡ before
        → Reads q
        → (r : Try X) × Yields q r × (k r (counted w) ≡ (query env q >>= k) w)
    unfolding query
    reading-cases q k w at reads = elim (Option-cases (env.fault w.calls)) [
      | inr (x, broken) ↦ (inl x, tt, ground (arith, broken))
      | inl fine ↦ elim (reads w.db) [
        | inl (x, bad) ↦ (inl x, tt, ground (arith, fine, bad))
        | inr (x, good) ↦
            (inr x, subst (λ db. q db ≡ inr (x, db)) at good, ground (arith, fine, good))
      ]
    ]

    pub reading-Fair :
        {A X : Type 0} (q : Db → Try (X × Db)) (k : Try X → Action C (Answer A))
        → Reads q
        → ((r : Try X) → Yields q r → AllFair (k r))
        → AllFair (query env q >>= k)
    reading-Fair q k reads h w at =
        let (r, yields, e) = reading-cases q k w at reads in
        subst (Fair w) e (counted-Fair w (k r (counted w)) (h r yields (counted w) at))

    clock-Calm : AllCalm {C = C} (clock env)
    unfolding Calm
    clock-Calm w = (refl, refl)

    or_http-Calm : (q : Db → Try (Unit {0} × Db)) → AllCalm {C = C} (or_http env (query env q))
    unfolding query Calm
    or_http-Calm q w = (ground arith, ground arith)

    or_stack-Calm : {X : Type 0} (q : Db → Try (X × Db)) → AllCalm {C = C} (or_stack (query env q))
    unfolding query Calm
    or_stack-Calm q w = (ground arith, ground arith)

    store_new_room-Calm : (input : RoomData) → AllCalm {C = C} (store_new_room env input)
    unfolding query Calm store_new_room
    store_new_room-Calm input w = (ground arith, ground arith)

    tell_all-Tells : (request : RoomRequest) → Says request → AllTell {C = C} (tell_all env request)
    unfolding tell_all Tells
    tell_all-Tells request says w =
        let p = tell_gateways-Progress env request (Gateways.all w.cache.gateways) w in
        inr (request, p.reached, p.missed, says, p.in_order, p.told_reached)

    if-Tells :
        (b : Bool) (request : RoomRequest)
        → Says request
        → AllTell {C = C} (if b then tell_all env request else pure tt)
    unfolding Tells
    if-Tells true request says w = tell_all-Tells request says w
    if-Tells false request says w = none-ToldFirst Says w.cache.gateways w.sent

    pub remove_room_row-Tells :
        (room : Room)
        → Says (destroy_room room.gateway_uid)
        → AllTell {C = C} (remove_room_row env room)
    unfolding remove_room_row
    remove_room_row-Tells room says = AllTell-bind _ _ clock-Calm λ now.
        AllTell-bind _ _ (or_http-Calm (remove_room room.id now))
          λ _. tell_all-Tells (destroy_room room.gateway_uid) says

    pub create_room_row-Tells :
        (input : RoomData)
        → Says (create_room input.gateway_uid input.name)
        → AllTell {C = C} (create_room_row env input)
    unfolding create_room_row
    create_room_row-Tells input says =
        AllTell-bind _ _ (store_new_room-Calm input) λ room.
          AllTell-pure _ room (tell_all-Tells (create_room input.gateway_uid input.name) says)

    pub update_room_row-Tells :
        (room : Room) (input : RoomData)
        → Says (edit_room input.gateway_uid input.name)
        → AllTell {C = C} (update_room_row env room input)
    unfolding update_room_row
    update_room_row-Tells room input says = AllTell-bind _ _ clock-Calm λ now.
        AllTell-bind _ _ (or_stack-Calm (update_room (changed_room room input now))) λ _.
          AllTell-pure _ (changed_room room input now) (
            if-Tells (not (room.name == input.name) && is_null room.removed_at)
              (edit_room input.gateway_uid input.name) says)
