-- ===== src/V1/Composites.antt =====
-- What an update of a composite stores.
use gxydb_api.Base.{
  ℕ, ◌+◌, ◌≡◌, refl, sym, subst, ap, ◌∙◌, true, not, String, List, [], ◌∷◌, ◌++◌, map, inl, inr,
  Option, none, some, arith, ◌==◌, nat_eq, string_eq, select, Either-cases, List-cases,
  Option-cases,
}
use gxydb_api.Errors.{Error, ok}
use gxydb_api.Models.{Composite, CompositesRoom, Db}
use gxydb_api.Cache.Gateways
use gxydb_api.Cache.Rooms
use gxydb_api.World.{Env, World, query, counted}
use gxydb_api.Tx.{in_tx}
use gxydb_api.Tx.Atomic.{in_tx-eq-ok}
use gxydb_api.Auth.{Config, Verifiers, RequestContext}
use gxydb_api.V1.{recovered}
use gxydb_api.V1.Rooms.{V1RoomInfo}
use gxydb_api.V1.Answers.{outcome_of}
use gxydb_api.V1.Changes.{insert_place, places_from, add_places, store_places, v1_update_composite}

-- `places` are the rows for the items of a request, from a position on: each has the room and the
-- gateway that the caches know under the item's names.
pub data PlacesFor (gateways : Gateways.GatewayCache) (rooms : Rooms.RoomCache) (id : ℕ)
    : ℕ → List (Option V1RoomInfo) → List CompositesRoom → Type 0 where
  no_items : (position : ℕ) → PlacesFor gateways rooms id position [] []
  an_item :
      (position : ℕ) (info : V1RoomInfo) (items : List (Option V1RoomInfo)) (p : CompositesRoom)
      (places : List CompositesRoom) (gateway : _) (room : _)
      → Gateways.find_name info.janus gateways ≡ some gateway
      → Rooms.find_uid info.room rooms ≡ some room
      → p ≡ record {
        composite_id = id;
        room_id = room.id;
        gateway_id = gateway.id;
        position = position;
      }
      → PlacesFor gateways rooms id (position + 1) items places
      → PlacesFor gateways rooms id position (some info ∷ items) (p ∷ places)

abbrev add_rows : List CompositesRoom → Db → Db
add_rows places db = record db { composites_rooms = db.composites_rooms ++ places }

insert_place-ok :
    (p : CompositesRoom) (db db' : Db) (x : Unit {0})
    → insert_place p db ≡ inr (x, db')
    → db' ≡ add_rows (p ∷ []) db
unfolding insert_place
insert_place-ok p db db' x e = ground arith

append_assoc : {A : Type 0} (xs ys zs : List A) → (xs ++ ys) ++ zs ≡ xs ++ (ys ++ zs)
append_assoc [] ys zs = refl
append_assoc (x ∷ xs) ys zs = ap (λ t. x ∷ t) (append_assoc xs ys zs)

append_nil : {A : Type 0} (xs : List A) → xs ++ [] ≡ xs
append_nil [] = refl
append_nil (x ∷ xs) = ap (λ t. x ∷ t) (append_nil xs)

module _ {Token C : Type 0} (config : Config) (v : Verifiers Token) (env : Env) where
  add_step :
      (p : CompositesRoom) (ops : List (Option CompositesRoom)) (w u : World C) (a : Unit {0})
      → add_places config v env (some p ∷ ops) w ≡ (ok a, u)
      → (w' : World C) × (add_places config v env ops w' ≡ (ok a, u))
        × (w'.db ≡ add_rows (p ∷ []) w.db)
  unfolding add_places query
  add_step p ops w u a e = elim (Option-cases (env.fault w.calls)) [
    | inr (x, broken) ↦ absurd (ground (arith, broken))
    | inl fine ↦ elim (Either-cases (insert_place p w.db)) [
      | inl (x, bad) ↦ absurd (ground (arith, fine, bad))
      | inr ((x, db'), good) ↦ (
        record w { db = db'; calls = w.calls + 1 },
        ground (arith, fine, good),
        insert_place-ok p w.db db' x good,
      )
    ]
  ]

  add_places-eq-ok :
      (ops : List (Option CompositesRoom)) (w u : World C) (a : Unit {0})
      → add_places config v env ops w ≡ (ok a, u)
      → (places : List CompositesRoom) × (ops ≡ map some places) × (u.db ≡ add_rows places w.db)
  unfolding add_places
  add_places-eq-ok [] w u a e = (
    [],
    refl,
    sym (ap (λ r. r.1.db) e)
        ∙ ap (λ rows. record (w.db) { composites_rooms = rows })
            (sym (append_nil w.db.composites_rooms)),
  )
  add_places-eq-ok (none ∷ ops) w u a e = absurd (ground arith)
  add_places-eq-ok (some p ∷ ops) w u a e =
      let (w', rest, one) = add_step p ops w u a e in
      let (places, all, more) = add_places-eq-ok ops w' u a rest in
      (
        p ∷ places,
        ap (λ t. some p ∷ t) all,
        more
            ∙ ap (add_rows places) one
            ∙ ap (λ rows. record (w.db) { composites_rooms = rows })
                (append_assoc w.db.composites_rooms (p ∷ []) places),
      )

nil_row :
    (places : List CompositesRoom) (ops : List (Option CompositesRoom))
    → none ∷ ops ≡ map some places
    → ⊥
nil_row [] ops e = absurd (ground arith)
nil_row (p ∷ places) ops e = absurd (ground arith)

first_row :
    (places : List CompositesRoom) (ops : List (Option CompositesRoom)) (q : CompositesRoom)
    → some q ∷ ops ≡ map some places
    → (p : CompositesRoom) × (rest : List CompositesRoom) × (places ≡ p ∷ rest)
      × (q ≡ p)
      × (ops ≡ map some rest)
first_row [] ops q e = absurd (ground arith)
first_row (p ∷ places) ops q e = (p, places, refl, ground arith, ground arith)

places_from-PlacesFor :
    (gateways : Gateways.GatewayCache) (rooms : Rooms.RoomCache) (id position : ℕ)
    (items : List (Option V1RoomInfo)) (places : List CompositesRoom)
    → places_from gateways rooms id position items ≡ inr (map some places)
    → PlacesFor gateways rooms id position items places
unfolding places_from
places_from-PlacesFor gateways rooms id position [] [] e = no_items position
places_from-PlacesFor gateways rooms id position [] (p ∷ places) e = absurd (ground arith)
places_from-PlacesFor gateways rooms id position (none ∷ items) places e =
    elim (Either-cases (places_from gateways rooms id (position + 1) items)) [
      | inl (x, bad) ↦ absurd (ground (arith, bad))
      | inr (ops, good) ↦ absurd (nil_row places ops (ground (arith, good)))
    ]
places_from-PlacesFor gateways rooms id position (some info ∷ items) places e =
    elim (Option-cases (Gateways.find_name info.janus gateways)) [
      | inl unknown ↦ absurd (ground (arith, unknown))
      | inr (gateway, known) ↦ elim (Option-cases (Rooms.find_uid info.room rooms)) [
        | inl unknown ↦ absurd (ground (arith, known, unknown))
        | inr (room, there) ↦
            elim (Either-cases (places_from gateways rooms id (position + 1) items)) [
              | inl (x, bad) ↦ absurd (ground (arith, known, there, bad))
              | inr (ops, good) ↦
                  let (p, rest, here, first, others) =
                    first_row places ops _ (ground (arith, known, there, good)) in
                  subst (PlacesFor gateways rooms id position (some info ∷ items)) (sym here) (
                    an_item position info items p rest gateway room known there (sym first) (
                      places_from-PlacesFor gateways rooms id (position + 1) items rest
                        (good ∙ ap inr others)))
            ]
      ]
    ]

-- The tables with the places of a composite replaced.
abbrev pub replaced_places : ℕ → List CompositesRoom → Db → Db
replaced_places id places db = record db {
  composites_rooms = select (λ p. not (p.composite_id == id)) db.composites_rooms ++ places;
}

module _ {Token C : Type 0} (config : Config) (v : Verifiers Token) (env : Env) where
  delete_step :
      (id : ℕ) (items : List (Option V1RoomInfo)) (ops : List (Option CompositesRoom))
      (w u : World C) (a : Unit {0})
      → places_from w.cache.gateways w.cache.rooms id 1 items ≡ inr ops
      → store_places config v env id items w ≡ (ok a, u)
      → (w' : World C) × (add_places config v env ops w' ≡ (ok a, u))
        × (w'.db ≡ record (w.db) {
          composites_rooms = select (λ p. not (p.composite_id == id)) w.db.composites_rooms;
        })
  unfolding store_places query
  delete_step id items ops w u a good e = elim (Option-cases (env.fault w.calls)) [
    | inr (x, broken) ↦ absurd (ground (arith, good, broken))
    | inl fine ↦ (
      record w {
        db = record (w.db) {
          composites_rooms = select (λ p. not (p.composite_id == id)) w.db.composites_rooms;
        };
        calls = w.calls + 1;
      },
      ground (arith, good, fine),
      refl,
    )
  ]

  store_places-refused :
      (id : ℕ) (items : List (Option V1RoomInfo)) (w u : World C) (a : Unit {0}) (x : Error)
      → places_from w.cache.gateways w.cache.rooms id 1 items ≡ inl x
      → store_places config v env id items w ≡ (ok a, u)
      → ⊥
  unfolding store_places
  store_places-refused id items w u a x bad e = absurd (ground (arith, bad))

  store_places-eq-ok :
      (id : ℕ) (items : List (Option V1RoomInfo)) (w u : World C) (a : Unit {0})
      → store_places config v env id items w ≡ (ok a, u)
      → (places : List CompositesRoom) × PlacesFor w.cache.gateways w.cache.rooms id 1 items places
        × (u.db ≡ replaced_places id places w.db)
  store_places-eq-ok id items w u a e =
      elim (Either-cases (places_from w.cache.gateways w.cache.rooms id 1 items)) [
        | inl (x, bad) ↦ absurd (store_places-refused id items w u a x bad e)
        | inr (ops, good) ↦
            let (w', rest, deleted) = delete_step id items ops w u a good e in
            let (places, all, more) = add_places-eq-ok config v env ops w' u a rest in
            (
              places,
              places_from-PlacesFor w.cache.gateways w.cache.rooms id 1 items places
                  (good ∙ ap inr all),
              more ∙ ap (add_rows places) deleted,
            )
      ]

  handler_step :
      (c : RequestContext) (name : String) (items : List (Option V1RoomInfo)) (w : World C)
      → (outcome_of (v1_update_composite config v env c name (inr items)) w).0 ≡ true
      → (composite : Composite) × (others : List Composite) × (select
            (λ k. k.name == name)
            w.db.composites
          ≡ composite ∷ others)
        × ((in_tx env (store_places config v env composite.id items) (counted w)).0 ≡ ok tt)
        × ((outcome_of (v1_update_composite config v env c name (inr items)) w).1.db
            ≡ (in_tx env (store_places config v env composite.id items) (counted w)).1.db)
  unfolding v1_update_composite recovered query
  handler_step c name items w done = elim (Option-cases (env.fault w.calls)) [
    | inr (x, broken) ↦ absurd (ground (arith, broken))
    | inl fine ↦ elim (List-cases (select (λ k. k.name == name) w.db.composites)) [
      | inl empty ↦ absurd (ground (arith, fine, empty))
      | inr (composite, others, there) ↦
          (composite, others, there, ground (arith, fine, there), ground (arith, fine, there))
    ]
  ]

  -- When a request to set the rooms of a composite is answered with the status 200, there is a
  -- composite of the name, its rows are those for the items of the request, in their order from the
  -- position 1 on, and nothing else in the tables has changed; no item was nil, and the caches knew
  -- the room and the gateway of each.
  pub v1_update_composite-PlacesFor :
      (c : RequestContext) (name : String) (items : List (Option V1RoomInfo)) (w : World C)
      → (outcome_of (v1_update_composite config v env c name (inr items)) w).0 ≡ true
      → let u = (outcome_of (v1_update_composite config v env c name (inr items)) w).1 in
        (composite : Composite) × (others : List Composite) × (places : List CompositesRoom)
        × (select (λ k. k.name == name) w.db.composites ≡ composite ∷ others)
        × PlacesFor w.cache.gateways w.cache.rooms composite.id 1 items places
        × (u.db ≡ replaced_places composite.id places w.db)
  v1_update_composite-PlacesFor c name items w done =
      let (composite, others, there, stored, same) = handler_step c name items w done in
      let body = store_places config v env composite.id items in
      let (_, ran, after, _) =
        in_tx-eq-ok env body (counted w) tt (in_tx env body (counted w)).1
          (ap (λ o. (o, (in_tx env body (counted w)).1)) stored) in
      let (places, for_items, rows) =
        store_places-eq-ok composite.id items (counted (counted w)) (body (counted (counted w))).1
          tt (ap (λ o. (o, (body (counted (counted w))).1)) ran) in
      (composite, others, places, there, for_items, same ∙ ap (λ u. u.db) after ∙ rows)
