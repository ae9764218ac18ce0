-- ===== src/Session/Tests.antt =====
-- The manager of sessions on concrete data.
use gxydb_api.Base.{
  ℕ, Bool, ◌≡◌, refl, true, false, String, [], ◌∷◌, none, some, arith, ◌==◌, ==_iff, string_eq,
  nat_eq, any,
}
use gxydb_api.Base.Maps.{Map, get, put, get-put}
use gxydb_api.Errors.{ok}
use gxydb_api.Models.{User}
use gxydb_api.Cache.Rooms
use gxydb_api.Cache.Gateways
use gxydb_api.World.{World, counted, query}
use gxydb_api.Tx.{in_tx}
use gxydb_api.Tx.Atomic.{is_ok}
use gxydb_api.Session.Types.{plugin_event, Value, text}
use gxydb_api.Session.Table.{close_rows, upsert_rows, upsert_session_row}
use gxydb_api.Session.{
  fetch_user, get_internal_user_id, user_id_or_fail, close_session, close_existing, make_session,
  upsert_row, store_session, enter_as, on_protocol_enter, dispatch, handle_protocol, upsert_session,
  update_session, leave, on_videoroom_leaving, is_leaving, event_body, handle_event,
}
use gxydb_api.Session.Enter.{Entered, handle_protocol-Entered}
use gxydb_api.Session.Leave.{Left, handle_event-Left}
use gxydb_api.Session.Update.{Updated, update_session-Updated}
use gxydb_api.Session.Presence
use gxydb_api.Session.Presence.{
  enters, leaves, expires, Step, entering, cleaning, done, first, Tracks, walk, Run-Tracks,
}
use gxydb_api.Session.Stale.{handle_protocol-stale}
use gxydb_api.Session.Cleaner.{clean, is_dead}
use gxydb_api.Session.Table.Laws.{open_of}
use gxydb_api.Session.Cleaned.{close_where, clean-close_where}
use gxydb_api.Examples.{
  session_by, table_arc, quiet, codec1, world1, client, message, room1, gateway1,
}

abbrev Users : Type 0
Users = Map String User

abbrev after_enter : World Users
after_enter = (handle_protocol table_arc quiet codec1 "alice" world1).1

alice-found :
    (get_internal_user_id table_arc quiet codec1 (client "alice" "1051") (counted world1)).0
    ≡ ok (7, none)
unfolding get_internal_user_id fetch_user query
alice-found = refl

enter-ok : (handle_protocol table_arc quiet codec1 "alice" world1) ≡ (ok tt, after_enter)
unfolding handle_protocol in_tx dispatch on_protocol_enter user_id_or_fail get_internal_user_id
    fetch_user query enter_as close_existing close_session store_session make_session upsert_row
    upsert_session_row close_rows upsert_rows Rooms.find_uid Gateways.find_name
enter-ok = refl

handle_protocol-Entered_example :
    Entered table_arc quiet codec1 (client "alice" "1051") 7 world1 after_enter
handle_protocol-Entered_example =
    handle_protocol-Entered table_arc quiet codec1 "alice" (message "alice") 7 world1 after_enter
      refl refl alice-found (omega arith) enter-ok

abbrev leaving : Map String Value
leaving = ("event", text "leaving") ∷ ("display", text "alice") ∷ []

abbrev after_leave : World Users
after_leave =
    (handle_event table_arc quiet codec1 (plugin_event "janus.plugin.videoroom" leaving) world1).1

is_leaving-leaving : is_leaving table_arc quiet codec1 "leaving" ≡ true
unfolding is_leaving
is_leaving-leaving = refl

leave-ok :
    handle_event table_arc quiet codec1 (plugin_event "janus.plugin.videoroom" leaving) world1
    ≡ (ok tt, after_leave)
unfolding handle_event in_tx event_body is_leaving on_videoroom_leaving get_internal_user_id
    fetch_user query leave close_session close_rows
leave-ok = refl

handle_event-Left_example : Left table_arc quiet codec1 7 world1 after_leave
handle_event-Left_example =
    handle_event-Left table_arc quiet codec1 leaving "leaving" "alice" (client "alice" "1051") 7
      none world1 after_leave refl is_leaving-leaving refl refl alice-found (omega arith) leave-ok

abbrev after_update : World Users
after_update = (update_session table_arc quiet codec1 (client "alice" "1051") world1).1

update-ok :
    update_session table_arc quiet codec1 (client "alice" "1051") world1 ≡ (ok tt, after_update)
unfolding update_session in_tx upsert_session user_id_or_fail get_internal_user_id fetch_user query
    store_session make_session upsert_row upsert_session_row upsert_rows Rooms.find_uid
    Gateways.find_name
update-ok = refl

update_session-Updated_example :
    Updated table_arc quiet codec1 (client "alice" "1051") 7 world1 after_update
update_session-Updated_example =
    update_session-Updated table_arc quiet codec1 (client "alice" "1051") 7 world1 after_update
      alice-found update-ok

no_room : Rooms.find_uid "9999" world1.cache.rooms ≡ none
unfolding Rooms.find_uid
no_room = refl

recalls : (id : String) (u : User) (c : Users) → get id (put id u c) ≡ some u
recalls id u c = ground (arith, get-put id id u c, ==_iff id id)

handle_protocol-stale_example :
    let v = (handle_protocol table_arc quiet codec1 "bob" world1).1 in
    (is_ok (handle_protocol table_arc quiet codec1 "bob" world1).0 ≡ false)
    × (v.db ≡ world1.db)
    × ((get_internal_user_id table_arc quiet codec1 (client "bob" "9999") v).0 ≡ ok (12, none))
    × (any (λ u. u.id == 12) v.db.users ≡ false)
handle_protocol-stale_example =
    handle_protocol-stale table_arc quiet codec1 "bob" (message "bob") world1 recalls (λ n. refl)
      (λ n. refl) refl refl (record { not_cached = refl; no_row = refl; fresh = refl }) no_room

-- The session of user 7 was not updated for long.
abbrev world_dead : World Users
world_dead = record world1 {
  db = record (world1.db) {
    sessions = record (session_by 1 7) { updated_at = some 3 } ∷ session_by 2 8 ∷ [];
  };
}

clean-close_where_example :
    ((clean quiet 100 world_dead).0 ≡ ok tt)
    × ((clean quiet 100 world_dead).1.db.sessions
        ≡ close_where quiet "clean_session" 1004 (is_dead 1000 100) world_dead.db.sessions)
clean-close_where_example =
    clean-close_where quiet 100 world_dead (record { fine = λ n. refl; commits = λ n. refl })
      (refl, (refl, tt))

-- Alice enters a room, and leaves; or the cleaner comes before she does.
abbrev nobody_in : World Users
nobody_in = record world1 { db = record (world1.db) { sessions = [] } }

abbrev alice_in : World Users
alice_in = (handle_protocol table_arc quiet codec1 "alice" nobody_in).1

abbrev alice_out : World Users
alice_out =
    (handle_event table_arc quiet codec1 (plugin_event "janus.plugin.videoroom" leaving) alice_in).1

alice-enters : Step table_arc quiet codec1 nobody_in (enters 7 (room1.id, gateway1.id)) alice_in
unfolding handle_protocol in_tx dispatch on_protocol_enter user_id_or_fail get_internal_user_id
    fetch_user query enter_as close_existing close_session store_session make_session upsert_row
    upsert_session_row close_rows upsert_rows Rooms.find_uid Gateways.find_name
alice-enters =
    entering "alice" (message "alice") 7 room1 gateway1 nobody_in alice_in refl refl refl
      (omega arith) refl refl refl

alice-leaves : Step table_arc quiet codec1 alice_in (leaves 7) alice_out
unfolding handle_protocol in_tx dispatch on_protocol_enter user_id_or_fail get_internal_user_id
    fetch_user query enter_as close_existing close_session store_session make_session upsert_row
    upsert_session_row close_rows upsert_rows Rooms.find_uid Gateways.find_name handle_event
    event_body is_leaving on_videoroom_leaving leave
alice-leaves =
    Presence.leaving leaving "leaving" "alice" (client "alice" "1051") 7 none alice_in alice_out
      refl refl refl refl refl (omega arith) refl

abbrev left_out : ℕ → Bool
left_out u = any (is_dead (quiet.now alice_in.calls) 0) (open_of u alice_in.db.sessions)

abbrev alice_cleaned : World Users
alice_cleaned = (clean quiet 0 alice_in).1

alice-expires : Step table_arc quiet codec1 alice_in (expires left_out) alice_cleaned
unfolding handle_protocol in_tx dispatch on_protocol_enter user_id_or_fail get_internal_user_id
    fetch_user query enter_as close_existing close_session store_session make_session upsert_row
    upsert_session_row close_rows upsert_rows Rooms.find_uid Gateways.find_name
alice-expires = cleaning 0 alice_in (record { fine = λ n. refl; commits = λ n. refl }) (refl, tt)

cleaner-Run-Tracks :
    Tracks alice_cleaned.db.sessions
      (walk (enters 7 (room1.id, gateway1.id) ∷ expires left_out ∷ []) (λ u. none))
cleaner-Run-Tracks =
    Run-Tracks table_arc quiet codec1 (λ n. refl) (λ u. none)
      (first alice-enters (first alice-expires done)) (λ u. refl)

Run-Tracks_example :
    Tracks alice_out.db.sessions
      (walk (enters 7 (room1.id, gateway1.id) ∷ leaves 7 ∷ []) (λ u. none))
Run-Tracks_example =
    Run-Tracks table_arc quiet codec1 (λ n. refl) (λ u. none)
      (first alice-enters (first alice-leaves done)) (λ u. refl)
