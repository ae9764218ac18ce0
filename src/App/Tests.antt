-- ===== src/App/Tests.antt =====
-- The whole server on concrete requests.
use text.Mathlib.Text.{starts_with}
use gxydb_api.Base.{
  ℕ, ◌≡◌, refl, ap, true, false, ◌&&◌, String, List, [], ◌∷◌, ◌++◌, Option, none, some, inl, inr,
  ◌⊎◌, arith, ◌==◌, string_eq, if◌then◌else◌, Bool-cases,
}
use gxydb_api.Base.Int.{pos}
use gxydb_api.Base.Maps.{Map}
use gxydb_api.Errors.{foreign}
use gxydb_api.Models.{User}
use gxydb_api.Auth.{
  Config, Verifiers, to_router, authenticate, minimal_permission, request_has_role,
}
use gxydb_api.V1.{aborted, recovered}
use gxydb_api.V1.Answers.{is_answered}
use gxydb_api.Admin.RoomHandlers.{admin_create_room}
use gxydb_api.App
use gxydb_api.App.{
  Route, takes, routes, route, Request, Server, Decoders, Numbers, handle, dispatch, serve,
}
use gxydb_api.App.Matched.{RouterWorks, fixed_part}
use gxydb_api.App.Permitted.{Permitted, serve-Permitted}
use gxydb_api.App.Rollback.{is_service, request-rollback}
use gxydb_api.Examples.{table_arc, quiet, codec1, world1, client}

-- A router for templates without variables.
find_exact : List Route → String → String → ℕ ⊎ Route × Map String String
find_exact [] method path = inl 404
find_exact (q ∷ qs) method path =
    if takes q method && q.template == path && starts_with path (fixed_part q.template)
    then inr (q, [])
    else find_exact qs method path

record Found (qs : List Route) (method path : String) (found : Route) : Type 0 where
  front : List Route
  back : List Route
  listed : qs ≡ front ++ found ∷ back
  same_method : takes found method ≡ true
  under : starts_with path (fixed_part found.template) ≡ true

find_exact-Found :
    (qs : List Route) (method path : String) (found : Route) (vars : Map String String)
    → find_exact qs method path ≡ inr (found, vars)
    → Found qs method path found
unfolding find_exact
find_exact-Found [] method path found vars e = absurd (ground arith)
find_exact-Found (q ∷ qs) method path found vars e =
    elim (Bool-cases
      (takes q method && q.template == path && starts_with path (fixed_part q.template))) [
        | inl fits ↦
            let same : q ≡ found = ground arith in
            record {
              front = [];
              back = qs;
              listed = ap (λ z. z ∷ qs) same;
              same_method = rw (← same) (ground arith);
              under = rw (← same) (ground arith);
            }
        | inr other ↦
            let f = find_exact-Found qs method path found vars (ground arith) in
            record {
              front = q ∷ f.front;
              back = f.back;
              listed = ap (λ zs. q ∷ zs) f.listed;
              same_method = f.same_method;
              under = f.under;
            }
      ]

abbrev strict_config : Config
strict_config = record {
  skip_auth = false;
  skip_events_auth = false;
  skip_permissions = false;
  service_passwords = "hash" ∷ [];
}

abbrev by_password : Verifiers String
by_password = record {
  compare_hash = λ hash password. hash == "hash" && password == "secret";
  verify = λ t. none;
  claims = λ t. none;
  gw_pwd = λ n. none;
}

abbrev decoders : Decoders
decoders = record {
  group = λ t. inl 400;
  extra = λ t. inl 400;
  user = λ t. inr (some (client "alice" "1051"));
  items = λ t. inr [];
  event = λ t. none;
  payload = some;
  service_message = λ t. inl "no message";
  room = λ t. inl 400;
  config = λ t. inl 400;
}

abbrev server1 : Server String (Map String User)
server1 = record {
  arc = table_arc;
  env = quiet;
  codec = codec1;
  config = strict_config;
  verifiers = by_password;
  find_route = find_exact;
  decode = decoders;
  numbers = record {
    atoi = λ t. inl "no number";
    parse_uint = λ t. inl "no number";
    id = λ t. some (pos 3);
    group = λ t. none;
    unsigned = λ t. none;
  };
  read_extra = λ t. t;
  ice_servers = [];
  ordered_gateways = λ mods clause rows. some rows;
  ordered_rooms = λ mods clause rows. some rows;
  ordered_configs = λ mods clause rows. some rows;
  matching = record { name_matches = λ a b. false; is_number = λ a n. false };
  bad_new_uid = λ t. false;
  bad_uid = λ t. false;
  next_uid = λ rooms. "1";
  api_for = λ g. inr tt;
  handle_info = λ g a b. inl (foreign "no handle");
  timed_out = false;
}

works1 : RouterWorks server1
works1 method path found vars e =
    let f = find_exact-Found routes method path found vars e in
    record {
      front = f.front;
      back = f.back;
      listed = f.listed;
      same_method = f.same_method;
      under = f.under;
    }

abbrev request_by : Option (String × String) → String → String → Request
request_by basic_auth method path = record {
  http = record { path = path; basic_auth = basic_auth; authorization = "" };
  method = method;
  values = [];
  body = "alice";
}

abbrev service_user : Option (String × String)
service_user = some ("service", "secret")

abbrev reset_statistics : Request
reset_statistics = request_by service_user "DELETE" "/admin/rooms_statistics"

abbrev statistics_route : Route
statistics_route = route "DELETE" "/admin/rooms_statistics" App.admin_delete_statistics

statistics-found : find_exact routes "DELETE" "/admin/rooms_statistics" ≡ inr (statistics_route, [])
unfolding find_exact
statistics-found = refl

serve-Permitted_example :
    ((code : ℕ) × (serve server1 reset_statistics world1 ≡ (aborted code, world1)))
    ⊎ Permitted server1 world1 reset_statistics ("gxy_shidur" ∷ "gxy_root" ∷ [])
serve-Permitted_example =
    serve-Permitted server1 works1 refl refl (λ t c e. absurd (cc e)) reset_statistics world1
      statistics_route [] ("gxy_shidur" ∷ "gxy_root" ∷ []) statistics-found refl

-- A create of a room whose body cannot be decoded.
abbrev bad_room : Request
bad_room = request_by service_user "POST" "/admin/rooms"

bad_room-fails : is_answered (serve server1 bad_room world1).0 ≡ false
unfolding serve recovered dispatch to_router authenticate minimal_permission request_has_role
    find_exact handle admin_create_room
bad_room-fails = refl

bad_room-route :
    (found : Route) (vars : Map String String)
    → find_exact routes "POST" "/admin/rooms" ≡ inr (found, vars)
    → is_service found.endpoint ≡ false
unfolding find_exact
bad_room-route found vars e = ground arith

request-rollback_example : (serve server1 bad_room world1).1.db ≡ world1.db
request-rollback_example =
    request-rollback server1 (λ n. refl) bad_room world1 bad_room-route bad_room-fails
