-- ===== src/Listing/Tests.antt =====
-- Lists of rooms on concrete data.
use gxydb_api.Base.{
  ℕ, ◌+◌, ◌*◌, ◌^◌, ◌≡◌, refl, true, false, String, List, [], ◌∷◌, inl, inr, none, some, arith,
  subst, ◌==◌, string_eq, nat_eq, if◌then◌else◌, ltb, length, take, drop, reverse, All,
}
use gxydb_api.Base.Int.{pos, ◌*ℤ◌, ◌-ℤ◌}
use gxydb_api.Base.Maps.{Map}
use gxydb_api.Errors.{ok}
use gxydb_api.Models.{User, Room, Db}
use gxydb_api.World.{World, query}
use gxydb_api.Listing.{
  Values, Atoi, ListParams, positive_param, parse_list_params, min, limit_of, offset_of,
  append_list_mods, Ordered, run_mods, listed, list_rows, wrap64,
}
use gxydb_api.Listing.Bounds.{InRange, Paged, parse_list_params-Paged}
use gxydb_api.Listing.Pages.{Sorts, first_pages, list_rows-page, list_rows-tile}
use gxydb_api.Listing.Requests.{RoomsRequest, Matching, parse_rooms_request, passes, list_rooms}
use gxydb_api.Listing.Wanted.{Reorders, Wanted, list_rooms-Wanted}
use gxydb_api.Examples.{quiet, world1, room1, open_config, no_tokens, anonymous}

abbrev Users : Type 0
Users = Map String User

abbrev atoi : Atoi
atoi s = if s == "2" then inr (pos 2) else inl "invalid syntax"

abbrev values : Values
values = ("page_no", "2" ∷ []) ∷ ("page_size", "2" ∷ []) ∷ ("disabled", "false" ∷ []) ∷ []

abbrev params : ListParams
params = record { page_number = pos 2; page_size = pos 2; order_by = ""; group_by = "" }

atoi-InRange : InRange atoi
atoi-InRange s z e = (ground arith, ground arith)

parsed : parse_list_params atoi values ≡ inr params
unfolding parse_list_params positive_param
parsed = refl

parse_list_params-Paged_example : (k : ℕ) × (n : ℕ) × Paged params k n
parse_list_params-Paged_example = parse_list_params-Paged atoi values params atoi-InRange parsed

abbrev room_with : ℕ → Room
room_with id = record room1 { id = id }

abbrev world2 : World Users
world2 = record world1 {
  db = record (world1.db) { rooms = room_with 1 ∷ room_with 2 ∷ room_with 3 ∷ [] };
}

-- Every clause yields the rows in the opposite order.
abbrev backwards : Ordered Room
backwards mods clause rows = some (reverse rows)

abbrev all_rooms : Db → List Room
all_rooms db = db.rooms

abbrev sorted_rooms : List Room
sorted_rooms = room_with 3 ∷ room_with 2 ∷ room_with 1 ∷ []

sorts : Sorts backwards quiet all_rooms world2 params sorted_rooms
sorts = (λ n. refl, refl, refl)

two_rows : limit_of params ≡ pos 2
unfolding limit_of min
two_rows = refl

from_third : offset_of params ≡ wrap64 (pos 2)
unfolding offset_of limit_of min wrap64 ◌*ℤ◌ ◌-ℤ◌
from_third = refl

list_rows-page_example :
    let (answer, v) = list_rows backwards quiet all_rooms params world2 in
    (answer
      ≡ ok (
          listed
            (if ltb (1 * 2) (length sorted_rooms) then length sorted_rooms else 0)
            (take 2 (drop (1 * 2) sorted_rooms))))
    × (v.db ≡ world2.db)
    × (v.cache ≡ world2.cache)
list_rows-page_example =
    list_rows-page backwards quiet all_rooms params 1 2 sorted_rooms world2
      (refl, two_rows, omega arith, omega arith, from_third) (omega arith) sorts

list_rows-tile_example : first_pages backwards quiet all_rooms params 2 world2 ≡ sorted_rooms
list_rows-tile_example =
    list_rows-tile backwards quiet all_rooms params 2 2 sorted_rooms world2 two_rows (omega arith)
      (omega arith) (omega arith) (omega arith) (λ j. (λ n. refl, refl, refl))

abbrev far_params : ListParams
far_params = record params { page_number = pos (2 ^ 62 + 1) }

far_rows : limit_of far_params ≡ pos 2
unfolding limit_of min
far_rows = refl

abbrev matching : Matching
matching = record { name_matches = λ name term. true; is_number = λ uid n. false }

abbrev same_order : Ordered Room
same_order mods clause rows = some rows

abbrev enabled_rooms : RoomsRequest
enabled_rooms = record { gateways = []; disabled = some false; removed = none; term = "" }

request-parsed : parse_rooms_request atoi values ≡ inr enabled_rooms
unfolding parse_rooms_request
request-parsed = refl

same_order-Reorders : Reorders same_order
same_order-Reorders mods clause rows sorted P e h = subst (All P) (ground (arith, e)) h

abbrev answered : World Users
answered =
    (list_rooms open_config no_tokens quiet atoi same_order matching atoi anonymous values world2).1

third_listed :
    list_rooms open_config no_tokens quiet atoi same_order matching atoi anonymous values world2
    ≡ (ok (listed 3 (room_with 3 ∷ [])), answered)
unfolding list_rooms parse_list_params positive_param parse_rooms_request passes list_rows run_mods
    append_list_mods limit_of offset_of min wrap64 query ◌*ℤ◌ ◌-ℤ◌
third_listed = refl

list_rooms-Wanted_example : All (Wanted matching atoi enabled_rooms) (room_with 3 ∷ [])
list_rooms-Wanted_example =
    list_rooms-Wanted open_config no_tokens quiet atoi same_order matching atoi anonymous values
      enabled_rooms 3 (room_with 3 ∷ []) world2 answered same_order-Reorders request-parsed
      third_listed
