-- ===== src/Admin/Told.antt =====
-- What the gateways were told of a room, and when that agrees with the tables.
use gxydb_api.Base.{
  ◌+◌, ◌≡◌, refl, ap, Bool, true, false, List, [], ◌∷◌, ◌++◌, ◌⊎◌, inl, inr, arith, select,
  Bool-cases, Option-cases,
}
use gxydb_api.Errors.{ok}
use gxydb_api.Models.{Gateway}
use gxydb_api.World.{Env, World, RoomRequest, Message}
use gxydb_api.Tx.Atomic.{is_ok}
use gxydb_api.Admin.Rooms.{hosts_rooms, tell_gateway, tell_gateways}

-- The messages to gateways, the last first, in front of earlier ones.
abbrev pub told : RoomRequest → List Gateway → List Message → List Message
told request [] sent = sent
told request (g ∷ gs) sent =
    told request gs (record { gateway_id = g.id; request = request } ∷ sent)

-- The gateways that were told are the first of those that host rooms, and all if the loop ended well.
pub record Progress (request : RoomRequest) (gateways : List Gateway) (before after : List Message)
    (done : Bool) : Type 0 where
  pub reached : List Gateway
  pub missed : List Gateway
  pub in_order : select hosts_rooms gateways ≡ reached ++ missed
  pub told_reached : after ≡ told request reached before
  pub none_missed : done ≡ true → missed ≡ []

module _ {C : Type 0} (env : Env) where
  tell_gateway-sent :
      (request : RoomRequest) (g : Gateway) (w : World C)
      → ((tell_gateway env request g w).0 ≡ ok tt)
          × ((tell_gateway env request g w).1.sent
              ≡ record { gateway_id = g.id; request = request } ∷ w.sent)
        ⊎ (is_ok (tell_gateway env request g w).0 ≡ false)
          × ((tell_gateway env request g w).1.sent ≡ w.sent)
  unfolding tell_gateway
  tell_gateway-sent request g w = elim (Option-cases (env.fault w.calls)) [
    | inr (x, broken) ↦ inr (ground (arith, broken), ground (arith, broken))
    | inl fine ↦ elim (Option-cases (env.fault (w.calls + 1))) [
      | inr (x, broken) ↦ inr (ground (arith, fine, broken), ground (arith, fine, broken))
      | inl fine' ↦ inl (ground (arith, fine, fine'), ground (arith, fine, fine'))
    ]
  ]

  pub tell_gateways-Progress :
      (request : RoomRequest) (gateways : List Gateway) (w : World C)
      → Progress request gateways w.sent
          (tell_gateways env request gateways w).1.sent
          (is_ok (tell_gateways env request gateways w).0)
  unfolding tell_gateways
  tell_gateways-Progress request [] w = record {
    reached = [];
    missed = [];
    in_order = refl;
    told_reached = refl;
    none_missed = λ e. refl;
  }
  tell_gateways-Progress request (g ∷ gs) w = elim (Bool-cases (hosts_rooms g)) [
    | inr other ↦
        let p = tell_gateways-Progress request gs w in
        record {
          reached = p.reached;
          missed = p.missed;
          in_order = ground (arith, other, p.in_order);
          told_reached = ground (arith, other, p.told_reached);
          none_missed = λ e. p.none_missed (ground (arith, other));
        }
    | inl hosts ↦ elim (tell_gateway-sent request g w) [
      | inl (done, sent) ↦
          let p = tell_gateways-Progress request gs (tell_gateway env request g w).1 in
          record {
            reached = g ∷ p.reached;
            missed = p.missed;
            in_order = ground (arith, hosts, p.in_order);
            told_reached =
                ground (arith, hosts, p.told_reached, done, ap (told request p.reached) sent);
            none_missed = λ e. p.none_missed (ground (arith, hosts, done));
          }
      | inr (failed, sent) ↦ record {
        reached = [];
        missed = select hosts_rooms (g ∷ gs);
        in_order = refl;
        told_reached = ground (arith, hosts, failed, sent);
        none_missed = λ e. absurd (ground (arith, hosts, failed));
      }
    ]
  ]
