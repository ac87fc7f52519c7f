-- ===== src/Proto/Groups.antt =====
-- The messages about groups.
use minerva_server.Std.Num.{ℤ, F32, int_partial_eq, bool_partial_eq, f32_partial_eq}
use minerva_server.Std.PartialEq.{
  PartialEq, ◌==◌, symm, trans, and_trans, string_partial_eq, option_partial_eq, list_partial_eq,
}
use minerva_server.Prelude.{◌≡◌, Bool, true, ◌&&◌, Option, List, String, arith}
use minerva_server.Proto.Units.{Position, ProtoUnit, position_partial_eq, proto_unit_partial_eq}

pub record Waypoint : Type 0 where
  pub type : ℤ
  pub position : Option Position

unfoldable pub waypoint_eq : Waypoint → Waypoint → Bool
waypoint_eq a b = a.type == b.type && a.position == b.position

pub waypoint_symm : (a b : Waypoint) → waypoint_eq a b ≡ true → waypoint_eq b a ≡ true
unfolding waypoint_eq
waypoint_symm a b h = ground (arith, symm a.type b.type, symm a.position b.position)

pub waypoint_trans :
    (a b c : Waypoint) → waypoint_eq a b ≡ true → waypoint_eq b c ≡ true → waypoint_eq a c ≡ true
unfolding waypoint_eq
waypoint_trans a b c h k =
    ground (arith, trans a.type b.type c.type, trans a.position b.position c.position)

instance abbrev pub waypoint_partial_eq : PartialEq Waypoint
waypoint_partial_eq = record {
  eq = waypoint_eq;
  eq_symm = waypoint_symm;
  eq_trans = waypoint_trans;
}

pub record GroupReadiness : Type 0 where
  pub fuel_state : F32
  pub ammo_state : F32
  pub health_state : F32

unfoldable pub group_readiness_eq : GroupReadiness → GroupReadiness → Bool
group_readiness_eq a b =
    a.fuel_state == b.fuel_state && a.ammo_state == b.ammo_state && a.health_state == b.health_state

pub group_readiness_symm :
    (a b : GroupReadiness) → group_readiness_eq a b ≡ true → group_readiness_eq b a ≡ true
unfolding group_readiness_eq
group_readiness_symm a b h = ground (
  arith,
  symm a.fuel_state b.fuel_state,
  symm a.ammo_state b.ammo_state,
  symm a.health_state b.health_state,
)

pub group_readiness_trans :
    (a b c : GroupReadiness)
    → group_readiness_eq a b ≡ true
    → group_readiness_eq b c ≡ true
    → group_readiness_eq a c ≡ true
unfolding group_readiness_eq
group_readiness_trans a b c h k = ground (
  arith,
  trans a.fuel_state b.fuel_state c.fuel_state,
  trans a.ammo_state b.ammo_state c.ammo_state,
  trans a.health_state b.health_state c.health_state,
)

instance abbrev pub group_readiness_partial_eq : PartialEq GroupReadiness
group_readiness_partial_eq = record {
  eq = group_readiness_eq;
  eq_symm = group_readiness_symm;
  eq_trans = group_readiness_trans;
}

pub record Group : Type 0 where
  pub id : String
  pub side : ℤ
  pub readiness : Option GroupReadiness
  pub has_task : Bool
  pub waypoints : List Waypoint
  pub units : List ProtoUnit

unfoldable pub group_eq : Group → Group → Bool
group_eq a b =
    a.id == b.id
    && a.side == b.side
    && a.readiness == b.readiness
    && a.has_task == b.has_task
    && a.waypoints == b.waypoints
    && a.units == b.units

pub group_symm : (a b : Group) → group_eq a b ≡ true → group_eq b a ≡ true
unfolding group_eq
group_symm a b h = ground (
  arith,
  symm a.id b.id,
  symm a.side b.side,
  symm a.readiness b.readiness,
  symm a.has_task b.has_task,
  symm a.waypoints b.waypoints,
  symm a.units b.units,
)

pub group_trans : (a b c : Group) → group_eq a b ≡ true → group_eq b c ≡ true → group_eq a c ≡ true
unfolding group_eq
group_trans a b c =
    and_trans
      (and_trans
        (and_trans
          (and_trans (and_trans (trans a.id b.id c.id) (trans a.side b.side c.side))
            (trans a.readiness b.readiness c.readiness))
          (trans a.has_task b.has_task c.has_task))
        (trans a.waypoints b.waypoints c.waypoints))
      (trans a.units b.units c.units)

instance abbrev pub group_partial_eq : PartialEq Group
group_partial_eq = record { eq = group_eq; eq_symm = group_symm; eq_trans = group_trans }

pub record ListGroupsRequest : Type 0 where
  pub side : Option ℤ

pub record ListGroupsResponse : Type 0 where
  pub groups : List Group

pub record GetGroupRequest : Type 0 where
  pub id : String

pub record GetGroupResponse : Type 0 where
  pub group : Option Group

pub record SubscribeGroupUpdatesRequest : Type 0 where
  pub side : Option ℤ

-- `subscribe_group_updates_response::Event`.
pub data Event : Type 0 where
  upserted : Group → Event
  removed_id : String → Event

pub record SubscribeGroupUpdatesResponse : Type 0 where
  pub event : Option Event
