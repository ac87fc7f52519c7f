-- ===== src/Proto/Units.antt =====
-- The messages about units. Each `==` is the derived one, field by field.
pub mod State
use minerva_server.Std.Num.{
  ℤ, F32, F64, int_partial_eq, bool_partial_eq, f32_partial_eq, f64_partial_eq,
}
use minerva_server.Std.PartialEq.{
  PartialEq, ◌==◌, symm, trans, and_trans, string_partial_eq, option_partial_eq, list_partial_eq,
}
pub use minerva_server.Proto.Units.State.{
  Position, Orientation, Velocity, Weapon, LoadoutState, HealthState, UnitState,
  position_partial_eq, unit_state_partial_eq,
}
use minerva_server.Prelude.{◌≡◌, Bool, true, ◌&&◌, Option, List, String, arith}

-- `proto::Unit`.
pub record ProtoUnit : Type 0 where
  pub id : String
  pub group_id : String
  pub category : ℤ
  pub type : String
  pub state : Option UnitState

unfoldable pub proto_unit_eq : ProtoUnit → ProtoUnit → Bool
proto_unit_eq a b =
    a.id == b.id
    && a.group_id == b.group_id
    && a.category == b.category
    && a.type == b.type
    && a.state == b.state

pub proto_unit_symm : (a b : ProtoUnit) → proto_unit_eq a b ≡ true → proto_unit_eq b a ≡ true
unfolding proto_unit_eq
proto_unit_symm a b h = ground (
  arith,
  symm a.id b.id,
  symm a.group_id b.group_id,
  symm a.category b.category,
  symm a.type b.type,
  symm a.state b.state,
)

pub proto_unit_trans :
    (a b c : ProtoUnit)
    → proto_unit_eq a b ≡ true
    → proto_unit_eq b c ≡ true
    → proto_unit_eq a c ≡ true
unfolding proto_unit_eq
proto_unit_trans a b c =
    and_trans
      (and_trans
        (and_trans (and_trans (trans a.id b.id c.id) (trans a.group_id b.group_id c.group_id))
          (trans a.category b.category c.category))
        (trans a.type b.type c.type))
      (trans a.state b.state c.state)

instance abbrev pub proto_unit_partial_eq : PartialEq ProtoUnit
proto_unit_partial_eq = record {
  eq = proto_unit_eq;
  eq_symm = proto_unit_symm;
  eq_trans = proto_unit_trans;
}

pub record GetUnitRequest : Type 0 where
  pub id : String

pub record GetUnitResponse : Type 0 where
  pub unit : Option ProtoUnit

pub record ListUnitsRequest : Type 0 where
  pub side : Option ℤ
  pub group_id : Option String

pub record ListUnitsResponse : Type 0 where
  pub units : List ProtoUnit
