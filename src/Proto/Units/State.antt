-- ===== src/Proto/Units/State.antt =====
-- What the state of a unit is made of. Each `==` is the derived one, field by field.
use minerva_server.Std.Num.{
  F32, F64, int_partial_eq, bool_partial_eq, f32_partial_eq, f64_partial_eq,
}
use minerva_server.Std.PartialEq.{
  PartialEq, ◌==◌, symm, trans, and_trans, string_partial_eq, option_partial_eq, list_partial_eq,
}
use minerva_server.Prelude.{◌≡◌, Bool, true, ◌&&◌, Option, List, String, arith}

pub record Position : Type 0 where
  pub x : F64
  pub y : F64
  pub z : F64

unfoldable pub position_eq : Position → Position → Bool
position_eq a b = a.x == b.x && a.y == b.y && a.z == b.z

pub position_symm : (a b : Position) → position_eq a b ≡ true → position_eq b a ≡ true
unfolding position_eq
position_symm a b h = ground (arith, symm a.x b.x, symm a.y b.y, symm a.z b.z)

pub position_trans :
    (a b c : Position) → position_eq a b ≡ true → position_eq b c ≡ true → position_eq a c ≡ true
unfolding position_eq
position_trans a b c h k = ground (arith, trans a.x b.x c.x, trans a.y b.y c.y, trans a.z b.z c.z)

instance abbrev pub position_partial_eq : PartialEq Position
position_partial_eq = record {
  eq = position_eq;
  eq_symm = position_symm;
  eq_trans = position_trans;
}

pub record Orientation : Type 0 where
  pub direction : F32
  pub pitch : F32
  pub roll : F32

unfoldable pub orientation_eq : Orientation → Orientation → Bool
orientation_eq a b = a.direction == b.direction && a.pitch == b.pitch && a.roll == b.roll

pub orientation_symm : (a b : Orientation) → orientation_eq a b ≡ true → orientation_eq b a ≡ true
unfolding orientation_eq
orientation_symm a b h =
    ground (arith, symm a.direction b.direction, symm a.pitch b.pitch, symm a.roll b.roll)

pub orientation_trans :
    (a b c : Orientation)
    → orientation_eq a b ≡ true
    → orientation_eq b c ≡ true
    → orientation_eq a c ≡ true
unfolding orientation_eq
orientation_trans a b c h k = ground (
  arith,
  trans a.direction b.direction c.direction,
  trans a.pitch b.pitch c.pitch,
  trans a.roll b.roll c.roll,
)

instance abbrev pub orientation_partial_eq : PartialEq Orientation
orientation_partial_eq = record {
  eq = orientation_eq;
  eq_symm = orientation_symm;
  eq_trans = orientation_trans;
}

pub record Velocity : Type 0 where
  pub x : F32
  pub y : F32
  pub z : F32

unfoldable pub velocity_eq : Velocity → Velocity → Bool
velocity_eq a b = a.x == b.x && a.y == b.y && a.z == b.z

pub velocity_symm : (a b : Velocity) → velocity_eq a b ≡ true → velocity_eq b a ≡ true
unfolding velocity_eq
velocity_symm a b h = ground (arith, symm a.x b.x, symm a.y b.y, symm a.z b.z)

pub velocity_trans :
    (a b c : Velocity) → velocity_eq a b ≡ true → velocity_eq b c ≡ true → velocity_eq a c ≡ true
unfolding velocity_eq
velocity_trans a b c h k = ground (arith, trans a.x b.x c.x, trans a.y b.y c.y, trans a.z b.z c.z)

instance abbrev pub velocity_partial_eq : PartialEq Velocity
velocity_partial_eq = record {
  eq = velocity_eq;
  eq_symm = velocity_symm;
  eq_trans = velocity_trans;
}

-- A message with no fields.
pub data Weapon : Type 0 where
  weapon : Weapon

abbrev pub weapon_eq : Weapon → Weapon → Bool
weapon_eq a b = true

instance abbrev pub weapon_partial_eq : PartialEq Weapon
weapon_partial_eq = record { eq = weapon_eq; eq_symm = λ a b h. h; eq_trans = λ a b c h k. k }

pub record LoadoutState : Type 0 where
  pub weapon : List Weapon

unfoldable pub loadout_state_eq : LoadoutState → LoadoutState → Bool
loadout_state_eq a b = a.weapon == b.weapon

pub loadout_state_symm :
    (a b : LoadoutState) → loadout_state_eq a b ≡ true → loadout_state_eq b a ≡ true
unfolding loadout_state_eq
loadout_state_symm a b h = ground (arith, symm a.weapon b.weapon)

pub loadout_state_trans :
    (a b c : LoadoutState)
    → loadout_state_eq a b ≡ true
    → loadout_state_eq b c ≡ true
    → loadout_state_eq a c ≡ true
unfolding loadout_state_eq
loadout_state_trans a b c h k = ground (arith, trans a.weapon b.weapon c.weapon)

instance abbrev pub loadout_state_partial_eq : PartialEq LoadoutState
loadout_state_partial_eq = record {
  eq = loadout_state_eq;
  eq_symm = loadout_state_symm;
  eq_trans = loadout_state_trans;
}

pub record HealthState : Type 0 where
  pub health : F32
  pub damage_effects : List String

unfoldable pub health_state_eq : HealthState → HealthState → Bool
health_state_eq a b = a.health == b.health && a.damage_effects == b.damage_effects

pub health_state_symm :
    (a b : HealthState) → health_state_eq a b ≡ true → health_state_eq b a ≡ true
unfolding health_state_eq
health_state_symm a b h =
    ground (arith, symm a.health b.health, symm a.damage_effects b.damage_effects)

pub health_state_trans :
    (a b c : HealthState)
    → health_state_eq a b ≡ true
    → health_state_eq b c ≡ true
    → health_state_eq a c ≡ true
unfolding health_state_eq
health_state_trans a b c h k = ground (
  arith,
  trans a.health b.health c.health,
  trans a.damage_effects b.damage_effects c.damage_effects,
)

instance abbrev pub health_state_partial_eq : PartialEq HealthState
health_state_partial_eq = record {
  eq = health_state_eq;
  eq_symm = health_state_symm;
  eq_trans = health_state_trans;
}

pub record UnitState : Type 0 where
  pub position : Option Position
  pub orientation : Option Orientation
  pub velocity : Option Velocity
  pub health : Option HealthState
  pub loadout : Option LoadoutState

unfoldable pub unit_state_eq : UnitState → UnitState → Bool
unit_state_eq a b =
    a.position == b.position
    && a.orientation == b.orientation
    && a.velocity == b.velocity
    && a.health == b.health
    && a.loadout == b.loadout

pub unit_state_symm : (a b : UnitState) → unit_state_eq a b ≡ true → unit_state_eq b a ≡ true
unfolding unit_state_eq
unit_state_symm a b h = ground (
  arith,
  symm a.position b.position,
  symm a.orientation b.orientation,
  symm a.velocity b.velocity,
  symm a.health b.health,
  symm a.loadout b.loadout,
)

pub unit_state_trans :
    (a b c : UnitState)
    → unit_state_eq a b ≡ true
    → unit_state_eq b c ≡ true
    → unit_state_eq a c ≡ true
unfolding unit_state_eq
unit_state_trans a b c =
    and_trans
      (and_trans
        (and_trans
          (and_trans (trans a.position b.position c.position)
            (trans a.orientation b.orientation c.orientation))
          (trans a.velocity b.velocity c.velocity))
        (trans a.health b.health c.health))
      (trans a.loadout b.loadout c.loadout)

instance abbrev pub unit_state_partial_eq : PartialEq UnitState
unit_state_partial_eq = record {
  eq = unit_state_eq;
  eq_symm = unit_state_symm;
  eq_trans = unit_state_trans;
}
