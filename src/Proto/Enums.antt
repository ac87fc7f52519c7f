-- ===== src/Proto/Enums.antt =====
-- The five enums by name.
use minerva_server.Proto.Side
use minerva_server.Proto.Side.{Side}
use minerva_server.Proto.UnitCategory
use minerva_server.Proto.UnitCategory.{UnitCategory}
use minerva_server.Proto.WaypointType
use minerva_server.Proto.WaypointType.{WaypointType}
use minerva_server.Proto.Capability
use minerva_server.Proto.Capability.{Capability}
use minerva_server.Proto.CommandResult
use minerva_server.Proto.CommandResult.{CommandResult}
use minerva_server.Prelude.{◌≡◌, ◌↔◌, some, String}

-- A text names a variant of an enum exactly when it is that variant's proto name, for each of the
-- five enums.
pub name_iff :
    (name : String)
    → ((v : Side) → (Side.from_str_name name ≡ some v) ↔ (name ≡ Side.as_str_name v))
      × ((v : UnitCategory)
          → (UnitCategory.from_str_name name ≡ some v) ↔ (name ≡ UnitCategory.as_str_name v))
      × ((v : WaypointType)
          → (WaypointType.from_str_name name ≡ some v) ↔ (name ≡ WaypointType.as_str_name v))
      × ((v : Capability)
          → (Capability.from_str_name name ≡ some v) ↔ (name ≡ Capability.as_str_name v))
      × ((v : CommandResult)
          → (CommandResult.from_str_name name ≡ some v) ↔ (name ≡ CommandResult.as_str_name v))
name_iff name = (
  Side.from_str_name_iff name,
  UnitCategory.from_str_name_iff name,
  WaypointType.from_str_name_iff name,
  Capability.from_str_name_iff name,
  CommandResult.from_str_name_iff name,
)
