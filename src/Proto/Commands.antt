-- ===== src/Proto/Commands.antt =====
-- The messages about commands, with the oneof of `SendCommandRequest`.
use minerva_server.Std.Num.{ℤ, F64}
use minerva_server.Prelude.{Bool, Option, List, String}

pub record CommandTarget : Type 0 where
  pub x : F64
  pub y : F64
  pub z : Option F64

pub record MoveCommand : Type 0 where
  pub position : Option CommandTarget
  pub group_id : String

pub record SearchAndDestroyCommand : Type 0 where
  pub position : Option CommandTarget
  pub group_id : String

pub record DefendZoneCommand : Type 0 where
  pub group_id : String
  pub zone_id : String
  pub position : Option CommandTarget

pub record PatrolCommand : Type 0 where
  pub group_id : String
  pub waypoints : List CommandTarget
  pub loop : Bool

pub record SupportCommand : Type 0 where
  pub supporter_group_id : String
  pub supported_group_id : String
  pub support_type : String

-- `send_command_request::Command`, which the source calls `Oneof`.
pub data Oneof : Type 0 where
  move : MoveCommand → Oneof
  search_and_destroy : SearchAndDestroyCommand → Oneof
  defend_zone : DefendZoneCommand → Oneof
  patrol : PatrolCommand → Oneof
  support : SupportCommand → Oneof

pub record SendCommandRequest : Type 0 where
  pub command : Option Oneof

pub record SendCommandResponse : Type 0 where
  pub result : ℤ
  pub reason : String
