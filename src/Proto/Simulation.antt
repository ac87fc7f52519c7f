-- ===== src/Proto/Simulation.antt =====
-- The messages about the simulation and its locations.
use minerva_server.Std.Num.{ℤ, F32, F64}
use minerva_server.Std.HashMap.{HashMap}
use minerva_server.Prelude.{Option, List, String}
use minerva_server.Proto.Units.{Position}

pub record Faction : Type 0 where
  pub name : String
  pub side : ℤ

pub record Location : Type 0 where
  pub id : String
  pub name : String
  pub capabilities : List ℤ
  pub position : Option Position
  pub resources : HashMap String F64
  pub owner : ℤ

pub record ListLocationsRequest : Type 0 where
  pub side : Option ℤ

pub record ListLocationsResponse : Type 0 where
  pub locations : List Location

pub record Weather : Type 0 where
  pub overcast : F32
  pub wind_speed : F32
  pub wind_direction : F32

pub record WorldSize : Type 0 where
  pub x_meters : F64
  pub y_meters : F64

pub record SimulationInfo : Type 0 where
  pub world_name : String
  pub world_size : Option WorldSize
  pub factions : List Faction
  pub simulation_start_sim_time : ℤ
  pub simulation_start_real_time : ℤ

pub record SimulationStateUpdate : Type 0 where
  pub simulation_time : ℤ
  pub time_acceleration : F32
  pub weather : Option Weather

pub record GetSimulationInfoResponse : Type 0 where
  pub info : Option SimulationInfo

pub record SubscribeSimulationUpdatesResponse : Type 0 where
  pub state : Option SimulationStateUpdate

pub record GetSimulationInfoRequest : Type 0 where

pub record SubscribeSimulationUpdatesRequest : Type 0 where
