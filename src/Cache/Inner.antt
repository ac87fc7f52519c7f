-- ===== src/Cache/Inner.antt =====
-- `Inner` of state.rs: the tables behind the lock, the join of a group with its members, and the
-- index `members`.
use minerva_server.Std.HashMap
use minerva_server.Std.HashMap.{HashMap}
use minerva_server.Std.BTreeSet
use minerva_server.Std.BTreeSet.{BTreeSet}
use minerva_server.Ids.{UnitId, GroupId, unit_id_key, group_id_key}
use minerva_server.Proto.Units.{ProtoUnit}
use minerva_server.Proto.Groups.{Group}
use minerva_server.Proto.Simulation.{Location, SimulationInfo, SimulationStateUpdate}
use minerva_server.Prelude.{
  ℕ, ◌+◌, ◌%◌, ◌^◌, Option, none, some, List, [], filter_map, if◌then◌else◌,
}

pub record Inner : Type 0 where
  pub units : HashMap UnitId ProtoUnit
  pub groups : HashMap GroupId Group
  pub members : HashMap GroupId (BTreeSet UnitId)
  pub simulation_info : Option SimulationInfo
  pub simulation_state : Option SimulationStateUpdate
  pub locations : List Location
  -- A `u64`.
  pub sequence : ℕ

-- `Inner::default()`.
abbrev pub default : Inner
default = record {
  units = [];
  groups = [];
  members = [];
  simulation_info = none;
  simulation_state = none;
  locations = [];
  sequence = 0;
}

-- A release build wraps here.
unfoldable pub next_sequence : Inner → Inner × ℕ
next_sequence inner =
    let next = (inner.sequence + 1) % 2 ^ 64 in (record inner { sequence = next }, next)

-- `members.get(id).into_iter().flatten()`.
unfoldable pub member_ids : Inner → GroupId → BTreeSet UnitId
member_ids inner id = elim (HashMap.get inner.members id) [ none ↦ [] | some set ↦ set ]

unfoldable pub member_units : Inner → GroupId → List ProtoUnit
member_units inner id = filter_map (HashMap.get inner.units) (member_ids inner id)

unfoldable pub joined_group : Inner → GroupId → Option Group
joined_group inner id = elim (HashMap.get inner.groups id) [
  | none ↦ none
  | some group ↦ some (record group { units = member_units inner id })
]

unfoldable pub unlink_member : Inner → GroupId → UnitId → Inner
unlink_member inner group unit = elim (HashMap.get inner.members group) [
  | none ↦ inner
  | some set ↦
      let rest = BTreeSet.remove set unit in
      record inner {
        members =
            if BTreeSet.is_empty rest
            then HashMap.remove inner.members group
            else HashMap.insert inner.members group rest;
      }
]

-- `members.entry(group).or_default().insert(unit)`.
unfoldable pub link_member : Inner → GroupId → UnitId → Inner
link_member inner group unit = record inner {
  members = HashMap.insert inner.members group (BTreeSet.insert (member_ids inner group) unit);
}
