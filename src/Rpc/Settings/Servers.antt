-- ===== src/Rpc/Settings/Servers.antt =====
-- The five generated servers after any sequence of the builder's calls.
use minerva_server.Rpc.Tonic
use minerva_server.Rpc.Settings.{Setting, Fields, build, configured, grpc_of, asked}
use minerva_server.Rpc.Server.CommandServer
use minerva_server.Rpc.Server.CommandServer.{CommandServiceServer}
use minerva_server.Rpc.Server.UnitServer
use minerva_server.Rpc.Server.UnitServer.{UnitServiceServer}
use minerva_server.Rpc.Server.GroupServer
use minerva_server.Rpc.Server.GroupServer.{GroupServiceServer}
use minerva_server.Rpc.Server.LocationServer
use minerva_server.Rpc.Server.LocationServer.{LocationServiceServer}
use minerva_server.Rpc.Server.SimulationServer
use minerva_server.Rpc.Server.SimulationServer.{SimulationServiceServer}
use minerva_server.Rpc.Settings.Builders.{
  set_command, command_builder, set_unit, unit_builder, set_group, group_builder, set_location,
  location_builder, set_simulation, simulation_builder,
}
use minerva_server.Prelude.{◌≡◌, ap, List}

module _ {Stream : Type 0 → Type 0} {Http Reply : Type 0}
    (tonic : Tonic.Server Stream Http Reply) where
  -- Each of the five servers, made of a service and given any settings in any order, and then
  -- cloned, still has that service, and answers with the encodings that were enabled in their order
  -- and the last limit of each kind, or none.
  pub clone-build :
      {A B C D E : Type 0} (commands : A) (units : B) (groups : C) (locations : D) (simulation : E)
      (xs : List (Setting tonic.Encoding))
      → (((CommandServer.clone tonic
              (build (set_command tonic) (CommandServer.new tonic commands) xs)).inner
            ≡ commands)
          × (CommandServer.grpc tonic (
                CommandServer.clone tonic
                  (build (set_command tonic) (CommandServer.new tonic commands) xs))
              ≡ asked tonic xs))
        × (((UnitServer.clone tonic (build (set_unit tonic) (UnitServer.new tonic units) xs)).inner
              ≡ units)
            × (UnitServer.grpc tonic
                  (UnitServer.clone tonic (build (set_unit tonic) (UnitServer.new tonic units) xs))
                ≡ asked tonic xs))
        × (((GroupServer.clone tonic
                (build (set_group tonic) (GroupServer.new tonic groups) xs)).inner
              ≡ groups)
            × (GroupServer.grpc tonic (
                  GroupServer.clone tonic
                    (build (set_group tonic) (GroupServer.new tonic groups) xs))
                ≡ asked tonic xs))
        × (((LocationServer.clone tonic
                (build (set_location tonic) (LocationServer.new tonic locations) xs)).inner
              ≡ locations)
            × (LocationServer.grpc tonic (
                  LocationServer.clone tonic
                    (build (set_location tonic) (LocationServer.new tonic locations) xs))
                ≡ asked tonic xs))
        × (((SimulationServer.clone tonic
                (build (set_simulation tonic) (SimulationServer.new tonic simulation) xs)).inner
              ≡ simulation)
            × (SimulationServer.grpc tonic (
                  SimulationServer.clone tonic
                    (build (set_simulation tonic) (SimulationServer.new tonic simulation) xs))
                ≡ asked tonic xs))
  unfolding CommandServer.clone CommandServer.grpc CommandServer.new CommandServer.from_arc
      CommandServer.accept_compressed CommandServer.send_compressed
      CommandServer.max_decoding_message_size CommandServer.max_encoding_message_size
      command_builder UnitServer.clone UnitServer.grpc UnitServer.new UnitServer.from_arc
      UnitServer.accept_compressed UnitServer.send_compressed UnitServer.max_decoding_message_size
      UnitServer.max_encoding_message_size unit_builder GroupServer.clone GroupServer.grpc
      GroupServer.new GroupServer.from_arc GroupServer.accept_compressed GroupServer.send_compressed
      GroupServer.max_decoding_message_size GroupServer.max_encoding_message_size group_builder
      LocationServer.clone LocationServer.grpc LocationServer.new LocationServer.from_arc
      LocationServer.accept_compressed LocationServer.send_compressed
      LocationServer.max_decoding_message_size LocationServer.max_encoding_message_size
      location_builder SimulationServer.clone SimulationServer.grpc SimulationServer.new
      SimulationServer.from_arc SimulationServer.accept_compressed SimulationServer.send_compressed
      SimulationServer.max_decoding_message_size SimulationServer.max_encoding_message_size
      simulation_builder
  clone-build commands units groups locations simulation xs = (
    (
      ap (λ (s : Fields tonic _). s.inner) (configured tonic (command_builder tonic) commands xs),
      ap (grpc_of tonic) (configured tonic (command_builder tonic) commands xs),
    ),
    (
      ap (λ (s : Fields tonic _). s.inner) (configured tonic (unit_builder tonic) units xs),
      ap (grpc_of tonic) (configured tonic (unit_builder tonic) units xs),
    ),
    (
      ap (λ (s : Fields tonic _). s.inner) (configured tonic (group_builder tonic) groups xs),
      ap (grpc_of tonic) (configured tonic (group_builder tonic) groups xs),
    ),
    (
      ap (λ (s : Fields tonic _). s.inner) (configured tonic (location_builder tonic) locations xs),
      ap (grpc_of tonic) (configured tonic (location_builder tonic) locations xs),
    ),
    (
      ap (λ (s : Fields tonic _). s.inner)
          (configured tonic (simulation_builder tonic) simulation xs),
      ap (grpc_of tonic) (configured tonic (simulation_builder tonic) simulation xs),
    ),
  )
