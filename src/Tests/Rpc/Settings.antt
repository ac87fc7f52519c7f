-- ===== src/Tests/Rpc/Settings.antt =====
-- Clients and servers that are configured.
use minerva_server.Rpc.Client.CommandClient
use minerva_server.Rpc.Client.CommandClient.{CommandServiceClient}
use minerva_server.Rpc.Server.CommandServer
use minerva_server.Rpc.Server.CommandServer.{CommandService, CommandServiceServer}
use minerva_server.Rpc.Client.UnitClient
use minerva_server.Rpc.Client.UnitClient.{UnitServiceClient}
use minerva_server.Rpc.Server.UnitServer
use minerva_server.Rpc.Server.UnitServer.{UnitService, UnitServiceServer}
use minerva_server.Rpc.Client.GroupClient
use minerva_server.Rpc.Client.GroupClient.{GroupServiceClient}
use minerva_server.Rpc.Server.GroupServer
use minerva_server.Rpc.Server.GroupServer.{GroupService, GroupServiceServer}
use minerva_server.Rpc.Client.LocationClient
use minerva_server.Rpc.Client.LocationClient.{LocationServiceClient}
use minerva_server.Rpc.Server.LocationServer
use minerva_server.Rpc.Server.LocationServer.{LocationService, LocationServiceServer}
use minerva_server.Rpc.Client.SimulationClient
use minerva_server.Rpc.Client.SimulationClient.{SimulationServiceClient}
use minerva_server.Rpc.Server.SimulationServer
use minerva_server.Rpc.Server.SimulationServer.{SimulationService, SimulationServiceServer}
use minerva_server.Rpc.Settings.{build, asked}
use minerva_server.Rpc.Settings.Builders
use minerva_server.Rpc.Settings.Servers.{clone-build}
use minerva_server.Rpc.Settings.Setters
use minerva_server.Rpc.Settings.Clients.{connect-build}
use minerva_server.Rpc.Settings.Setters.{set_grpc}
use minerva_server.Tests.Rpc.{
  framed, counting, settings, commands, units, groups, locations, simulation,
}
use minerva_server.Prelude.{◌≡◌, Result, ok, err, ◌>>=◌, String, string_eq, if◌then◌else◌}

-- A destination that has to be named, and a channel to it.
abbrev to_endpoint : String → Result String String
to_endpoint dst = if string_eq dst "" then err "empty" else ok dst

abbrev to_channel : String → Result String String
to_channel endpoint = ok endpoint

clone-build_example :
    (((CommandServer.clone counting (
          build
            (Builders.set_command counting)
            (CommandServer.new counting commands)
            settings)).inner
        ≡ commands)
      × (CommandServer.grpc counting (
            CommandServer.clone counting (
              build (Builders.set_command counting) (CommandServer.new counting commands) settings))
          ≡ asked counting settings))
    × (((UnitServer.clone counting
            (build (Builders.set_unit counting) (UnitServer.new counting units) settings)).inner
          ≡ units)
        × (UnitServer.grpc counting (
              UnitServer.clone counting
                (build (Builders.set_unit counting) (UnitServer.new counting units) settings))
            ≡ asked counting settings))
    × (((GroupServer.clone counting
            (build (Builders.set_group counting) (GroupServer.new counting groups) settings)).inner
          ≡ groups)
        × (GroupServer.grpc counting (
              GroupServer.clone counting
                (build (Builders.set_group counting) (GroupServer.new counting groups) settings))
            ≡ asked counting settings))
    × (((LocationServer.clone counting (
            build
              (Builders.set_location counting)
              (LocationServer.new counting locations)
              settings)).inner
          ≡ locations)
        × (LocationServer.grpc counting (
              LocationServer.clone counting (
                build
                  (Builders.set_location counting)
                  (LocationServer.new counting locations)
                  settings))
            ≡ asked counting settings))
    × (((SimulationServer.clone counting (
            build
              (Builders.set_simulation counting)
              (SimulationServer.new counting simulation)
              settings)).inner
          ≡ simulation)
        × (SimulationServer.grpc counting (
              SimulationServer.clone counting (
                build
                  (Builders.set_simulation counting)
                  (SimulationServer.new counting simulation)
                  settings))
            ≡ asked counting settings))
clone-build_example = clone-build counting commands units groups locations simulation settings

connect-build_example :
    (let connected = to_endpoint "minerva" >>= λ endpoint.
    to_channel endpoint >>= λ conn. ok (build (set_grpc framed) (framed.new conn) settings) in
      ((CommandClient.connect framed to_endpoint to_channel "minerva" >>= λ client.
      ok (build (Setters.set_command framed) client settings).inner)
        ≡ connected)
      × ((UnitClient.connect framed to_endpoint to_channel "minerva" >>= λ client.
            ok (build (Setters.set_unit framed) client settings).inner)
          ≡ connected)
      × ((GroupClient.connect framed to_endpoint to_channel "minerva" >>= λ client.
            ok (build (Setters.set_group framed) client settings).inner)
          ≡ connected)
      × ((LocationClient.connect framed to_endpoint to_channel "minerva" >>= λ client.
            ok (build (Setters.set_location framed) client settings).inner)
          ≡ connected)
      × ((SimulationClient.connect framed to_endpoint to_channel "minerva" >>= λ client.
            ok (build (Setters.set_simulation framed) client settings).inner)
          ≡ connected))
connect-build_example = connect-build framed to_endpoint to_channel "minerva" settings
