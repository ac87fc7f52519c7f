-- ===== src/Server/Serve.antt =====
-- `serve` and `serve_on` of server.rs, with the services' constructors and their streaming
-- handlers: five services over one cache and one dispatcher, handed to tonic's server with a
-- listener. Binding, tonic's server and the spawned tasks are parameters.
use minerva_server.Std.Status.{Status}
use minerva_server.Proto.Side.{Side}
use minerva_server.Proto.Groups.{Group, SubscribeGroupUpdatesRequest, SubscribeGroupUpdatesResponse}
use minerva_server.Proto.Simulation.{
  SimulationStateUpdate, SubscribeSimulationUpdatesRequest, SubscribeSimulationUpdatesResponse,
}
use minerva_server.Cache.Writes.{StateCache}
use minerva_server.Cache.Reads
use minerva_server.Commands.{Command, CommandOutcome}
use minerva_server.Services.Requests
use minerva_server.Services.Requests.{parse_side}
use minerva_server.Services.Orders
use minerva_server.Rpc.Tonic
use minerva_server.Rpc.Server.CommandServer
use minerva_server.Rpc.Server.CommandServer.{CommandService}
use minerva_server.Rpc.Server.UnitServer
use minerva_server.Rpc.Server.UnitServer.{UnitService}
use minerva_server.Rpc.Server.GroupServer
use minerva_server.Rpc.Server.GroupServer.{GroupService}
use minerva_server.Rpc.Server.LocationServer
use minerva_server.Rpc.Server.LocationServer.{LocationService}
use minerva_server.Rpc.Server.SimulationServer
use minerva_server.Rpc.Server.SimulationServer.{SimulationService}
use minerva_server.Prelude.{ℕ, Option, List, [], ◌∷◌, Result, ok, ◌>>=◌, String}

-- The spawned forwarding tasks, as the streams that they feed. Each is given the snapshot, its
-- sequence number, the filter and the position of its receiver.
pub record Tasks (Stream : Type 0 → Type 0) : Type 0 where
  pub groups : List Group → ℕ → Option Side → ℕ → Stream SubscribeGroupUpdatesResponse
  pub simulation : Option SimulationStateUpdate → ℕ → ℕ → Stream SubscribeSimulationUpdatesResponse

-- The state that the services share: the cache when a receiver is made, the cache when it is read,
-- and the dispatcher.
module _ {Stream : Type 0 → Type 0} {D : Type 0} (tasks : Tasks Stream)
    (send : D → Command → CommandOutcome × D) (made c : StateCache) (d : D) where
  unfoldable pub subscribe_group_updates :
      SubscribeGroupUpdatesRequest → Result (Stream SubscribeGroupUpdatesResponse) Status
  subscribe_group_updates request = parse_side request.side >>= λ side.
      let (snapshot, snapshot_sequence, updates) = Reads.subscribe_group_updates made c side in
      ok (tasks.groups snapshot snapshot_sequence side updates)

  unfoldable pub subscribe_simulation_updates :
      SubscribeSimulationUpdatesRequest → Result (Stream SubscribeSimulationUpdatesResponse) Status
  subscribe_simulation_updates request =
      let (snapshot, snapshot_sequence, updates) = Reads.subscribe_simulation_updates made c in
      ok (tasks.simulation snapshot snapshot_sequence updates)

  abbrev pub command_service : CommandService
  command_service = record { send_command = λ request. (Orders.send_command send c request d).0 }

  abbrev pub group_service : GroupService Stream
  group_service = record {
    list_groups = Requests.list_groups c;
    get_group = Requests.get_group c;
    subscribe_group_updates = subscribe_group_updates;
  }

  abbrev pub simulation_service : SimulationService Stream
  simulation_service = record {
    get_simulation_info = λ request. Requests.get_simulation_info c;
    subscribe_simulation_updates = subscribe_simulation_updates;
  }

abbrev pub location_service : StateCache → LocationService
location_service c = record { list_locations = Requests.list_locations c }

abbrev pub unit_service : StateCache → UnitService
unit_service c = record { get_unit = Requests.get_unit c; list_units = Requests.list_units c }

-- A service as tonic's router takes it: its name, and what answers a path.
abbrev pub Mounted : Type 0 → Type 0 → Type 0
Mounted Http Reply = String × (String → Http → Reply)

module _ {Stream : Type 0 → Type 0} {Http Reply D : Type 0} (tonic : Tonic.Server Stream Http Reply)
    (tasks : Tasks Stream) (send : D → Command → CommandOutcome × D) (made c : StateCache)
    (d : D) where
  -- What `serve_on` adds to tonic's builder.
  abbrev pub mounted : List (Mounted Http Reply)
  mounted =
      (
        CommandServer.service_name,
        CommandServer.call tonic (CommandServer.new tonic (command_service tasks send made c d)),
      )
      ∷ (
        GroupServer.service_name,
        GroupServer.call tonic (GroupServer.new tonic (group_service tasks send made c d)),
      )
      ∷ (
        LocationServer.service_name,
        LocationServer.call tonic (LocationServer.new tonic (location_service c)),
      )
      ∷ (
        SimulationServer.service_name,
        SimulationServer.call tonic
            (SimulationServer.new tonic (simulation_service tasks send made c d)),
      )
      ∷ (UnitServer.service_name, UnitServer.call tonic (UnitServer.new tonic (unit_service c)))
      ∷ []

  -- `Server::builder()...serve_with_incoming_shutdown(..)` is `run_tonic`.
  unfoldable pub serve_on :
      {Listener E : Type 0}
      → (List (Mounted Http Reply) → Listener → Result Unit E)
      → Listener
      → Result Unit E
  serve_on run_tonic listener = run_tonic mounted listener

  -- `serve`, with what `TcpListener::bind` gave.
  unfoldable pub serve :
      {Listener E : Type 0}
      → (List (Mounted Http Reply) → Listener → Result Unit E)
      → Result Listener E
      → Result Unit E
  unfolding serve_on
  serve run_tonic bound = bound >>= λ listener. serve_on run_tonic listener
