-- ===== src/Rpc/Settings/Clients.antt =====
-- The five generated clients, connected and then given any sequence of the builder's calls.
use minerva_server.Rpc.Tonic
use minerva_server.Rpc.Settings.{Setting, build}
use minerva_server.Rpc.Client.CommandClient
use minerva_server.Rpc.Client.CommandClient.{CommandServiceClient}
use minerva_server.Rpc.Client.UnitClient
use minerva_server.Rpc.Client.UnitClient.{UnitServiceClient}
use minerva_server.Rpc.Client.GroupClient
use minerva_server.Rpc.Client.GroupClient.{GroupServiceClient}
use minerva_server.Rpc.Client.LocationClient
use minerva_server.Rpc.Client.LocationClient.{LocationServiceClient}
use minerva_server.Rpc.Client.SimulationClient
use minerva_server.Rpc.Client.SimulationClient.{SimulationServiceClient}
use minerva_server.Rpc.Settings.Setters.{
  set_grpc, set_command, inner-build_command, set_unit, inner-build_unit, set_group,
  inner-build_group, set_location, inner-build_location, set_simulation, inner-build_simulation,
}
use minerva_server.Prelude.{◌≡◌, refl, ap, List, Result, ok, err, ◌>>=◌}

-- The same after a connection.
through :
    {T S G E : Type 0} (made : T → S) (view : S → G) (g : T → G)
    → ((conn : T) → view (made conn) ≡ g conn)
    → (r : Result T E)
    → ((r >>= λ conn. ok (made conn)) >>= λ s. ok (view s)) ≡ (r >>= λ conn. ok (g conn))
through made view g same (ok conn) = ap ok (same conn)
through made view g same (err e) = refl

connected :
    {P T S G E : Type 0} (made : T → S) (view : S → G) (g : T → G)
    → ((conn : T) → view (made conn) ≡ g conn)
    → (to_channel : P → Result T E) (r : Result P E)
    → ((r >>= λ endpoint. to_channel endpoint >>= λ conn. ok (made conn)) >>= λ s. ok (view s))
      ≡ (r >>= λ endpoint. to_channel endpoint >>= λ conn. ok (g conn))
connected made view g same to_channel (ok endpoint) = through made view g same (to_channel endpoint)
connected made view g same to_channel (err e) = refl

module _ {Stream : Type 0 → Type 0} (tonic : Tonic.Client Stream) where
  -- Each of the five clients, connected and then given any settings in any order, calls through
  -- tonic's own client of the connection with the same settings in the same order; a destination
  -- that is no endpoint and a connection that fails are its errors.
  pub connect-build :
      {D Endpoint T E : Type 0} (to_endpoint : D → Result Endpoint E)
      (to_channel : Endpoint → Result T E) (dst : D) (xs : List (Setting tonic.Encoding))
      → (let connected = to_endpoint dst >>= λ endpoint.
            to_channel endpoint >>= λ conn. ok (build (set_grpc tonic) (tonic.new conn) xs) in
          ((CommandClient.connect tonic to_endpoint to_channel dst >>= λ client.
          ok (build (set_command tonic) client xs).inner)
            ≡ connected)
          × ((UnitClient.connect tonic to_endpoint to_channel dst >>= λ client.
                ok (build (set_unit tonic) client xs).inner)
              ≡ connected)
          × ((GroupClient.connect tonic to_endpoint to_channel dst >>= λ client.
                ok (build (set_group tonic) client xs).inner)
              ≡ connected)
          × ((LocationClient.connect tonic to_endpoint to_channel dst >>= λ client.
                ok (build (set_location tonic) client xs).inner)
              ≡ connected)
          × ((SimulationClient.connect tonic to_endpoint to_channel dst >>= λ client.
                ok (build (set_simulation tonic) client xs).inner)
              ≡ connected))
  unfolding CommandClient.connect UnitClient.connect GroupClient.connect LocationClient.connect
      SimulationClient.connect
  connect-build to_endpoint to_channel dst xs = (
    connected (CommandClient.new tonic) (λ client. (build (set_command tonic) client xs).inner)
        (λ conn. build (set_grpc tonic) (tonic.new conn) xs)
        (λ conn. inner-build_command tonic conn xs) to_channel (to_endpoint dst),
    connected (UnitClient.new tonic) (λ client. (build (set_unit tonic) client xs).inner)
        (λ conn. build (set_grpc tonic) (tonic.new conn) xs)
        (λ conn. inner-build_unit tonic conn xs) to_channel (to_endpoint dst),
    connected (GroupClient.new tonic) (λ client. (build (set_group tonic) client xs).inner)
        (λ conn. build (set_grpc tonic) (tonic.new conn) xs)
        (λ conn. inner-build_group tonic conn xs) to_channel (to_endpoint dst),
    connected (LocationClient.new tonic) (λ client. (build (set_location tonic) client xs).inner)
        (λ conn. build (set_grpc tonic) (tonic.new conn) xs)
        (λ conn. inner-build_location tonic conn xs) to_channel (to_endpoint dst),
    connected (SimulationClient.new tonic)
        (λ client. (build (set_simulation tonic) client xs).inner)
        (λ conn. build (set_grpc tonic) (tonic.new conn) xs)
        (λ conn. inner-build_simulation tonic conn xs) to_channel (to_endpoint dst),
  )
